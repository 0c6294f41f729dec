-- ===== src/AirwireWs/Replies.antt =====
-- hpr_airwire_ws.c: `client_read` on the frames of a client.
use hpr_readsb.Base.{ℕ, zero, suc, ◌≤◌, ◌<◌, ◌≡◌, refl, sym, ap, ◌∙◌, arith}
use hpr_readsb.Base.{inl, inr, Option, none, some, Option-cases, List, [], ◌∷◌, ◌++◌, All, length}
use hpr_readsb.Base.Doubles.{Doubles}
use hpr_readsb.AirwireWs.Frame.{incomplete, read_frame}
use hpr_readsb.AirwireWs.Client.{Entry}
use hpr_readsb.AirwireWs.Reader.{
  System, Connection, answer, consume, Outcome, done, failed, read_frames,
}
use hpr_readsb.AirwireWs.Wire.{Mask, client_frame, read_frame-client_frame, drop-append}
use hpr_readsb.AirwireWs.Stream.{with_rx, onto, answer-with_rx}
use hpr_readsb.AirwireWs.Stream.{read_frames-incomplete, read_frames-closed, read_frames-answered}

-- A message of a client.
pub record Incoming : Type 0 where
  pub opcode : ℕ
  pub mask : Mask
  pub payload : List ℕ

-- An opcode of four bits, and a payload that the feed accepts.
abbrev pub IsIncoming : Incoming → Type 0
IsIncoming m = (m.opcode < 16) × (length m.payload ≤ 256)

-- The bytes of messages in a row.
unfoldable pub stream : List Incoming → List ℕ
stream [] = []
stream (m ∷ messages) = client_frame m.opcode m.mask m.payload ++ stream messages

read_frame-nil : read_frame [] ≡ incomplete
unfolding read_frame
read_frame-nil = refl

module _ (d : Doubles) (system : System d) (cache : List (Entry d)) where
  -- The answers to messages in a row, up to the one that closes the client.
  unfoldable pub answers : List Incoming → Connection d → Option (Connection d)
  answers [] k = some k
  answers (m ∷ messages) k = elim (answer d system cache k m.opcode m.payload) [
    | none ↦ none
    | some answered ↦ answers messages answered
  ]

  unfoldable pub outcome_of : Option (Connection d) → Outcome d
  outcome_of none = failed
  outcome_of (some k) = done (with_rx d k [])

  answers-closed :
      (m : Incoming) (messages : List Incoming) (k : Connection d)
      → answer d system cache k m.opcode m.payload ≡ none
      → answers (m ∷ messages) k ≡ none
  unfolding answers
  answers-closed m messages k e = rw (e, answers)

  answers-answered :
      (m : Incoming) (messages : List Incoming) (k k' : Connection d)
      → answer d system cache k m.opcode m.payload ≡ some k'
      → answers (m ∷ messages) k ≡ answers messages k'
  unfolding answers
  answers-answered m messages k k' e = rw (e, answers)

  -- If the received bytes are masked frames in a row, as RFC 6455 has them, each with an opcode
  -- of four bits and at most 256 bytes of payload, the loop of client_read answers their messages
  -- one after the other in this order, closes the client at the first one that is answered by -1,
  -- and otherwise leaves no byte, given a pass for each frame and one more.
  pub read_frames-answers :
      (messages : List Incoming) (fuel : ℕ) (k : Connection d)
      → All IsIncoming messages
      → length messages < fuel
      → read_frames d system cache fuel (with_rx d k (stream messages))
        ≡ outcome_of (answers messages k)
  unfolding outcome_of stream consume answers
  read_frames-answers messages zero k p h = absurd (omega arith)
  read_frames-answers [] (suc fuel) k p h =
      read_frames-incomplete d system cache fuel (with_rx d k []) read_frame-nil
  read_frames-answers (m ∷ messages) (suc fuel) k p h =
      let rest = stream messages in
      let bytes = client_frame m.opcode m.mask m.payload in
      let full = with_rx d k (bytes ++ rest) in
      let found = read_frame-client_frame m.opcode m.mask m.payload rest p.0.0 p.0.1 in
      let same = answer-with_rx d system cache k (bytes ++ rest) m.opcode m.payload in
      elim (Option-cases (answer d system cache k m.opcode m.payload)) [
        | inl a ↦
            read_frames-closed d system cache fuel full m.opcode (length bytes) m.payload found
              (same ∙ ap (onto d (bytes ++ rest)) a)
            ∙ ap outcome_of (sym (answers-closed m messages k a))
        | inr (k', a) ↦
            read_frames-answered d system cache fuel full m.opcode (length bytes) m.payload found
              (with_rx d k' (bytes ++ rest)) (same ∙ ap (onto d (bytes ++ rest)) a)
            ∙ ap (λ rx. read_frames d system cache fuel (with_rx d k' rx)) (drop-append bytes rest)
            ∙ read_frames-answers messages fuel k' p.1 (omega arith)
            ∙ ap outcome_of (sym (answers-answered m messages k k' a))
      ]

-- ===== src/AirwireWs/Ending.antt =====
-- hpr_airwire_ws.c: `client_read` ends, and what it leaves in the buffer.
use hpr_readsb.Base.{ℕ, zero, suc, ◌-◌, ◌≤◌, ◌<◌, ◌≡◌, sym, ap, ◌∙◌, subst, arith}
use hpr_readsb.Base.{inl, inr, Bool-cases, Option-cases}
use hpr_readsb.Base.{none, some, some-injective, List, [], ◌∷◌, ◌++◌, ◌==◌}
use hpr_readsb.Base.{length, length-append, take, drop}
use hpr_readsb.Base.Doubles.{Doubles}
use hpr_readsb.AirwireWs.Frame.{incomplete, read_frame, rx_max}
use hpr_readsb.AirwireWs.Client.{Entry}
use hpr_readsb.AirwireWs.Reader.{
  End, would_block, closed, receive, System, Connection, answer, consume, Outcome, done, failed,
  out_of_fuel, read_frames, client_read,
}
use hpr_readsb.AirwireWs.Stream.{Read-cases, Within, read_frame-Within, drop_shorter}
use hpr_readsb.AirwireWs.Stream.{with_rx, onto, answer-with_rx}
use hpr_readsb.AirwireWs.Stream.{
  read_frames-incomplete, read_frames-refused, read_frames-closed, read_frames-answered,
  client_read-lost, client_read-received,
}

length-take_le : (n : ℕ) (xs : List ℕ) → length (take n xs) ≤ n
length-take_le zero xs = omega arith
length-take_le (suc n) [] = omega arith
length-take_le (suc n) (x ∷ xs) = omega (arith, length-take_le n xs)

would_block_only :
    (end : End) (rx rx' : List ℕ)
    → length rx < rx_max
    → elim end [ would_block ↦ some rx | closed ↦ none ] ≡ some rx'
    → length rx' < rx_max
would_block_only would_block rx rx' h e = subst (λ xs. length xs < rx_max) (some-injective _ _ e) h
would_block_only closed rx rx' h e = absurd (cc)

-- What `recv` leaves has room.
receive-room :
    (chunks : List (List ℕ)) (end : End) (rx rx' : List ℕ)
    → length rx ≤ rx_max
    → receive chunks end rx ≡ some rx'
    → length rx' < rx_max
unfolding receive
receive-room [] end rx rx' h e = elim (Bool-cases (length rx == rx_max)) [
  | inl full ↦ absurd (cc (rw full at e))
  | inr room ↦ would_block_only end rx rx' (ground arith) (rw room at e)
]
receive-room ([] ∷ chunks) end rx rx' h e = absurd cc
receive-room ((byte ∷ bytes) ∷ chunks) end rx rx' h e = elim (Bool-cases (length rx == rx_max)) [
  | inl full ↦ absurd (cc (rw full at e))
  | inr room ↦
      receive-room chunks end (rx ++ take (rx_max - length rx) (byte ∷ bytes)) rx'
        (omega (
          arith,
          h,
          length-append rx (take (rx_max - length rx) (byte ∷ bytes)),
          length-take_le (rx_max - length rx) (byte ∷ bytes),
        ))
        (rw room at e)
]

module _ (d : Doubles) (system : System d) (cache : List (Entry d)) where
  answer-rx :
      (k k' : Connection d) (op : ℕ) (msg : List ℕ)
      → answer d system cache k op msg ≡ some k'
      → k'.client.rx ≡ k.client.rx
  answer-rx k k' op msg e =
      let same = answer-with_rx d system cache k k.client.rx op msg in
      let found : some k' ≡ some (with_rx d k' k.client.rx) =
        sym e ∙ same ∙ ap (onto d k.client.rx) e in
      ap (λ c. c.client.rx) (some-injective _ _ found)

  -- An end of `client_read`: the client is closed, or less than a frame is left.
  unfoldable pub Ended : Outcome d → Type 0
  Ended (done k) = (read_frame k.client.rx ≡ incomplete) × (length k.client.rx < rx_max)
  Ended failed = Unit {0}
  Ended out_of_fuel = ⊥

  read_frames-Ended :
      (fuel : ℕ) (k : Connection d)
      → length k.client.rx < fuel
      → length k.client.rx < rx_max
      → Ended (read_frames d system cache fuel k)
  unfolding Ended consume Within
  read_frames-Ended zero k h room = absurd (omega arith)
  read_frames-Ended (suc fuel) k h room = elim (Read-cases (read_frame k.client.rx)) [
    | inl e ↦ subst Ended (sym (read_frames-incomplete d system cache fuel k e)) (e, room)
    | inr (inl e) ↦ subst Ended (sym (read_frames-refused d system cache fuel k e)) tt
    | inr (inr (op, msg, n, e)) ↦ elim (Option-cases (answer d system cache k op msg)) [
      | inl a ↦ subst Ended (sym (read_frames-closed d system cache fuel k op n msg e a)) tt
      | inr (k', a) ↦
          let (above, within) =
            subst (λ r. Within (length k.client.rx) r) e (read_frame-Within k.client.rx) in
          let less : length (drop n k'.client.rx) < length k.client.rx = omega (
            arith,
            drop_shorter n k.client.rx above within,
            ap (λ rx. length (drop n rx)) (answer-rx k k' op msg a),
          ) in
          subst Ended (sym (read_frames-answered d system cache fuel k op n msg e k' a)) (
            read_frames-Ended fuel (consume d system k' n) (omega (arith, less, h))
              (omega (arith, less, room)))
    ]
  ]

  -- client_read ends with as many passes of its loop as bytes are received, whatever a client
  -- sends and however recv cuts it: for a buffer within its 512 bytes it closes the client or
  -- leaves less than a frame, in a buffer that is not full.
  pub client_read-Ended :
      (chunks : List (List ℕ)) (end : End) (k : Connection d)
      → length k.client.rx ≤ rx_max
      → Ended (client_read d system cache chunks end k)
  unfolding Ended client_read
  client_read-Ended chunks end k h = elim (Option-cases (receive chunks end k.client.rx)) [
    | inl e ↦ subst Ended (sym (client_read-lost d system cache chunks end k e)) tt
    | inr (rx, e) ↦ subst Ended (sym (client_read-received d system cache chunks end k rx e)) (
        read_frames-Ended (suc (length rx)) (with_rx d k rx) (omega arith)
          (receive-room chunks end k.client.rx rx h e))
  ]

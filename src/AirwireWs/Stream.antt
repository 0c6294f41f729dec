-- ===== src/AirwireWs/Stream.antt =====
-- hpr_airwire_ws.c: `client_read` ends, and it answers the frames of a client one by one.
use hpr_readsb.Base.{ℕ, zero, suc, ◌+◌, ◌≤◌, ◌<◌, ◌≡◌, refl, arith}
use hpr_readsb.Base.{◌⊎◌, inl, inr, Bool, not, ◌&&◌, Bool-cases}
use hpr_readsb.Base.{Option, none, some, List, [], ◌∷◌, ◌==◌}
use hpr_readsb.Base.{bit_and, ◌||◌, ltb, get_or, length, drop}
use hpr_readsb.Base.Doubles.{Doubles}
use hpr_readsb.AirwireWs.Frame.{Read, incomplete, refused, frame, read_frame, read_payload}
use hpr_readsb.AirwireWs.Client.{Bbox, Entry, send_snapshot}
use hpr_readsb.AirwireWs.Reader.{
  End, receive, System, Connection, ws_send, parse_bbox, is_bad_box, answer, consume, done, failed,
  read_frames, client_read,
}

abbrev of_opcode : Read → ℕ
of_opcode (frame op msg n) = op
of_opcode r = 0

abbrev of_msg : Read → List ℕ
of_msg (frame op msg n) = msg
of_msg r = []

abbrev of_consumed : Read → ℕ
of_consumed (frame op msg n) = n
of_consumed r = 0

pub Read-cases :
    (r : Read)
    → (r ≡ incomplete)
      ⊎ ((r ≡ refused) ⊎ ((op : ℕ) × (msg : List ℕ) × (n : ℕ) × (r ≡ frame op msg n)))
Read-cases incomplete = inl refl
Read-cases refused = inr (inl refl)
Read-cases (frame op msg n) = inr (inr (op, msg, n, refl))

-- A frame is not empty and does not end after the received bytes.
unfoldable pub Within : ℕ → Read → Type 0
Within k incomplete = Unit {0}
Within k refused = Unit {0}
Within k (frame op msg n) = (0 < n) × (n ≤ k)

read_payload-Within :
    (p : List ℕ) (masked : Bool) (op len off : ℕ)
    → Within (length p) (read_payload p masked op len off)
unfolding read_payload Within
read_payload-Within p masked op len off = elim (Bool-cases (not masked || ltb 256 len)) [
  | inl a ↦ rw a tt
  | inr a ↦ elim (Bool-cases (ltb (length p) (off + 4 + len))) [
    | inl b ↦ rw (a, b) tt
    | inr b ↦ rw (a, b) (omega arith, ground arith)
  ]
]

pub read_frame-Within : (p : List ℕ) → Within (length p) (read_frame p)
unfolding read_frame Within
read_frame-Within p =
    let len = bit_and (get_or p 1 0) 0x7f in
    elim (Bool-cases (ltb (length p) 2)) [
      | inl a ↦ rw a tt
      | inr a ↦ elim (Bool-cases (bit_and (get_or p 0 0) 0x80 == 0)) [
        | inl b ↦ rw (a, b) tt
        | inr b ↦ elim (Bool-cases (len == 126)) [
          | inl c ↦ elim (Bool-cases (ltb (length p) 4)) [
            | inl e ↦ rw (a, b, c, e) tt
            | inr e ↦ rw (a, b, c, e) (read_payload-Within p _ _ _ 4)
          ]
          | inr c ↦ elim (Bool-cases (len == 127)) [
            | inl e ↦ rw (a, b, c, e) tt
            | inr e ↦ rw (a, b, c, e) (read_payload-Within p _ _ _ 2)
          ]
        ]
      ]
    ]

pub drop_shorter : (n : ℕ) (xs : List ℕ) → 0 < n → n ≤ length xs → length (drop n xs) < length xs
drop_shorter zero xs h k = absurd (omega arith)
drop_shorter (suc n) [] h k = absurd (omega arith)
drop_shorter (suc zero) (x ∷ xs) h k = omega arith
drop_shorter (suc (suc n)) (x ∷ xs) h k =
    omega (arith, drop_shorter (suc n) xs (omega arith) (omega arith))

module _ (d : Doubles) where
  -- The connection with other bytes received.
  abbrev pub with_rx : Connection d → List ℕ → Connection d
  with_rx k rx = record k { client = record (k.client) { rx = rx } }

  abbrev pub onto : List ℕ → Option (Connection d) → Option (Connection d)
  onto rx none = none
  onto rx (some k) = some (with_rx k rx)

  module _ (system : System d) where
    -- An answer neither reads nor changes the received bytes.
    ws_send-with_rx :
        (k : Connection d) (rx bytes : List ℕ)
        → ws_send d system (with_rx k rx) bytes ≡ onto rx (ws_send d system k bytes)
    unfolding ws_send
    ws_send-with_rx k rx bytes = elim (Bool-cases (system.sends k.sent bytes)) [
      | inl e ↦ rw e
      | inr e ↦ rw e
    ]

    parse_bbox-with_rx :
        (cache : List (Entry d)) (k : Connection d) (rx text : List ℕ)
        → parse_bbox d system cache (with_rx k rx) text ≡ onto rx (parse_bbox d system cache k text)
    unfolding parse_bbox send_snapshot
    parse_bbox-with_rx cache k rx text =
        let f = system.scan_box text in
        elim (Bool-cases (not (f.count == 4) && not (f.count == 5))) [
          | inl a ↦ rw a
          | inr a ↦ elim (Bool-cases (is_bad_box d f)) [
            | inl b ↦ rw (a, b)
            | inr b ↦
                let box : Bbox d = record { south = f.s; north = f.n; west = f.w; east = f.e } in
                let (c, bytes) = send_snapshot d cache (record (k.client) { bbox = some box }) in
                rw (a, b) (ws_send-with_rx (record k { client = c }) rx bytes)
          ]
        ]

    pub answer-with_rx :
        (cache : List (Entry d)) (k : Connection d) (rx : List ℕ) (op : ℕ) (msg : List ℕ)
        → answer d system cache (with_rx k rx) op msg ≡ onto rx (answer d system cache k op msg)
    unfolding answer
    answer-with_rx cache k rx op msg = elim (Bool-cases (op == 8)) [
      | inl a ↦ rw a
      | inr a ↦ elim (Bool-cases (op == 9)) [
        | inl b ↦ rw (a, b) (ws_send-with_rx k rx _)
        | inr b ↦ elim (Bool-cases (op == 1)) [
          | inl c ↦ rw (a, b, c) (parse_bbox-with_rx cache k rx msg)
          | inr c ↦ rw (a, b, c)
        ]
      ]
    ]

    -- The rounds of the loop.
    module _ (cache : List (Entry d)) (fuel : ℕ) (k : Connection d) where
      pub read_frames-incomplete :
          read_frame k.client.rx ≡ incomplete → read_frames d system cache (suc fuel) k ≡ done k
      unfolding read_frames
      read_frames-incomplete e = rw (e, read_frames)

      pub read_frames-refused :
          read_frame k.client.rx ≡ refused → read_frames d system cache (suc fuel) k ≡ failed
      unfolding read_frames
      read_frames-refused e = rw (e, read_frames)

      module _ (op n : ℕ) (msg : List ℕ) (e : read_frame k.client.rx ≡ frame op msg n) where
        pub read_frames-closed :
            answer d system cache k op msg ≡ none → read_frames d system cache (suc fuel) k ≡ failed
        unfolding read_frames
        read_frames-closed a = rw (e, a, read_frames)

        pub read_frames-answered :
            (k' : Connection d)
            → answer d system cache k op msg ≡ some k'
            → read_frames d system cache (suc fuel) k
              ≡ read_frames d system cache fuel (consume d system k' n)
        unfolding read_frames
        read_frames-answered k' a = rw (e, a, read_frames)

    module _ (cache : List (Entry d)) (chunks : List (List ℕ)) (end : End) (k : Connection d) where
      pub client_read-lost :
          receive chunks end k.client.rx ≡ none → client_read d system cache chunks end k ≡ failed
      unfolding client_read
      client_read-lost e = rw (e, client_read)

      pub client_read-received :
          (rx : List ℕ)
          → receive chunks end k.client.rx ≡ some rx
          → client_read d system cache chunks end k
            ≡ read_frames d system cache (suc (length rx)) (with_rx k rx)
      unfolding client_read
      client_read-received rx e = rw (e, client_read)

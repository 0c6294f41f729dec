-- ===== src/AirwireWs/Sending.antt =====
-- hpr_airwire_ws.c: the bounds of `send_changes`, and an identity that it does not send.
use hpr_readsb.Base.{ℕ, ◌+◌, ◌≤◌, ◌<◌, ◌≡◌, refl, arith}
use hpr_readsb.Base.{inl, inr, Bool, true, false, not, ◌&&◌, ◌||◌, Bool-cases}
use hpr_readsb.Base.{Option, none, some, List, [], ◌∷◌}
use hpr_readsb.Base.{length, All, length-append, ◌==◌, ltb, leb, if◌then◌else◌}
use hpr_readsb.Base.Doubles.{Doubles}
use hpr_readsb.AirwireWs.Frame.{ws_frame}
use hpr_readsb.AirwireWs.Client.{
  Bbox, Client, bbox_match, knows, mark_known, cache_max, payload_max, pos_size, ident_size,
}
use hpr_readsb.AirwireWs.Cache.{Change}
use hpr_readsb.AirwireWs.Changes.{
  Batch, is_full, append, append_position, send_change, send_loop, send_changes, has_box,
}
use hpr_readsb.AirwireWs.Bounds.{IsSizedChange}

-- The payload and the list of known addresses stay within their arrays.
pub record IsBatch (batch : Batch) : Type 0 where
  pub fits : length batch.out ≤ payload_max
  pub few : length batch.known ≤ cache_max

append-IsBatch :
    (batch : Batch) (size : ℕ) (bytes known : List ℕ)
    → IsBatch batch
    → length bytes ≡ size
    → length known ≤ cache_max
    → IsBatch (append batch size bytes known)
unfolding append is_full
append-IsBatch batch size bytes known b h few =
    elim (Bool-cases (ltb payload_max (length batch.out + size))) [
      | inl full ↦ rw (full, append) (record { fits = b.fits; few = b.few })
      | inr room ↦
          rw (room, append)
            (record { fits = ground (arith, room, h, length-append batch.out bytes); few = few })
    ]

if-IsBatch : (b : Bool) (x y : Batch) → IsBatch x → IsBatch y → IsBatch (if b then x else y)
if-IsBatch true x y h g = h
if-IsBatch false x y h g = g

module _ (d : Doubles) where
  mark_known_le :
      (known : List ℕ) (icao : ℕ)
      → length known ≤ cache_max
      → length (mark_known d known icao) ≤ cache_max
  unfolding mark_known
  mark_known_le known icao h = elim (Bool-cases (knows known icao)) [
    | inl old ↦ rw old h
    | inr new ↦ elim (Bool-cases (leb cache_max (length known))) [
      | inl full ↦ rw (new, full) h
      | inr room ↦ rw (new, room) (ground (arith, room, length-append known (icao ∷ [])))
    ]
  ]

  send_change-IsBatch :
      (box : Option (Bbox d)) (batch : Batch) (ch : Change d)
      → IsBatch batch
      → IsSizedChange d ch
      → IsBatch (send_change d box batch ch)
  unfolding send_change append_position
  send_change-IsBatch box batch ch b h =
      let first = append batch pos_size ch.position batch.known in
      let first_fits = append-IsBatch batch pos_size ch.position batch.known b h.0 b.few in
      let second =
        append-IsBatch first ident_size ch.ident (mark_known d first.known ch.icao) first_fits h.1
          (mark_known_le first.known ch.icao first_fits.few) in
      let known = append-IsBatch batch ident_size ch.ident batch.known b h.1 b.few in
      let marked =
        append-IsBatch batch ident_size ch.ident (mark_known d batch.known ch.icao) b h.1
          (mark_known_le batch.known ch.icao b.few) in
      if-IsBatch (not (bbox_match d box ch.have_pos ch.lat ch.lon)) _ _ b (
        if-IsBatch ch.pos_changed _ _
          (if-IsBatch (first.left || knows first.known ch.icao) _ _ first_fits second)
          (if-IsBatch (ch.ident_changed && knows batch.known ch.icao) _ _ known
            (if-IsBatch (ch.ident_changed && not (has_box d box)) _ _ marked b)))

  send_loop-IsBatch :
      (box : Option (Bbox d)) (batch : Batch) (changes : List (Change d))
      → IsBatch batch
      → All (IsSizedChange d) changes
      → IsBatch (send_loop d box batch changes)
  unfolding send_loop
  send_loop-IsBatch box batch [] b h = b
  send_loop-IsBatch box batch (ch ∷ changes) b h = elim (Bool-cases batch.left) [
    | inl e ↦ rw (e, send_loop) b
    | inr e ↦
        rw (e, send_loop)
          (send_loop-IsBatch box (send_change d box batch ch) changes
            (send_change-IsBatch box batch ch b h.0) h.1)
  ]

  -- A frame with a payload that is neither empty nor larger than `HPR_WS_PAYLOAD_MAX`, or none.
  pub IsFrame : Option (List ℕ) → Type 0
  IsFrame none = Unit {0}
  IsFrame (some bytes) =
      (payload : List ℕ) × (bytes ≡ ws_frame 2 payload)
      × (0 < length payload)
      × (length payload ≤ payload_max)

  -- For a client that knows at most 2048 aircraft and changes with records of 20 and 15 bytes,
  -- send_changes sends nothing or one binary frame whose payload is not empty and fits into its
  -- buffer of 71680 bytes, and the client knows at most 2048 aircraft afterwards.
  pub send_changes-IsFrame :
      (c : Client d) (changes : List (Change d))
      → length c.known ≤ cache_max
      → All (IsSizedChange d) changes
      → IsFrame (send_changes d c changes).1
        × (length (send_changes d c changes).0.known ≤ cache_max)
  unfolding send_changes IsFrame
  send_changes-IsFrame c changes few h =
      let start : Batch = record { out = []; known = c.known; left = false } in
      let batch = send_loop d c.bbox start changes in
      let b = send_loop-IsBatch c.bbox start changes (record { fits = omega arith; few = few }) h in
      (
        elim (Bool-cases (length batch.out == 0)) [
          | inl e ↦ rw (e, IsFrame) tt
          | inr e ↦ rw (e, IsFrame) (batch.out, refl, ground arith, b.fits)
        ],
        b.few,
      )

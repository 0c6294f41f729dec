-- ===== src/AirwireWs/Changes.antt =====
-- hpr_airwire_ws.c: `send_changes` up to `ws_send`.
use hpr_readsb.Base.{ℕ, ◌+◌, Bool, true, false, not, ◌&&◌, ◌||◌, Option, none, some}
use hpr_readsb.Base.{List, [], ◌∷◌, ◌++◌, ◌==◌, ltb, if◌then◌else◌, length}
use hpr_readsb.Base.Doubles.{Doubles}
use hpr_readsb.AirwireWs.Client.{
  Bbox, Client, bbox_match, knows, mark_known, payload_max, pos_size, ident_size,
}
use hpr_readsb.AirwireWs.Cache.{Change}
use hpr_readsb.AirwireWs.Frame.{ws_frame}

-- The payload so far, the addresses that the client knows, and whether the loop is left.
pub record Batch : Type 0 where
  pub out : List ℕ
  pub known : List ℕ
  pub left : Bool

-- `used + size > HPR_WS_PAYLOAD_MAX`
unfoldable pub is_full : List ℕ → ℕ → Bool
is_full out size = ltb payload_max (length out + size)

-- A record that is put behind the others, or `break`; `known` is what the client knows then.
unfoldable pub append : Batch → ℕ → List ℕ → List ℕ → Batch
append batch size bytes known =
    if is_full batch.out size
    then record batch { left = true }
    else record { out = batch.out ++ bytes; known = known; left = false }

module _ (d : Doubles) where
  -- A change of the position, with the identity for a client that does not know the aircraft.
  unfoldable pub append_position : Batch → Change d → Batch
  append_position batch ch =
      let first = append batch pos_size ch.position batch.known in
      if first.left || knows first.known ch.icao
      then first
      else append first ident_size ch.ident (mark_known d first.known ch.icao)

  abbrev pub has_box : Option (Bbox d) → Bool
  has_box none = false
  has_box (some box) = true

  -- One pass of the loop.
  unfoldable pub send_change : Option (Bbox d) → Batch → Change d → Batch
  send_change box batch ch =
      if not (bbox_match d box ch.have_pos ch.lat ch.lon)
      then batch
      else if ch.pos_changed
      then append_position batch ch
      else if ch.ident_changed && knows batch.known ch.icao
      then append batch ident_size ch.ident batch.known
      else if ch.ident_changed && not (has_box box)
      then append batch ident_size ch.ident (mark_known d batch.known ch.icao)
      else batch

  unfoldable pub send_loop : Option (Bbox d) → Batch → List (Change d) → Batch
  send_loop box batch [] = batch
  send_loop box batch (ch ∷ changes) = elim batch.left [
    | true ↦ batch
    | false ↦ send_loop box (send_change box batch ch) changes
  ]

  -- `send_changes` up to `ws_send`: the client, and the frame if there is something to send.
  unfoldable pub send_changes : Client d → List (Change d) → Client d × Option (List ℕ)
  send_changes c changes =
      let start : Batch = record { out = []; known = c.known; left = false } in
      let batch = send_loop c.bbox start changes in
      (
        record c { known = batch.known },
        (if length batch.out == 0 then none else some (ws_frame 2 batch.out)),
      )

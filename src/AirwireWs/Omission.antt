-- ===== src/AirwireWs/Omission.antt =====
-- hpr_airwire_ws.c: an identity that changes together with the position.
use hpr_readsb.Base.{ℕ, ◌≡◌, refl, sym, subst, arith}
use hpr_readsb.Base.{true, false, ==_iff}
use hpr_readsb.Base.{Option, none, some, List, [], ◌∷◌, length, ◌==◌}
use hpr_readsb.Base.Doubles.{Doubles}
use hpr_readsb.Base.Int.{ℤ}
use hpr_readsb.AirwireWs.Frame.{ws_frame}
use hpr_readsb.AirwireWs.Client.{Client, Entry, bbox_match, knows}
use hpr_readsb.AirwireWs.Aircraft.{Aircraft, Settings}
use hpr_readsb.AirwireWs.Cache.{
  Change, seen_entry, change_of, id_changed, pos_changed, identity_frame, position_frame,
  same_bytes, is_zero, bytes_or,
}
use hpr_readsb.AirwireWs.Changes.{
  is_full, append, append_position, send_change, send_loop, send_changes,
}
use hpr_readsb.AirwireWs.Bounds.{IsSizedChange, change_of-IsSized}

same_bytes_refl : (xs : List ℕ) → same_bytes xs xs ≡ true
unfolding same_bytes
same_bytes_refl [] = refl
same_bytes_refl (x ∷ xs) =
    let self : (x == x) ≡ true = (==_iff x x).1 refl in rw self (same_bytes_refl xs)

module _ (d : Doubles) where
  -- A client that knows the aircraft of a changed position is sent the position only.
  send_changes-position :
      (c : Client d) (ch : Change d)
      → IsSizedChange d ch
      → ch.pos_changed ≡ true
      → bbox_match d c.bbox ch.have_pos ch.lat ch.lon ≡ true
      → knows c.known ch.icao ≡ true
      → (send_changes d c (ch ∷ [])).1 ≡ some (ws_frame 2 ch.position)
  unfolding send_changes send_loop send_change append_position append is_full
  send_changes-position c ch h moved shown known =
      let some_bytes : (length ch.position == 0) ≡ false = ground (arith, h.0) in
      rw (moved, shown, known, some_bytes)

  seen_again :
      (settings : Settings) (later : ℤ) (x y : Entry d) (o : Option (List ℕ))
      → y.ident ≡ bytes_or x.ident o
      → is_zero y.last_seen_ms ≡ false
      → id_changed d settings later y o ≡ false
  unfolding id_changed
  seen_again settings later x y none same seen = refl
  seen_again settings later x y (some frame) same seen =
      let equal : same_bytes y.ident frame ≡ true =
        subst (λ xs. same_bytes xs frame ≡ true) (sym same) (same_bytes_refl frame) in
      rw (seen, equal)

  module _ (settings : Settings) (x : Entry d) (a : Aircraft d) where
    -- An identity that was seen is not a change when it is seen again.
    id_changed-seen_entry :
        (now later : ℤ)
        → is_zero now ≡ false
        → id_changed d settings later
            (seen_entry d settings now x a)
            (identity_frame d settings later a)
          ≡ false
    unfolding seen_entry identity_frame
    id_changed-seen_entry now later h =
        seen_again settings later x (seen_entry d settings now x a)
          (identity_frame d settings later a) refl h

    -- If a scan at a time other than 0 finds that both the position and the identity of an
    -- aircraft changed, a client without a bounding box that knows the aircraft is sent only the
    -- position for this change, though the change has its identity marked, and a later scan of
    -- the same aircraft does not mark the identity again.
    pub send_changes-identity_lost :
        (now later : ℤ) (c : Client d)
        → is_zero now ≡ false
        → pos_changed d settings now x (position_frame d settings now a) ≡ true
        → id_changed d settings now x (identity_frame d settings now a) ≡ true
        → c.bbox ≡ none
        → knows c.known x.icao ≡ true
        → ((change_of d settings now x a).ident_changed ≡ true)
          × ((send_changes d c (change_of d settings now x a ∷ [])).1
              ≡ some (ws_frame 2 (change_of d settings now x a).position))
          × (id_changed d settings later
                (seen_entry d settings now x a)
                (identity_frame d settings later a)
              ≡ false)
    unfolding change_of bbox_match
    send_changes-identity_lost now later c h moved renamed unbounded known =
        let ch = change_of d settings now x a in
        let shown : bbox_match d c.bbox ch.have_pos ch.lat ch.lon ≡ true =
          subst (λ box. bbox_match d box ch.have_pos ch.lat ch.lon ≡ true) (sym unbounded) refl in
        (
          renamed,
          send_changes-position c ch (change_of-IsSized d settings now x a) moved shown known,
          id_changed-seen_entry now later h,
        )

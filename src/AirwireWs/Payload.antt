-- ===== src/AirwireWs/Payload.antt =====
-- hpr_airwire_ws.c: the snapshot of the cache that a client is sent.
use hpr_readsb.Base.{ℕ, suc, ◌+◌, ◌*◌, ◌≤◌, ◌<◌, ◌≡◌, refl, sym, ap, ◌∙◌, subst, arith}
use hpr_readsb.Base.{inl, inr, Bool, true, false, ◌&&◌, ◌||◌, Bool-cases, ==_iff}
use hpr_readsb.Base.{Option, List, [], ◌∷◌, ◌++◌}
use hpr_readsb.Base.{length, All, length-append, append_assoc, append-nil, ◌==◌, leb, if◌then◌else◌}
use hpr_readsb.Base.Doubles.{Doubles}
use hpr_readsb.AirwireWs.Frame.{ws_frame}
use hpr_readsb.AirwireWs.Client.{
  Bbox, Client, Entry, bbox_match, knows, mark_known, snapshot, send_snapshot, cache_max,
  payload_max, pos_size, ident_size,
}
use hpr_readsb.AirwireWs.Bounds.{IsCache, IsSized}

or_assoc : (a b c : Bool) → ((a || b) || c) ≡ (a || (b || c))
or_assoc true b c = refl
or_assoc false b c = refl

or_false : (b : Bool) → (b || false) ≡ b
or_false true = refl
or_false false = refl

knows-append :
    (known : List ℕ) (icao k : ℕ) → knows (known ++ (icao ∷ [])) k ≡ (knows known k || icao == k)
unfolding knows
knows-append [] icao k = ground arith
knows-append (x ∷ known) icao k = ground (arith, knows-append known icao k)

module _ (d : Doubles) where
  -- An address that is marked is known, and the others are as before.
  knows-mark_known :
      (known : List ℕ) (icao k : ℕ)
      → length known < cache_max
      → knows (mark_known d known icao) k ≡ (knows known k || icao == k)
  unfolding mark_known
  knows-mark_known known icao k h =
      let room : leb cache_max (length known) ≡ false = ground arith in
      elim (Bool-cases (knows known icao)) [
        | inl old ↦ elim (Bool-cases (icao == k)) [
          | inl e ↦
              let seen : knows known k ≡ true =
                subst (λ j. knows known j ≡ true) ((==_iff _ _).0 e) old in
              rw (old, seen)
          | inr e ↦ rw (old, e) (sym (or_false (knows known k)))
        ]
        | inr new ↦ rw (new, room) (knows-append known icao k)
      ]

  length-mark_known :
      (known : List ℕ) (icao : ℕ) → length (mark_known d known icao) ≤ suc (length known)
  unfolding mark_known
  length-mark_known known icao =
      elim (Bool-cases (knows known icao || leb cache_max (length known))) [
        | inl old ↦ rw old (omega arith)
        | inr new ↦ rw new (omega (arith, length-append known (icao ∷ [])))
      ]

  -- The records of an entry.
  unfoldable pub records_of : Entry d → List ℕ
  records_of x = if x.have_pos then x.position ++ x.ident else x.ident

  pub shown : Option (Bbox d) → Entry d → Bool
  shown box x = bbox_match d box x.have_pos x.lat x.lon

  -- The records of the entries that the client is shown, in the order of the cache.
  unfoldable pub picture : Option (Bbox d) → List (Entry d) → List ℕ
  picture box [] = []
  picture box (x ∷ cache) =
      if shown box x then records_of x ++ picture box cache else picture box cache

  -- Is the address one of theirs?
  unfoldable pub pictured : Option (Bbox d) → List (Entry d) → ℕ → Bool
  pictured box [] icao = false
  pictured box (x ∷ cache) icao = (shown box x && x.icao == icao) || pictured box cache icao

  module _ (box : Option (Bbox d)) where
    length-records_of : (x : Entry d) → IsSized d x → length (records_of x) ≤ 35
    unfolding records_of
    length-records_of x h = elim (Bool-cases x.have_pos) [
      | inl e ↦ rw e (omega (arith, length-append x.position x.ident, h.0, h.1))
      | inr e ↦ rw e (omega (arith, h.1))
    ]

    -- A round of the loop with room for the records of the entry.
    snapshot-shown :
        (x : Entry d) (cache : List (Entry d)) (out known : List ℕ)
        → IsSized d x
        → length out + 35 ≤ payload_max
        → shown box x ≡ true
        → snapshot d box (x ∷ cache) out known
          ≡ snapshot d box cache (out ++ records_of x) (mark_known d known x.icao)
    unfolding snapshot records_of shown
    snapshot-shown x cache out known h room e =
        let fits : leb (length out + pos_size) payload_max ≡ true = ground arith in
        let ident_fits : leb (length out + ident_size) payload_max ≡ true = ground arith in
        let both_fit : leb (length (out ++ x.position) + ident_size) payload_max ≡ true =
          ground (arith, length-append out x.position, h.0) in
        let match : bbox_match d box x.have_pos x.lat x.lon ≡ true = e in
        elim (Bool-cases x.have_pos) [
          | inl p ↦
              rw (match, p, fits, both_fit)
                (ap (λ o. snapshot d box cache o (mark_known d known x.icao))
                  (append_assoc out x.position x.ident))
          | inr p ↦ rw (match, p, ident_fits)
        ]

    snapshot-skipped :
        (x : Entry d) (cache : List (Entry d)) (out known : List ℕ)
        → shown box x ≡ false
        → snapshot d box (x ∷ cache) out known ≡ snapshot d box cache out known
    unfolding snapshot shown
    snapshot-skipped x cache out known e =
        let match : bbox_match d box x.have_pos x.lat x.lon ≡ false = e in rw match

    snapshot-picture :
        (cache : List (Entry d)) (out known : List ℕ)
        → All (IsSized d) cache
        → length out + 35 * length cache ≤ payload_max
        → (snapshot d box cache out known).0 ≡ out ++ picture box cache
    unfolding picture snapshot
    snapshot-picture [] out known h room = sym (append-nil out)
    snapshot-picture (x ∷ cache) out known h room = elim (Bool-cases (shown box x)) [
      | inl e ↦
          let small = length-records_of x h.0 in
          let grown = length-append out (records_of x) in
          let rest =
            snapshot-picture cache (out ++ records_of x) (mark_known d known x.icao) h.1
              (omega (arith, small, grown, room)) in
          let step = snapshot-shown x cache out known h.0 (omega (arith, room)) e in
          rw e (ap (λ s. s.0) step ∙ rest ∙ append_assoc out (records_of x) (picture box cache))
      | inr e ↦
          let rest = snapshot-picture cache out known h.1 (omega (arith, room)) in
          rw e (ap (λ s. s.0) (snapshot-skipped x cache out known e) ∙ rest)
    ]

    snapshot-pictured :
        (cache : List (Entry d)) (out known : List ℕ) (k : ℕ)
        → All (IsSized d) cache
        → length out + 35 * length cache ≤ payload_max
        → length known + length cache ≤ cache_max
        → knows (snapshot d box cache out known).1 k ≡ (knows known k || pictured box cache k)
    unfolding pictured snapshot
    snapshot-pictured [] out known k h room few = sym (or_false (knows known k))
    snapshot-pictured (x ∷ cache) out known k h room few = elim (Bool-cases (shown box x)) [
      | inl e ↦
          let small = length-records_of x h.0 in
          let grown = length-append out (records_of x) in
          let marked = length-mark_known known x.icao in
          let rest =
            snapshot-pictured cache (out ++ records_of x) (mark_known d known x.icao) k h.1
              (omega (arith, small, grown, room)) (omega (arith, marked, few)) in
          let step = snapshot-shown x cache out known h.0 (omega (arith, room)) e in
          let mark = knows-mark_known known x.icao k (omega (arith, few)) in
          rw e (
            ap (λ s. knows s.1 k) step
            ∙ rest
            ∙ ap (λ b. b || pictured box cache k) mark
            ∙ or_assoc (knows known k) (x.icao == k) (pictured box cache k))
      | inr e ↦
          let rest =
            snapshot-pictured cache out known k h.1 (omega (arith, room)) (omega (arith, few)) in
          rw e (ap (λ s. knows s.1 k) (snapshot-skipped x cache out known e) ∙ rest)
    ]

  -- For a cache as scan_changes leaves it, the snapshot of a client is one binary frame with the
  -- position, if there is one, and the identity of each entry that its bounding box shows, in the
  -- order of the cache and without an omission, and the client then knows the aircraft of these
  -- entries and no other.
  pub send_snapshot-picture :
      (cache : List (Entry d)) (c : Client d)
      → IsCache d cache
      → ((send_snapshot d cache c).1 ≡ ws_frame 2 (picture c.bbox cache))
        × ((icao : ℕ) → knows (send_snapshot d cache c).0.known icao ≡ pictured c.bbox cache icao)
  unfolding send_snapshot knows
  send_snapshot-picture cache c h =
      let room : 0 + 35 * length cache ≤ payload_max = omega (arith, h.small) in
      (
        ap (ws_frame 2) (snapshot-picture c.bbox cache [] [] h.sized room),
        λ icao. snapshot-pictured c.bbox cache [] [] icao h.sized room (omega (arith, h.small)),
      )

-- ===== src/AirwireWs/Bounds.antt =====
-- hpr_airwire_ws.c: what `scan_changes` keeps true of the cache.
use hpr_readsb.Base.{ℕ, ◌+◌, ◌≤◌, ◌≡◌, refl, sym, ap, ◌∙◌, subst, arith}
use hpr_readsb.Base.{inl, inr, Bool, true, false, Bool-cases, ==_iff}
use hpr_readsb.Base.{Option, none, some, some-injective, List, [], ◌∷◌}
use hpr_readsb.Base.{length, All, length-append, ◌==◌}
use hpr_readsb.Base.Doubles.{Doubles}
use hpr_readsb.Base.Int.{ℤ}
use hpr_readsb.Airwire.{Identity, hpr_airwire_encode_identity}
use hpr_readsb.Airwire.{valid_icao}
use hpr_readsb.Airwire.{put_u24le, put_u16le, put_callsign}
use hpr_readsb.Airwire.Frames.{hpr_airwire_encode_position-IsPositionFrame}
use hpr_readsb.Airwire.Identities.{length-put_callsign}
use hpr_readsb.AirwireWs.Client.{Entry, cache_max}
use hpr_readsb.AirwireWs.Aircraft.{Aircraft, Settings, map_position, map_identity, track_data_valid}
use hpr_readsb.AirwireWs.Cache.{
  Change, new_entry, find_or_new, cache_finds, put_entry, seen_entry, change_of, position_frame,
  identity_frame, bytes_or,
}
use hpr_readsb.AirwireWs.Eviction.{count, one_if}

-- The sizes of the two arrays of an entry or of a change.
abbrev pub AreSized : List ℕ → List ℕ → Type 0
AreSized position ident = (length position ≡ 20) × (length ident ≡ 15)

bytes_or-length :
    (n : ℕ) (old : List ℕ) (o : Option (List ℕ))
    → length old ≡ n
    → ((frame : List ℕ) → o ≡ some frame → length frame ≡ n)
    → length (bytes_or old o) ≡ n
bytes_or-length n old none h g = h
bytes_or-length n old (some frame) h g = g frame refl

identity-length :
    (identity : Identity) (frame : List ℕ)
    → hpr_airwire_encode_identity identity ≡ some frame
    → length frame ≡ 15
unfolding hpr_airwire_encode_identity put_u24le put_u16le
identity-length identity frame e = elim (Bool-cases (valid_icao identity.icao)) [
  | inl v ↦
      let name = put_callsign 8 identity.callsign in
      let rest = identity.category ∷ put_u16le identity.squawk in
      let same = some-injective _ _ (rw v at e) in
      let total = length-append name rest in
      let eight = length-put_callsign 8 identity.callsign in
      subst (λ xs. length xs ≡ 15) same (omega arith)
  | inr v ↦ absurd (cc (rw v at e))
]

module _ (d : Doubles) where
  abbrev pub IsSized : Entry d → Type 0
  IsSized x = AreSized x.position x.ident

  abbrev pub IsSizedChange : Change d → Type 0
  IsSizedChange ch = AreSized ch.position ch.ident

  abbrev pub has : ℕ → Entry d → Bool
  has icao x = x.icao == icao

  -- The cache fits, has one entry for each aircraft, and its records have their sizes.
  pub record IsCache (cache : List (Entry d)) : Type 0 where
    pub small : length cache ≤ cache_max
    pub distinct : (icao : ℕ) → count d (has icao) cache ≤ 1
    pub sized : All IsSized cache

  -- An address that is not found has no entry.
  pub absent :
      (cache : List (Entry d)) (icao : ℕ)
      → cache_finds d cache icao ≡ false
      → count d (has icao) cache ≡ 0
  unfolding count cache_finds
  absent [] icao h = refl
  absent (x ∷ cache) icao h = elim (Bool-cases (x.icao == icao)) [
    | inl e ↦ absurd (cc (rw e at h))
    | inr e ↦ rw e (ap (λ n. 0 + n) (absent cache icao (rw e at h)))
  ]

  put_same :
      (x y : Entry d) (cache : List (Entry d))
      → (x.icao == y.icao) ≡ true
      → put_entry d (x ∷ cache) y ≡ y ∷ cache
  unfolding put_entry
  put_same x y cache h = rw (h, put_entry)

  put_other :
      (x y : Entry d) (cache : List (Entry d))
      → (x.icao == y.icao) ≡ false
      → put_entry d (x ∷ cache) y ≡ x ∷ put_entry d cache y
  unfolding put_entry
  put_other x y cache h = rw (h, put_entry)

  -- A test that two entries of one address pass alike counts the new entry in place of the old.
  pub count-put_found :
      (p : Entry d → Bool) (cache : List (Entry d)) (y : Entry d)
      → ((x : Entry d) → x.icao ≡ y.icao → p x ≡ p y)
      → cache_finds d cache y.icao ≡ true
      → count d p (put_entry d cache y) ≡ count d p cache
  unfolding count cache_finds
  count-put_found p [] y g h = absurd (cc)
  count-put_found p (x ∷ cache) y g h = elim (Bool-cases (x.icao == y.icao)) [
    | inl e ↦
        ap (count d p) (put_same x y cache e)
        ∙ ap (λ b. one_if b + count d p cache) (sym (g x ((==_iff _ _).0 e)))
    | inr e ↦
        ap (count d p) (put_other x y cache e)
        ∙ ap (λ n. one_if (p x) + n) (count-put_found p cache y g (rw e at h))
  ]

  pub count-put_new :
      (p : Entry d → Bool) (cache : List (Entry d)) (y : Entry d)
      → cache_finds d cache y.icao ≡ false
      → count d p (put_entry d cache y) ≡ one_if (p y) + count d p cache
  unfolding count cache_finds put_entry
  count-put_new p [] y h = refl
  count-put_new p (x ∷ cache) y h = elim (Bool-cases (x.icao == y.icao)) [
    | inl e ↦ absurd (cc (rw e at h))
    | inr e ↦
        let rest = count-put_new p cache y (rw e at h) in
        ap (count d p) (put_other x y cache e) ∙ omega (arith, rest)
  ]

  pub All-put_entry :
      (P : Entry d → Type 0) (cache : List (Entry d)) (y : Entry d)
      → All P cache
      → P y
      → All P (put_entry d cache y)
  unfolding put_entry
  All-put_entry P [] y h g = (g, tt)
  All-put_entry P (x ∷ cache) y h g = elim (Bool-cases (x.icao == y.icao)) [
    | inl e ↦ subst (All P) (sym (put_same x y cache e)) (g, h.1)
    | inr e ↦ subst (All P) (sym (put_other x y cache e)) (h.0, All-put_entry P cache y h.1 g)
  ]

  pub All-find_or_new :
      (P : Entry d → Type 0) (cache : List (Entry d)) (icao : ℕ)
      → All P cache
      → P (new_entry d icao)
      → P (find_or_new d cache icao)
  unfolding find_or_new
  All-find_or_new P [] icao h g = g
  All-find_or_new P (x ∷ cache) icao h g = elim (Bool-cases (x.icao == icao)) [
    | inl e ↦ rw e h.0
    | inr e ↦ rw e (All-find_or_new P cache icao h.1 g)
  ]

  pub find_or_new-icao :
      (cache : List (Entry d)) (icao : ℕ) → (find_or_new d cache icao).icao ≡ icao
  unfolding find_or_new new_entry
  find_or_new-icao [] icao = refl
  find_or_new-icao (x ∷ cache) icao = elim (Bool-cases (x.icao == icao)) [
    | inl e ↦ rw e ((==_iff _ _).0 e)
    | inr e ↦ rw e (find_or_new-icao cache icao)
  ]

  module _ (settings : Settings) (now : ℤ) where
    position_frame-length :
        (a : Aircraft d) (frame : List ℕ)
        → position_frame d settings now a ≡ some frame
        → length frame ≡ 20
    unfolding position_frame
    position_frame-length a frame e = elim (Bool-cases (track_data_valid a.pos_reliable_valid)) [
      | inl v ↦
          (hpr_airwire_encode_position-IsPositionFrame d (map_position d settings a) frame
            (rw v at e)).size
      | inr v ↦ absurd (cc (rw v at e))
    ]

    pub seen_entry-IsSized :
        (x : Entry d) (a : Aircraft d) → IsSized x → IsSized (seen_entry d settings now x a)
    unfolding seen_entry identity_frame
    seen_entry-IsSized x a h = (
      bytes_or-length 20 x.position _ h.0 (position_frame-length a),
      bytes_or-length 15 x.ident _ h.1 (identity-length (map_identity d a)),
    )

    pub change_of-IsSized :
        (x : Entry d) (a : Aircraft d) → IsSizedChange (change_of d settings now x a)
    unfolding change_of identity_frame new_entry
    change_of-IsSized x a = (
      bytes_or-length 20 _ _ refl (position_frame-length a),
      bytes_or-length 15 _ _ refl (identity-length (map_identity d a)),
    )

-- ===== src/AirwireWs/Invariant.antt =====
-- hpr_airwire_ws.c: each step of `scan_changes` keeps the cache well formed.
use hpr_readsb.Base.{◌%◌, ◌/◌, ◌^◌, ◌≤◌, ◌≡◌, refl, sym, ap, ◌∙◌, subst, arith}
use hpr_readsb.Base.{inl, inr, Bool, true, false, not, ◌&&◌, Bool-cases, ==_iff}
use hpr_readsb.Base.{Option, none, some, List, [], ◌∷◌, ◌++◌}
use hpr_readsb.Base.{length, All, All-append, length-append, ◌==◌, ltb, ltb→lt, leb, if◌then◌else◌}
use hpr_readsb.Base.Doubles.{Doubles}
use hpr_readsb.Base.Int.{ℤ}
use hpr_readsb.AirwireWs.Client.{Entry, cache_max}
use hpr_readsb.AirwireWs.Aircraft.{Aircraft, Settings, include_aircraft_json}
use hpr_readsb.AirwireWs.Cache.{
  Change, Scan, new_entry, find_or_new, cache_finds, put_entry, seen_entry, change_of, see,
  scan_aircraft, scan_list, scan_changes, is_stale, evict,
}
use hpr_readsb.AirwireWs.Eviction.{
  count, one_if, count-evict, count-length, count_le, count-contradiction, All-evict,
}
use hpr_readsb.AirwireWs.Bounds.{
  IsCache, IsSized, IsSizedChange, has, absent, count-put_found, count-put_new, All-put_entry,
  All-find_or_new, find_or_new-icao, seen_entry-IsSized, change_of-IsSized,
}

one_if_le : (b : Bool) → one_if b ≤ 1
one_if_le true = omega arith
one_if_le false = omega arith

module _ (d : Doubles) where
  put_entry-IsCache :
      (cache : List (Entry d)) (y : Entry d)
      → IsCache d cache
      → IsSized d y
      → (not (cache_finds d cache y.icao) && leb cache_max (length cache)) ≡ false
      → IsCache d (put_entry d cache y)
  put_entry-IsCache cache y c h room = elim (Bool-cases (cache_finds d cache y.icao)) [
    | inl found ↦
        let same = count-put_found d (λ x. true) cache y (λ x e. refl) found in
        record {
          small =
              omega
                (arith, c.small, same, count-length d cache, count-length d (put_entry d cache y));
          distinct = λ icao.
              let kept =
                count-put_found d (has d icao) cache y (λ x e. ap (λ k. k == icao) e) found in
              omega (arith, kept, c.distinct icao);
          sized = All-put_entry d (IsSized d) cache y c.sized h;
        }
    | inr new ↦
        let more = count-put_new d (λ x. true) cache y new in
        let fits : leb cache_max (length cache) ≡ false = rw new at room in
        record {
          small =
              ground
                (arith, fits, more, count-length d cache, count-length d (put_entry d cache y));
          distinct = λ icao.
              let added = count-put_new d (has d icao) cache y new in
              elim (Bool-cases (y.icao == icao)) [
                | inl e ↦
                    let none_yet : count d (has d icao) cache ≡ 0 =
                      subst (λ k. count d (has d k) cache ≡ 0) ((==_iff _ _).0 e)
                        (absent d cache y.icao new) in
                    omega (arith, added, none_yet, one_if_le (y.icao == icao))
                | inr e ↦
                    let zero : one_if (y.icao == icao) ≡ 0 = rw e in
                    omega (arith, added, zero, c.distinct icao)
              ];
          sized = All-put_entry d (IsSized d) cache y c.sized h;
        }
  ]

  -- The list of changes, after one that is added if it fits.
  grow-few :
      (changed : Bool) (changes : List (Change d)) (ch : Change d)
      → length changes ≤ cache_max
      → length (if changed && ltb (length changes) cache_max then changes ++ (ch ∷ []) else changes)
        ≤ cache_max
  grow-few false changes ch h = h
  grow-few true changes ch h = elim (Bool-cases (ltb (length changes) cache_max)) [
    | inl room ↦ rw room (omega (arith, ltb→lt _ _ room, length-append changes (ch ∷ [])))
    | inr full ↦ rw full h
  ]

  grow-sized :
      (changed : Bool) (changes : List (Change d)) (ch : Change d)
      → All (IsSizedChange d) changes
      → IsSizedChange d ch
      → All
          (IsSizedChange d)
          (if changed && ltb (length changes) cache_max then changes ++ (ch ∷ []) else changes)
  grow-sized false changes ch h g = h
  grow-sized true changes ch h g = elim (Bool-cases (ltb (length changes) cache_max)) [
    | inl room ↦ rw room (All-append (IsSizedChange d) changes (ch ∷ []) h (g, tt))
    | inr full ↦ rw full h
  ]

  -- What the scan keeps true.
  pub record IsScan (scan : Scan d) : Type 0 where
    pub cached : IsCache d scan.cache
    pub few : length scan.changes ≤ cache_max
    pub sized : All (IsSizedChange d) scan.changes

  module _ (settings : Settings) (now : ℤ) where
    see-IsScan :
        (scan : Scan d) (a : Aircraft d)
        → IsScan scan
        → (not (cache_finds d scan.cache (a.addr % 2 ^ 24)) && leb cache_max (length scan.cache))
          ≡ false
        → IsScan (see d settings now scan (find_or_new d scan.cache (a.addr % 2 ^ 24)) a)
    unfolding see seen_entry new_entry
    see-IsScan scan a s room =
        let x = find_or_new d scan.cache (a.addr % 2 ^ 24) in
        let same : x.icao ≡ a.addr % 2 ^ 24 = find_or_new-icao d scan.cache (a.addr % 2 ^ 24) in
        let sized : IsSized d x =
          All-find_or_new d (IsSized d) scan.cache (a.addr % 2 ^ 24) s.cached.sized (refl, refl) in
        record {
          cached =
              put_entry-IsCache scan.cache (seen_entry d settings now x a) s.cached
                (seen_entry-IsSized d settings now x a sized)
                (subst
                  (λ k.
                    (not (cache_finds d scan.cache k) && leb cache_max (length scan.cache)) ≡ false)
                  (sym same) room);
          few = grow-few _ scan.changes (change_of d settings now x a) s.few;
          sized =
              grow-sized _ scan.changes (change_of d settings now x a) s.sized
                (change_of-IsSized d settings now x a);
        }

    scan_aircraft-IsScan :
        (scan : Scan d) (a : Option (Aircraft d))
        → IsScan scan
        → IsScan (scan_aircraft d settings now scan a)
    unfolding scan_aircraft
    scan_aircraft-IsScan scan none s = s
    scan_aircraft-IsScan scan (some a) s =
        let icao = a.addr % 2 ^ 24 in
        elim (Bool-cases (not (include_aircraft_json d settings now a))) [
          | inl e ↦ rw (e, scan_aircraft) s
          | inr e ↦ elim (Bool-cases (not (a.addr / 2 ^ 24 % 2 == 0))) [
            | inl f ↦ rw (e, f, scan_aircraft) s
            | inr f ↦ elim (Bool-cases (icao == 0)) [
              | inl g ↦ rw (e, f, g, scan_aircraft) s
              | inr g ↦
                  elim (Bool-cases
                    (not (cache_finds d scan.cache icao) && leb cache_max (length scan.cache))) [
                      | inl h ↦ rw (e, f, g, h, scan_aircraft) s
                      | inr h ↦ rw (e, f, g, h, scan_aircraft) (see-IsScan scan a s h)
                    ]
            ]
          ]
        ]

    scan_list-IsScan :
        (scan : Scan d) (list : List (Option (Aircraft d)))
        → IsScan scan
        → IsScan (scan_list d settings now scan list)
    unfolding scan_list
    scan_list-IsScan scan [] s = s
    scan_list-IsScan scan (a ∷ list) s =
        scan_list-IsScan (scan_aircraft d settings now scan a) list (scan_aircraft-IsScan scan a s)

    -- The cache that is left: well formed, without an entry that is stale, and with the entries
    -- of `scan` that are not.
    evict-IsCache :
        (cache : List (Entry d))
        → IsCache d cache
        → IsCache d (evict d (is_stale d settings now) (length cache) cache)
    evict-IsCache cache c =
        let stale = is_stale d settings now in
        let left = evict d stale (length cache) cache in
        let counted : (p : Entry d → Bool) → count d p left ≤ count d p cache = λ p. omega (
          arith,
          count-evict d stale p (length cache) cache (omega arith),
          count_le d p stale cache,
        ) in
        record {
          small =
              omega
                (arith, c.small, counted (λ x. true), count-length d cache, count-length d left);
          distinct = λ icao. omega (arith, counted (has d icao), c.distinct icao);
          sized = All-evict d (IsSized d) stale (length cache) cache c.sized;
        }

    -- scan_changes keeps the cache within 2048 entries, with one entry at most for each address
    -- and with records of 20 and 15 bytes, reports at most 2048 changes with records of these
    -- sizes, and leaves no entry that was last seen more than 120 seconds ago, for any aircraft
    -- and any time.
    pub scan_changes-IsScan :
        (list : List (Option (Aircraft d))) (cache : List (Entry d))
        → IsCache d cache
        → IsScan (scan_changes d settings now list cache)
          × (count d (is_stale d settings now) (scan_changes d settings now list cache).cache ≡ 0)
    unfolding scan_changes
    scan_changes-IsScan list cache c =
        let start : Scan d = record { cache = cache; changes = [] } in
        let scan = scan_list d settings now start list in
        let stale = is_stale d settings now in
        let scanned =
          scan_list-IsScan start list (record { cached = c; few = omega arith; sized = tt }) in
        (
          record {
            cached = evict-IsCache scan.cache scanned.cached;
            few = scanned.few;
            sized = scanned.sized;
          },
          count-evict d stale stale (length scan.cache) scan.cache (omega arith)
              ∙ count-contradiction d stale scan.cache,
        )

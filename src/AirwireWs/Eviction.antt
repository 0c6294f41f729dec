-- ===== src/AirwireWs/Eviction.antt =====
-- hpr_airwire_ws.c: the entries that the second loop of `scan_changes` keeps.
use hpr_readsb.Base.{ℕ, zero, suc, ◌+◌, ◌≤◌, ◌≡◌, refl, sym, ap, ap₂, ◌∙◌, arith, inl, inr}
use hpr_readsb.Base.{Bool, true, false, not, ◌&&◌, Bool-cases, List, [], ◌∷◌, length, All, subst}
use hpr_readsb.Base.Doubles.{Doubles}
use hpr_readsb.AirwireWs.Client.{Entry}
use hpr_readsb.AirwireWs.Cache.{move_last, evict}

abbrev pub one_if : Bool → ℕ
one_if true = 1
one_if false = 0

dropped : (b s : Bool) → s ≡ true → one_if (b && not s) ≡ 0
dropped true s h = rw h
dropped false s h = refl

kept : (b s : Bool) → s ≡ false → one_if (b && not s) ≡ one_if b
kept true s h = rw h
kept false s h = refl

one_if-and : (a b : Bool) → one_if (a && not b) ≤ one_if a
one_if-and true true = omega arith
one_if-and true false = omega arith
one_if-and false b = omega arith

one_if-and_not : (b : Bool) → one_if (b && not b) ≡ 0
one_if-and_not true = refl
one_if-and_not false = refl

module _ (d : Doubles) where
  -- How many entries pass a test.
  unfoldable pub count : (Entry d → Bool) → List (Entry d) → ℕ
  count p [] = 0
  count p (x ∷ cache) = one_if (p x) + count p cache

  count-elim :
      (p : Entry d → Bool) (x : Entry d) (moved : List (Entry d))
      → count p (elim moved [ [] ↦ x ∷ [] | z ∷ rest ↦ z ∷ x ∷ rest ])
        ≡ one_if (p x) + count p moved
  unfolding count
  count-elim p x [] = refl
  count-elim p x (z ∷ rest) = omega arith

  count-move_last :
      (p : Entry d → Bool) (cache : List (Entry d)) → count p (move_last d cache) ≡ count p cache
  unfolding move_last count
  count-move_last p [] = refl
  count-move_last p (x ∷ []) = refl
  count-move_last p (x ∷ y ∷ cache) =
      count-elim p x (move_last d (y ∷ cache))
      ∙ ap (λ n. one_if (p x) + n) (count-move_last p (y ∷ cache))

  pub count-length : (cache : List (Entry d)) → count (λ x. true) cache ≡ length cache
  unfolding count
  count-length [] = refl
  count-length (x ∷ cache) = omega (arith, count-length cache)

  pub length-move_last : (cache : List (Entry d)) → length (move_last d cache) ≡ length cache
  length-move_last cache =
      sym (count-length (move_last d cache))
      ∙ count-move_last (λ x. true) cache
      ∙ count-length cache

  module _ (stale : Entry d → Bool) where
    pub evict-stale :
        (left : ℕ) (x : Entry d) (cache : List (Entry d))
        → stale x ≡ true
        → evict d stale (suc left) (x ∷ cache) ≡ evict d stale left (move_last d cache)
    unfolding evict
    evict-stale left x cache h = rw (h, evict)

    pub evict-kept :
        (left : ℕ) (x : Entry d) (cache : List (Entry d))
        → stale x ≡ false
        → evict d stale (suc left) (x ∷ cache) ≡ x ∷ evict d stale left cache
    unfolding evict
    evict-kept left x cache h = rw (h, evict)

    -- The loop that evicts stale entries by moving the last one into their place keeps the
    -- entries that are not stale and no others: for each test, as many entries that pass it are
    -- left as there were that pass it and are not stale, given a pass for each entry.
    pub count-evict :
        (p : Entry d → Bool) (left : ℕ) (cache : List (Entry d))
        → length cache ≤ left
        → count p (evict d stale left cache) ≡ count (λ x. p x && not (stale x)) cache
    unfolding count evict
    count-evict p zero [] h = refl
    count-evict p zero (x ∷ cache) h = absurd (omega arith)
    count-evict p (suc left) [] h = refl
    count-evict p (suc left) (x ∷ cache) h =
        let q : Entry d → Bool = λ y. p y && not (stale y) in
        elim (Bool-cases (stale x)) [
          | inl s ↦
              let fits = length-move_last cache in
              let rest = count-evict p left (move_last d cache) (omega (arith, fits, h)) in
              let moved = count-move_last q cache in
              ap (count p) (evict-stale left x cache s)
              ∙ omega (arith, rest, moved, dropped (p x) (stale x) s)
          | inr s ↦
              ap (count p) (evict-kept left x cache s)
              ∙ ap₂ (λ m n. m + n) (sym (kept (p x) (stale x) s))
                  (count-evict p left cache (omega (arith, h)))
        ]

  -- A property of all entries holds of those that are left.
  module _ (P : Entry d → Type 0) where
    All-elim :
        (x : Entry d) (moved : List (Entry d))
        → P x
        → All P moved
        → All P (elim moved [ [] ↦ x ∷ [] | z ∷ rest ↦ z ∷ x ∷ rest ])
    All-elim x [] h g = (h, tt)
    All-elim x (z ∷ rest) h g = (g.0, (h, g.1))

    All-move_last : (cache : List (Entry d)) → All P cache → All P (move_last d cache)
    unfolding move_last
    All-move_last [] h = tt
    All-move_last (x ∷ []) h = h
    All-move_last (x ∷ y ∷ cache) h =
        All-elim x (move_last d (y ∷ cache)) h.0 (All-move_last (y ∷ cache) h.1)

    pub All-evict :
        (stale : Entry d → Bool) (left : ℕ) (cache : List (Entry d))
        → All P cache
        → All P (evict d stale left cache)
    unfolding evict
    All-evict stale zero cache h = tt
    All-evict stale (suc left) [] h = tt
    All-evict stale (suc left) (x ∷ cache) h = elim (Bool-cases (stale x)) [
      | inl s ↦
          subst (All P) (sym (evict-stale stale left x cache s))
            (All-evict stale left (move_last d cache) (All-move_last cache h.1))
      | inr s ↦
          subst (All P) (sym (evict-kept stale left x cache s))
            (h.0, All-evict stale left cache h.1)
    ]

  pub count_le :
      (p q : Entry d → Bool) (cache : List (Entry d))
      → count (λ x. p x && not (q x)) cache ≤ count p cache
  unfolding count
  count_le p q [] = omega arith
  count_le p q (x ∷ cache) = omega (arith, count_le p q cache, one_if-and (p x) (q x))

  pub count-contradiction :
      (q : Entry d → Bool) (cache : List (Entry d)) → count (λ x. q x && not (q x)) cache ≡ 0
  unfolding count
  count-contradiction q [] = refl
  count-contradiction q (x ∷ cache) =
      omega (arith, count-contradiction q cache, one_if-and_not (q x))

-- ===== src/IcaoFilter/Laws.antt =====
-- `icaoFilterTest`, and `icaoFilterAdd` with its resize.
use hpr_readsb.Base.{ℕ, suc, ◌+◌, ◌*◌, ◌/◌, ◌^◌, ◌≤◌, ◌<◌, arith, refl, ◌≡◌, ◌≢◌}
use hpr_readsb.Base.{
  subst, sym, ap, ap₂, ◌∙◌, Bool, true, false, List, ◌⊎◌, inl, inr, ◌||◌, ◌&&◌, ◌==◌,
}
use hpr_readsb.Base.{some, Bool-cases, if◌then◌else◌, ltb}
use native.Mathlib.Nat.{pow-suc, pow-le-pow_right}
use hpr_readsb.IcaoFilter.{
  Filter, active, empty, add_all, add_fuel, cleared, min_bits, max_bits, init,
}
use hpr_readsb.IcaoFilter.{addr_hash, test_table, icao_filter_test, icao_filter_add, occupy}
use hpr_readsb.IcaoFilter.Chains.{contains, in_use, IsTable-cleared, contains-replicate}
use hpr_readsb.IcaoFilter.Chains.{in_use-replicate, test_table-contains}
use hpr_readsb.IcaoFilter.Insert.{hash_of, addr_hash-lt, inactive}
use hpr_readsb.IcaoFilter.Grow.{IsFilter, Gains, occupy-Gains, Gains-IsFilter}
use hpr_readsb.IcaoFilter.Resize.{add_all-Collects}

pub cleared-IsFilter : (bits : ℕ) → 8 ≤ bits → bits ≤ max_bits → IsFilter (cleared bits)
unfolding cleared
cleared-IsFilter bits low high = record {
  sized = refl;
  low = low;
  high = high;
  large = let k : 2 ^ 8 ≤ 2 ^ bits = pow-le-pow_right (omega arith) low in k;
  live = IsTable-cleared (hash_of bits) (2 ^ bits);
  aging = IsTable-cleared (hash_of bits) (2 ^ bits);
  counted = sym (in_use-replicate (2 ^ bits));
  sparse = λ h. omega arith;
}

pub cleared-contains : (bits y : ℕ) → y ≢ empty → contains (active (cleared bits)) y ≡ false
unfolding cleared
cleared-contains bits y ne = contains-replicate (2 ^ bits) y ne

or_comm : (a b : Bool) → (a || b) ≡ (b || a)
or_comm a b = ground arith

sides :
    (on : Bool) (a b : List ℕ) (test holds : List ℕ → Bool)
    → test (if on then a else b) ≡ holds (if on then a else b)
    → test (if on then b else a) ≡ holds (if on then b else a)
    → (test a || test b) ≡ (holds (if on then a else b) || holds (if on then b else a))
sides true a b test holds live aging = ap₂ ◌||◌ live aging
sides false a b test holds live aging = rw (live, aging) (or_comm (holds a) (holds b))

-- In a valid filter, icaoFilterTest of an address other than EMPTY is true exactly if one of the
-- two tables holds it.
pub icao_filter_test-contains :
    (f : Filter) (y : ℕ)
    → IsFilter f
    → y ≢ empty
    → icao_filter_test f y ≡ (contains (active f) y || contains (inactive f) y)
unfolding icao_filter_test
icao_filter_test-contains f y v ne =
    let hashed : addr_hash y f.bits < f.buckets = rw v.sized (addr_hash-lt y f.bits) in
    let live = test_table-contains (hash_of f.bits) f.buckets (active f) y v.live ne hashed in
    let aging = test_table-contains (hash_of f.bits) f.buckets (inactive f) y v.aging ne hashed in
    sides f.a_active f.a f.b (λ t. test_table t y f.buckets (addr_hash y f.bits))
      (λ t. contains t y) live aging

pub record Adds (f : Filter) (addr : ℕ) (g : Filter) : Type 0 where
  pub valid : IsFilter g
  pub holds : (y : ℕ) → y ≢ empty → contains (active g) y ≡ (addr == y || contains (active f) y)
  pub kept : (g.bits ≡ f.bits) × (inactive g ≡ inactive f) ⊎ (g.bits ≡ f.bits + 1)

pub fits_cleared :
    (bits u : ℕ) → u ≤ 2 ^ bits / 3 → (cleared bits).occupied + u ≤ (cleared bits).buckets / 3
unfolding cleared
fits_cleared bits u h = omega arith

cleared-bits : (bits : ℕ) → (cleared bits).bits ≡ bits
unfolding cleared
cleared-bits bits = refl

-- A table of twice the size takes all that was in a table one third full and one more.
twice_fits : (u o o' n q : ℕ) → o ≤ n / 3 → 256 ≤ n → o' ≤ o + 1 → o' ≡ u → q ≡ 2 * n → u ≤ q / 3
twice_fits u o o' n q few large grew e d = omega arith

low_of : (m o b b' : ℕ) → (ltb m o && ltb b' max_bits) ≡ true → b' ≡ b → b < max_bits
low_of m o b b' h e = ground arith

sparse_of : (m o b b' : ℕ) → (ltb m o && ltb b' max_bits) ≡ false → b' ≡ b → b < max_bits → o ≤ m
sparse_of m o b b' h e l = ground arith

pub doubled_size : (b n : ℕ) → n ≡ 2 ^ b → 2 ^ (b + 1) ≡ 2 * n
doubled_size b n e =
    let at : suc b ≡ b + 1 = omega arith in
    let d : 2 ^ (b + 1) ≡ 2 ^ b * 2 = subst (λ k. 2 ^ k ≡ 2 ^ b * 2) at (pow-suc 2 b) in
    omega (arith, d, e)

pub or_false : (b c : Bool) → c ≡ false → (b || c) ≡ b
or_false b c h = ground arith

module _ (f : Filter) (addr : ℕ) (v : IsFilter f) (proper : addr ≢ empty)
    (room : f.occupied < f.buckets) where
  grown :
      (g : Filter)
      → Gains f addr g
      → f.bits < max_bits
      → (h : Filter) × (add_all (add_fuel 19) (active g) (cleared (g.bits + 1)) ≡ some h)
        × Adds f addr h
  grown g w low =
      let bits = w.frame.bits in
      let floor = v.low in
      let doubled : 2 ^ (g.bits + 1) ≡ 2 * f.buckets =
        doubled_size g.bits f.buckets (v.sized ∙ ap (λ k. 2 ^ k) (sym bits)) in
      let at_most =
        twice_fits (in_use (active g)) f.occupied g.occupied f.buckets (2 ^ (g.bits + 1))
          (v.sparse low) v.large w.grew w.counted doubled in
      let (h, e, vh, c) =
        add_all-Collects 18 (active g) (cleared (g.bits + 1))
          (cleared-IsFilter (g.bits + 1) (omega arith) (omega arith))
          (fits_cleared (g.bits + 1) (in_use (active g)) at_most) in
      (
        h,
        e,
        record {
          valid = vh;
          holds = λ y ne.
              c.holds y ne
              ∙ (or_false (contains (active g) y) (contains (active (cleared (g.bits + 1))) y)
                    (cleared-contains (g.bits + 1) y ne)
                  ∙ w.holds y ne);
          kept = inr (c.frame.bits ∙ (cleared-bits (g.bits + 1) ∙ ap (λ k. k + 1) bits));
        },
      )

  -- From a valid filter with a free slot in the active table, icaoFilterAdd of an address other
  -- than EMPTY returns with a valid filter whose active table holds just that address and those
  -- it held, and either the size and the other table are unchanged or the size was doubled.
  pub icao_filter_add-Adds : (g : Filter) × (icao_filter_add f addr ≡ some g) × Adds f addr g
  unfolding icao_filter_add add_fuel
  icao_filter_add-Adds =
      let (h, e, w) = occupy-Gains f addr v proper room in
      let g = occupy f h addr in
      let fr = w.frame in
      elim (Bool-cases (ltb (g.buckets / 3) g.occupied && ltb g.bits max_bits)) [
        | inl full ↦
            let (k, e', a) =
              grown g w (low_of (g.buckets / 3) g.occupied f.bits g.bits full fr.bits) in
            (k, rw (e, add_fuel, full) e', a)
        | inr calm ↦ (
          g,
          rw (e, add_fuel, calm),
          record {
            valid = Gains-IsFilter f addr v proper room g w (λ b.
                rw fr.buckets at
                  (sparse_of (g.buckets / 3) g.occupied f.bits g.bits calm fr.bits b));
            holds = w.holds;
            kept = inl (fr.bits, fr.other);
          },
        )
      ]

pub init-IsFilter : IsFilter init
unfolding init
init-IsFilter = cleared-IsFilter min_bits (omega arith) (omega arith)

pub init-room : init.occupied < init.buckets
unfolding init cleared
init-room = omega arith

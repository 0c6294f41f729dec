-- ===== src/IcaoFilter/Expiry.antt =====
-- `icaoFilterExpire`: the tables change places, and a table that is almost empty shrinks first.
use hpr_readsb.Base.{ℕ, ◌+◌, ◌-◌, ◌*◌, ◌/◌, ◌^◌, ◌≤◌, ◌<◌, arith, refl, ◌≡◌, ◌≢◌}
use hpr_readsb.Base.{sym, ap, ◌∙◌, Bool, true, false, ◌⊎◌, inl, inr, ◌||◌, ◌&&◌}
use hpr_readsb.Base.{==_iff, ◌==◌, some, Bool-cases, ltb, replicate}
use hpr_readsb.IcaoFilter.{Filter, active, empty, cleared, min_bits}
use hpr_readsb.IcaoFilter.{icao_filter_test, icao_filter_add}
use hpr_readsb.IcaoFilter.{icao_filter_expire, switch_tables, resize}
use hpr_readsb.IcaoFilter.Chains.{contains, in_use, IsTable-cleared, contains-replicate}
use hpr_readsb.IcaoFilter.Chains.{in_use-replicate}
use hpr_readsb.IcaoFilter.Insert.{hash_of, inactive}
use hpr_readsb.IcaoFilter.Grow.{IsFilter}
use hpr_readsb.IcaoFilter.Resize.{add_all-Collects}
use hpr_readsb.IcaoFilter.Laws.{
  cleared-IsFilter, cleared-contains, icao_filter_test-contains, fits_cleared,
}
use hpr_readsb.IcaoFilter.Laws.{or_false, doubled_size, icao_filter_add-Adds}

record Switched (f g : Filter) : Type 0 where
  pub bits : g.bits ≡ f.bits
  pub buckets : g.buckets ≡ f.buckets
  pub fresh : active g ≡ replicate f.buckets empty
  pub kept : inactive g ≡ active f
  pub occupied : g.occupied ≡ 0

switch_tables-Switched : (f : Filter) → Switched f (switch_tables f)
unfolding switch_tables
switch_tables-Switched f = ground arith

switch_tables-IsFilter : (f : Filter) → IsFilter f → IsFilter (switch_tables f)
switch_tables-IsFilter f v =
    let s = switch_tables-Switched f in
    let bits = s.bits in
    let buckets = s.buckets in
    let occupied = s.occupied in
    let low = v.low in
    let high = v.high in
    let large = v.large in
    record {
      sized = buckets ∙ (v.sized ∙ ap (λ t. 2 ^ t) (sym bits));
      low = omega arith;
      high = omega arith;
      large = omega arith;
      live = rw (bits, buckets, s.fresh) (IsTable-cleared (hash_of f.bits) f.buckets);
      aging = rw (bits, buckets, s.kept) v.live;
      counted = occupied ∙ sym (ap in_use s.fresh ∙ in_use-replicate f.buckets);
      sparse = λ h. omega arith;
    }

-- What an expiry leaves: the addresses of the table that was active.
pub record Expires (f g : Filter) : Type 0 where
  pub valid : IsFilter g
  pub fresh : (y : ℕ) → y ≢ empty → contains (active g) y ≡ false
  pub kept : (y : ℕ) → y ≢ empty → contains (inactive g) y ≡ contains (active f) y

switch_tables-Expires : (f : Filter) → IsFilter f → Expires f (switch_tables f)
switch_tables-Expires f v =
    let s = switch_tables-Switched f in
    record {
      valid = switch_tables-IsFilter f v;
      fresh = λ y ne. ap (λ t. contains t y) s.fresh ∙ contains-replicate f.buckets y ne;
      kept = λ y ne. ap (λ t. contains t y) s.kept;
    }

-- Less than a ninth of the slots is less than a third of half of them.
half_fits : (u o n q : ℕ) → o < n / 9 → o ≡ u → n ≡ 2 * q → u ≤ q / 3
half_fits u o n q h e d = omega arith

halved : (b n : ℕ) → n ≡ 2 ^ b → min_bits < b → n ≡ 2 * 2 ^ (b - 1)
halved b n e h =
    let d = doubled_size (b - 1) (2 ^ (b - 1)) refl in
    let at : b - 1 + 1 ≡ b = omega arith in e ∙ (ap (λ k. 2 ^ k) (sym at) ∙ d)

low_tests : (o n b : ℕ) → (ltb o n && ltb min_bits b) ≡ true → (o < n) × (min_bits < b)
low_tests o n b h = ground arith

shrunk :
    (f : Filter)
    → IsFilter f
    → f.occupied < f.buckets / 9
    → min_bits < f.bits
    → (g : Filter) × (resize f (f.bits - 1) ≡ some g)
      × IsFilter g
      × ((y : ℕ) → y ≢ empty → contains (active g) y ≡ contains (active f) y)
unfolding resize icao_filter_add
shrunk f v few wide =
    let high = v.high in
    let at_most =
      half_fits (in_use (active f)) f.occupied f.buckets (2 ^ (f.bits - 1)) few v.counted
        (halved f.bits f.buckets v.sized wide) in
    let (g, e, vg, c) =
      add_all-Collects 19 (active f) (cleared (f.bits - 1))
        (cleared-IsFilter (f.bits - 1) (omega arith) (omega arith))
        (fits_cleared (f.bits - 1) (in_use (active f)) at_most) in
    (
      g,
      e,
      vg,
      λ y ne.
          c.holds y ne
          ∙ or_false (contains (active f) y) (contains (active (cleared (f.bits - 1))) y)
              (cleared-contains (f.bits - 1) y ne),
    )

pub icao_filter_expire-Expires :
    (f : Filter) → IsFilter f → (g : Filter) × (icao_filter_expire f ≡ some g) × Expires f g
unfolding icao_filter_expire
icao_filter_expire-Expires f v =
    elim (Bool-cases (ltb f.occupied (f.buckets / 9) && ltb min_bits f.bits)) [
      | inl small ↦
          let (few, wide) = low_tests f.occupied (f.buckets / 9) f.bits small in
          let (g, e, vg, same) = shrunk f v few wide in
          let x = switch_tables-Expires g vg in
          (
            switch_tables g,
            rw (small, e),
            record { valid = x.valid; fresh = x.fresh; kept = λ y ne. x.kept y ne ∙ same y ne },
          )
      | inr large ↦ (switch_tables f, rw large, switch_tables-Expires f v)
    ]

-- From a valid filter icaoFilterExpire returns with a valid filter that finds exactly those
-- addresses, other than EMPTY, that the active table held before, whether it shrank or not.
pub icao_filter_expire-icao_filter_test :
    (f : Filter)
    → IsFilter f
    → (g : Filter) × (icao_filter_expire f ≡ some g)
      × IsFilter g
      × ((y : ℕ) → y ≢ empty → icao_filter_test g y ≡ contains (active f) y)
icao_filter_expire-icao_filter_test f v =
    let (g, e, x) = icao_filter_expire-Expires f v in
    (
      g,
      e,
      x.valid,
      λ y ne. icao_filter_test-contains g y x.valid ne ∙ rw (x.fresh y ne) (x.kept y ne),
    )

or_true_at : (a b c : Bool) → a ≡ true → b ≡ (a || c) → b ≡ true
or_true_at a b c h e = ground arith

or_either : (a b c : Bool) → (a ≡ true) ⊎ (b ≡ true) → c ≡ (a || b) → c ≡ true
or_either a b c (inl h) e = ground arith
or_either a b c (inr h) e = ground arith

-- In a valid filter with a free slot in the active table, icaoFilterAdd of an address other than
-- EMPTY returns, resizes included, with a filter that finds the address, and the next
-- icaoFilterExpire returns with a filter that still finds it.
pub icao_filter_add-icao_filter_expire :
    (f : Filter) (addr : ℕ)
    → IsFilter f
    → addr ≢ empty
    → f.occupied < f.buckets
    → (g : Filter) × (h : Filter) × (icao_filter_add f addr ≡ some g)
      × (icao_filter_test g addr ≡ true)
      × (icao_filter_expire g ≡ some h)
      × (icao_filter_test h addr ≡ true)
icao_filter_add-icao_filter_expire f addr v ne room =
    let (g, e, x) = icao_filter_add-Adds f addr v ne room in
    let (h, e', vh, found) = icao_filter_expire-icao_filter_test g x.valid in
    let held =
      or_true_at (addr == addr) (contains (active g) addr) (contains (active f) addr)
        ((==_iff addr addr).1 refl) (x.holds addr ne) in
    (
      g,
      h,
      e,
      or_either (contains (active g) addr) (contains (inactive g) addr) (icao_filter_test g addr)
          (inl held) (icao_filter_test-contains g addr x.valid ne),
      e',
      found addr ne ∙ held,
    )

-- ===== src/IcaoFilter/Grow.antt =====
-- The invariant of the filter, and `icaoFilterAdd` where it does not resize.
use hpr_readsb.Base.{ℕ, suc, ◌+◌, ◌/◌, ◌^◌, ◌≤◌, ◌<◌, arith, ◌≡◌, ◌≢◌}
use hpr_readsb.Base.{sym, ap, ◌∙◌, Bool, true, false, ◌||◌, ◌==◌}
use hpr_readsb.Base.{some, get_or, ltb}
use hpr_readsb.Base.{if◌then◌else◌}
use hpr_readsb.IcaoFilter.{Filter, active, empty, probe, stopped, addr_hash, occupy, add_fuel}
use hpr_readsb.IcaoFilter.{max_bits}
use hpr_readsb.IcaoFilter.Chains.{contains, in_use, IsTable}
use hpr_readsb.IcaoFilter.Insert.{hash_of, addr_hash-lt, IsFilled, probe-IsFilled, active-occupy}
use hpr_readsb.IcaoFilter.Insert.{inactive, SameFrame, occupy-SameFrame, occupied-occupy}

pub record IsFilter (f : Filter) : Type 0 where
  pub sized : f.buckets ≡ 2 ^ f.bits
  pub low : 8 ≤ f.bits
  pub high : f.bits ≤ max_bits
  pub large : 256 ≤ f.buckets
  pub live : IsTable (hash_of f.bits) f.buckets (active f)
  pub aging : IsTable (hash_of f.bits) f.buckets (inactive f)
  pub counted : f.occupied ≡ in_use (active f)
  pub sparse : f.bits < max_bits → f.occupied ≤ f.buckets / 3

pub not_ltb : (a b : ℕ) → b ≤ a → ltb a b ≡ false
not_ltb a b h = ground arith

-- What the filter has once `addr` is in the active table.
pub record Gains (f : Filter) (addr : ℕ) (g : Filter) : Type 0 where
  pub frame : SameFrame f g
  pub live : IsTable (hash_of f.bits) f.buckets (active g)
  pub holds : (y : ℕ) → y ≢ empty → contains (active g) y ≡ (addr == y || contains (active f) y)
  pub counted : g.occupied ≡ in_use (active g)
  pub grew : g.occupied ≤ f.occupied + 1

if_counts : (b : Bool) (m n : ℕ) → m ≡ n → (if b then m + 1 else m) ≡ (if b then suc n else n)
if_counts true m n e = omega arith
if_counts false m n e = e

if_grows : (b : Bool) (m : ℕ) → (if b then m + 1 else m) ≤ m + 1
if_grows true m = omega arith
if_grows false m = omega arith

module _ (f : Filter) (addr : ℕ) (v : IsFilter f) (proper : addr ≢ empty)
    (room : f.occupied < f.buckets) where
  abbrev start : ℕ
  start = addr_hash addr f.bits

  hashed : start < f.buckets
  hashed = rw v.sized (addr_hash-lt addr f.bits)

  counted_after :
      (h : ℕ)
      → IsFilled (hash_of f.bits) f.buckets (active f) addr h
      → (occupy f h addr).occupied ≡ in_use (active (occupy f h addr))
  counted_after h w =
      occupied-occupy f h addr
      ∙ (if_counts (get_or (active f) h 0 == empty) f.occupied (in_use (active f)) v.counted
          ∙ sym (ap in_use (active-occupy f h addr) ∙ w.counted))

  pub occupy-Gains :
      (h : ℕ) × (probe (active f) addr f.buckets start f.buckets start ≡ stopped h)
      × Gains f addr (occupy f h addr)
  occupy-Gains =
      let counted = v.counted in
      let (h, e, w) =
        probe-IsFilled (hash_of f.bits) f.buckets (active f) addr v.live proper hashed
          (rw counted at room) in
      (
        h,
        e,
        record {
          frame = occupy-SameFrame f h addr;
          live = rw (active-occupy f h addr) w.table;
          holds = λ y ne. rw (active-occupy f h addr) (w.holds y ne);
          counted = counted_after h w;
          grew =
              let grew_if = if_grows (get_or (active f) h 0 == empty) f.occupied in
              rw (occupied-occupy f h addr) grew_if;
        },
      )

  -- The filter with the address in it, if that leaves it sparse.
  pub Gains-IsFilter :
      (g : Filter) → Gains f addr g → (f.bits < max_bits → g.occupied ≤ f.buckets / 3) → IsFilter g
  Gains-IsFilter g w sparse =
      let fr = w.frame in
      let bits = fr.bits in
      let buckets = fr.buckets in
      let low = v.low in
      let high = v.high in
      let large = v.large in
      record {
        sized = buckets ∙ (v.sized ∙ ap (λ t. 2 ^ t) (sym bits));
        low = omega arith;
        high = omega arith;
        large = omega arith;
        live = rw (bits, buckets) w.live;
        aging = rw (bits, buckets, fr.other) v.aging;
        counted = w.counted;
        sparse = λ h. rw buckets (sparse (omega arith));
      }

  -- `icaoFilterAdd` where the table stays sparse: no resize.
  pub add_fuel-sparse :
      (fuel : ℕ)
      → f.occupied + 1 ≤ f.buckets / 3
      → (g : Filter) × (add_fuel (suc fuel) f addr ≡ some g) × Gains f addr g × IsFilter g
  unfolding add_fuel
  add_fuel-sparse fuel few =
      let (h, e, w) = occupy-Gains in
      let g = occupy f h addr in
      let buckets = w.frame.buckets in
      let grew = w.grew in
      let below : ltb (g.buckets / 3) g.occupied ≡ false =
        not_ltb (g.buckets / 3) g.occupied (omega arith) in
      (g, rw (e, add_fuel, below), w, Gains-IsFilter g w (λ h. omega arith))

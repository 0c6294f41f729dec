-- ===== src/IcaoFilter/Resize.antt =====
-- The loop of `icaoFilterResize`: the addresses of an old table go into a new one.
use hpr_readsb.Base.{ℕ, suc, ◌+◌, ◌/◌, ◌≤◌, arith, refl, ◌≡◌, ◌≢◌}
use hpr_readsb.Base.{ap, ◌∙◌, Bool, true, false, List, [], ◌∷◌, inl, inr, ◌||◌, ◌==◌}
use hpr_readsb.Base.{Option, some, Bool-cases, if◌then◌else◌}
use hpr_readsb.IcaoFilter.{Filter, active, empty, add_all, add_fuel}
use hpr_readsb.IcaoFilter.Chains.{contains, in_use}
use hpr_readsb.IcaoFilter.Insert.{SameFrame}
use hpr_readsb.IcaoFilter.Grow.{IsFilter, Gains, add_fuel-sparse}

-- What the filter has once the addresses of `old` are in the active table too.
pub record Collects (f : Filter) (old : List ℕ) (g : Filter) : Type 0 where
  pub frame : SameFrame f g
  pub holds :
      (y : ℕ) → y ≢ empty → contains (active g) y ≡ (contains old y || contains (active f) y)
  pub grew : g.occupied ≤ f.occupied + in_use old

SameFrame-trans : {f g h : Filter} → SameFrame f g → SameFrame g h → SameFrame f h
SameFrame-trans p q = record {
  bits = q.bits ∙ p.bits;
  buckets = q.buckets ∙ p.buckets;
  side = q.side ∙ p.side;
  other = q.other ∙ p.other;
}

in_use-cons :
    (x : ℕ) (old : List ℕ)
    → in_use (x ∷ old) ≡ (if x == empty then in_use old else suc (in_use old))
unfolding in_use
in_use-cons x old = refl

contains-cons : (x y : ℕ) (old : List ℕ) → contains (x ∷ old) y ≡ (x == y || contains old y)
unfolding contains
contains-cons x y old = refl

empty_ne : (x y : ℕ) → (x == empty) ≡ true → y ≢ empty → (x == y) ≡ false
empty_ne x y e ne = ground arith

-- An empty slot adds nothing.
Collects-empty :
    (x : ℕ) (old : List ℕ) (f g : Filter)
    → (x == empty) ≡ true
    → Collects f old g
    → Collects f (x ∷ old) g
Collects-empty x old f g unused c = record {
  frame = c.frame;
  holds = λ y ne. rw (contains-cons x y old, empty_ne x y unused ne) (c.holds y ne);
  grew = rw (in_use-cons x old, unused) c.grew;
}

or_rotate : (a b c : Bool) → (b || (a || c)) ≡ ((a || b) || c)
or_rotate a b c = ground arith

Collects-cons :
    (x : ℕ) (old : List ℕ) (f g h : Filter)
    → (x == empty) ≡ false
    → Gains f x g
    → Collects g old h
    → Collects f (x ∷ old) h
Collects-cons x old f g h used w c = record {
  frame = SameFrame-trans w.frame c.frame;
  holds = λ y ne. rw (contains-cons x y old) (
      c.holds y ne
      ∙ (ap (λ t. contains old y || t) (w.holds y ne)
          ∙ or_rotate (x == y) (contains old y) (contains (active f) y)));
  grew = let p = w.grew in let q = c.grew in rw (in_use-cons x old, used) (omega arith);
}

module _ (add : Filter → ℕ → Option Filter) (x : ℕ) (old : List ℕ) (f : Filter) where
  add_all-cons_empty : (x == empty) ≡ true → add_all add (x ∷ old) f ≡ add_all add old f
  unfolding add_all
  add_all-cons_empty unused = ground arith

  add_all-cons_used :
      (g : Filter)
      → (x == empty) ≡ false
      → add f x ≡ some g
      → add_all add (x ∷ old) f ≡ add_all add old g
  unfolding add_all
  add_all-cons_used g used e = ground arith

not_empty : (x : ℕ) → (x == empty) ≡ false → x ≢ empty
not_empty x h = ground arith

step_used :
    (fuel x : ℕ) (old : List ℕ) (f : Filter)
    → IsFilter f
    → f.occupied + in_use (x ∷ old) ≤ f.buckets / 3
    → (x == empty) ≡ false
    → ((g : Filter)
        → IsFilter g
        → g.occupied + in_use old ≤ g.buckets / 3
        → (h : Filter) × (add_all (add_fuel (suc fuel)) old g ≡ some h)
          × IsFilter h
          × Collects g old h)
    → (h : Filter) × (add_all (add_fuel (suc fuel)) (x ∷ old) f ≡ some h)
      × IsFilter h
      × Collects f (x ∷ old) h
step_used fuel x old f v few used rest =
    let n : in_use (x ∷ old) ≡ suc (in_use old) = rw (in_use-cons x old, used) in
    let large = v.large in
    let (g, e, w, vg) = add_fuel-sparse f x v (not_empty x used) (omega arith) fuel (omega arith) in
    let buckets = w.frame.buckets in
    let grew = w.grew in
    let (h, e', vh, c) = rest g vg (omega arith) in
    (
      h,
      add_all-cons_used (add_fuel (suc fuel)) x old f g used e ∙ e',
      vh,
      Collects-cons x old f g h used w c,
    )

-- The new table stays sparse, so that no call resizes again.
pub add_all-Collects :
    (fuel : ℕ) (old : List ℕ) (f : Filter)
    → IsFilter f
    → f.occupied + in_use old ≤ f.buckets / 3
    → (g : Filter) × (add_all (add_fuel (suc fuel)) old f ≡ some g) × IsFilter g × Collects f old g
unfolding add_all contains in_use
add_all-Collects fuel [] f v few = (
  f,
  refl,
  v,
  record {
    frame = record { bits = refl; buckets = refl; side = refl; other = refl };
    holds = λ y ne. refl;
    grew = omega arith;
  },
)
add_all-Collects fuel (x ∷ old) f v few = elim (Bool-cases (x == empty)) [
  | inl unused ↦
      let (g, e, vg, c) = add_all-Collects fuel old f v (rw (unused, in_use) at few) in
      (
        g,
        add_all-cons_empty (add_fuel (suc fuel)) x old f unused ∙ e,
        vg,
        Collects-empty x old f g unused c,
      )
  | inr used ↦ step_used fuel x old f v few used (add_all-Collects fuel old)
]

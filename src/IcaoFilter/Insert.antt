-- ===== src/IcaoFilter/Insert.antt =====
-- `icaoFilterAdd` up to its resize: the slot at which the probe stops, and the tables afterwards.
use hpr_readsb.Base.{ℕ, suc, ◌+◌, ◌^◌, ◌<◌, arith, ◌≡◌, ◌≢◌}
use hpr_readsb.Base.{sym, ap, ◌∙◌, true, false, List, inl, inr, ◌||◌, ◌==◌, Bool-cases}
use hpr_readsb.Base.{length, get_or, set, ==_iff, if◌then◌else◌}
use native.Mathlib.Nat.{mod-lt, one-le-pow}
use hpr_readsb.IcaoFilter.{Filter, active, empty, probe, stopped, addr_hash, occupy, store}
use hpr_readsb.IcaoFilter.Search.{slot, slot-onto, ends, Stops, probe_cases}
use hpr_readsb.IcaoFilter.Chains.{contains, in_use, IsTable, IsTable-set, contains-set, in_use-set}
use hpr_readsb.IcaoFilter.Chains.{contains_of_slot, in_use_full, slot_in}

abbrev pub hash_of : ℕ → ℕ → ℕ
hash_of bits addr = addr_hash addr bits

pub addr_hash-lt : (addr bits : ℕ) → addr_hash addr bits < 2 ^ bits
unfolding addr_hash
addr_hash-lt addr bits = mod-lt _ (one-le-pow bits 2 (omega arith))

-- The table after an address went into the slot at which its probe stopped.
abbrev pub filled : List ℕ → ℕ → ℕ → List ℕ
filled t h addr = if get_or t h 0 == empty then set t h addr else t

module _ (hash : ℕ → ℕ) (n : ℕ) where
  pub record IsFilled (t : List ℕ) (addr h : ℕ) : Type 0 where
    pub table : IsTable hash n (filled t h addr)
    pub holds : (y : ℕ) → y ≢ empty → contains (filled t h addr) y ≡ (addr == y || contains t y)
    pub counted :
        in_use (filled t h addr) ≡ (if get_or t h 0 == empty then suc (in_use t) else in_use t)

  module _ (t : List ℕ) (addr : ℕ) (valid : IsTable hash n t) (proper : addr ≢ empty)
      (hashed : hash addr < n) where
    already : (y : ℕ) → contains t addr ≡ true → contains t y ≡ (addr == y || contains t y)
    already y h = elim (Bool-cases (addr == y)) [
      | inl same ↦
          let q : addr ≡ y = (==_iff addr y).0 same in rw same (ap (contains t) (sym q) ∙ h)
      | inr other ↦ rw other
    ]

    ends-empty : (h : ℕ) → get_or t h 0 ≡ empty → ends t addr h ≡ true
    ends-empty h e = ground arith

    IsFilled-stop :
        (s : Stops t addr n (hash addr) hashed (probe t addr n (hash addr) n (hash addr)))
        → IsFilled t addr (slot n (hash addr) s.steps)
    IsFilled-stop s = elim (Bool-cases (get_or t (slot n (hash addr) s.steps) 0 == empty)) [
      | inl free ↦
          let e = (==_iff _ empty).0 free in
          let within = slot_in hash n t addr valid proper hashed s.steps in
          record {
            table = rw free (IsTable-set hash n t addr valid proper hashed s e);
            holds =
                λ y ne. rw free (contains-set t (slot n (hash addr) s.steps) addr y within e ne);
            counted = rw free (in_use-set t (slot n (hash addr) s.steps) addr within e proper);
          }
      | inr taken ↦
          let within = slot_in hash n t addr valid proper hashed s.steps in
          let end = s.end in
          let e : get_or t (slot n (hash addr) s.steps) 0 ≡ addr = ground arith in
          let held = contains_of_slot t (slot n (hash addr) s.steps) addr within e in
          record {
            table = rw taken valid;
            holds = λ y ne. rw taken (already y held);
            counted = rw taken;
          }
    ]

    -- With a slot free the probe stops, and the address goes in once.
    pub probe-IsFilled :
        in_use t < n
        → (h : ℕ) × (probe t addr n (hash addr) n (hash addr) ≡ stopped h) × IsFilled t addr h
    probe-IsFilled room = elim (probe_cases t addr n (hash addr) hashed) [
      | inl s ↦ (slot n (hash addr) s.steps, s.there, IsFilled-stop s)
      | inr w ↦
          let full : in_use t ≡ length t = in_use_full t (λ i hi z.
            let (k, hk, at) = slot-onto n (hash addr) i hashed (rw valid.size at hi) in
            let q : true ≡ false =
              sym (ends-empty (slot n (hash addr) k) (ap (λ j. get_or t j 0) at ∙ z))
              ∙ w.nowhere k hk in
            cc) in
          let size = valid.size in absurd (omega arith)
    ]

-- What `occupy` leaves where.
pub active-occupy : (f : Filter) (h addr : ℕ) → active (occupy f h addr) ≡ filled (active f) h addr
unfolding occupy store
active-occupy f h addr = ground arith

abbrev pub inactive : Filter → List ℕ
inactive f = if f.a_active then f.b else f.a

pub record SameFrame (f g : Filter) : Type 0 where
  pub bits : g.bits ≡ f.bits
  pub buckets : g.buckets ≡ f.buckets
  pub side : g.a_active ≡ f.a_active
  pub other : inactive g ≡ inactive f

pub occupy-SameFrame : (f : Filter) (h addr : ℕ) → SameFrame f (occupy f h addr)
unfolding occupy store
occupy-SameFrame f h addr = ground arith

pub occupied-occupy :
    (f : Filter) (h addr : ℕ)
    → (occupy f h addr).occupied
      ≡ (if get_or (active f) h 0 == empty then f.occupied + 1 else f.occupied)
unfolding occupy store
occupied-occupy f h addr = ground arith

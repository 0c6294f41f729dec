-- ===== src/IcaoFilter/Search.antt =====
-- The loop of `icaoFilterAdd` and `icaoFilterTest` over the slots from the hash on.
use hpr_readsb.Base.{ℕ, zero, suc, ◌+◌, ◌-◌, ◌%◌, ◌<◌, arith, ◌≡◌, ◌≢◌, ap, ◌∙◌}
use hpr_readsb.Base.{
  Bool, true, false, List, ◌⊎◌, inl, inr, ◌||◌, ◌==◌, Bool-cases, ltb, ltb→lt, ==_iff,
}
use hpr_readsb.Base.{get_or}
use native.Mathlib.Nat.{mod-add-mod}
use hpr_readsb.IcaoFilter.{empty, probe, ProbeEnd, stopped, wrapped}

-- The slot after `k` steps.
abbrev pub slot : ℕ → ℕ → ℕ → ℕ
slot n h0 k = (h0 + k) % n

-- What ends a probe at a slot.
abbrev pub ends : List ℕ → ℕ → ℕ → Bool
ends t addr h = get_or t h 0 == empty || get_or t h 0 == addr

pub slot-suc : (n h0 k : ℕ) → (slot n h0 k + 1) % n ≡ slot n h0 (k + 1)
slot-suc n h0 k =
    mod-add-mod (h0 + k) n 1
    ∙ ap (λ t. t % n) (let e : h0 + k + 1 ≡ h0 + (k + 1) = omega arith in e)

pub slot-last : (n h0 : ℕ) → h0 < n → slot n h0 n ≡ h0
slot-last n h0 h = grind arith

pub slot-ne : (n h0 k : ℕ) → h0 < n → 0 < k → k < n → slot n h0 k ≢ h0
slot-ne n h0 k h p q = grind arith

-- Every slot is reached.
pub slot-onto : (n h0 i : ℕ) → h0 < n → i < n → (k : ℕ) × (k < n) × (slot n h0 k ≡ i)
slot-onto n h0 i h hi = elim (Bool-cases (ltb i h0)) [
  | inl below ↦ (i + n - h0, ground arith, grind arith)
  | inr above ↦ (i - h0, ground arith, grind arith)
]

module _ (t : List ℕ) (addr n h0 : ℕ) (in_table : h0 < n) where
  -- A probe that stopped after `steps` steps, at the first slot that ends it.
  pub record Stops (r : ProbeEnd) : Type 0 where
    pub steps : ℕ
    pub within : steps < n
    pub there : r ≡ stopped (slot n h0 steps)
    pub end : ends t addr (slot n h0 steps) ≡ true
    pub before : (j : ℕ) → j < steps → ends t addr (slot n h0 j) ≡ false

  -- A probe that came round: no slot ends it.
  pub record Wraps (r : ProbeEnd) : Type 0 where
    pub round : r ≡ wrapped
    pub nowhere : (j : ℕ) → j < n → ends t addr (slot n h0 j) ≡ false

  abbrev PassedTo : ℕ → Type 0
  PassedTo k = (j : ℕ) → j < k → ends t addr (slot n h0 j) ≡ false

  passed_on : (k : ℕ) → PassedTo k → ends t addr (slot n h0 k) ≡ false → PassedTo (k + 1)
  passed_on k past here j h = elim (Bool-cases (j == k)) [
    | inl same ↦ let e : j ≡ k = (==_iff j k).0 same in rw e here
    | inr other ↦ past j (ground arith)
  ]

  last_step : (k : ℕ) → k < n → (slot n h0 (k + 1) == h0) ≡ true → k + 1 ≡ n
  last_step k h e = elim (Bool-cases (ltb (k + 1) n)) [
    | inl short ↦
        absurd
          (slot-ne n h0 (k + 1) in_table (omega arith) (ltb→lt (k + 1) n short) ((==_iff _ h0).0 e))
    | inr long ↦ ground arith
  ]

  not_last : (k : ℕ) → k < n → (slot n h0 (k + 1) == h0) ≡ false → k + 1 < n
  not_last k h e = elim (Bool-cases (ltb (k + 1) n)) [
    | inl short ↦ ltb→lt (k + 1) n short
    | inr long ↦
        let q : k + 1 ≡ n = ground arith in
        let back : (slot n h0 (k + 1) == h0) ≡ true =
          (==_iff (slot n h0 (k + 1)) h0).1 (rw q (slot-last n h0 in_table)) in
        absurd (cc)
  ]

  probe_from :
      (fuel k : ℕ)
      → k + fuel ≡ n
      → k < n
      → PassedTo k
      → Stops (probe t addr n h0 fuel (slot n h0 k)) ⊎ Wraps (probe t addr n h0 fuel (slot n h0 k))
  unfolding probe
  probe_from zero k e h past = absurd (omega arith)
  probe_from (suc fuel) k e h past = elim (Bool-cases (ends t addr (slot n h0 k))) [
    | inl stops ↦
        inl
          (record { steps = k; within = h; there = rw (stops, probe); end = stops; before = past })
    | inr goes_on ↦ elim (Bool-cases (slot n h0 (k + 1) == h0)) [
      | inl round ↦ inr (record {
        round = rw (goes_on, probe, slot-suc n h0 k, round);
        nowhere =
            let q : k + 1 ≡ n = last_step k h round in
            λ j hj. passed_on k past goes_on j (omega arith);
      })
      | inr further ↦
          let more : k + 1 < n = not_last k h further in
          rw (goes_on, probe, slot-suc n h0 k, further, slot-suc n h0 k)
            (probe_from fuel (k + 1) (omega arith) more (passed_on k past goes_on))
    ]
  ]

  -- The probe of a table: it ends, one way or the other.
  pub probe_cases : Stops (probe t addr n h0 n h0) ⊎ Wraps (probe t addr n h0 n h0)
  probe_cases =
      let e : slot n h0 0 ≡ h0 = grind arith in
      rw e at (probe_from n 0 (omega arith) (omega arith) (λ j h. absurd (omega arith)))

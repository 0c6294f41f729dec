-- ===== src/IcaoFilter/Chains.antt =====
-- The invariant of one table: whatever it holds is found by a probe from its hash, since no slot
-- on the way is empty. Storing an address at the end of its probe keeps it.
use hpr_readsb.Base.{ℕ, zero, suc, ◌<◌, arith, refl, ◌≡◌, ◌≢◌, sym, ap, ◌∙◌}
use hpr_readsb.Base.{Bool, true, false, List, [], ◌∷◌, inl, inr, ◌||◌, ◌==◌, Bool-cases}
use hpr_readsb.Base.{
  length, get_or, set, replicate, subst, ==_iff, ltb, ltb→lt, if◌then◌else◌, length-set,
}
use hpr_readsb.Base.{get_or-set_self, get_or-set_ne, get_or-replicate_lt, length-replicate}
use hpr_readsb.IcaoFilter.{empty, probe, test_table}
use hpr_readsb.IcaoFilter.Search.{slot, ends, slot-onto, Stops, probe_cases}

-- Does the table hold the address?
unfoldable pub contains : List ℕ → ℕ → Bool
contains [] addr = false
contains (x ∷ t) addr = x == addr || contains t addr

-- How many slots are in use.
unfoldable pub in_use : List ℕ → ℕ
in_use [] = 0
in_use (x ∷ t) = if x == empty then in_use t else suc (in_use t)

pub contains_of_slot :
    (t : List ℕ) (i addr : ℕ) → i < length t → get_or t i 0 ≡ addr → contains t addr ≡ true
unfolding contains
contains_of_slot [] i addr h e = absurd (omega arith)
contains_of_slot (x ∷ t) zero addr h e = ground arith
contains_of_slot (x ∷ t) (suc i) addr h e =
    ground (arith, contains_of_slot t i addr (omega arith) e)

pub slot_of_contains :
    (t : List ℕ) (addr : ℕ)
    → contains t addr ≡ true
    → (i : ℕ) × (i < length t) × (get_or t i 0 ≡ addr)
unfolding contains
slot_of_contains [] addr h = absurd (cc)
slot_of_contains (x ∷ t) addr h = elim (Bool-cases (x == addr)) [
  | inl here ↦ (0, omega arith, (==_iff x addr).0 here)
  | inr there ↦
      let (i, hi, e) = slot_of_contains t addr (rw (there, contains) at h) in
      (suc i, omega arith, e)
]

pub contains-set :
    (t : List ℕ) (i x addr : ℕ)
    → i < length t
    → get_or t i 0 ≡ empty
    → addr ≢ empty
    → contains (set t i x) addr ≡ (x == addr || contains t addr)
unfolding contains
contains-set [] i x addr h e ne = absurd (omega arith)
contains-set (y ∷ t) zero x addr h e ne = ground arith
contains-set (y ∷ t) (suc i) x addr h e ne =
    ground (arith, contains-set t i x addr (omega arith) e ne)

pub in_use-set :
    (t : List ℕ) (i x : ℕ)
    → i < length t
    → get_or t i 0 ≡ empty
    → x ≢ empty
    → in_use (set t i x) ≡ suc (in_use t)
unfolding in_use
in_use-set [] i x h e ne = absurd (omega arith)
in_use-set (y ∷ t) zero x h e ne = ground arith
in_use-set (y ∷ t) (suc i) x h e ne = ground (arith, in_use-set t i x (omega arith) e ne)

-- With no slot empty every slot is in use.
pub in_use_full :
    (t : List ℕ) → ((i : ℕ) → i < length t → get_or t i 0 ≢ empty) → in_use t ≡ length t
unfolding in_use
in_use_full [] h = refl
in_use_full (x ∷ t) h = ground (arith, h 0, in_use_full t (λ i hi. h (suc i) (omega arith)))

pub contains-replicate : (n addr : ℕ) → addr ≢ empty → contains (replicate n empty) addr ≡ false
unfolding contains
contains-replicate zero addr h = refl
contains-replicate (suc n) addr h = ground (arith, contains-replicate n addr h)

pub in_use-replicate : (n : ℕ) → in_use (replicate n empty) ≡ 0
unfolding in_use
in_use-replicate zero = refl
in_use-replicate (suc n) = ground (arith, in_use-replicate n)

module _ (hash : ℕ → ℕ) (n : ℕ) where
  -- A chain of used slots from the hash of `x` to slot `i`.
  pub record Chain (t : List ℕ) (x i : ℕ) : Type 0 where
    pub steps : ℕ
    pub within : steps < n
    pub there : slot n (hash x) steps ≡ i
    pub used : (k : ℕ) → k < steps → get_or t (slot n (hash x) k) 0 ≢ empty

  -- Each slot in use is at the end of a chain.
  pub record IsTable (t : List ℕ) : Type 0 where
    pub size : length t ≡ n
    pub chains : (i x : ℕ) → i < n → get_or t i 0 ≡ x → x ≢ empty → Chain t x i

  pub IsTable-cleared : IsTable (replicate n empty)
  IsTable-cleared = record {
    size = length-replicate n empty;
    chains = λ i x h e ne. absurd (ne (sym e ∙ get_or-replicate_lt n i empty 0 h));
  }

  module _ (t : List ℕ) (addr : ℕ) (valid : IsTable t) (proper : addr ≢ empty)
      (hashed : hash addr < n) where
    ends_of_eq : (h : ℕ) → get_or t h 0 ≡ addr → ends t addr h ≡ true
    ends_of_eq h e = ground arith

    ends-empty : (h : ℕ) → get_or t h 0 ≡ empty → ends t addr h ≡ true
    ends-empty h e = ground arith

    pub slot_in : (k : ℕ) → slot n (hash addr) k < length t
    slot_in k = let size = valid.size in grind arith

    -- An address that the table holds is found on the way, in front of any empty slot.
    found_first :
        (i s : ℕ)
        → i < n
        → get_or t i 0 ≡ addr
        → ((j : ℕ) → j < s → ends t addr (slot n (hash addr) j) ≡ false)
        → get_or t (slot n (hash addr) s) 0 ≡ empty
        → ⊥
    found_first i s hi e before stop =
        let c = valid.chains i addr hi e proper in
        let here : get_or t (slot n (hash addr) c.steps) 0 ≡ addr =
          ap (λ k. get_or t k 0) c.there ∙ e in
        elim (Bool-cases (ltb c.steps s)) [
          | inl early ↦
              let b = before c.steps (ltb→lt c.steps s early) in
              let b' : true ≡ false = sym (ends_of_eq (slot n (hash addr) c.steps) here) ∙ b in cc
          | inr late ↦ elim (Bool-cases (c.steps == s)) [
            | inl same ↦
                let q : c.steps ≡ s = (==_iff c.steps s).0 same in
                proper (sym here ∙ (ap (λ k. get_or t (slot n (hash addr) k) 0) q ∙ stop))
            | inr later ↦ c.used s (ground arith) stop
          ]
        ]

    not_held : ((i : ℕ) → i < n → get_or t i 0 ≡ addr → ⊥) → contains t addr ≡ false
    not_held none_there = elim (Bool-cases (contains t addr)) [
      | inr away ↦ away
      | inl held ↦
          let (i, hi, e) = slot_of_contains t addr held in
          absurd (none_there i (rw valid.size at hi) e)
    ]

    not_at : contains t addr ≡ false → (get_or t (hash addr) 0 == addr) ≡ false
    not_at away = elim (Bool-cases (get_or t (hash addr) 0 == addr)) [
      | inr other ↦ other
      | inl here ↦
          let held =
            contains_of_slot t (hash addr) addr (rw valid.size hashed) ((==_iff _ addr).0 here) in
          let q : true ≡ false = sym held ∙ away in absurd (cc)
    ]

    pub stopped_at_empty :
        (s : Stops t addr n (hash addr) hashed (probe t addr n (hash addr) n (hash addr)))
        → (get_or t (slot n (hash addr) s.steps) 0 == addr) ≡ false
        → get_or t (slot n (hash addr) s.steps) 0 ≡ empty
    stopped_at_empty s miss = let e = s.end in ground arith

    -- A probe finds the address if the table holds it.
    pub test_table-contains : test_table t addr n (hash addr) ≡ contains t addr
    unfolding test_table
    test_table-contains = elim (probe_cases t addr n (hash addr) hashed) [
      | inl s ↦ elim (Bool-cases (get_or t (slot n (hash addr) s.steps) 0 == addr)) [
        | inl hit ↦
            rw (s.there, test_table, hit)
              (sym (
                contains_of_slot t (slot n (hash addr) s.steps) addr (slot_in s.steps)
                  ((==_iff _ addr).0 hit)))
        | inr miss ↦ rw (
          s.there,
          test_table,
          miss,
          not_held (λ i hi e. found_first i s.steps hi e s.before (stopped_at_empty s miss)),
        )
      ]
      | inr w ↦
          let away : contains t addr ≡ false = not_held (λ i hi e.
            let (k, hk, at) = slot-onto n (hash addr) i hashed hi in
            let q : true ≡ false =
              sym (ends_of_eq (slot n (hash addr) k) (ap (λ j. get_or t j 0) at ∙ e))
              ∙ w.nowhere k hk in
            cc) in
          let at_h0 : (get_or t (hash addr) 0 == addr) ≡ false = not_at away in
          rw (w.round, test_table, away, at_h0)
    ]

    module _ (s : Stops t addr n (hash addr) hashed (probe t addr n (hash addr) n (hash addr)))
        (free : get_or t (slot n (hash addr) s.steps) 0 ≡ empty) where
      abbrev place : ℕ
      place = slot n (hash addr) s.steps

      stored : get_or (set t place addr) place 0 ≡ addr
      stored = get_or-set_self t place addr 0 (slot_in s.steps)

      still_used : (m : ℕ) → get_or t m 0 ≢ empty → get_or (set t place addr) m 0 ≢ empty
      still_used m h = elim (Bool-cases (place == m)) [
        | inl same ↦
            let q : place ≡ m = (==_iff place m).0 same in
            λ z. proper (sym stored ∙ (ap (λ k. get_or (set t place addr) k 0) q ∙ z))
        | inr other ↦ λ z. h (
            sym (
              get_or-set_ne t place m addr 0
                (λ q. let q' : (place == m) ≡ true = (==_iff place m).1 q in cc))
            ∙ z)
      ]

      used_before : (k : ℕ) → k < s.steps → get_or t (slot n (hash addr) k) 0 ≢ empty
      used_before k h =
          let b = s.before k h in
          λ z. let b' : true ≡ false = sym (ends-empty (slot n (hash addr) k) z) ∙ b in cc

      new-Chain : (x : ℕ) → addr ≡ x → Chain (set t place addr) x place
      new-Chain x e =
          subst (λ y. Chain (set t place addr) y place) e
            (record {
              steps = s.steps;
              within = s.within;
              there = refl;
              used = λ k h. still_used (slot n (hash addr) k) (used_before k h);
            })

      old-Chain : (x j : ℕ) → Chain t x j → Chain (set t place addr) x j
      old-Chain x j c = record {
        steps = c.steps;
        within = c.within;
        there = c.there;
        used = λ k h. still_used (slot n (hash x) k) (c.used k h);
      }

      -- Storing the address at the end of its probe keeps every chain, and makes one for it.
      pub IsTable-set : IsTable (set t place addr)
      IsTable-set = record {
        size = length-set t place addr ∙ valid.size;
        chains = λ j x hj e ne. elim (Bool-cases (place == j)) [
          | inl same ↦
              let q : place ≡ j = (==_iff place j).0 same in
              subst (Chain (set t place addr) x) q
                (new-Chain x (sym stored ∙ (ap (λ k. get_or (set t place addr) k 0) q ∙ e)))
          | inr other ↦
              let q : place ≢ j =
                λ w. (let w' : (place == j) ≡ true = (==_iff place j).1 w in cc) in
              old-Chain x j (valid.chains j x hj (sym (get_or-set_ne t place j addr 0 q) ∙ e) ne)
        ];
      }

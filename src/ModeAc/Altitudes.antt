-- ===== src/ModeAc/Altitudes.antt =====
-- mode_ac.c: the loop of `modeACInit`, and the conversions by its tables.
use hpr_readsb.Base.{ℕ, zero, suc, ◌+◌, ◌≤◌, ◌<◌, bit_xor}
use hpr_readsb.Base.{true, false, arith, ◌≡◌, ◌≢◌, sym, ap, ◌∙◌}
use hpr_readsb.Base.{ltb, leb, get_or, length, length-set}
use hpr_readsb.Base.{
  length-replicate, get_or-set_self, get_or-set_ne, get_or-replicate_lt, Bool-cases,
}
use hpr_readsb.Base.{◌⊎◌, inl, inr, ltb→lt}
use hpr_readsb.Base.Int.{ℤ, pos, sub_ℕ}
use hpr_readsb.ModeAc.{index_to_mode_a, mode_a_to_index, internal_mode_a_to_mode_c, mode_c_index}
use hpr_readsb.ModeAc.{
  AcTables, init_loop, init_step, mode_ac_init, mode_a_to_mode_c, mode_c_to_mode_a,
}
use hpr_readsb.ModeAc.Gillham.{gillham, index_of, index_of-gillham, gillham-index, count_bits}
use hpr_readsb.ModeAc.Gillham.{gillham-count_bits, mode_a_to_index-index_to_mode_a}

-- What the rounds of the loop below `n` leave in the tables.
record IsFilled (n : ℕ) (t : AcTables) : Type 0 where
  pub a_size : length t.a_to_c ≡ 4096
  pub c_size : length t.c_to_a ≡ 4096
  pub a_done :
      (i : ℕ) → i < n → get_or t.a_to_c i (pos 0) ≡ internal_mode_a_to_mode_c (index_to_mode_a i)
  pub c_done :
      (c : ℕ) → 0 < c → c < 1281 → mode_a_to_index (gillham c) < n → get_or t.c_to_a c 0 ≡ gillham c
  pub c_left :
      (c : ℕ) → 0 < c → c < 1281 → n ≤ mode_a_to_index (gillham c) → get_or t.c_to_a c 0 ≡ 0

split_lt : (i n : ℕ) → i < suc n → (i ≡ n) ⊎ (i < n)
split_lt i n h = ground arith

module _ (n : ℕ) (t : AcTables) (done : IsFilled n t) (below : n < 4096) where
  abbrev next : AcTables
  next = init_step n t

  a_next :
      (i : ℕ)
      → i < suc n
      → get_or next.a_to_c i (pos 0) ≡ internal_mode_a_to_mode_c (index_to_mode_a i)
  unfolding init_step
  a_next i h = elim (split_lt i n h) [
    | inl same ↦
        let size = done.a_size in
        rw same (
          get_or-set_self t.a_to_c n (internal_mode_a_to_mode_c (index_to_mode_a n)) (pos 0)
            (omega arith))
    | inr less ↦
        get_or-set_ne t.a_to_c n i (internal_mode_a_to_mode_c (index_to_mode_a n)) (pos 0)
          (λ e. omega arith)
        ∙ done.a_done i less
  ]

  -- The round for the code of altitude `c` writes it.
  c_here :
      (c : ℕ)
      → 0 < c
      → c < 1281
      → mode_a_to_index (gillham c) ≡ n
      → get_or next.c_to_a c 0 ≡ gillham c
  unfolding init_step
  c_here c l h e =
      let (back, code, small) = gillham-index c l h in
      let own : index_to_mode_a n ≡ gillham c = ap index_to_mode_a (sym e) ∙ code in
      let at : mode_c_index (internal_mode_a_to_mode_c (gillham c)) ≡ c = back in
      let size = done.c_size in
      let within : ltb c 4096 ≡ true = ground arith in
      rw (own, at, within) (get_or-set_self t.c_to_a c (gillham c) 0 (omega arith))

  -- Another round leaves it.
  c_other :
      (c : ℕ)
      → 0 < c
      → c < 1281
      → mode_a_to_index (gillham c) ≢ n
      → get_or next.c_to_a c 0 ≡ get_or t.c_to_a c 0
  unfolding init_step
  c_other c l h ne = elim (Bool-cases (ltb (index_of n) 4096)) [
    | inr none ↦ rw none
    | inl some ↦
        let (above, most, code) = index_of-gillham n below (ltb→lt (index_of n) 4096 some) in
        rw some (
          get_or-set_ne t.c_to_a (index_of n) c (index_to_mode_a n) 0 (λ e. ne (
            ap mode_a_to_index (sym (ap gillham e))
            ∙ (ap mode_a_to_index code ∙ mode_a_to_index-index_to_mode_a n below))))
  ]

  IsFilled-next : IsFilled (suc n) next
  unfolding init_step
  IsFilled-next = record {
    a_size = length-set t.a_to_c n (internal_mode_a_to_mode_c (index_to_mode_a n)) ∙ done.a_size;
    c_size = elim (Bool-cases (ltb (index_of n) 4096)) [
      | inl some ↦ rw some (length-set t.c_to_a (index_of n) (index_to_mode_a n) ∙ done.c_size)
      | inr none ↦ rw none done.c_size
    ];
    a_done = a_next;
    c_done = λ c l h i. elim (split_lt (mode_a_to_index (gillham c)) n i) [
      | inl same ↦ c_here c l h same
      | inr less ↦ c_other c l h (λ e. omega arith) ∙ done.c_done c l h less
    ];
    c_left = λ c l h i. c_other c l h (λ e. omega arith) ∙ done.c_left c l h (omega arith);
  }

init_loop-IsFilled : (n : ℕ) → n ≤ 4096 → IsFilled n (init_loop n)
unfolding init_loop
init_loop-IsFilled zero h = record {
  a_size = length-replicate 4096 (pos 0);
  c_size = length-replicate {A = ℕ} 4096 0;
  a_done = λ i l. absurd (omega arith);
  c_done = λ c l m i. absurd (omega arith);
  c_left = λ c l m i. get_or-replicate_lt 4096 c 0 0 (omega arith);
}
init_loop-IsFilled (suc n) h =
    IsFilled-next n (init_loop n) (init_loop-IsFilled n (omega arith)) (omega arith)

mode_ac_init-IsFilled : IsFilled 4096 mode_ac_init
unfolding mode_ac_init
mode_ac_init-IsFilled = init_loop-IsFilled 4096 (omega arith)

-- The table gives what the decoder of a code gives.
pub mode_a_to_mode_c-internal_mode_a_to_mode_c :
    (i : ℕ)
    → i < 4096
    → mode_a_to_mode_c mode_ac_init (index_to_mode_a i)
      ≡ internal_mode_a_to_mode_c (index_to_mode_a i)
unfolding mode_a_to_mode_c
mode_a_to_mode_c-internal_mode_a_to_mode_c i h =
    let within : leb 4096 i ≡ false = ground arith in
    rw (mode_a_to_index-index_to_mode_a i h, within) (mode_ac_init-IsFilled.a_done i h)

-- The code in the table for altitude number `c` is its Gillham code.
pub c_table :
    (m : ℤ)
    → 0 < mode_c_index m
    → mode_c_index m < 1281
    → mode_c_to_mode_a mode_ac_init m ≡ gillham (mode_c_index m)
unfolding mode_c_to_mode_a
c_table m l h =
    let (back, code, small) = gillham-index (mode_c_index m) l h in
    let within : ltb (mode_c_index m) 4096 ≡ true = ground arith in
    rw within (mode_ac_init-IsFilled.c_done (mode_c_index m) l h small)

-- After modeACInit, for each of the 4096 Mode A codes that modeAToModeC reads as an altitude,
-- modeCToModeA of that altitude is the code.
pub mode_c_to_mode_a-mode_a_to_mode_c :
    (i : ℕ)
    → i < 4096
    → mode_c_index (mode_a_to_mode_c mode_ac_init (index_to_mode_a i)) < 4096
    → mode_c_to_mode_a mode_ac_init (mode_a_to_mode_c mode_ac_init (index_to_mode_a i))
      ≡ index_to_mode_a i
mode_c_to_mode_a-mode_a_to_mode_c i h valid =
    let e = mode_a_to_mode_c-internal_mode_a_to_mode_c i h in
    let (l, m, code) = index_of-gillham i h (rw e at valid) in
    ap (mode_c_to_mode_a mode_ac_init) e
    ∙ (c_table (internal_mode_a_to_mode_c (index_to_mode_a i)) l m ∙ code)

mode_c_index-sub_ℕ : (c : ℕ) → 0 < c → c < 1281 → mode_c_index (sub_ℕ c 13) ≡ c
unfolding mode_c_index
mode_c_index-sub_ℕ c l h = ground arith

-- After modeACInit, modeCToModeA of an altitude from -1200 to 126700 feet, in hundreds of feet,
-- is the code that an encoder of the reflected binary code by 500 feet and of the five reflected
-- steps of 100 feet gives.
pub mode_c_to_mode_a-gillham :
    (c : ℕ) → 0 < c → c < 1281 → mode_c_to_mode_a mode_ac_init (sub_ℕ c 13) ≡ gillham c
mode_c_to_mode_a-gillham c l h =
    let e = mode_c_index-sub_ℕ c l h in c_table (sub_ℕ c 13) (rw e l) (rw e h) ∙ ap gillham e

-- After modeACInit, the codes that modeCToModeA gives for two altitudes 100 feet apart, from
-- -1200 to 126700 feet, differ in exactly one bit.
pub mode_c_to_mode_a-count_bits :
    (c : ℕ)
    → 0 < c
    → c < 1280
    → count_bits 16 (
        bit_xor
          (mode_c_to_mode_a mode_ac_init (sub_ℕ c 13))
          (mode_c_to_mode_a mode_ac_init (sub_ℕ (c + 1) 13)))
      ≡ 1
mode_c_to_mode_a-count_bits c l h =
    rw
      (
        mode_c_to_mode_a-gillham c l (omega arith),
        mode_c_to_mode_a-gillham (c + 1) (omega arith) (omega arith),
      )
      (gillham-count_bits c l h)

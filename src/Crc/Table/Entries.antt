-- ===== src/Crc/Table/Entries.antt =====
-- crc.c: the entries that `prepareErrorTable` leaves in its table.
use hpr_readsb.Base.{ℕ, zero, suc, ◌+◌, ◌-◌, ◌≤◌, bit_xor, arith, refl, ◌≡◌, ap}
use hpr_readsb.Base.{subst}
use hpr_readsb.Base.{Bool, true, false, Option, none, some, List, [], ◌∷◌, ◌++◌, All, length, set}
use hpr_readsb.Base.{get_elem?, ltb, leb, ◌==◌, ◌||◌, if◌then◌else◌, Bool-cases, Option-cases}
use hpr_readsb.Base.{◌⊎◌, inl, inr, length-append, All-append}
use hpr_readsb.Base.Int.{negsuc, is_neg_one}
use hpr_readsb.Crc.{single_bit_syndrome}
use hpr_readsb.Crc.Table.{ErrorInfo, prepare_subtable, extend_entry, drop_runs, drop_flagged}
use hpr_readsb.Crc.Table.{SortAndSearch, Flagged, flag_collision, flag_collisions, drop_ambiguous}
use hpr_readsb.Crc.Table.{resolve_collisions, base_entry, ◌>>=◌}
use hpr_readsb.Crc.Table.Patterns.{Names, IsPattern, syndrome_of, extend_entry-Names}

pub >>=-eq-some {ℓ κ} :
    {A : Type ℓ} {B : Type κ} (m : Option A) (f : A → Option B) {b : B}
    → (m >>= f) ≡ some b
    → (a : A) × (m ≡ some a) × (f a ≡ some b)
>>=-eq-some none f h = absurd (cc)
>>=-eq-some (some a) f h = (a, refl, h)

All-empty {ℓ κ} :
    {A : Type ℓ} (P : A → Type κ) {t : List A}
    → ◌≡◌ {A = Option (List A)} (some []) (some t)
    → All P t
All-empty {A} P {t} h = let e : ◌≡◌ {A = List A} [] t = cc in subst (All P) e tt

module _ (maxsize offset : ℕ) where
  -- What a pass of the loop of `prepareSubtable` writes.
  prepare_subtable-suc :
      (left rounds n i : ℕ) (base : ErrorInfo) (error_bit : ℕ) {t : List ErrorInfo}
      → prepare_subtable maxsize offset (suc left) (suc rounds) n i base error_bit ≡ some t
      → let entry = extend_entry offset base i error_bit in
        (under : List ErrorInfo) × (prepare_subtable maxsize offset left rounds
            (n + 1)
            (i + 1)
            entry
            (error_bit + 1)
          ≡ some under)
        × (rest : List ErrorInfo) × (prepare_subtable maxsize offset
              (suc left)
              rounds
              (n + 1 + length under)
              (i + 1)
              base
              error_bit
            ≡ some rest)
        × (entry ∷ (under ++ rest) ≡ t)
  unfolding prepare_subtable
  prepare_subtable-suc left rounds n i base error_bit h = elim (Bool-cases (ltb n maxsize)) [
    | inr full ↦ absurd (cc (rw (full, prepare_subtable) at h))
    | inl fits ↦
        let (under, hu, h1) = >>=-eq-some _ _ (rw (fits, prepare_subtable) at h) in
        let (rest, hr, h2) = >>=-eq-some _ _ h1 in (under, hu, rest, hr, cc)
  ]

  module _ (bits : ℕ) where
    -- The entries below a base entry name the base's bits and more, all before the loop's end.
    pub prepare_subtable-IsPattern :
        (left rounds room n i : ℕ) {places : List ℕ} (base : ErrorInfo) (error_bit : ℕ)
        {t : List ErrorInfo}
        → Names offset bits room places base
        → left ≤ room
        → length places ≡ error_bit
        → i + rounds ≤ bits
        → prepare_subtable maxsize offset left rounds n i base error_bit ≡ some t
        → All (IsPattern offset bits) t
    unfolding prepare_subtable
    prepare_subtable-IsPattern zero rounds room n i base error_bit v hr hl hi h =
        All-empty (IsPattern offset bits) h
    prepare_subtable-IsPattern (suc left) zero room n i base error_bit v hr hl hi h =
        All-empty (IsPattern offset bits) h
    prepare_subtable-IsPattern (suc left) (suc rounds) zero n i base error_bit v hr hl hi h =
        absurd (omega arith)
    prepare_subtable-IsPattern (suc left) (suc rounds) (suc room) n i {places} base error_bit v hr
          hl hi h =
        let (under, hu, rest, ht, e) = prepare_subtable-suc left rounds n i base error_bit h in
        let ps = places ++ (i ∷ []) in
        let entry = extend_entry offset base i error_bit in
        let v' : Names offset bits room ps entry =
          extend_entry-Names i error_bit v hl (omega arith) in
        subst (All (IsPattern offset bits)) e (
          record { room = room; places = ps; names = v' },
          All-append (IsPattern offset bits) under rest
              (prepare_subtable-IsPattern left rounds room (n + 1) (i + 1) {places = ps} entry
                (error_bit + 1) v' (omega arith) (omega (arith, length-append places (i ∷ [])))
                (omega arith) hu)
              (prepare_subtable-IsPattern (suc left) rounds (suc room) (n + 1 + length under)
                (i + 1) {places = places} base error_bit v hr hl (omega arith) ht),
        )

pub base_entry-Names : (offset bits : ℕ) → Names offset bits 2 [] base_entry
unfolding syndrome_of
base_entry-Names offset bits = record { count = refl; named = refl; sum = refl; below = tt }

-- The sorts and searches that the code relies on: sorting moves entries about and makes none up,
-- and a search that finds something finds an entry with that syndrome.
pub record IsSortAndSearch (lib : SortAndSearch) : Type 1 where
  pub sorts : (P : ErrorInfo → Type 0) (t : List ErrorInfo) → All P t → All P (lib.qsort t)
  pub finds :
      (s k : ℕ) (t : List ErrorInfo)
      → lib.bsearch s t ≡ some k
      → (e : ErrorInfo) × (get_elem? t k ≡ some e) × (e.syndrome ≡ s)

module _ (P : ErrorInfo → Type 0) where
  -- An entry that is kept or flagged.
  abbrev KeptOrFlagged : ErrorInfo → Type 0
  KeptOrFlagged e = P e ⊎ (e.errors ≡ negsuc 0)

  All-if : (b : Bool) (xs ys : List ErrorInfo) → All P xs → All P ys → All P (if b then xs else ys)
  All-if true xs ys h k = h
  All-if false xs ys h k = k

  drop_runs-All : (dropping : Bool) (t : List ErrorInfo) → All P t → All P (drop_runs dropping t)
  unfolding drop_runs
  drop_runs-All dropping [] h = tt
  drop_runs-All dropping (e ∷ []) h = All-if dropping [] (e ∷ []) tt h
  drop_runs-All dropping (e ∷ f ∷ r) h =
      let rest = drop_runs-All (f.syndrome == e.syndrome) (f ∷ r) h.1 in
      All-if (f.syndrome == e.syndrome || dropping) _ _ rest (h.0, rest)

  not_flagged : (e : ErrorInfo) → KeptOrFlagged e → is_neg_one e.errors ≡ false → P e
  not_flagged e (inl h) k = h
  not_flagged e (inr h) k = absurd (cc (ap is_neg_one h))

  drop_flagged-All : (t : List ErrorInfo) → All KeptOrFlagged t → All P (drop_flagged t)
  unfolding drop_flagged
  drop_flagged-All [] h = tt
  drop_flagged-All (e ∷ r) h = elim (Bool-cases (is_neg_one e.errors)) [
    | inl flagged ↦ rw flagged (drop_flagged-All r h.1)
    | inr kept ↦ rw kept (not_flagged e h.0 kept, drop_flagged-All r h.1)
  ]

  All-set :
      (t : List ErrorInfo) (k : ℕ) (e : ErrorInfo)
      → All KeptOrFlagged t
      → KeptOrFlagged e
      → All KeptOrFlagged (set t k e)
  All-set [] k e h he = tt
  All-set (x ∷ t) zero e h he = (he, h.1)
  All-set (x ∷ t) (suc k) e h he = (h.0, All-set t k e h.1 he)

  -- With no flag raised the table is as it was.
  record IsKept (s : Flagged) : Type 0 where
    each : All KeptOrFlagged s.table
    unflagged : s.count ≡ 0 → All P s.table

  module _ (lib : SortAndSearch) where
    flag_collision-IsKept :
        (syndrome : ℕ) (s : Flagged) → IsKept s → IsKept (flag_collision lib syndrome s)
    unfolding flag_collision
    flag_collision-IsKept syndrome s v = elim (Option-cases (lib.bsearch syndrome s.table)) [
      | inl e ↦ rw (e, flag_collision) v
      | inr (k, e) ↦ elim (Option-cases (get_elem? s.table k)) [
        | inl g ↦ rw (e, flag_collision, g) v
        | inr (x, g) ↦ elim (Bool-cases (is_neg_one x.errors)) [
          | inl n ↦ rw (e, flag_collision, g, n) v
          | inr n ↦
              rw (e, flag_collision, g, n)
                (record {
                  each = All-set s.table k (record x { errors = negsuc 0 }) v.each (inr refl);
                  unflagged = λ z. absurd (omega arith);
                })
        ]
      ]
    ]

    IsKept-if : (b : Bool) {s t : Flagged} → IsKept s → IsKept t → IsKept (if b then s else t)
    IsKept-if true h k = h
    IsKept-if false h k = k

    flag_collisions-IsKept :
        (offset first_error left rounds i base error_bit : ℕ) (s : Flagged)
        → IsKept s
        → IsKept (flag_collisions lib offset first_error left rounds i base error_bit s)
    unfolding flag_collisions
    flag_collisions-IsKept offset first_error zero rounds i base error_bit s v = v
    flag_collisions-IsKept offset first_error (suc left) zero i base error_bit s v = v
    flag_collisions-IsKept offset first_error (suc left) (suc rounds) i base error_bit s v =
        let syndrome = bit_xor base (single_bit_syndrome (i + offset)) in
        let v1 = IsKept-if (leb first_error error_bit) (flag_collision-IsKept syndrome s v) v in
        flag_collisions-IsKept offset first_error (suc left) rounds (i + 1) base error_bit _ (
          flag_collisions-IsKept offset first_error left rounds (i + 1) syndrome (error_bit + 1) _
            v1)

    All-kept : (t : List ErrorInfo) → All P t → All KeptOrFlagged t
    All-kept [] h = tt
    All-kept (e ∷ t) h = (inl h.0, All-kept t h.1)

    finish :
        (s : Flagged) → IsKept s → All P (if ltb 0 s.count then drop_flagged s.table else s.table)
    finish s v = elim (Bool-cases (ltb 0 s.count)) [
      | inl some_flags ↦ rw some_flags (drop_flagged-All s.table v.each)
      | inr no_flags ↦ rw no_flags (v.unflagged (ground arith))
    ]

    drop_ambiguous-All :
        (bits max_correct max_detect : ℕ) (t : List ErrorInfo)
        → All P t
        → All P (drop_ambiguous lib bits max_correct max_detect t)
    unfolding drop_ambiguous
    drop_ambiguous-All bits max_correct max_detect t h =
        let start : Flagged = record { table = t; count = 0 } in
        finish _ (
          flag_collisions-IsKept (112 - bits) (max_correct + 1) max_detect (bits - 5) 5 0 1 start
            (record { each = All-kept t h; unflagged = λ z. h }))

    pub resolve_collisions-All :
        (bits max_correct max_detect : ℕ) (t : List ErrorInfo)
        → All P t
        → All P (resolve_collisions lib bits max_correct max_detect t)
    unfolding resolve_collisions
    resolve_collisions-All bits max_correct max_detect t h =
        let used = drop_runs-All false t h in
        All-if (ltb max_correct max_detect) _ _
          (drop_ambiguous-All bits max_correct max_detect (drop_runs false t) used) used

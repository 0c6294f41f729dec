-- ===== src/Crc/Table.antt =====
-- crc.c: the tables of syndromes that `modesChecksumInit` prepares, and what `modesChecksumDiagnose`
-- and `modesChecksumFix` make of them. `qsort` and `bsearch` are parameters. Where C fails an
-- assertion or writes outside a message, the result is `none` or `failed_assertion`.
pub mod Patterns
pub mod Entries
pub mod Repair
mod Tests
use hpr_readsb.Base.{ℕ, zero, suc, ◌+◌, ◌-◌, ◌*◌, ◌/◌, bit_xor}
use hpr_readsb.Base.{Bool, true, false, Option, none, some, List, [], ◌∷◌, ◌++◌, ◌&&◌, ◌||◌}
use hpr_readsb.Base.{◌==◌, ltb, leb, if◌then◌else◌, length, get_elem?, set}
use hpr_readsb.Base.Int.{ℤ, pos, negsuc, pos_part, is_neg_one}
use hpr_readsb.Crc.{flip_bit, single_bit_syndrome, short_msg_bits, long_msg_bits}

-- `MODES_MAX_BITERRORS`
abbrev pub max_bit_errors : ℕ
max_bit_errors = 2

-- `struct errorinfo`, less its padding. A bit position of -1 is no bit.
pub record ErrorInfo : Type 0 where
  pub syndrome : ℕ
  pub errors : ℤ
  pub bit : List ℤ

infixl 5 ◌>>=◌
abbrev ◌>>=◌ {ℓ κ} : {A : Type ℓ} {B : Type κ} → Option A → (A → Option B) → Option B
none >>= f = none
some a >>= f = f a

-- One pass of the loop of `modesChecksumFix`. The `none` of a negative position is a write in
-- front of the message.
pub fix_bit : List ℕ → ℤ → Option (List ℕ)
fix_bit msg (pos i) = if ltb (i / 8) (length msg) then some (flip_bit msg i) else none
fix_bit msg (negsuc i) = none

-- The loop, with `left` passes left, at pass `i`.
pub fix_loop : ℕ → ℕ → List ℤ → List ℕ → Option (List ℕ)
fix_loop zero i bit msg = some msg
fix_loop (suc left) i bit msg = do
  b ← get_elem? bit i
  msg' ← fix_bit msg b
  fix_loop left (i + 1) bit msg'

-- `modesChecksumFix`
pub modes_checksum_fix : List ℕ → Option ErrorInfo → Option (List ℕ)
modes_checksum_fix msg none = some msg
modes_checksum_fix msg (some info) = fix_loop (pos_part info.errors) 0 info.bit msg

-- The loop of `combinations`, at pass `i` with `left` passes left.
pub combinations_loop : ℕ → ℕ → ℕ → ℕ → ℕ
combinations_loop zero i n result = result
combinations_loop (suc left) i n result = combinations_loop left (i + 1) (n - 1) (result * n / i)

-- `combinations`
pub combinations : ℕ → ℕ → ℕ
combinations n k = if k == 0 || k == n then 1 else if ltb n k then 0 else combinations_loop k 1 n 1

-- The entry that `prepareSubtable` writes for bit `i`.
pub extend_entry : ℕ → ErrorInfo → ℕ → ℕ → ErrorInfo
extend_entry offset base i error_bit = record {
  syndrome = bit_xor base.syndrome (single_bit_syndrome (i + offset));
  errors = pos (error_bit + 1);
  bit = set base.bit error_bit (pos i);
}

-- `prepareSubtable`: the entries that it writes from `table[n]` on, with `left` levels of errors
-- and `rounds` passes of the loop left.
pub prepare_subtable : ℕ → ℕ → ℕ → ℕ → ℕ → ℕ → ErrorInfo → ℕ → Option (List ErrorInfo)
prepare_subtable maxsize offset zero rounds n i base error_bit = some []
prepare_subtable maxsize offset (suc left) zero n i base error_bit = some []
prepare_subtable maxsize offset (suc left) (suc rounds) n i base error_bit = elim (ltb n maxsize) [
  | false ↦ none
  | true ↦
      let entry = extend_entry offset base i error_bit in
      prepare_subtable maxsize offset left rounds (n + 1) (i + 1) entry (error_bit + 1) >>= λ under.
      prepare_subtable maxsize offset (suc left) rounds (n + 1 + length under) (i + 1) base
        error_bit
      >>= λ rest. some (entry ∷ (under ++ rest))
]

-- The loop that drops every entry of a run of equal syndromes. `dropping` says that the entry at
-- hand belongs to the run of the one before it.
pub drop_runs : Bool → List ErrorInfo → List ErrorInfo
drop_runs dropping [] = []
drop_runs dropping (e ∷ []) = if dropping then [] else e ∷ []
drop_runs dropping (e ∷ f ∷ r) =
    let same = f.syndrome == e.syndrome in
    let rest = drop_runs same (f ∷ r) in if same || dropping then rest else e ∷ rest

-- The loop that drops the flagged entries.
pub drop_flagged : List ErrorInfo → List ErrorInfo
drop_flagged [] = []
drop_flagged (e ∷ r) = if is_neg_one e.errors then drop_flagged r else e ∷ drop_flagged r

-- What the code uses of the C library: a sort of a table by its syndromes, and the index at which
-- a search finds a syndrome.
pub record SortAndSearch : Type 0 where
  pub qsort : List ErrorInfo → List ErrorInfo
  pub bsearch : ℕ → List ErrorInfo → Option ℕ

pub record Flagged : Type 0 where
  pub table : List ErrorInfo
  pub count : ℕ

pub record Tables : Type 0 where
  pub short : Option (List ErrorInfo)
  pub long : Option (List ErrorInfo)

pub data Diagnosis : Type 0 where
  failed_assertion unrepairable : Diagnosis
  repairable : ErrorInfo → Diagnosis

-- `NO_ERRORS`
abbrev pub no_errors : ErrorInfo
no_errors = record { syndrome = 0; errors = pos 0; bit = pos 0 ∷ pos 0 ∷ [] }

-- The entry from which `prepareErrorTable` starts.
abbrev pub base_entry : ErrorInfo
base_entry = record { syndrome = 0; errors = pos 0; bit = negsuc 0 ∷ negsuc 0 ∷ [] }

-- The sum of `combinations(bits - 5, i)` for `i` from `i` on, `left` of them.
pub table_size : ℕ → ℕ → ℕ → ℕ
table_size zero i bits = 0
table_size (suc left) i bits = combinations (bits - 5) i + table_size left (i + 1) bits

module _ (lib : SortAndSearch) where
  -- The test of one syndrome in `flagCollisions`.
  pub flag_collision : ℕ → Flagged → Flagged
  flag_collision syndrome s = elim (lib.bsearch syndrome s.table) [
    | none ↦ s
    | some k ↦ elim (get_elem? s.table k) [
      | none ↦ s
      | some e ↦ if is_neg_one e.errors then s else record {
        table = set s.table k (record e { errors = negsuc 0 });
        count = s.count + 1;
      }
    ]
  ]

  -- `flagCollisions`, with `left` levels of errors and `rounds` passes of the loop left.
  pub flag_collisions : ℕ → ℕ → ℕ → ℕ → ℕ → ℕ → ℕ → Flagged → Flagged
  flag_collisions offset first_error zero rounds i base error_bit s = s
  flag_collisions offset first_error (suc left) zero i base error_bit s = s
  flag_collisions offset first_error (suc left) (suc rounds) i base error_bit s =
      let syndrome = bit_xor base (single_bit_syndrome (i + offset)) in
      let s1 = if leb first_error error_bit then flag_collision syndrome s else s in
      let s2 = flag_collisions offset first_error left rounds (i + 1) syndrome (error_bit + 1) s1 in
      flag_collisions offset first_error (suc left) rounds (i + 1) base error_bit s2

  -- The branch of `prepareErrorTable` that detects more errors than it corrects.
  pub drop_ambiguous : ℕ → ℕ → ℕ → List ErrorInfo → List ErrorInfo
  drop_ambiguous bits max_correct max_detect used =
      let start : Flagged = record { table = used; count = 0 } in
      let s = flag_collisions (112 - bits) (max_correct + 1) max_detect (bits - 5) 5 0 1 start in
      if ltb 0 s.count then drop_flagged s.table else s.table

  -- What `prepareErrorTable` does after the sort.
  pub resolve_collisions : ℕ → ℕ → ℕ → List ErrorInfo → List ErrorInfo
  resolve_collisions bits max_correct max_detect sorted =
      let used = drop_runs false sorted in
      if ltb max_correct max_detect then drop_ambiguous bits max_correct max_detect used else used

  -- `prepareErrorTable`. The outer `none` is a failed assertion, the inner one a null table.
  pub prepare_error_table : ℕ → ℕ → ℕ → Option (Option (List ErrorInfo))
  prepare_error_table bits max_correct max_detect =
      if leb bits 112 && (leb max_correct max_bit_errors && leb max_correct max_detect)
      then (if max_correct == 0
          then some none
          else (prepare_subtable (table_size max_correct 1 bits) (112 - bits) max_correct (bits - 5)
                0 5 base_entry 0
              >>= λ table.
                  some (some (resolve_collisions bits max_correct max_detect (lib.qsort table)))))
      else none

  -- `modesChecksumInit`, less the tables that `Crc` gives as functions.
  unfoldable pub modes_checksum_init : ℕ → Option Tables
  modes_checksum_init fix_bits =
      if fix_bits == 0
      then some (record { short = none; long = none })
      else let (max_correct, max_detect) : ℕ × ℕ = if fix_bits == 1 then (1, 1) else (2, 4) in
        prepare_error_table short_msg_bits max_correct max_detect >>= λ short.
        prepare_error_table long_msg_bits max_correct max_detect >>= λ long.
        some (record { short = short; long = long })

  -- The search of `modesChecksumDiagnose` in the table that it chose.
  unfoldable pub search_table : ℕ → Option (List ErrorInfo) → Diagnosis
  search_table syndrome none = unrepairable
  search_table syndrome (some table) = elim (lib.bsearch syndrome table) [
    | none ↦ unrepairable
    | some k ↦ elim (get_elem? table k) [ none ↦ unrepairable | some e ↦ repairable e ]
  ]

  -- `modesChecksumDiagnose`
  unfoldable pub modes_checksum_diagnose : Tables → ℕ → ℕ → Diagnosis
  modes_checksum_diagnose t syndrome bitlen =
      if syndrome == 0
      then repairable no_errors
      else if bitlen == short_msg_bits || bitlen == long_msg_bits
      then search_table syndrome (if bitlen == short_msg_bits then t.short else t.long)
      else failed_assertion

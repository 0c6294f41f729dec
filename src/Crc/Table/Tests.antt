-- ===== src/Crc/Table/Tests.antt =====
-- A repair of a squitter with one bit in error, with a plain sort and search for the C library's.
use hpr_readsb.Base.{ℕ, suc, refl, ◌≡◌}
use hpr_readsb.Base.{List, [], ◌∷◌, Option, none, some, All, get_elem?, ltb, if◌then◌else◌, ◌==◌}
use hpr_readsb.Base.{Bool-cases, Option-cases, ==_iff, inl, inr}
use mathlib.Core.Option
use hpr_readsb.Base.Int.{pos, negsuc}
use hpr_readsb.Crc.{checksum, modes_checksum, crc_loop, crc_byte, crc_table, crc_rounds, crc_shift}
use hpr_readsb.Crc.{flip_bit, single_bit_syndrome}
use hpr_readsb.Crc.Syndrome.{long}
use hpr_readsb.Crc.Table.{ErrorInfo, SortAndSearch, modes_checksum_init, modes_checksum_diagnose}
use hpr_readsb.Crc.Table.{Tables, repairable, prepare_error_table, prepare_subtable, extend_entry}
use hpr_readsb.Crc.Table.{
  combinations, combinations_loop, table_size, resolve_collisions, drop_runs,
}
use hpr_readsb.Crc.Table.{search_table}
use hpr_readsb.Crc.Table.Entries.{IsSortAndSearch}
use hpr_readsb.Crc.Table.Repair.{IsRepaired, diagnose-fix}
use hpr_readsb.Crc.Tests.{damaged}

-- An insertion sort and a linear search, for the library's.
insert : ErrorInfo → List ErrorInfo → List ErrorInfo
insert e [] = e ∷ []
insert e (f ∷ t) = if ltb f.syndrome e.syndrome then f ∷ insert e t else e ∷ f ∷ t

sort : List ErrorInfo → List ErrorInfo
sort [] = []
sort (e ∷ t) = insert e (sort t)

find : ℕ → List ErrorInfo → Option ℕ
find s [] = none
find s (e ∷ t) = if e.syndrome == s then some 0 else Option.map suc (find s t)

abbrev plain : SortAndSearch
plain = record { qsort = sort; bsearch = find }

insert-All :
    (P : ErrorInfo → Type 0) (e : ErrorInfo) (t : List ErrorInfo)
    → P e
    → All P t
    → All P (insert e t)
unfolding insert
insert-All P e [] p h = (p, tt)
insert-All P e (f ∷ t) p h = elim (Bool-cases (ltb f.syndrome e.syndrome)) [
  | inl after ↦ rw after (h.0, insert-All P e t p h.1)
  | inr before ↦ rw before (p, (h.0, h.1))
]

sort-All : (P : ErrorInfo → Type 0) (t : List ErrorInfo) → All P t → All P (sort t)
unfolding sort
sort-All P [] h = tt
sort-All P (e ∷ t) h = insert-All P e (sort t) h.0 (sort-All P t h.1)

find_lem :
    (s k : ℕ) (t : List ErrorInfo)
    → find s t ≡ some k
    → (e : ErrorInfo) × (get_elem? t k ≡ some e) × (e.syndrome ≡ s)
unfolding find
find_lem s k [] h = absurd (cc)
find_lem s k (e ∷ t) h = elim (Bool-cases (e.syndrome == s)) [
  | inl same ↦
      let q : 0 ≡ k = cc (rw (same, find) at h) in (e, rw (← q), (==_iff e.syndrome s).0 same)
  | inr other ↦ elim (Option-cases (find s t)) [
    | inl missed ↦ absurd (cc (rw (other, find, missed) at h))
    | inr (j, found) ↦
        let q : suc j ≡ k = cc (rw (other, find, found) at h) in
        let (f, at_j, same) = find_lem s j t found in (f, rw (← q) at_j, same)
  ]
]

plain-IsSortAndSearch : IsSortAndSearch plain
plain-IsSortAndSearch = record { sorts = sort-All; finds = find_lem }

computed : Option Tables → Tables
computed none = record { short = none; long = none }
computed (some t) = t

-- The tables for one error.
tables : Tables
tables = computed (modes_checksum_init plain 1)

tables_made : modes_checksum_init plain 1 ≡ some tables
unfolding tables computed modes_checksum_init prepare_error_table prepare_subtable extend_entry
    combinations combinations_loop table_size resolve_collisions drop_runs single_bit_syndrome
    checksum crc_loop crc_byte crc_table crc_rounds crc_shift flip_bit sort insert
tables_made = refl

abbrev bit_40 : ErrorInfo
bit_40 = record { syndrome = 9553791; errors = pos 1; bit = pos 40 ∷ negsuc 0 ∷ [] }

damaged_checksum : modes_checksum damaged 112 ≡ some 9553791
unfolding modes_checksum checksum crc_loop crc_byte crc_table crc_rounds crc_shift
damaged_checksum = refl

damaged_diagnosis : modes_checksum_diagnose plain tables 9553791 112 ≡ repairable bit_40
unfolding modes_checksum_diagnose search_table find tables computed modes_checksum_init
    prepare_error_table prepare_subtable extend_entry combinations combinations_loop table_size
    resolve_collisions drop_runs single_bit_syndrome checksum crc_loop crc_byte crc_table crc_rounds
    crc_shift flip_bit sort insert
damaged_diagnosis = refl

diagnose-fix_example : IsRepaired 14 damaged bit_40
diagnose-fix_example =
    diagnose-fix plain plain-IsSortAndSearch 1 damaged tables_made (long refl refl) refl
      damaged_checksum damaged_diagnosis

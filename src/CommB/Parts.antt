-- ===== src/CommB/Parts.antt =====
-- comm_b.c: what the decoders share. A decoder adds points field by field and returns 0 at once
-- where a field rules the register out.
use hpr_readsb.Base.{ℕ, ◌+◌, ◌≤◌, Bool, not, ◌&&◌}
use hpr_readsb.Base.{Option, none, some, List, [], ◌∷◌, if◌then◌else◌}
use hpr_readsb.Base.Int.{ℤ, pos, sub_ℕ}

-- The points of a field, or `return 0`.
abbrev pub Points : Type 0
Points = Option ℕ

-- The sum of the points of the fields, if none returns.
unfoldable pub total : List Points → Points
total [] = some 0
total (none ∷ fields) = none
total (some n ∷ fields) = elim (total fields) [ none ↦ none | some m ↦ some (n + m) ]

-- The score, from the points and the penalties.
unfoldable pub score_of : Points → ℕ → ℤ
score_of none penalty = pos 0
score_of (some points) penalty = sub_ℕ points penalty

-- A field with a valid bit and a value that is 0 where it is not valid: `most` points in range.
unfoldable pub status_points : Bool → Bool → Bool → ℕ → Points
status_points valid nonzero in_range most =
    if valid && nonzero
    then if in_range then some most else none
    else if not valid && not nonzero
    then some 1
    else none

-- Such a field that may be 0 where it is valid; `clear` tells that it is 0 where it is not.
unfoldable pub range_points : Bool → Bool → Bool → ℕ → Points
range_points valid clear in_range most =
    if valid then if in_range then some most else none else if clear then some 1 else none

-- A bound on what a field gives.
abbrev pub AtMost : ℕ → Points → Type 0
AtMost most none = Unit {0}
AtMost most (some n) = n ≤ most

-- ===== src/AirwireJson/Tests.antt =====
-- hpr_airwire.c: a row's string on concrete values.
use hpr_readsb.Base.{ℕ, ◌≡◌, refl, true, false, List, [], ◌∷◌}
use hpr_readsb.AirwireJson.{Writer, aw_fixed_string_or_null}
use hpr_readsb.AirwireJson.Written.{Written, string_or_null, aw_fixed_string_or_null-Written}
use hpr_readsb.AirwireJson

-- The number as one character stands for its four digits.
abbrev one_digit : ℕ → List ℕ
one_digit ch = ch ∷ []

abbrev row : Writer
row = record { buf = 0x5b ∷ []; cap = 512; failed = false }

-- A quotation mark in a call sign, and spaces behind it.
abbrev marked : List ℕ
marked = 0x41 ∷ 0x22 ∷ 0x20 ∷ 0x20 ∷ 0 ∷ 0x42 ∷ []

string_of_row :
    (aw_fixed_string_or_null one_digit row marked 12 true).buf
    ≡ 0x5b ∷ 0x22 ∷ 0x41 ∷ 0x5c ∷ 0x22 ∷ 0x22 ∷ []
unfolding aw_fixed_string_or_null AirwireJson.put_string AirwireJson.chars_of
    hpr_readsb.AirwireWs.Aircraft.trim hpr_readsb.AirwireWs.Aircraft.last_first AirwireJson.aw_putc
    AirwireJson.put_chars AirwireJson.put_char
string_of_row = refl

aw_fixed_string_or_null-Written_example :
    Written row
      (0x22 ∷ 0x41 ∷ 0x5c ∷ 0x22 ∷ 0x22 ∷ [])
      (aw_fixed_string_or_null one_digit row marked 12 true)
unfolding string_or_null AirwireJson.chars_of hpr_readsb.AirwireWs.Aircraft.trim
    hpr_readsb.AirwireWs.Aircraft.last_first hpr_readsb.AirwireJson.Written.all_escaped
    hpr_readsb.AirwireJson.Written.escaped
aw_fixed_string_or_null-Written_example =
    aw_fixed_string_or_null-Written one_digit row marked 12 true

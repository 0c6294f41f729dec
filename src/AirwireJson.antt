-- ===== src/AirwireJson.antt =====
-- hpr/airwire/hpr_airwire.c: the writer of the JSON rows, and a string of a row.
pub mod Written
mod Tests
use hpr_readsb.Base.{ℕ, zero, suc, ◌+◌, Bool, true, false, not, ◌&&◌, ◌||◌}
use hpr_readsb.Base.{List, [], ◌∷◌, ◌++◌, ◌==◌, ltb, leb, if◌then◌else◌, length, reverse_onto}
use hpr_readsb.AirwireWs.Aircraft.{last_first, trim}

-- `aw_writer_t`: the `len` bytes that are written, `cap` and `failed`.
pub record Writer : Type 0 where
  pub buf : List ℕ
  pub cap : ℕ
  pub failed : Bool

-- `aw_printf`, for the text that `vsnprintf` makes.
unfoldable pub aw_printf : Writer → List ℕ → Writer
aw_printf w text =
    if w.failed || leb w.cap (length w.buf)
    then record w { failed = true }
    else if leb w.cap (length w.buf + length text)
    then record w { failed = true }
    else record w { buf = w.buf ++ text }

-- `aw_putc`
unfoldable pub aw_putc : Writer → ℕ → Writer
aw_putc w ch =
    if w.failed || leb w.cap (length w.buf + 1)
    then record w { failed = true }
    else record w { buf = w.buf ++ (ch ∷ []) }

abbrev pub null_text : List ℕ
null_text = 0x6e ∷ 0x75 ∷ 0x6c ∷ 0x6c ∷ []

-- The characters up to a 0, at most `max_len`, without the spaces at the end.
unfoldable pub chars_of : ℕ → List ℕ → List ℕ
chars_of max_len value = reverse_onto (trim (last_first max_len value [])) []

module _ (hex4 : ℕ → List ℕ) where
  -- One pass of the loop; `hex4` is the text that `%04x` makes of a number.
  unfoldable pub put_char : Writer → ℕ → Writer
  put_char w ch =
      if ch == 0x22 || ch == 0x5c
      then aw_putc (aw_putc w 0x5c) ch
      else if ltb ch 0x20 || ltb 0x7e ch
      then aw_printf w (0x5c ∷ 0x75 ∷ hex4 ch)
      else aw_putc w ch

  unfoldable pub put_chars : Writer → List ℕ → Writer
  put_chars w [] = w
  put_chars w (ch ∷ chars) = put_chars (put_char w ch) chars

  -- The end of `aw_fixed_string_or_null`, for the characters that it found.
  unfoldable pub put_string : Writer → List ℕ → Bool → Writer
  put_string w chars valid =
      let quoted = aw_putc (put_chars (aw_putc w 0x22) chars) 0x22 in
      if not valid
      then aw_printf w null_text
      else if length chars == 0
      then aw_printf w null_text
      else quoted

  -- `aw_fixed_string_or_null`, for a pointer that is not null.
  unfoldable pub aw_fixed_string_or_null : Writer → List ℕ → ℕ → Bool → Writer
  aw_fixed_string_or_null w value max_len valid = put_string w (chars_of max_len value) valid

-- ===== src/AirwireJson/Written.antt =====
-- hpr_airwire.c: what the writer has written.
use hpr_readsb.Base.{ℕ, suc, ◌+◌, ◌≤◌, ◌<◌, ◌≡◌, refl, sym, ap, ◌∙◌, subst, arith, ◌⊎◌, inl, inr}
use hpr_readsb.Base.{Bool, true, false, ◌||◌, Bool-cases}
use hpr_readsb.Base.{
  List, [], ◌∷◌, ◌++◌, ◌==◌, ltb, leb, if◌then◌else◌, length, length-append, append_assoc,
  append-nil,
}
use hpr_readsb.AirwireJson.{
  Writer, aw_printf, aw_putc, null_text, put_char, put_chars, put_string, chars_of,
  aw_fixed_string_or_null,
}

-- The writer wrote the text and there is room for the 0 behind it, or it failed for want of room
-- or because it had failed before.
pub data Written (w : Writer) (text : List ℕ) (v : Writer) : Type 0 where
  gave_up :
      v.failed ≡ true
      → v.cap ≡ w.cap
      → (w.failed ≡ true) ⊎ (w.cap ≤ length w.buf + length text)
      → Written w text v
  wrote :
      w.failed ≡ false
      → v.failed ≡ false
      → v.cap ≡ w.cap
      → v.buf ≡ w.buf ++ text
      → length v.buf < v.cap
      → Written w text v

either : (b c : Bool) → (b || c) ≡ true → (b ≡ true) ⊎ (c ≡ true)
either true c e = inl refl
either false c e = inr e

neither : (b c : Bool) → (b || c) ≡ false → (b ≡ false) × (c ≡ false)
neither true c e = absurd cc
neither false c e = (refl, e)

no_room :
    (w : Writer) (n m : ℕ)
    → n ≤ m
    → (w.failed || leb w.cap n) ≡ true
    → (w.failed ≡ true) ⊎ (w.cap ≤ m)
no_room w n m h e = elim (either w.failed (leb w.cap n) e) [
  | inl f ↦ inl f
  | inr f ↦ inr (ground (arith, f, h))
]

aw_printf-Written : (w : Writer) (text : List ℕ) → Written w text (aw_printf w text)
unfolding aw_printf
aw_printf-Written w text = elim (Bool-cases (w.failed || leb w.cap (length w.buf))) [
  | inl e ↦
      rw (e, aw_printf)
        (gave_up refl refl (no_room w (length w.buf) (length w.buf + length text) (omega arith) e))
  | inr e ↦ elim (Bool-cases (leb w.cap (length w.buf + length text))) [
    | inl g ↦ rw (e, g, aw_printf) (gave_up refl refl (inr (ground (arith, g))))
    | inr g ↦
        let f : w.failed ≡ false = (neither w.failed (leb w.cap (length w.buf)) e).0 in
        rw (e, g, aw_printf) (wrote f f refl refl (ground (arith, g, length-append w.buf text)))
  ]
]

aw_putc-Written : (w : Writer) (ch : ℕ) → Written w (ch ∷ []) (aw_putc w ch)
unfolding aw_putc
aw_putc-Written w ch = elim (Bool-cases (w.failed || leb w.cap (length w.buf + 1))) [
  | inl e ↦
      rw (e, aw_putc)
        (gave_up refl refl (no_room w (length w.buf + 1) (length w.buf + 1) (omega arith) e))
  | inr e ↦
      let f = neither w.failed (leb w.cap (length w.buf + 1)) e in
      rw (e, aw_putc) (wrote f.0 f.0 refl refl (ground (arith, f.1, length-append w.buf (ch ∷ []))))
]

-- Two texts, one after the other.
Written-then :
    (u v w : Writer) (s t : List ℕ) → Written u s v → Written v t w → Written u (s ++ t) w
Written-then u v w s t (gave_up h c (inl r)) (gave_up i d q) = gave_up i (d ∙ c) (inl r)
Written-then u v w s t (gave_up h c (inr r)) (gave_up i d q) =
    gave_up i (d ∙ c) (inr (omega (arith, length-append s t)))
Written-then u v w s t (gave_up h c r) (wrote n k d f m) = absurd cc
Written-then u v w s t (wrote a b c e l) (gave_up i d (inl q)) = absurd cc
Written-then u v w s t (wrote a b c e l) (gave_up i d (inr q)) =
    gave_up i (d ∙ c)
      (inr (omega (arith, length-append s t, ap length e ∙ length-append u.buf s, c, q)))
Written-then u v w s t (wrote a b c e l) (wrote n k d f m) =
    wrote a k (d ∙ c) (f ∙ ap (λ xs. xs ++ t) e ∙ append_assoc u.buf s t) m

module _ (hex4 : ℕ → List ℕ) where
  -- A character of a JSON string.
  unfoldable pub escaped : ℕ → List ℕ
  escaped ch =
      if ch == 0x22 || ch == 0x5c
      then 0x5c ∷ ch ∷ []
      else if ltb ch 0x20 || ltb 0x7e ch
      then 0x5c ∷ 0x75 ∷ hex4 ch
      else ch ∷ []

  unfoldable pub all_escaped : List ℕ → List ℕ
  all_escaped [] = []
  all_escaped (ch ∷ chars) = escaped ch ++ all_escaped chars

  -- The JSON text of a string: null without characters or where it is not valid.
  unfoldable pub string_or_null : Bool → List ℕ → List ℕ
  string_or_null false chars = null_text
  string_or_null true [] = null_text
  string_or_null true (ch ∷ chars) = (0x22 ∷ all_escaped (ch ∷ chars)) ++ (0x22 ∷ [])

  put_char-Written : (w : Writer) (ch : ℕ) → Written w (escaped ch) (put_char hex4 w ch)
  unfolding put_char escaped
  put_char-Written w ch = elim (Bool-cases (ch == 0x22 || ch == 0x5c)) [
    | inl e ↦
        let first = aw_putc w 0x5c in
        rw (e, put_char, escaped)
          (Written-then w first (aw_putc first ch) (0x5c ∷ []) (ch ∷ []) (aw_putc-Written w 0x5c)
            (aw_putc-Written first ch))
    | inr e ↦ elim (Bool-cases (ltb ch 0x20 || ltb 0x7e ch)) [
      | inl f ↦ rw (e, f, put_char, escaped) (aw_printf-Written w (0x5c ∷ 0x75 ∷ hex4 ch))
      | inr f ↦ rw (e, f, put_char, escaped) (aw_putc-Written w ch)
    ]
  ]

  -- The loop, after what was written before it.
  put_chars-Written :
      (u w : Writer) (s : List ℕ) (chars : List ℕ)
      → Written u s w
      → Written u (s ++ all_escaped chars) (put_chars hex4 w chars)
  unfolding put_chars all_escaped
  put_chars-Written u w s [] h = subst (λ t. Written u t w) (sym (append-nil s)) h
  put_chars-Written u w s (ch ∷ chars) h =
      let one = Written-then u w (put_char hex4 w ch) s (escaped ch) h (put_char-Written w ch) in
      let rest = put_chars-Written u (put_char hex4 w ch) (s ++ escaped ch) chars one in
      subst (λ t. Written u t (put_chars hex4 w (ch ∷ chars)))
        (append_assoc s (escaped ch) (all_escaped chars)) rest

  quoted-Written :
      (w : Writer) (chars : List ℕ)
      → Written w
          ((0x22 ∷ all_escaped chars) ++ (0x22 ∷ []))
          (aw_putc (put_chars hex4 (aw_putc w 0x22) chars) 0x22)
  quoted-Written w chars =
      let inner = put_chars hex4 (aw_putc w 0x22) chars in
      Written-then w inner (aw_putc inner 0x22) (0x22 ∷ all_escaped chars) (0x22 ∷ [])
        (put_chars-Written w (aw_putc w 0x22) (0x22 ∷ []) chars (aw_putc-Written w 0x22))
        (aw_putc-Written inner 0x22)

  -- What aw_fixed_string_or_null does with the characters that it finds.
  string_or_null-Written :
      (w : Writer) (chars : List ℕ) (valid : Bool)
      → Written w (string_or_null valid chars) (put_string hex4 w chars valid)
  unfolding put_string string_or_null
  string_or_null-Written w chars false = aw_printf-Written w null_text
  string_or_null-Written w [] true = aw_printf-Written w null_text
  string_or_null-Written w (ch ∷ chars) true =
      let some_left : (suc (length chars) == 0) ≡ false = ground arith in
      rw (some_left, put_string, string_or_null) (quoted-Written w (ch ∷ chars))

  -- Either aw_fixed_string_or_null appends the JSON text of the string to the buffer and leaves
  -- room for the 0 behind it, or the writer is marked as failed; it is only if it was marked
  -- before or the text and the 0 do not fit into the buffer. The text is null for a string that
  -- is not valid or has no characters before its 0 and its trailing spaces, and otherwise the
  -- characters in quotation marks, escaped, where the text that %04x makes of a number is any.
  pub aw_fixed_string_or_null-Written :
      (w : Writer) (value : List ℕ) (max_len : ℕ) (valid : Bool)
      → Written w
          (string_or_null valid (chars_of max_len value))
          (aw_fixed_string_or_null hex4 w value max_len valid)
  unfolding aw_fixed_string_or_null
  aw_fixed_string_or_null-Written w value max_len valid =
      string_or_null-Written w (chars_of max_len value) valid

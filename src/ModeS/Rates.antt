-- ===== src/ModeS/Rates.antt =====
-- mode_s.c: the rates of an airborne velocity message.
use hpr_readsb.Base.{ℕ, zero, suc, ◌+◌, ◌%◌, ◌-◌, ◌*◌, ◌^◌, ◌<◌, ◌≡◌, refl, ap, ◌∙◌, arith}
use hpr_readsb.Base.{
  inl, inr, Bool, true, false, Bool-cases, if◌then◌else◌, ltb, ltb→lt, not, Option, none, some,
  bit_and, ◌/◌, subst, sym, All-get_or, ◌==◌, List, All, get_or,
}
use hpr_readsb.Base.Bits.Or.{or_fields}
use hpr_readsb.Base.Bits.And.{and-low_three, and-low_seven, and-three, and-four, and-seven}
use hpr_readsb.ModeS.Bits.{getbits, getbit}
use hpr_readsb.Base.Int.{ℤ, pos, sub_ℕ}
use hpr_readsb.ModeS.Velocity.{as_int, signed_field, velocity, vert_rate, alt_delta}
use hpr_readsb.Base.Doubles.{Doubles}

-- The number with a sign.
abbrev pub with_sign : Bool → ℕ → ℤ
with_sign negative n = if negative then sub_ℕ 0 n else pos n

as_int_small : (n : ℕ) → n < 2 ^ 31 → as_int n ≡ pos n
unfolding as_int
as_int_small n h = ground arith

as_int_wrapped : (n : ℕ) → 0 < n → n < 2 ^ 31 → as_int (2 ^ 32 - n) ≡ sub_ℕ 0 n
unfolding as_int
as_int_wrapped n p h = ground arith

one_is_none : signed_field 1 true 64 ≡ with_sign true ((1 - 1) * 64)
unfolding signed_field as_int
one_is_none = refl

one_is_level : signed_field 1 true 25 ≡ with_sign true ((1 - 1) * 25)
unfolding signed_field as_int
one_is_level = refl

-- The unsigned arithmetic of the code is exact for the factors and the fields that it has.
rate_exact :
    (raw : ℕ) (negative : Bool)
    → 0 < raw
    → raw < 512
    → signed_field raw negative 64 ≡ with_sign negative ((raw - 1) * 64)
unfolding signed_field
rate_exact raw false p h = ap as_int (omega arith) ∙ as_int_small ((raw - 1) * 64) (omega arith)
rate_exact raw true p h = elim (Bool-cases (ltb 1 raw)) [
  | inl more ↦
      let above : 1 < raw = ltb→lt _ _ more in
      ap as_int (omega arith) ∙ as_int_wrapped ((raw - 1) * 64) (omega arith) (omega arith)
  | inr one ↦
      let last : raw ≡ 1 = ground arith in
      subst (λ r. signed_field r true 64 ≡ with_sign true ((r - 1) * 64)) (sym last) one_is_none
]

delta_exact :
    (raw : ℕ) (negative : Bool)
    → 0 < raw
    → raw < 128
    → signed_field raw negative 25 ≡ with_sign negative ((raw - 1) * 25)
unfolding signed_field
delta_exact raw false p h = ap as_int (omega arith) ∙ as_int_small ((raw - 1) * 25) (omega arith)
delta_exact raw true p h = elim (Bool-cases (ltb 1 raw)) [
  | inl more ↦
      let above : 1 < raw = ltb→lt _ _ more in
      ap as_int (omega arith) ∙ as_int_wrapped ((raw - 1) * 25) (omega arith) (omega arith)
  | inr one ↦
      let last : raw ≡ 1 = ground arith in
      subst (λ r. signed_field r true 25 ≡ with_sign true ((r - 1) * 25)) (sym last) one_is_level
]

-- The payload as one number of 56 bits.
unfoldable pub payload_number : List ℕ → ℕ
payload_number me =
    let b = λ (i : ℕ). get_or me i 0 in
    (((((b 0 * 256 + b 1) * 256 + b 2) * 256 + b 3) * 256 + b 4) * 256 + b 5) * 256 + b 6

-- The bits `first` to `last` of the payload, bit 1 the highest one and bit 56 the lowest.
unfoldable pub bits_of : List ℕ → ℕ → ℕ → ℕ
bits_of me first last = payload_number me / 2 ^ (56 - last) % 2 ^ (last + 1 - first)

-- A number of steps, 0 for no information and otherwise one more than the steps, with its sign.
unfoldable pub steps_of : ℕ → Bool → ℕ → Option ℤ
steps_of step negative zero = none
steps_of step negative (suc n) = some (with_sign negative (n * step))

field_38_46 : (me : List ℕ) → All (λ b. b < 256) me → getbits me 38 46 ≡ bits_of me 38 46
unfolding getbits bits_of payload_number
field_38_46 me h =
    let top = bit_and (get_or me 4 0) 7 in
    let low = get_or me 5 0 / 4 in
    let b4 = All-get_or (λ b. b < 256) me 4 0 h (omega arith) in
    let b5 = All-get_or (λ b. b < 256) me 5 0 h (omega arith) in
    let b6 = All-get_or (λ b. b < 256) me 6 0 h (omega arith) in
    omega (arith, and-low_three (get_or me 4 0), or_fields 6 top low (omega (arith, b5)), b5, b6)

field_50_56 : (me : List ℕ) → All (λ b. b < 256) me → getbits me 50 56 ≡ bits_of me 50 56
unfolding getbits bits_of payload_number
field_50_56 me h =
    let b6 = All-get_or (λ b. b < 256) me 6 0 h (omega arith) in
    omega (arith, and-low_seven (get_or me 6 0), b6)

-- A bit of a byte that a mask takes.
is_set :
    (byte mask bit : ℕ)
    → bit_and byte mask ≡ bit * mask
    → 0 < mask
    → bit < 2
    → (if bit_and byte mask == 0 then 0 else 1) ≡ bit
is_set byte mask zero e p h =
    let unset : (bit_and byte mask == 0) ≡ true = ground (arith, e) in rw unset
is_set byte mask (suc zero) e p h =
    let set : (bit_and byte mask == 0) ≡ false = ground (arith, e) in rw set
is_set byte mask (suc (suc n)) e p h = absurd (omega arith)

field_36 : (me : List ℕ) → All (λ b. b < 256) me → getbit me 36 ≡ bits_of me 36 36
unfolding getbit bits_of payload_number
field_36 me h =
    let b5 = All-get_or (λ b. b < 256) me 5 0 h (omega arith) in
    let b6 = All-get_or (λ b. b < 256) me 6 0 h (omega arith) in
    is_set (get_or me 4 0) 16 (get_or me 4 0 / 16 % 2) (and-four (get_or me 4 0)) (omega arith)
      (omega arith)
    ∙ omega (arith, b5, b6)

field_37 : (me : List ℕ) → All (λ b. b < 256) me → getbit me 37 ≡ bits_of me 37 37
unfolding getbit bits_of payload_number
field_37 me h =
    let b5 = All-get_or (λ b. b < 256) me 5 0 h (omega arith) in
    let b6 = All-get_or (λ b. b < 256) me 6 0 h (omega arith) in
    is_set (get_or me 4 0) 8 (get_or me 4 0 / 8 % 2) (and-three (get_or me 4 0)) (omega arith)
      (omega arith)
    ∙ omega (arith, b5, b6)

field_49 : (me : List ℕ) → All (λ b. b < 256) me → getbit me 49 ≡ bits_of me 49 49
unfolding getbit bits_of payload_number
field_49 me h =
    let b6 = All-get_or (λ b. b < 256) me 6 0 h (omega arith) in
    is_set (get_or me 6 0) 128 (get_or me 6 0 / 128 % 2) (and-seven (get_or me 6 0)) (omega arith)
      (omega arith)
    ∙ omega (arith, b6)

is_one : (bit : ℕ) → bit < 2 → not (bit == 0) ≡ (bit == 1)
is_one zero h = refl
is_one (suc zero) h = refl
is_one (suc (suc n)) h = absurd (omega arith)

-- What is stored for a field of nine or seven bits.
rate_steps :
    (raw : ℕ) (negative : Bool)
    → raw < 512
    → (if raw == 0 then none else some (signed_field raw negative 64)) ≡ steps_of 64 negative raw
unfolding steps_of
rate_steps zero negative h = refl
rate_steps (suc n) negative h =
    let stored : (suc n == 0) ≡ false = ground arith in
    let less_one : suc n - 1 ≡ n = omega arith in
    rw stored (
      ap some (rate_exact (suc n) negative (omega arith) h)
      ∙ ap (λ k. some (with_sign negative (k * 64))) less_one)

delta_steps :
    (raw : ℕ) (negative : Bool)
    → raw < 128
    → (if raw == 0 then none else some (signed_field raw negative 25)) ≡ steps_of 25 negative raw
unfolding steps_of
delta_steps zero negative h = refl
delta_steps (suc n) negative h =
    let stored : (suc n == 0) ≡ false = ground arith in
    let less_one : suc n - 1 ≡ n = omega arith in
    rw stored (
      ap some (delta_exact (suc n) negative (omega arith) h)
      ∙ ap (λ k. some (with_sign negative (k * 25))) less_one)

abbrev pub bit_is_one : List ℕ → ℕ → Bool
bit_is_one me i = bits_of me i i == 1

vert_rate-steps_of :
    (d : Doubles) (pi : d.Double) (me : List ℕ)
    → All (λ b. b < 256) me
    → vert_rate d pi me ≡ steps_of 64 (bit_is_one me 37) (bits_of me 38 46)
unfolding vert_rate bits_of
vert_rate-steps_of d pi me h =
    rw (field_38_46 me h, field_37 me h, is_one (bits_of me 37 37) (omega arith))
      (rate_steps (bits_of me 38 46) (bit_is_one me 37) (omega arith))

alt_delta-steps_of :
    (d : Doubles) (pi : d.Double) (me : List ℕ)
    → All (λ b. b < 256) me
    → alt_delta d pi me ≡ steps_of 25 (bit_is_one me 49) (bits_of me 50 56)
unfolding alt_delta bits_of
alt_delta-steps_of d pi me h =
    rw (field_50_56 me h, field_49 me h, is_one (bits_of me 49 49) (omega arith))
      (delta_steps (bits_of me 50 56) (bit_is_one me 49) (omega arith))

-- For a payload of bytes, read as one number of 56 bits, the unsigned arithmetic of
-- decodeESAirborneVelocity is exact: the vertical rate is stored as the one of the source that
-- bit 36 tells, and only as that; it is none if bits 38 to 46 are 0 and otherwise their number
-- less 1, times 64 feet per minute, negative if bit 37 is set; the difference of the altitudes is
-- read in the same way from bits 50 to 56, in steps of 25 feet, with its sign in bit 49.
pub velocity-steps_of :
    (d : Doubles) (pi : d.Double) (me : List ℕ) (mesub : ℕ)
    → All (λ b. b < 256) me
    → ((velocity d pi me mesub).baro_rate
        ≡ (if bit_is_one me 36 then steps_of 64 (bit_is_one me 37) (bits_of me 38 46) else none))
      × ((velocity d pi me mesub).geom_rate
          ≡ (if bit_is_one me 36 then none else steps_of 64 (bit_is_one me 37) (bits_of me 38 46)))
      × ((velocity d pi me mesub).geom_delta ≡ steps_of 25 (bit_is_one me 49) (bits_of me 50 56))
unfolding velocity bits_of
velocity-steps_of d pi me mesub h =
    let rate = vert_rate-steps_of d pi me h in
    let source = ap (λ b. not (b == 0)) (field_36 me h) ∙ is_one (bits_of me 36 36) (omega arith) in
    (
      ap (λ b. if b then vert_rate d pi me else none) source
          ∙ ap (λ r. if bit_is_one me 36 then r else none) rate,
      ap (λ b. if b then none else vert_rate d pi me) source
          ∙ ap (λ r. if bit_is_one me 36 then none else r) rate,
      alt_delta-steps_of d pi me h,
    )

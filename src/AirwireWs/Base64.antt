-- ===== src/AirwireWs/Base64.antt =====
-- hpr_airwire_ws.c: `b64_20`, the Base64 of the 20 bytes of a digest.
use hpr_readsb.Base.{
  ℕ, zero, suc, ◌+◌, ◌-◌, ◌*◌, ◌/◌, ◌%◌, ◌^◌, ◌<◌, ◌≡◌, refl, ap, ap₂, ◌∙◌, arith,
}
use hpr_readsb.Base.{
  false, not, bit_and, bit_or, List, [], ◌∷◌, ◌==◌, leb, ltb, ==_iff, if◌then◌else◌, get_or, length,
  All,
}
use hpr_readsb.Base.{All-get_or}
use hpr_readsb.Base.Below.{all_below, all_below-at}
use hpr_readsb.Base.Bits.Or.{or_fields}
use hpr_readsb.Base.Bits.And.{and-low_six}

-- The table `t`: A to Z, a to z, 0 to 9, + and /.
unfoldable pub b64_char : ℕ → ℕ
b64_char i =
    if ltb i 26
    then 0x41 + i
    else if ltb i 52
    then 0x61 + (i - 26)
    else if ltb i 62
    then 0x30 + (i - 52)
    else if i == 62
    then 0x2b
    else 0x2f

-- Three bytes, as four characters.
unfoldable pub b64_triple : ℕ → ℕ → ℕ → List ℕ → List ℕ
b64_triple x y z rest =
    let v = bit_or (bit_or (x * 2 ^ 16) (y * 2 ^ 8)) z in
    b64_char (bit_and (v / 2 ^ 18) 63)
    ∷ b64_char (bit_and (v / 2 ^ 12) 63)
    ∷ b64_char (bit_and (v / 2 ^ 6) 63)
    ∷ b64_char (bit_and v 63)
    ∷ rest

-- The last two bytes, as three characters and a sign that there is no other.
unfoldable pub b64_pair : ℕ → ℕ → List ℕ
b64_pair x y =
    let v = bit_or (x * 2 ^ 16) (y * 2 ^ 8) in
    b64_char (bit_and (v / 2 ^ 18) 63)
    ∷ b64_char (bit_and (v / 2 ^ 12) 63)
    ∷ b64_char (bit_and (v / 2 ^ 6) 63)
    ∷ 0x3d
    ∷ []

-- The loop from `i` on, with `n` triples left, and the end.
unfoldable pub b64_from : ℕ → ℕ → List ℕ → List ℕ
b64_from i zero bytes = b64_pair (get_or bytes i 0) (get_or bytes (i + 1) 0)
b64_from i (suc n) bytes =
    b64_triple (get_or bytes i 0) (get_or bytes (i + 1) 0) (get_or bytes (i + 2) 0)
      (b64_from (i + 3) n bytes)

-- `b64_20`, without the 0 at the end.
unfoldable pub b64_20 : List ℕ → List ℕ
b64_20 bytes = b64_from 0 6 bytes

-- The value of a character.
unfoldable pub b64_value : ℕ → ℕ
b64_value ch =
    if ch == 0x2b
    then 62
    else if ch == 0x2f
    then 63
    else if leb ch 0x39
    then ch - 0x30 + 52
    else if leb ch 0x5a
    then ch - 0x41
    else ch - 0x61 + 26

-- The bytes of Base64 text: three for four characters, fewer before the padding.
unfoldable pub b64_decode : List ℕ → List ℕ
b64_decode (a ∷ b ∷ c ∷ e ∷ rest) =
    let x = b64_value a in
    let y = b64_value b in
    let z = b64_value c in
    let bytes = b64_decode rest in
    if e == 0x3d
    then (x * 4 + y / 16) ∷ (y % 16 * 16 + z / 4) ∷ []
    else (x * 4 + y / 16) ∷ (y % 16 * 16 + z / 4) ∷ (z % 4 * 64 + b64_value e) ∷ bytes
b64_decode text = []

value_of_char : (i : ℕ) → i < 64 → b64_value (b64_char i) ≡ i
unfolding all_below b64_value b64_char
value_of_char i h = (==_iff _ _).0 (all_below-at (λ j. b64_value (b64_char j) == j) 64 i refl h)

char_not_padding : (i : ℕ) → i < 64 → (b64_char i == 0x3d) ≡ false
unfolding all_below b64_char
char_not_padding i h =
    let tested = all_below-at (λ j. not (b64_char j == 0x3d)) 64 i refl h in ground arith

-- Four characters are three bytes, and three with the padding are two.
decode_four :
    (i j k l : ℕ) (rest : List ℕ)
    → i < 64
    → j < 64
    → k < 64
    → l < 64
    → b64_decode (b64_char i ∷ b64_char j ∷ b64_char k ∷ b64_char l ∷ rest)
      ≡ (i * 4 + j / 16) ∷ (j % 16 * 16 + k / 4) ∷ (k % 4 * 64 + l) ∷ b64_decode rest
unfolding b64_decode
decode_four i j k l rest hi hj hk hl = rw (
  char_not_padding l hl,
  value_of_char i hi,
  value_of_char j hj,
  value_of_char k hk,
  value_of_char l hl,
)

decode_three :
    (i j k : ℕ)
    → i < 64
    → j < 64
    → k < 64
    → b64_decode (b64_char i ∷ b64_char j ∷ b64_char k ∷ 0x3d ∷ [])
      ≡ (i * 4 + j / 16) ∷ (j % 16 * 16 + k / 4) ∷ []
unfolding b64_decode
decode_three i j k hi hj hk = rw (value_of_char i hi, value_of_char j hj, value_of_char k hk)

-- The bits of two and of three bytes.
joined_two : (x y : ℕ) → y < 256 → bit_or (x * 2 ^ 16) (y * 2 ^ 8) ≡ x * 65536 + y * 256
joined_two x y h = or_fields 16 x (y * 2 ^ 8) (omega arith)

joined_three :
    (x y z : ℕ)
    → y < 256
    → z < 256
    → bit_or (bit_or (x * 2 ^ 16) (y * 2 ^ 8)) z ≡ x * 65536 + y * 256 + z
joined_three x y z h k =
    let high : bit_or (x * 2 ^ 16) (y * 2 ^ 8) ≡ (x * 256 + y) * 2 ^ 8 =
      omega (arith, joined_two x y h) in
    ap (λ v. bit_or v z) high ∙ omega (arith, or_fields 8 (x * 256 + y) z k)

b64_decode-b64_triple :
    (x y z : ℕ) (rest : List ℕ)
    → x < 256
    → y < 256
    → z < 256
    → b64_decode (b64_triple x y z rest) ≡ x ∷ y ∷ z ∷ b64_decode rest
unfolding b64_triple
b64_decode-b64_triple x y z rest hx hy hz =
    let v = bit_or (bit_or (x * 2 ^ 16) (y * 2 ^ 8)) z in
    let sum = joined_three x y z hy hz in
    let first = and-low_six (v / 2 ^ 18) in
    let second = and-low_six (v / 2 ^ 12) in
    let third = and-low_six (v / 2 ^ 6) in
    let fourth = and-low_six v in
    decode_four (bit_and (v / 2 ^ 18) 63) (bit_and (v / 2 ^ 12) 63) (bit_and (v / 2 ^ 6) 63)
      (bit_and v 63) rest (omega (arith, first)) (omega (arith, second)) (omega (arith, third))
      (omega (arith, fourth))
    ∙ ap₂ (λ b bytes. b ∷ bytes) (omega (arith, first, second, sum))
        (ap₂ (λ b bytes. b ∷ bytes) (omega (arith, second, third, sum))
          (ap (λ b. b ∷ b64_decode rest) (omega (arith, third, fourth, sum))))

b64_decode-b64_pair : (x y : ℕ) → x < 256 → y < 256 → b64_decode (b64_pair x y) ≡ x ∷ y ∷ []
unfolding b64_pair
b64_decode-b64_pair x y hx hy =
    let v = bit_or (x * 2 ^ 16) (y * 2 ^ 8) in
    let sum = joined_two x y hy in
    let first = and-low_six (v / 2 ^ 18) in
    let second = and-low_six (v / 2 ^ 12) in
    let third = and-low_six (v / 2 ^ 6) in
    decode_three (bit_and (v / 2 ^ 18) 63) (bit_and (v / 2 ^ 12) 63) (bit_and (v / 2 ^ 6) 63)
      (omega (arith, first)) (omega (arith, second)) (omega (arith, third))
    ∙ ap₂ (λ b bytes. b ∷ bytes) (omega (arith, first, second, sum))
        (ap (λ b. b ∷ []) (omega (arith, second, third, sum)))

-- What the loop from `i` on reads, with `n` triples left.
abbrev window : ℕ → ℕ → List ℕ → List ℕ
window i zero bytes = get_or bytes i 0 ∷ get_or bytes (i + 1) 0 ∷ []
window i (suc n) bytes =
    get_or bytes i 0 ∷ get_or bytes (i + 1) 0 ∷ get_or bytes (i + 2) 0 ∷ window (i + 3) n bytes

byte_at : (bytes : List ℕ) (i : ℕ) → All (λ b. b < 256) bytes → get_or bytes i 0 < 256
byte_at bytes i h = All-get_or (λ b. b < 256) bytes i 0 h (omega arith)

b64_decode-b64_from :
    (i n : ℕ) (bytes : List ℕ)
    → All (λ b. b < 256) bytes
    → b64_decode (b64_from i n bytes) ≡ window i n bytes
unfolding b64_from
b64_decode-b64_from i zero bytes h =
    b64_decode-b64_pair (get_or bytes i 0) (get_or bytes (i + 1) 0) (byte_at bytes i h)
      (byte_at bytes (i + 1) h)
b64_decode-b64_from i (suc n) bytes h =
    let x = get_or bytes i 0 in
    let y = get_or bytes (i + 1) 0 in
    let z = get_or bytes (i + 2) 0 in
    b64_decode-b64_triple x y z (b64_from (i + 3) n bytes) (byte_at bytes i h)
      (byte_at bytes (i + 1) h) (byte_at bytes (i + 2) h)
    ∙ ap (λ rest. x ∷ y ∷ z ∷ rest) (b64_decode-b64_from (i + 3) n bytes h)

get_or-add : (x : ℕ) (xs : List ℕ) (i k : ℕ) → get_or (x ∷ xs) (suc i + k) 0 ≡ get_or xs (i + k) 0
get_or-add x xs i k = let next : suc i + k ≡ suc (i + k) = omega arith in rw next

window-suc : (i n x : ℕ) (xs : List ℕ) → window (suc i) n (x ∷ xs) ≡ window i n xs
window-suc i zero x xs = ap (λ b. get_or xs i 0 ∷ b ∷ []) (get_or-add x xs i 1)
window-suc i (suc n) x xs =
    let next : suc i + 3 ≡ suc (i + 3) = omega arith in
    ap₂ (λ b c. get_or xs i 0 ∷ b ∷ c ∷ window (suc i + 3) n (x ∷ xs)) (get_or-add x xs i 1)
      (get_or-add x xs i 2)
    ∙ ap (λ w. get_or xs i 0 ∷ get_or xs (i + 1) 0 ∷ get_or xs (i + 2) 0 ∷ w)
        (ap (λ j. window j n (x ∷ xs)) next ∙ window-suc (i + 3) n x xs)

window_all : (n : ℕ) (xs : List ℕ) → length xs ≡ n * 3 + 2 → window 0 n xs ≡ xs
window_all zero (x ∷ y ∷ []) h = refl
window_all zero [] h = absurd (omega arith)
window_all zero (x ∷ []) h = absurd (omega arith)
window_all zero (x ∷ y ∷ z ∷ xs) h = absurd (omega arith)
window_all (suc n) [] h = absurd (omega arith)
window_all (suc n) (x ∷ []) h = absurd (omega arith)
window_all (suc n) (x ∷ y ∷ []) h = absurd (omega arith)
window_all (suc n) (x ∷ y ∷ z ∷ xs) h =
    ap (λ rest. x ∷ y ∷ z ∷ rest)
      (window-suc 2 n x (y ∷ z ∷ xs)
        ∙ window-suc 1 n y (z ∷ xs)
        ∙ window-suc 0 n z xs
        ∙ window_all n xs (omega arith))

-- Decoding Base64 gives back the bytes that b64_20 was given, for each 20 bytes.
pub b64_decode-b64_20 :
    (bytes : List ℕ)
    → length bytes ≡ 20
    → All (λ b. b < 256) bytes
    → b64_decode (b64_20 bytes) ≡ bytes
unfolding b64_20
b64_decode-b64_20 bytes size h =
    b64_decode-b64_from 0 6 bytes h ∙ window_all 6 bytes (omega (arith, size))

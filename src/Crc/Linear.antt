-- ===== src/Crc/Linear.antt =====
-- crc.c: the checksum of the exclusive or of two messages.
use hpr_readsb.Base.{ℕ, zero, suc, ◌+◌, ◌-◌, ◌*◌, ◌/◌, ◌%◌, ◌^◌, ◌<◌, bit_xor, arith}
use hpr_readsb.Base.{List, [], ◌∷◌, ◌≡◌, refl, sym, ap, ◌∙◌}
use hpr_readsb.Base.{length, get_or}
use hpr_readsb.Base.Bits.{xor-shl, xor-shr, xor-mod, xor-parity, xor_interchange}
use hpr_readsb.Base.Bits.{xor_self, zero-xor, xor-zero}
use hpr_readsb.Crc.{generator_poly, crc_shift, crc_rounds, crc_table, crc_byte, crc_loop, checksum}

-- The term that a shift adds when the top bit is set.
abbrev feedback : ℕ → ℕ
feedback c = c / 2 ^ 23 % 2 * generator_poly

crc_shift_sum : (c : ℕ) → crc_shift c ≡ bit_xor (c * 2 % 2 ^ 32) (feedback c)
unfolding crc_shift
crc_shift_sum c = ground (arith, xor-zero (c * 2 % 2 ^ 32))

-- A multiple of a word by a bit, over the sum of two bits.
bit_times : (g x y : ℕ) → x < 2 → y < 2 → (x + y) % 2 * g ≡ bit_xor (x * g) (y * g)
bit_times g zero zero p q = ground (arith, xor_self (0 * g))
bit_times g zero (suc zero) p q = ground (arith, zero-xor (1 * g))
bit_times g zero (suc (suc y)) p q = absurd (omega arith)
bit_times g (suc zero) zero p q = ground (arith, xor-zero (1 * g))
bit_times g (suc zero) (suc zero) p q = ground (arith, xor_self (1 * g))
bit_times g (suc zero) (suc (suc y)) p q = absurd (omega arith)
bit_times g (suc (suc x)) y p q = absurd (omega arith)

feedback-xor : (a b : ℕ) → feedback (bit_xor a b) ≡ bit_xor (feedback a) (feedback b)
feedback-xor a b =
    ap (λ t. t % 2 * generator_poly) (xor-shr 23 a b)
    ∙ (ap (λ t. t * generator_poly) (xor-parity (a / 2 ^ 23) (b / 2 ^ 23))
        ∙ bit_times generator_poly (a / 2 ^ 23 % 2) (b / 2 ^ 23 % 2) (omega arith) (omega arith))

doubled-xor : (a b : ℕ) → bit_xor a b * 2 % 2 ^ 32 ≡ bit_xor (a * 2 % 2 ^ 32) (b * 2 % 2 ^ 32)
doubled-xor a b = ap (λ t. t % 2 ^ 32) (sym (xor-shl 1 a b)) ∙ xor-mod 32 (a * 2) (b * 2)

-- Each stage of the checksum turns a sum of arguments into the sum of the results.
pub crc_shift-xor : (a b : ℕ) → crc_shift (bit_xor a b) ≡ bit_xor (crc_shift a) (crc_shift b)
crc_shift-xor a b =
    rw
      (
        crc_shift_sum (bit_xor a b),
        crc_shift_sum a,
        crc_shift_sum b,
        doubled-xor a b,
        feedback-xor a b,
      )
      (xor_interchange (a * 2 % 2 ^ 32) (b * 2 % 2 ^ 32) (feedback a) (feedback b))

pub crc_rounds-xor :
    (j a b : ℕ) → crc_rounds j (bit_xor a b) ≡ bit_xor (crc_rounds j a) (crc_rounds j b)
unfolding crc_rounds
crc_rounds-xor zero a b = refl
crc_rounds-xor (suc j) a b = rw (crc_shift-xor a b) (crc_rounds-xor j (crc_shift a) (crc_shift b))

pub crc_table-xor : (a b : ℕ) → crc_table (bit_xor a b) ≡ bit_xor (crc_table a) (crc_table b)
unfolding crc_table
crc_table-xor a b =
    ap (λ t. crc_rounds 8 t % 2 ^ 24) (sym (xor-shl 16 a b))
    ∙ (ap (λ t. t % 2 ^ 24) (crc_rounds-xor 8 (a * 2 ^ 16) (b * 2 ^ 16))
        ∙ xor-mod 24 (crc_rounds 8 (a * 2 ^ 16)) (crc_rounds 8 (b * 2 ^ 16)))

-- The index into the table, and the two halves of a pass.
abbrev table_index : ℕ → ℕ → ℕ
table_index r m = bit_xor m (r / 2 ^ 16 % 2 ^ 8)

table_index-xor :
    (r s m n : ℕ)
    → table_index (bit_xor r s) (bit_xor m n) ≡ bit_xor (table_index r m) (table_index s n)
table_index-xor r s m n =
    ap (λ t. bit_xor (bit_xor m n) (t % 2 ^ 8)) (xor-shr 16 r s)
    ∙ (ap (bit_xor (bit_xor m n)) (xor-mod 8 (r / 2 ^ 16) (s / 2 ^ 16))
        ∙ xor_interchange m n (r / 2 ^ 16 % 2 ^ 8) (s / 2 ^ 16 % 2 ^ 8))

shifted-xor :
    (r s : ℕ) → bit_xor r s * 2 ^ 8 % 2 ^ 32 ≡ bit_xor (r * 2 ^ 8 % 2 ^ 32) (s * 2 ^ 8 % 2 ^ 32)
shifted-xor r s = ap (λ t. t % 2 ^ 32) (sym (xor-shl 8 r s)) ∙ xor-mod 32 (r * 2 ^ 8) (s * 2 ^ 8)

pub crc_byte-xor :
    (r s m n : ℕ) → crc_byte (bit_xor r s) (bit_xor m n) ≡ bit_xor (crc_byte r m) (crc_byte s n)
unfolding crc_byte
crc_byte-xor r s m n =
    rw
      (
        shifted-xor r s,
        table_index-xor r s m n,
        crc_table-xor (table_index r m) (table_index s n),
        xor_interchange (r * 2 ^ 8 % 2 ^ 32) (s * 2 ^ 8 % 2 ^ 32) (crc_table (table_index r m))
            (crc_table (table_index s n)),
      )
      (xor-mod 24 _ _)

-- Two messages added byte by byte.
unfoldable pub xor_bytes : List ℕ → List ℕ → List ℕ
xor_bytes [] ys = []
xor_bytes (x ∷ xs) [] = x ∷ xs
xor_bytes (x ∷ xs) (y ∷ ys) = bit_xor x y ∷ xor_bytes xs ys

pub length-xor_bytes : (xs ys : List ℕ) → length (xor_bytes xs ys) ≡ length xs
unfolding xor_bytes
length-xor_bytes [] ys = refl
length-xor_bytes (x ∷ xs) [] = refl
length-xor_bytes (x ∷ xs) (y ∷ ys) = ap suc (length-xor_bytes xs ys)

get_or-xor_bytes :
    (xs ys : List ℕ) (i : ℕ)
    → length xs ≡ length ys
    → get_or (xor_bytes xs ys) i 0 ≡ bit_xor (get_or xs i 0) (get_or ys i 0)
unfolding xor_bytes
get_or-xor_bytes [] [] i h = refl
get_or-xor_bytes [] (y ∷ ys) i h = absurd (omega arith)
get_or-xor_bytes (x ∷ xs) [] i h = absurd (omega arith)
get_or-xor_bytes (x ∷ xs) (y ∷ ys) zero h = refl
get_or-xor_bytes (x ∷ xs) (y ∷ ys) (suc i) h = get_or-xor_bytes xs ys i (omega arith)

pub crc_loop-xor :
    (k r s : ℕ) (xs ys : List ℕ)
    → length xs ≡ length ys
    → crc_loop k (bit_xor r s) (xor_bytes xs ys) ≡ bit_xor (crc_loop k r xs) (crc_loop k s ys)
unfolding crc_loop xor_bytes
crc_loop-xor zero r s xs ys h = refl
crc_loop-xor (suc k) r s [] [] h = refl
crc_loop-xor (suc k) r s [] (y ∷ ys) h = absurd (omega arith)
crc_loop-xor (suc k) r s (x ∷ xs) [] h = absurd (omega arith)
crc_loop-xor (suc k) r s (x ∷ xs) (y ∷ ys) h =
    rw (crc_byte-xor r s x y) (crc_loop-xor k (crc_byte r x) (crc_byte s y) xs ys (omega arith))

shifted_byte-xor : (k a b : ℕ) → bit_xor a b * 2 ^ k ≡ bit_xor (a * 2 ^ k) (b * 2 ^ k)
shifted_byte-xor k a b = sym (xor-shl k a b)

-- Four sums added up, regrouped.
xor_four :
    (a a' b b' c c' d d' : ℕ)
    → bit_xor (bit_xor (bit_xor (bit_xor a a') (bit_xor b b')) (bit_xor c c')) (bit_xor d d')
      ≡ bit_xor (bit_xor (bit_xor (bit_xor a b) c) d) (bit_xor (bit_xor (bit_xor a' b') c') d')
xor_four a a' b b' c c' d d' = rw (
  xor_interchange a a' b b',
  xor_interchange (bit_xor a b) (bit_xor a' b') c c',
  xor_interchange (bit_xor (bit_xor a b) c) (bit_xor (bit_xor a' b') c') d d',
)

-- The checksum of the exclusive or of two messages of one length is the exclusive or of their
-- checksums.
pub checksum-xor :
    (n : ℕ) (xs ys : List ℕ)
    → length xs ≡ length ys
    → checksum n (xor_bytes xs ys) ≡ bit_xor (checksum n xs) (checksum n ys)
unfolding checksum
checksum-xor n xs ys h =
    rw
      (
        crc_loop-xor (n - 3) 0 0 xs ys h,
        get_or-xor_bytes xs ys (n - 3) h,
        get_or-xor_bytes xs ys (n - 2) h,
        get_or-xor_bytes xs ys (n - 1) h,
        shifted_byte-xor 16 (get_or xs (n - 3) 0) (get_or ys (n - 3) 0),
        shifted_byte-xor 8 (get_or xs (n - 2) 0) (get_or ys (n - 2) 0),
      )
      (xor_four (crc_loop (n - 3) 0 xs) (crc_loop (n - 3) 0 ys) _ _ _ _ (get_or xs (n - 1) 0)
        (get_or ys (n - 1) 0))

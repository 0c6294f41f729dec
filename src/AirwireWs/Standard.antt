-- ===== src/AirwireWs/Standard.antt =====
-- The SHA-1 of RFC 3174, which the handshake of hpr_airwire_ws.c uses, apart from the code: a
-- message is padded as a whole, its blocks are hashed one after the other, and the words of a
-- block stand in a queue of sixteen, as in section 6.2.
use hpr_readsb.Base.{ℕ, zero, suc, ◌+◌, ◌-◌, ◌*◌, ◌/◌, ◌%◌, ◌^◌, bit_and, bit_or, bit_xor}
use hpr_readsb.Base.{List, [], ◌∷◌, ◌++◌, length, get_or, take, drop, replicate}

-- Section 3: a circular left shift, of a word of 32 bits.
unfoldable pub circular_shift : ℕ → ℕ → ℕ
circular_shift n x = bit_or (x * 2 ^ n % 2 ^ 32) (x / 2 ^ (32 - n))

-- Section 5: the functions and the constants of the four times twenty steps.
unfoldable pub choose_word : ℕ → ℕ → ℕ → ℕ
choose_word b c d = bit_or (bit_and b c) (bit_and (2 ^ 32 - 1 - b) d)

unfoldable pub parity_word : ℕ → ℕ → ℕ → ℕ
parity_word b c d = bit_xor (bit_xor b c) d

unfoldable pub majority_word : ℕ → ℕ → ℕ → ℕ
majority_word b c d = bit_or (bit_or (bit_and b c) (bit_and b d)) (bit_and c d)

unfoldable pub step_function : ℕ → ℕ → ℕ → ℕ → ℕ
step_function zero b c d = choose_word b c d
step_function (suc zero) b c d = parity_word b c d
step_function (suc (suc zero)) b c d = majority_word b c d
step_function (suc (suc (suc n))) b c d = parity_word b c d

abbrev pub step_constants : List ℕ
step_constants = 0x5a827999 ∷ 0x6ed9eba1 ∷ 0x8f1bbcdc ∷ 0xca62c1d6 ∷ []

-- The five words of a hash.
pub record Hash : Type 0 where
  pub a : ℕ
  pub b : ℕ
  pub c : ℕ
  pub d : ℕ
  pub e : ℕ

abbrev pub initial_hash : Hash
initial_hash = record {
  a = 0x67452301;
  b = 0xefcdab89;
  c = 0x98badcfe;
  d = 0x10325476;
  e = 0xc3d2e1f0;
}

-- Step t with its word.
unfoldable pub step : ℕ → ℕ → Hash → Hash
step t w h =
    let sum = circular_shift 5 h.a + step_function (t / 20) h.b h.c h.d + h.e in
    record {
      a = (sum + get_or step_constants (t / 20) 0 + w) % 2 ^ 32;
      b = h.a;
      c = circular_shift 30 h.b;
      d = h.c;
      e = h.d;
    }

-- The word that comes into the queue when its first one goes.
unfoldable pub next_word : List ℕ → ℕ
next_word queue = circular_shift 1 (
    bit_xor (bit_xor (bit_xor (get_or queue 13 0) (get_or queue 8 0)) (get_or queue 2 0))
      (get_or queue 0 0))

-- Steps t and later, `n` of them.
unfoldable pub steps : ℕ → ℕ → List ℕ → Hash → Hash
steps zero t queue h = h
steps (suc n) t queue h =
    steps n (suc t) (drop 1 queue ++ (next_word queue ∷ [])) (step t (get_or queue 0 0) h)

-- Word `i` of a block, its first byte the highest.
unfoldable pub word_at : List ℕ → ℕ → ℕ
word_at block i =
    let byte = λ (k : ℕ). get_or block (4 * i + k) 0 in
    bit_or (bit_or (bit_or (byte 0 * 2 ^ 24) (byte 1 * 2 ^ 16)) (byte 2 * 2 ^ 8)) (byte 3)

-- Words i and later, `n` of them.
unfoldable pub words_from : ℕ → ℕ → List ℕ → List ℕ
words_from zero i block = []
words_from (suc n) i block = word_at block i ∷ words_from n (suc i) block

unfoldable pub hash_block : Hash → List ℕ → Hash
hash_block h block =
    let v = steps 80 0 (words_from 16 0 block) h in
    record {
      a = (h.a + v.a) % 2 ^ 32;
      b = (h.b + v.b) % 2 ^ 32;
      c = (h.c + v.c) % 2 ^ 32;
      d = (h.d + v.d) % 2 ^ 32;
      e = (h.e + v.e) % 2 ^ 32;
    }

-- `n` blocks of 64 bytes.
unfoldable pub hash_all : ℕ → Hash → List ℕ → Hash
hash_all zero h bytes = h
hash_all (suc n) h bytes = hash_all n (hash_block h (take 64 bytes)) (drop 64 bytes)

-- The last `n` bytes of a number, the lowest at the end.
unfoldable pub big_endian : ℕ → ℕ → List ℕ
big_endian zero v = []
big_endian (suc n) v = big_endian n (v / 256) ++ (v % 256 ∷ [])

-- Section 4: the byte 0x80, zeros up to 56 bytes modulo 64, and the number of bits.
unfoldable pub pad_message : List ℕ → List ℕ
pad_message message =
    let zeros = (119 - length message % 64) % 64 in
    message ++ ((0x80 ∷ []) ++ (replicate zeros 0 ++ big_endian 8 (length message * 8 % 2 ^ 64)))

-- The digest of a message.
unfoldable pub sha1_reference : List ℕ → List ℕ
sha1_reference message =
    let bytes = pad_message message in
    let h = hash_all (length bytes / 64) initial_hash bytes in
    big_endian 4 h.a
    ++ (big_endian 4 h.b ++ (big_endian 4 h.c ++ (big_endian 4 h.d ++ big_endian 4 h.e)))

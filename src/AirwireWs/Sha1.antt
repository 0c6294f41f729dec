-- ===== src/AirwireWs/Sha1.antt =====
-- hpr_airwire_ws.c: the SHA-1 of the handshake.
use hpr_readsb.Base.{ℕ, zero, suc, ◌+◌, ◌-◌, ◌*◌, ◌/◌, ◌%◌, ◌^◌, bit_and, bit_or, bit_xor}
use hpr_readsb.Base.{
  List, [], ◌∷◌, ◌++◌, ◌==◌, ltb, if◌then◌else◌, true, false, length, get_or, reverse_onto, take,
  drop,
}

abbrev pub word : ℕ
word = 2 ^ 32

-- `rol32`, for a word and 0 < n < 32
unfoldable pub rol32 : ℕ → ℕ → ℕ
rol32 v n = bit_or (v * 2 ^ n % word) (v / 2 ^ (32 - n))

-- `hpr_sha1_t`: h, bits, and the `used` first bytes of the block.
pub record Sha1 : Type 0 where
  pub h0 : ℕ
  pub h1 : ℕ
  pub h2 : ℕ
  pub h3 : ℕ
  pub h4 : ℕ
  pub bits : ℕ
  pub block : List ℕ

-- The big-endian words of a block.
unfoldable pub block_words : ℕ → List ℕ → List ℕ
block_words zero bytes = []
block_words (suc n) bytes =
    let high = bit_or (get_or bytes 0 0 * 2 ^ 24) (get_or bytes 1 0 * 2 ^ 16) in
    bit_or (bit_or high (get_or bytes 2 0 * 2 ^ 8)) (get_or bytes 3 0)
    ∷ block_words n (drop 4 bytes)

-- The words from 16 on, given those before them, the last one first.
unfoldable pub extend_words : ℕ → List ℕ → List ℕ
extend_words zero w = w
extend_words (suc n) w =
    let x =
      bit_xor (bit_xor (bit_xor (get_or w 2 0) (get_or w 7 0)) (get_or w 13 0)) (get_or w 15 0) in
    extend_words n (rol32 x 1 ∷ w)

-- The variables a to e.
pub record Vars : Type 0 where
  pub a : ℕ
  pub b : ℕ
  pub c : ℕ
  pub d : ℕ
  pub e : ℕ

-- `f` of a round.
unfoldable pub round_f : ℕ → Vars → ℕ
round_f i v =
    if ltb i 20
    then bit_or (bit_and v.b v.c) (bit_and (word - 1 - v.b) v.d)
    else if ltb i 40
    then bit_xor (bit_xor v.b v.c) v.d
    else if ltb i 60
    then bit_or (bit_or (bit_and v.b v.c) (bit_and v.b v.d)) (bit_and v.c v.d)
    else bit_xor (bit_xor v.b v.c) v.d

-- `k` of a round.
unfoldable pub round_k : ℕ → ℕ
round_k i =
    if ltb i 20
    then 0x5a827999
    else if ltb i 40
    then 0x6ed9eba1
    else if ltb i 60
    then 0x8f1bbcdc
    else 0xca62c1d6

unfoldable pub rounds : ℕ → List ℕ → Vars → Vars
rounds i [] v = v
rounds i (w ∷ ws) v =
    let t = (rol32 v.a 5 + round_f i v + v.e + round_k i + w) % word in
    rounds (suc i) ws (record { a = t; b = v.a; c = rol32 v.b 30; d = v.c; e = v.d })

-- `sha1_block`
unfoldable pub sha1_block : Sha1 → List ℕ → Sha1
sha1_block s block =
    let first = reverse_onto (block_words 16 block) [] in
    let w = reverse_onto (extend_words 64 first) [] in
    let v = rounds 0 w (record { a = s.h0; b = s.h1; c = s.h2; d = s.h3; e = s.h4 }) in
    record s {
      h0 = (s.h0 + v.a) % word;
      h1 = (s.h1 + v.b) % word;
      h2 = (s.h2 + v.c) % word;
      h3 = (s.h3 + v.d) % word;
      h4 = (s.h4 + v.e) % word;
    }

-- `sha1_init`
abbrev pub sha1_init : Sha1
sha1_init = record {
  h0 = 0x67452301;
  h1 = 0xefcdab89;
  h2 = 0x98badcfe;
  h3 = 0x10325476;
  h4 = 0xc3d2e1f0;
  bits = 0;
  block = [];
}

-- The block after it is filled.
unfoldable pub flush : Sha1 → Sha1
flush s =
    let next = record (sha1_block s s.block) { block = [] } in
    if length s.block == 64 then next else s

-- The loop of `sha1_update`, with fuel for a pass for each byte.
unfoldable pub update_loop : ℕ → Sha1 → List ℕ → Sha1
update_loop zero s p = s
update_loop (suc fuel) s [] = s
update_loop (suc fuel) s (byte ∷ p) =
    let space = 64 - length s.block in
    let filled = record s { block = s.block ++ take space (byte ∷ p) } in
    update_loop fuel (flush filled) (drop space (byte ∷ p))

-- `sha1_update`
unfoldable pub sha1_update : Sha1 → List ℕ → Sha1
sha1_update s p = update_loop (length p) (record s { bits = (s.bits + length p * 8) % 2 ^ 64 }) p

-- `while (s->used != 56)`, with fuel for 64 passes.
unfoldable pub pad : ℕ → Sha1 → Sha1
pad zero s = s
pad (suc fuel) s = elim (length s.block == 56) [
  | true ↦ s
  | false ↦ pad fuel (sha1_update s (0 ∷ []))
]

-- The last `n` of eight bytes, the highest first.
unfoldable pub put_bytes : ℕ → ℕ → List ℕ
put_bytes v zero = []
put_bytes v (suc n) = (v / 2 ^ (n * 8) % 256) ∷ put_bytes v n

-- `sha1_final`
unfoldable pub sha1_final : Sha1 → List ℕ
sha1_final s =
    let padded = pad 64 (sha1_update s (0x80 ∷ [])) in
    let t = sha1_update padded (put_bytes s.bits 8) in
    put_bytes t.h0 4
    ++ (put_bytes t.h1 4 ++ (put_bytes t.h2 4 ++ (put_bytes t.h3 4 ++ put_bytes t.h4 4)))

-- The digest of a message, as `ws_handshake` computes it.
unfoldable pub sha1 : List ℕ → List ℕ
sha1 message = sha1_final (sha1_update sha1_init message)

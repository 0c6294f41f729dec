-- ===== src/AirwireWs/DigestTests.antt =====
-- The key of the example of RFC 6455, and its answer.
use hpr_readsb.Base.{ℕ, zero, suc, ◌<◌, All, ◌≡◌, refl, arith, List, [], ◌∷◌, replicate}
use hpr_readsb.AirwireWs.Sha1.{
  rol32, block_words, extend_words, round_f, round_k, rounds, sha1_block, flush, update_loop,
  sha1_update, pad, put_bytes, sha1_final, sha1,
}
use hpr_readsb.AirwireWs.Standard.{
  circular_shift, choose_word, parity_word, majority_word, step_function, step, steps, next_word,
  word_at, words_from, hash_block, hash_all, big_endian, pad_message, sha1_reference,
}
use hpr_readsb.AirwireWs.Reference.{sha1-sha1_reference}
use hpr_readsb.AirwireWs.Base64.{
  b64_char, b64_triple, b64_pair, b64_from, b64_20, b64_decode, b64_decode-b64_20,
}

abbrev material : List ℕ
material =
    0x64 ∷ 0x47 ∷ 0x68 ∷ 0x6c ∷ 0x49 ∷ 0x48 ∷ 0x4e ∷ 0x68 ∷ 0x62 ∷ 0x58 ∷ 0x42 ∷ 0x73 ∷ 0x5a ∷ 0x53
    ∷ 0x42 ∷ 0x75 ∷ 0x62 ∷ 0x32 ∷ 0x35 ∷ 0x6a ∷ 0x5a ∷ 0x51 ∷ 0x3d ∷ 0x3d ∷ 0x32 ∷ 0x35 ∷ 0x38
    ∷ 0x45 ∷ 0x41 ∷ 0x46 ∷ 0x41 ∷ 0x35 ∷ 0x2d ∷ 0x45 ∷ 0x39 ∷ 0x31 ∷ 0x34 ∷ 0x2d ∷ 0x34 ∷ 0x37
    ∷ 0x44 ∷ 0x41 ∷ 0x2d ∷ 0x39 ∷ 0x35 ∷ 0x43 ∷ 0x41 ∷ 0x2d ∷ 0x43 ∷ 0x35 ∷ 0x41 ∷ 0x42 ∷ 0x30
    ∷ 0x44 ∷ 0x43 ∷ 0x38 ∷ 0x35 ∷ 0x42 ∷ 0x31 ∷ 0x31 ∷ []

abbrev accept : List ℕ
accept =
    0x73 ∷ 0x33 ∷ 0x70 ∷ 0x50 ∷ 0x4c ∷ 0x4d ∷ 0x42 ∷ 0x69 ∷ 0x54 ∷ 0x78 ∷ 0x61 ∷ 0x51 ∷ 0x39 ∷ 0x6b
    ∷ 0x59 ∷ 0x47 ∷ 0x7a ∷ 0x7a ∷ 0x68 ∷ 0x5a ∷ 0x52 ∷ 0x62 ∷ 0x4b ∷ 0x2b ∷ 0x78 ∷ 0x4f ∷ 0x6f
    ∷ 0x3d ∷ []

handshake : b64_20 (sha1 material) ≡ accept
unfolding rol32 block_words extend_words round_f round_k rounds sha1_block flush update_loop
    sha1_update pad put_bytes sha1_final sha1 b64_char b64_triple b64_pair b64_from b64_20
handshake = refl

-- The same answer from the digest of RFC 3174.
handshake_of_reference : b64_20 (sha1_reference material) ≡ accept
unfolding circular_shift choose_word parity_word majority_word step_function step steps next_word
    word_at words_from hash_block hash_all big_endian pad_message sha1_reference b64_char b64_triple
    b64_pair b64_from b64_20
handshake_of_reference = refl

sha1-sha1_reference_example : sha1 material ≡ sha1_reference material
sha1-sha1_reference_example = sha1-sha1_reference material

small : (n : ℕ) → All (λ b. b < 256) (replicate n 0xa9)
small zero = tt
small (suc n) = (omega arith, small n)

b64_decode-b64_20_example : b64_decode (b64_20 (replicate 20 0xa9)) ≡ replicate 20 0xa9
b64_decode-b64_20_example = b64_decode-b64_20 (replicate 20 0xa9) refl (small 20)

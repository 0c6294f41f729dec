-- ===== src/AirwireWs/Reference.antt =====
-- hpr_airwire_ws.c: the digest of the handshake against RFC 3174.
use hpr_readsb.Base.{ℕ, zero, suc, ◌+◌, ◌-◌, ◌*◌, ◌/◌, ◌%◌, ◌^◌, ◌≡◌, refl, ap, ◌∙◌, arith}
use hpr_readsb.Base.{List, ◌++◌, length, take, drop}
use hpr_readsb.AirwireWs.Sha1.{sha1_block, sha1_init, put_bytes, sha1, Sha1}
use hpr_readsb.AirwireWs.Padding.{
  padded, hash_blocks, digest, sha1_of_blocks, sha1-sha1_of_blocks, zeros_for,
}
use hpr_readsb.AirwireWs.Standard.{
  Hash, initial_hash, hash_all, big_endian, pad_message, sha1_reference,
}
use hpr_readsb.AirwireWs.Rounds.{hash_of, sha1_block-hash_block}

hash_blocks-hash_all :
    (n : ℕ) (s : Sha1) (bytes : List ℕ)
    → hash_of (hash_blocks n s bytes) ≡ hash_all n (hash_of s) bytes
unfolding hash_blocks hash_all
hash_blocks-hash_all zero s bytes = refl
hash_blocks-hash_all (suc n) s bytes =
    let rest = drop 64 bytes in
    hash_blocks-hash_all n (sha1_block s (take 64 bytes)) rest
    ∙ ap (λ h. hash_all n h rest) (sha1_block-hash_block s (take 64 bytes))

-- The bytes of a number.
put_bytes-big_endian_4 : (v : ℕ) → put_bytes v 4 ≡ big_endian 4 v
unfolding put_bytes big_endian
put_bytes-big_endian_4 v =
    let b3 : v / 2 ^ 24 % 256 ≡ v / 256 / 256 / 256 % 256 = omega arith in
    let b2 : v / 2 ^ 16 % 256 ≡ v / 256 / 256 % 256 = omega arith in
    let b1 : v / 2 ^ 8 % 256 ≡ v / 256 % 256 = omega arith in
    let b0 : v / 2 ^ 0 % 256 ≡ v % 256 = omega arith in rw (b3, b2, b1, b0)

put_bytes-big_endian_8 : (v : ℕ) → put_bytes v 8 ≡ big_endian 8 v
unfolding put_bytes big_endian
put_bytes-big_endian_8 v =
    let b7 : v / 2 ^ 56 % 256 ≡ v / 256 / 256 / 256 / 256 / 256 / 256 / 256 % 256 = omega arith in
    let b6 : v / 2 ^ 48 % 256 ≡ v / 256 / 256 / 256 / 256 / 256 / 256 % 256 = omega arith in
    let b5 : v / 2 ^ 40 % 256 ≡ v / 256 / 256 / 256 / 256 / 256 % 256 = omega arith in
    let b4 : v / 2 ^ 32 % 256 ≡ v / 256 / 256 / 256 / 256 % 256 = omega arith in
    let b3 : v / 2 ^ 24 % 256 ≡ v / 256 / 256 / 256 % 256 = omega arith in
    let b2 : v / 2 ^ 16 % 256 ≡ v / 256 / 256 % 256 = omega arith in
    let b1 : v / 2 ^ 8 % 256 ≡ v / 256 % 256 = omega arith in
    let b0 : v / 2 ^ 0 % 256 ≡ v % 256 = omega arith in rw (b7, b6, b5, b4, b3, b2, b1, b0)

padded-pad_message : (message : List ℕ) → padded message ≡ pad_message message
unfolding padded pad_message
padded-pad_message message =
    let same : zeros_for ((length message + 1) % 64) ≡ (119 - length message % 64) % 64 =
      omega arith in
    rw (same, put_bytes-big_endian_8 (length message * 8 % 2 ^ 64))

digest_of : Hash → List ℕ
digest_of h =
    big_endian 4 h.a
    ++ (big_endian 4 h.b ++ (big_endian 4 h.c ++ (big_endian 4 h.d ++ big_endian 4 h.e)))

digest-digest_of : (s : Sha1) → digest s ≡ digest_of (hash_of s)
unfolding digest digest_of
digest-digest_of s = rw (
  put_bytes-big_endian_4 s.h0,
  put_bytes-big_endian_4 s.h1,
  put_bytes-big_endian_4 s.h2,
  put_bytes-big_endian_4 s.h3,
  put_bytes-big_endian_4 s.h4,
)

-- The SHA-1 of the handshake, which copies a message into a block of 64 bytes as it comes and
-- pads it byte by byte, is for every message the digest of RFC 3174, written apart from the code
-- with its own constants: the message is padded as a whole with 0x80, zeros up to 56 bytes modulo
-- 64 and its length in bits modulo 2 ^ 64, and each block goes through eighty steps on a queue of
-- sixteen words.
pub sha1-sha1_reference : (message : List ℕ) → sha1 message ≡ sha1_reference message
unfolding sha1_of_blocks sha1_reference digest_of
sha1-sha1_reference message =
    let hashed = λ (bytes : List ℕ). hash_all (length bytes / 64) initial_hash bytes in
    let n = length (padded message) / 64 in
    sha1-sha1_of_blocks message
    ∙ digest-digest_of (hash_blocks n sha1_init (padded message))
    ∙ ap digest_of (hash_blocks-hash_all n sha1_init (padded message))
    ∙ ap (λ bytes. digest_of (hashed bytes)) (padded-pad_message message)

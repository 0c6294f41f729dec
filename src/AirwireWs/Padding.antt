-- ===== src/AirwireWs/Padding.antt =====
-- hpr_airwire_ws.c: the padding of the SHA-1, and the digest of a whole message.
use hpr_readsb.Base.{
  ℕ, zero, suc, ◌+◌, ◌-◌, ◌*◌, ◌/◌, ◌%◌, ◌^◌, ◌≤◌, ◌<◌, ◌≡◌, refl, sym, ap, ◌∙◌, arith,
}
use hpr_readsb.Base.{inl, inr, true, false, Bool-cases, ==_iff, ◌==◌}
use hpr_readsb.Base.{
  List, [], ◌∷◌, ◌++◌, length, take, drop, replicate, length-append, length-replicate,
}
use hpr_readsb.AirwireWs.Sha1.{
  Sha1, sha1_block, sha1_init, flush, sha1_update, pad, put_bytes, sha1_final, sha1,
}
use hpr_readsb.AirwireWs.Digest.{
  absorb, absorb-append, with_block, flush-full, absorb-full, take-drop, length-take,
  update_loop-absorb,
}

abbrev with_bits : Sha1 → ℕ → Sha1
with_bits s n = record s { bits = n }

-- The number of zeros behind the byte 0x80, for a block of `used` bytes then.
abbrev pub zeros_for : ℕ → ℕ
zeros_for used = (120 - used) % 64

-- The message with the padding of the standard.
unfoldable pub padded : List ℕ → List ℕ
padded message =
    message
    ++ ((0x80 ∷ [])
        ++ (replicate (zeros_for ((length message + 1) % 64)) 0
            ++ put_bytes (length message * 8 % 2 ^ 64) 8))

-- Blocks of 64 bytes, one after the other.
unfoldable pub hash_blocks : ℕ → Sha1 → List ℕ → Sha1
hash_blocks zero s bytes = s
hash_blocks (suc n) s bytes = hash_blocks n (sha1_block s (take 64 bytes)) (drop 64 bytes)

unfoldable pub digest : Sha1 → List ℕ
digest t =
    put_bytes t.h0 4
    ++ (put_bytes t.h1 4 ++ (put_bytes t.h2 4 ++ (put_bytes t.h3 4 ++ put_bytes t.h4 4)))

-- The digest from the blocks of the padded message.
unfoldable pub sha1_of_blocks : List ℕ → List ℕ
sha1_of_blocks message =
    digest (hash_blocks (length (padded message) / 64) sha1_init (padded message))

flush-with_bits : (s : Sha1) (n : ℕ) → flush (with_bits s n) ≡ with_bits (flush s) n
unfolding flush sha1_block
flush-with_bits s n = elim (Bool-cases (length s.block == 64)) [
  | inl e ↦ rw (e, flush)
  | inr e ↦ rw (e, flush)
]

absorb-with_bits :
    (s : Sha1) (n : ℕ) (p : List ℕ) → absorb (with_bits s n) p ≡ with_bits (absorb s p) n
unfolding absorb
absorb-with_bits s n [] = refl
absorb-with_bits s n (byte ∷ p) =
    let next = with_block s (s.block ++ (byte ∷ [])) in
    ap (λ t. absorb t p) (flush-with_bits next n) ∙ absorb-with_bits (flush next) n p

-- The room that is used is counted modulo 64.
length-flush : (s : Sha1) → length s.block ≤ 64 → length (flush s).block ≡ length s.block % 64
unfolding flush
length-flush s h = elim (Bool-cases (length s.block == 64)) [
  | inl e ↦ let full : length s.block ≡ 64 = (==_iff _ _).0 e in rw (e, flush) (omega (arith, full))
  | inr e ↦ let short : length s.block < 64 = ground arith in rw (e, flush) (omega (arith, short))
]

length-absorb :
    (s : Sha1) (p : List ℕ)
    → length s.block < 64
    → length (absorb s p).block ≡ (length s.block + length p) % 64
unfolding absorb
length-absorb s [] h = omega (arith, h)
length-absorb s (byte ∷ p) h =
    let next = with_block s (s.block ++ (byte ∷ [])) in
    let grown = length-append s.block (byte ∷ []) in
    let flushed = length-flush next (omega (arith, grown, h)) in
    length-absorb (flush next) p (omega (arith, flushed)) ∙ omega (arith, flushed, grown)

sha1_update-absorb :
    (s : Sha1) (p : List ℕ)
    → length s.block < 64
    → sha1_update s p ≡ with_bits (absorb s p) ((s.bits + length p * 8) % 2 ^ 64)
unfolding sha1_update
sha1_update-absorb s p h =
    let bits = (s.bits + length p * 8) % 2 ^ 64 in
    update_loop-absorb (length p) (with_bits s bits) p (omega arith) h ∙ absorb-with_bits s bits p

pad-done : (fuel : ℕ) (s : Sha1) → length s.block ≡ 56 → pad (suc fuel) s ≡ s
unfolding pad
pad-done fuel s h = let full : (length s.block == 56) ≡ true = ground arith in rw (full, pad)

pad-more :
    (fuel : ℕ) (s : Sha1)
    → (length s.block == 56) ≡ false
    → pad (suc fuel) s ≡ pad fuel (sha1_update s (0 ∷ []))
unfolding pad
pad-more fuel s h = rw (h, pad)

-- The padding ends after fewer than 64 zeros.
pad-zeros :
    (fuel : ℕ) (s : Sha1)
    → length s.block < 64
    → zeros_for (length s.block) < fuel
    → (n : ℕ) × (pad fuel s ≡ with_bits (absorb s (replicate (zeros_for (length s.block)) 0)) n)
unfolding absorb
pad-zeros zero s h k = absurd (omega arith)
pad-zeros (suc fuel) s h k = elim (Bool-cases (length s.block == 56)) [
  | inl e ↦
      let full : length s.block ≡ 56 = (==_iff _ _).0 e in
      let none_left : zeros_for (length s.block) ≡ 0 = omega (arith, full) in
      (
        s.bits,
        pad-done fuel s full
            ∙ ap (λ z. with_bits (absorb s (replicate z 0)) s.bits) (sym none_left),
      )
  | inr e ↦
      let one = absorb s (0 ∷ []) in
      let next = with_bits one ((s.bits + 1 * 8) % 2 ^ 64) in
      let used = length-absorb s (0 ∷ []) h in
      let other : zeros_for (length s.block) ≡ suc (zeros_for (length one.block)) =
        ground (arith, used) in
      let (n, rest) = pad-zeros fuel next (omega (arith, used)) (omega (arith, other, k)) in
      (
        n,
        pad-more fuel s e
            ∙ ap (pad fuel) (sha1_update-absorb s (0 ∷ []) h)
            ∙ rest
            ∙ ap (λ t. with_bits t n)
                (absorb-with_bits one ((s.bits + 1 * 8) % 2 ^ 64)
                  (replicate (zeros_for (length one.block)) 0))
            ∙ ap (λ z. with_bits (absorb s (replicate z 0)) n) (sym other),
      )
]

-- Whole blocks.
absorb-hash_blocks :
    (n : ℕ) (s : Sha1) (bytes : List ℕ)
    → length bytes ≡ n * 64
    → absorb (with_block s []) bytes ≡ with_block (hash_blocks n s bytes) []
unfolding absorb hash_blocks sha1_block
absorb-hash_blocks zero s [] h = refl
absorb-hash_blocks zero s (byte ∷ bytes) h = absurd (omega arith)
absorb-hash_blocks (suc n) s bytes h =
    let first = take 64 bytes in
    let empty = with_block s [] in
    let taken : length first ≡ 64 = length-take 64 bytes (omega (arith, h)) in
    let split = length-append first (drop 64 bytes) in
    let whole = ap length (take-drop 64 bytes) in
    ap (absorb empty) (sym (take-drop 64 bytes))
    ∙ absorb-append empty first (drop 64 bytes)
    ∙ ap (λ t. absorb t (drop 64 bytes))
        (absorb-full empty first (omega arith) (omega (arith, taken))
          ∙ flush-full (with_block s first) taken)
    ∙ absorb-hash_blocks n (sha1_block s first) (drop 64 bytes)
        (omega (arith, split, whole, taken, h))

-- What `sha1_final` puts behind the message, for a block of `used` bytes and the number of bits.
abbrev tail : ℕ → ℕ → List ℕ
tail used bits = (0x80 ∷ []) ++ (replicate (zeros_for ((used + 1) % 64)) 0 ++ put_bytes bits 8)

sha1_final-absorb :
    (s : Sha1)
    → length s.block < 64
    → sha1_final s ≡ digest (absorb s (tail (length s.block) s.bits))
unfolding sha1_final digest absorb
sha1_final-absorb s h =
    let marked = sha1_update s (0x80 ∷ []) in
    let core = absorb s (0x80 ∷ []) in
    let bits = (s.bits + 1 * 8) % 2 ^ 64 in
    let used = length-absorb s (0x80 ∷ []) h in
    let len = put_bytes s.bits 8 in
    let same : marked ≡ with_bits core bits = sha1_update-absorb s (0x80 ∷ []) h in
    let zeros : List ℕ = replicate (zeros_for (length core.block)) 0 in
    let (n, padded_by) = pad-zeros 64 (with_bits core bits) (omega (arith, used)) (omega arith) in
    let full : pad 64 marked ≡ with_bits (absorb core zeros) n =
      ap (pad 64) same ∙ padded_by ∙ ap (λ t. with_bits t n) (absorb-with_bits core bits zeros) in
    let filled = length-absorb core zeros (omega (arith, used)) in
    let last = sha1_update-absorb (with_bits (absorb core zeros) n) len (omega (arith, filled)) in
    ap (λ t. digest (sha1_update t len)) full
    ∙ ap digest last
    ∙ ap digest (absorb-with_bits (absorb core zeros) n len)
    ∙ ap digest (sym (absorb-append core zeros len))
    ∙ ap (λ z. digest (absorb core (replicate (zeros_for z) 0 ++ len))) used

length-put_bytes : (v : ℕ) → length (put_bytes v 8) ≡ 8
unfolding put_bytes
length-put_bytes v = refl

length-padded :
    (message : List ℕ)
    → length (padded message) ≡ length message + (9 + zeros_for ((length message + 1) % 64))
unfolding padded
length-padded message =
    let count = zeros_for ((length message + 1) % 64) in
    let zeros : List ℕ = replicate count 0 in
    let len = put_bytes (length message * 8 % 2 ^ 64) 8 in
    omega (
      arith,
      length-append message ((0x80 ∷ []) ++ (zeros ++ len)),
      length-append zeros len,
      length-replicate {A = ℕ} count 0,
      length-put_bytes (length message * 8 % 2 ^ 64),
    )

-- The copies into the block and the padding byte by byte are the padded message, block by block.
pub sha1-sha1_of_blocks : (message : List ℕ) → sha1 message ≡ sha1_of_blocks message
unfolding sha1 sha1_of_blocks digest padded
sha1-sha1_of_blocks message =
    let bits = (0 + length message * 8) % 2 ^ 64 in
    let core = absorb sha1_init message in
    let updated = sha1_update-absorb sha1_init message (omega arith) in
    let used = length-absorb sha1_init message (omega arith) in
    let behind = tail (length message) (length message * 8 % 2 ^ 64) in
    let same_zeros : (length core.block + 1) % 64 ≡ (length message + 1) % 64 =
      omega (arith, used) in
    let same_bits : bits ≡ length message * 8 % 2 ^ 64 = omega arith in
    let whole : length (padded message) ≡ length (padded message) / 64 * 64 =
      omega (arith, length-padded message) in
    ap sha1_final updated
    ∙ sha1_final-absorb (with_bits core bits) (omega (arith, used))
    ∙ ap digest (absorb-with_bits core bits (tail (length core.block) bits))
    ∙ ap
        (λ z. digest (absorb core ((0x80 ∷ []) ++ (replicate (zeros_for z) 0 ++ put_bytes bits 8))))
        same_zeros
    ∙ ap (λ b. digest (absorb core (tail (length message) b))) same_bits
    ∙ ap digest (sym (absorb-append sha1_init message behind))
    ∙ ap digest (absorb-hash_blocks (length (padded message) / 64) sha1_init (padded message) whole)

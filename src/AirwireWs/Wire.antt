-- ===== src/AirwireWs/Wire.antt =====
-- hpr_airwire_ws.c: the frames that a client may send, by RFC 6455, and how `client_read` takes
-- them apart.
use hpr_readsb.Base.{ℕ, zero, suc, ◌+◌, ◌*◌, ◌/◌, ◌%◌, ◌≤◌, ◌<◌, bit_and, bit_xor, arith}
use hpr_readsb.Base.{◌≡◌, refl, ap, ap₂, ◌∙◌, sym, inl, inr, true, false}
use hpr_readsb.Base.{List, [], ◌∷◌, ◌++◌, ◌==◌, ltb, ltb→lt, Bool-cases, ==_iff, if◌then◌else◌}
use hpr_readsb.Base.{length, get_or, take, drop, length-append}
use hpr_readsb.Base.Below.{all_below, all_below-at}
use hpr_readsb.Base.Bits.{xor_comm, xor_cancel}
use hpr_readsb.AirwireWs.Frame.{frame, unmask, read_payload, read_frame}

-- Byte i of the payload under byte i mod 4 of the mask.
unfoldable pub masked : List ℕ → ℕ → List ℕ → List ℕ
masked mask i [] = []
masked mask i (b ∷ bytes) = bit_xor b (get_or mask (i % 4) 0) ∷ masked mask (suc i) bytes

-- The bytes before the mask: the last frame of a message, with a mask.
unfoldable pub client_header : ℕ → ℕ → List ℕ
client_header opcode len =
    if ltb len 126
    then (0x80 + opcode) ∷ (0x80 + len) ∷ []
    else (0x80 + opcode) ∷ 0xfe ∷ (len / 256) ∷ (len % 256) ∷ []

-- The four bytes of a mask.
pub record Mask : Type 0 where
  pub m0 : ℕ
  pub m1 : ℕ
  pub m2 : ℕ
  pub m3 : ℕ

abbrev pub mask_bytes : Mask → List ℕ
mask_bytes m = m.m0 ∷ m.m1 ∷ m.m2 ∷ m.m3 ∷ []

unfoldable pub client_frame : ℕ → Mask → List ℕ → List ℕ
client_frame opcode mask payload =
    client_header opcode (length payload) ++ (mask_bytes mask ++ masked (mask_bytes mask) 0 payload)

low_two_bits : (i : ℕ) → i < 512 → bit_and i 3 ≡ i % 4
unfolding all_below
low_two_bits i h = (==_iff _ _).0 (all_below-at (λ j. bit_and j 3 == j % 4) 512 i refl h)

unmask-masked :
    (mask : List ℕ) (i : ℕ) (payload : List ℕ)
    → i + length payload ≤ 512
    → unmask mask i (masked mask i payload) ≡ payload
unfolding unmask masked
unmask-masked mask i [] h = refl
unmask-masked mask i (b ∷ bytes) h =
    let k = get_or mask (i % 4) 0 in
    ap₂ (λ x xs. x ∷ xs)
      (ap (λ j. bit_xor (bit_xor b k) (get_or mask j 0)) (low_two_bits i (omega arith))
        ∙ xor_comm (bit_xor b k) k
        ∙ ap (λ x. bit_xor k x) (xor_comm b k)
        ∙ xor_cancel k b)
      (unmask-masked mask (suc i) bytes (omega arith))

length-masked :
    (mask : List ℕ) (i : ℕ) (payload : List ℕ) → length (masked mask i payload) ≡ length payload
unfolding masked
length-masked mask i [] = refl
length-masked mask i (b ∷ bytes) = ap suc (length-masked mask (suc i) bytes)

take-append : (xs ys : List ℕ) → take (length xs) (xs ++ ys) ≡ xs
take-append [] ys = refl
take-append (x ∷ xs) ys = ap (λ zs. x ∷ zs) (take-append xs ys)

pub drop-append : (xs ys : List ℕ) → drop (length xs) (xs ++ ys) ≡ ys
drop-append [] ys = refl
drop-append (x ∷ xs) ys = drop-append xs ys

drop-nil : (n : ℕ) → drop {A = ℕ} n [] ≡ []
drop-nil zero = refl
drop-nil (suc n) = refl

drop-add : (a b : ℕ) (xs : List ℕ) → drop (a + b) xs ≡ drop b (drop a xs)
drop-add zero b xs = ap (λ n. drop n xs) (omega arith)
drop-add (suc a) b [] = drop-nil (suc a + b) ∙ sym (drop-nil b)
drop-add (suc a) b (x ∷ xs) =
    let more : suc a + b ≡ suc (a + b) = omega arith in
    ap (λ n. drop n (x ∷ xs)) more ∙ drop-add a b xs

-- The two bytes of a header: the flag is set and the field is the one that was put.
opcode_field : (op : ℕ) → op < 16 → bit_and (0x80 + op) 0x0f ≡ op
unfolding all_below
opcode_field op h = (==_iff _ _).0 (all_below-at (λ n. bit_and (0x80 + n) 0x0f == n) 16 op refl h)

len_field : (len : ℕ) → len < 128 → bit_and (0x80 + len) 0x7f ≡ len
unfolding all_below
len_field len h = (==_iff _ _).0 (all_below-at (λ n. bit_and (0x80 + n) 0x7f == n) 128 len refl h)

top_flag : (n : ℕ) → n < 128 → bit_and (0x80 + n) 0x80 ≡ 0x80
unfolding all_below
top_flag n h = (==_iff _ _).0 (all_below-at (λ k. bit_and (0x80 + k) 0x80 == 0x80) 128 n refl h)

-- What follows the header of a frame, and what follows the frame.
abbrev after_header : Mask → List ℕ → List ℕ → List ℕ
after_header mask payload rest = mask_bytes mask ++ (masked (mask_bytes mask) 0 payload ++ rest)

read_payload-after_header :
    (header : List ℕ) (op : ℕ) (mask : Mask) (payload rest : List ℕ)
    → length payload ≤ 256
    → read_payload
        (header ++ after_header mask payload rest)
        true
        op
        (length payload)
        (length header)
      ≡ frame op payload (length header + 4 + length payload)
unfolding read_payload
read_payload-after_header header op mask payload rest h =
    let bytes = masked (mask_bytes mask) 0 payload in
    let body = after_header mask payload rest in
    let enough : ltb (length (header ++ body)) (length header + 4 + length payload) ≡ false =
      ground (
        arith,
        length-append header body,
        length-append bytes rest,
        length-masked (mask_bytes mask) 0 payload,
      ) in
    let short : ltb 256 (length payload) ≡ false = ground arith in
    let payload_taken : take (length payload) (bytes ++ rest) ≡ bytes =
      ap (λ n. take n (bytes ++ rest)) (sym (length-masked (mask_bytes mask) 0 payload))
      ∙ take-append bytes rest in
    let unmasked : unmask (mask_bytes mask) 0 bytes ≡ payload =
      unmask-masked (mask_bytes mask) 0 payload (omega (arith, h)) in
    rw (short, enough, drop-add (length header) 4 (header ++ body), drop-append header body)
      (ap (λ xs. frame op xs (length header + 4 + length payload))
        (ap (unmask (mask_bytes mask) 0) payload_taken ∙ unmasked))

-- The length in four bytes of header is that of the payload.
extended : (len : ℕ) → len / 256 * 256 + len % 256 ≡ len
extended len = omega arith

two_read : (a b : ℕ) (xs : List ℕ) → ltb (length (a ∷ b ∷ xs)) 2 ≡ false
two_read a b xs = ground arith

four_read : (a b c e : ℕ) (xs : List ℕ) → ltb (length (a ∷ b ∷ c ∷ e ∷ xs)) 4 ≡ false
four_read a b c e xs = ground arith

module _ (op : ℕ) (mask : Mask) (payload rest : List ℕ) (is_op : op < 16) where
  short_frame :
      length payload < 126
      → read_frame ((0x80 + op) ∷ (0x80 + length payload) ∷ after_header mask payload rest)
        ≡ frame op payload (6 + length payload)
  unfolding read_frame
  short_frame h =
      let header = (0x80 + op) ∷ (0x80 + length payload) ∷ [] in
      let not_126 : (length payload == 126) ≡ false = ground arith in
      let not_127 : (length payload == 127) ≡ false = ground arith in
      rw
        (
          two_read,
          opcode_field op is_op,
          top_flag op (omega (arith, is_op)),
          len_field (length payload) (omega (arith, h)),
          top_flag (length payload) (omega (arith, h)),
          not_126,
          not_127,
        )
        (read_payload-after_header header op mask payload rest (omega (arith, h)))

  long_frame :
      length payload ≤ 256
      → read_frame (
          (0x80 + op)
          ∷ 0xfe
          ∷ (length payload / 256)
          ∷ (length payload % 256)
          ∷ after_header mask payload rest)
        ≡ frame op payload (8 + length payload)
  unfolding read_frame
  long_frame h =
      let header = (0x80 + op) ∷ 0xfe ∷ (length payload / 256) ∷ (length payload % 256) ∷ [] in
      rw
        (
          two_read,
          opcode_field op is_op,
          top_flag op (omega (arith, is_op)),
          extended (length payload),
          four_read,
        )
        (read_payload-after_header header op mask payload rest h)

  -- A masked frame by RFC 6455 with an opcode of four bits and at most 256 bytes of payload is
  -- read as this opcode and this payload, and as long as it is, whatever follows it.
  pub read_frame-client_frame :
      length payload ≤ 256
      → read_frame (client_frame op mask payload ++ rest)
        ≡ frame op payload (length (client_frame op mask payload))
  unfolding client_frame client_header
  read_frame-client_frame h =
      let sized = length-masked (mask_bytes mask) 0 payload in
      elim (Bool-cases (ltb (length payload) 126)) [
        | inl small ↦
            rw small
              (short_frame (ltb→lt _ _ small) ∙ ap (λ n. frame op payload n) (omega (arith, sized)))
        | inr large ↦ rw large (long_frame h ∙ ap (λ n. frame op payload n) (omega (arith, sized)))
      ]

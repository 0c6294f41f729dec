-- ===== src/Crc/Table/Patterns.antt =====
-- What an entry of the error tables means: the bits that it names, and their syndrome.
use hpr_readsb.Base.{ℕ, zero, suc, ◌+◌, ◌*◌, ◌<◌, bit_xor, arith, refl, ◌≡◌, sym, ap, ap₂, ◌∙◌}
use hpr_readsb.Base.{some, List, [], ◌∷◌, ◌++◌, map, All, length, set, replicate}
use hpr_readsb.Base.{length-append, All-append}
use hpr_readsb.Base.Int.{ℤ, pos, negsuc}
use hpr_readsb.Base.Bits.{xor_assoc, xor-zero, zero-xor}
use hpr_readsb.Crc.{flip_bit, single_bit_syndrome, checksum}
use hpr_readsb.Crc.Syndrome.{Layout, checksum_flip, length-flip_bit}
use hpr_readsb.Crc.Table.{ErrorInfo, fix_bit, fix_loop, modes_checksum_fix, extend_entry}

-- The sum of the syndromes of some bits, in a message whose first bit is bit `offset` of a long one.
unfoldable pub syndrome_of : ℕ → List ℕ → ℕ
syndrome_of offset [] = 0
syndrome_of offset (i ∷ is) = bit_xor (single_bit_syndrome (i + offset)) (syndrome_of offset is)

-- The entry names `places`, all below `bits`, and holds their syndrome; `room` positions are free.
pub record Names (offset bits room : ℕ) (places : List ℕ) (e : ErrorInfo) : Type 0 where
  pub count : e.errors ≡ pos (length places)
  pub named : e.bit ≡ map pos places ++ replicate room (negsuc 0)
  pub sum : e.syndrome ≡ syndrome_of offset places
  pub below : All (λ i. i < bits) places

pub record IsPattern (offset bits : ℕ) (e : ErrorInfo) : Type 0 where
  pub room : ℕ
  pub places : List ℕ
  pub names : Names offset bits room places e

set_end :
    (ps : List ℕ) (room i : ℕ)
    → set (map pos ps ++ replicate (suc room) (negsuc 0)) (length ps) (pos i)
      ≡ map pos (ps ++ (i ∷ [])) ++ replicate room (negsuc 0)
set_end [] room i = refl
set_end (p ∷ ps) room i = ap (λ t. pos p ∷ t) (set_end ps room i)

syndrome_of_end :
    (offset i : ℕ) (ps : List ℕ)
    → bit_xor (syndrome_of offset ps) (single_bit_syndrome (i + offset))
      ≡ syndrome_of offset (ps ++ (i ∷ []))
unfolding syndrome_of
syndrome_of_end offset i [] =
    zero-xor (single_bit_syndrome (i + offset)) ∙ sym (xor-zero (single_bit_syndrome (i + offset)))
syndrome_of_end offset i (p ∷ ps) =
    xor_assoc (single_bit_syndrome (p + offset)) (syndrome_of offset ps) _
    ∙ ap (bit_xor (single_bit_syndrome (p + offset))) (syndrome_of_end offset i ps)

pub extend_entry-Names :
    {offset bits room : ℕ} {places : List ℕ} {base : ErrorInfo} (i error_bit : ℕ)
    → Names offset bits (suc room) places base
    → length places ≡ error_bit
    → i < bits
    → Names offset bits room (places ++ (i ∷ [])) (extend_entry offset base i error_bit)
unfolding extend_entry
extend_entry-Names {offset} {bits} {room} {places} {base} i error_bit v hl hi = record {
  count = ap pos (ap (λ t. t + 1) (sym hl) ∙ sym (length-append places (i ∷ [])));
  named = ap₂ (λ t k. set t k (pos i)) v.named (sym hl) ∙ set_end places room i;
  sum =
      ap (λ t. bit_xor t (single_bit_syndrome (i + offset))) v.sum
      ∙ syndrome_of_end offset i places;
  below = All-append (λ k. k < bits) places (i ∷ []) v.below (hi, tt);
}

-- The message with each of some bits flipped in turn.
unfoldable pub flip_all : List ℕ → List ℕ → List ℕ
flip_all [] msg = msg
flip_all (i ∷ is) msg = flip_all is (flip_bit msg i)

pub length-flip_all : (is msg : List ℕ) → length (flip_all is msg) ≡ length msg
unfolding flip_all
length-flip_all [] msg = refl
length-flip_all (i ∷ is) msg = length-flip_all is (flip_bit msg i) ∙ length-flip_bit msg i

pub checksum-flip_all :
    {n offset : ℕ} (is msg : List ℕ)
    → Layout n offset
    → length msg ≡ n
    → All (λ i. i < n * 8) is
    → checksum n (flip_all is msg) ≡ bit_xor (checksum n msg) (syndrome_of offset is)
unfolding flip_all syndrome_of
checksum-flip_all {n} [] msg l hl h = sym (xor-zero (checksum n msg))
checksum-flip_all {n} {offset} (i ∷ is) msg l hl h =
    checksum-flip_all is (flip_bit msg i) l (length-flip_bit msg i ∙ hl) h.1
    ∙ (ap (λ t. bit_xor t (syndrome_of offset is)) (checksum_flip i msg l hl h.0)
        ∙ xor_assoc (checksum n msg) (single_bit_syndrome (i + offset)) (syndrome_of offset is))

fix_loop_shift :
    (left i : ℕ) (b : ℤ) (bit : List ℤ) (msg : List ℕ)
    → fix_loop left (suc i) (b ∷ bit) msg ≡ fix_loop left i bit msg
unfolding fix_loop
fix_loop_shift zero i b bit msg = refl
fix_loop_shift (suc left) i b bit msg =
    let e : suc i + 1 ≡ suc (i + 1) = omega arith in simp (e, fix_loop_shift left (i + 1) b bit)

fix_bit-flip_bit :
    (msg : List ℕ) (p : ℕ) → p < length msg * 8 → fix_bit msg (pos p) ≡ some (flip_bit msg p)
unfolding fix_bit
fix_bit-flip_bit msg p h = ground arith

fix_loop-flip_all :
    (ps : List ℕ) (pad : List ℤ) (msg : List ℕ)
    → All (λ i. i < length msg * 8) ps
    → fix_loop (length ps) 0 (map pos ps ++ pad) msg ≡ some (flip_all ps msg)
unfolding fix_loop flip_all
fix_loop-flip_all [] pad msg h = refl
fix_loop-flip_all (p ∷ ps) pad msg h = rw (fix_bit-flip_bit msg p h.0) (
    fix_loop_shift (length ps) 0 (pos p) (map pos ps ++ pad) (flip_bit msg p)
    ∙ fix_loop-flip_all ps pad (flip_bit msg p) (rw (length-flip_bit msg p) h.1))

-- `modesChecksumFix` by an entry flips the bits that the entry names.
pub modes_checksum_fix-flip_all :
    {offset bits room : ℕ} {places : List ℕ} {e : ErrorInfo} (msg : List ℕ)
    → Names offset bits room places e
    → length msg * 8 ≡ bits
    → modes_checksum_fix msg (some e) ≡ some (flip_all places msg)
unfolding modes_checksum_fix
modes_checksum_fix-flip_all {places} msg v hl =
    rw (v.count, v.named) (fix_loop-flip_all places _ msg (rw hl v.below))

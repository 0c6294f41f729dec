-- ===== src/AirwireWs/Digest.antt =====
-- hpr_airwire_ws.c: the copies of `sha1_update` into the block against one byte at a time.
use hpr_readsb.Base.{ℕ, zero, suc, ◌+◌, ◌-◌, ◌≤◌, ◌<◌, ◌≡◌, refl, sym, ap, ◌∙◌, subst, arith}
use hpr_readsb.Base.{inl, inr, true, false, Bool-cases, ltb, ltb→lt, ◌==◌}
use hpr_readsb.Base.{
  List, [], ◌∷◌, ◌++◌, length, take, drop, length-append, append_assoc, append-nil,
}
use hpr_readsb.AirwireWs.Sha1.{Sha1, sha1_block, flush, update_loop}

-- One byte at a time.
unfoldable pub absorb : Sha1 → List ℕ → Sha1
absorb s [] = s
absorb s (byte ∷ p) = absorb (flush (record s { block = s.block ++ (byte ∷ []) })) p

pub absorb-append : (s : Sha1) (p q : List ℕ) → absorb s (p ++ q) ≡ absorb (absorb s p) q
unfolding absorb
absorb-append s [] q = refl
absorb-append s (byte ∷ p) q =
    absorb-append (flush (record s { block = s.block ++ (byte ∷ []) })) p q

abbrev pub with_block : Sha1 → List ℕ → Sha1
with_block s block = record s { block = block }

-- A block that is not filled stays, and one that is filled is hashed.
flush-partial : (s : Sha1) → length s.block < 64 → flush s ≡ s
unfolding flush
flush-partial s h = let short : (length s.block == 64) ≡ false = ground arith in rw (short, flush)

pub flush-full : (s : Sha1) → length s.block ≡ 64 → flush s ≡ with_block (sha1_block s s.block) []
unfolding flush
flush-full s h = let full : (length s.block == 64) ≡ true = ground arith in rw (full, flush)

pub absorb-partial :
    (s : Sha1) (p : List ℕ)
    → length s.block + length p < 64
    → absorb s p ≡ with_block s (s.block ++ p)
unfolding absorb
absorb-partial s [] h = ap (with_block s) (sym (append-nil s.block))
absorb-partial s (byte ∷ p) h =
    let next = with_block s (s.block ++ (byte ∷ [])) in
    let grown = length-append s.block (byte ∷ []) in
    ap (λ t. absorb t p) (flush-partial next (omega (arith, grown, h)))
    ∙ absorb-partial next p (omega (arith, grown, h))
    ∙ ap (with_block s) (append_assoc s.block (byte ∷ []) p)

-- Bytes that fill the block.
pub absorb-full :
    (s : Sha1) (p : List ℕ)
    → length s.block < 64
    → length s.block + length p ≡ 64
    → absorb s p ≡ flush (with_block s (s.block ++ p))
unfolding absorb
absorb-full s [] h k = absurd (omega (arith, h, k))
absorb-full s (byte ∷ []) h k = refl
absorb-full s (byte ∷ other ∷ p) h k =
    let next = with_block s (s.block ++ (byte ∷ [])) in
    let grown = length-append s.block (byte ∷ []) in
    ap (λ t. absorb t (other ∷ p)) (flush-partial next (omega (arith, grown, k)))
    ∙ absorb-full next (other ∷ p) (omega (arith, grown, k)) (omega (arith, grown, k))
    ∙ ap (λ b. flush (with_block s b)) (append_assoc s.block (byte ∷ []) (other ∷ p))

pub take-drop : (n : ℕ) (xs : List ℕ) → take n xs ++ drop n xs ≡ xs
take-drop zero xs = refl
take-drop (suc n) [] = refl
take-drop (suc n) (x ∷ xs) = ap (λ l. x ∷ l) (take-drop n xs)

pub length-take : (n : ℕ) (xs : List ℕ) → n ≤ length xs → length (take n xs) ≡ n
length-take zero xs h = refl
length-take (suc n) [] h = absurd (omega arith)
length-take (suc n) (x ∷ xs) h = ap suc (length-take n xs (omega arith))

length-drop_lt : (n : ℕ) (xs : List ℕ) → 0 < n → 0 < length xs → length (drop n xs) < length xs
length-drop_lt zero xs h k = absurd (omega arith)
length-drop_lt (suc n) [] h k = absurd (omega arith)
length-drop_lt (suc zero) (x ∷ xs) h k = omega arith
length-drop_lt (suc (suc n)) (x ∷ []) h k = omega arith
length-drop_lt (suc (suc n)) (x ∷ y ∷ xs) h k =
    omega (arith, length-drop_lt (suc n) (y ∷ xs) (omega arith) (omega arith))

take_all : (n : ℕ) (xs : List ℕ) → length xs ≤ n → take n xs ≡ xs
take_all zero [] h = refl
take_all zero (x ∷ xs) h = absurd (omega arith)
take_all (suc n) [] h = refl
take_all (suc n) (x ∷ xs) h = ap (λ l. x ∷ l) (take_all n xs (omega arith))

drop_all : (n : ℕ) (xs : List ℕ) → length xs ≤ n → drop n xs ≡ []
drop_all zero [] h = refl
drop_all zero (x ∷ xs) h = absurd (omega arith)
drop_all (suc n) [] h = refl
drop_all (suc n) (x ∷ xs) h = drop_all n xs (omega arith)

update_loop-nil : (fuel : ℕ) (s : Sha1) → update_loop fuel s [] ≡ s
unfolding update_loop
update_loop-nil zero s = refl
update_loop-nil (suc fuel) s = refl

-- The copies of the loop are the bytes one by one.
pub update_loop-absorb :
    (fuel : ℕ) (s : Sha1) (p : List ℕ)
    → length p ≤ fuel
    → length s.block < 64
    → update_loop fuel s p ≡ absorb s p
unfolding update_loop absorb
update_loop-absorb zero s [] h k = refl
update_loop-absorb zero s (byte ∷ p) h k = absurd (omega arith)
update_loop-absorb (suc fuel) s [] h k = refl
update_loop-absorb (suc fuel) s (byte ∷ p) h k =
    let bytes = byte ∷ p in
    let space = 64 - length s.block in
    let filled = with_block s (s.block ++ take space bytes) in
    let sized = length-append s.block (take space bytes) in
    elim (Bool-cases (ltb (length bytes) space)) [
      | inl short ↦
          let fits : length bytes < space = ltb→lt _ _ short in
          let all = take_all space bytes (omega (arith, fits)) in
          let whole : filled ≡ with_block s (s.block ++ bytes) =
            ap (λ xs. with_block s (s.block ++ xs)) all in
          ap (update_loop fuel (flush filled)) (drop_all space bytes (omega (arith, fits)))
          ∙ update_loop-nil fuel (flush filled)
          ∙ ap flush whole
          ∙ flush-partial (with_block s (s.block ++ bytes))
              (omega (arith, fits, length-append s.block bytes))
          ∙ sym (absorb-partial s bytes (omega (arith, fits)))
      | inr long ↦
          let enough : space ≤ length bytes = ground arith in
          let taken = length-take space bytes enough in
          let full : length (s.block ++ take space bytes) ≡ 64 = omega (arith, sized, taken, k) in
          let emptied = flush-full filled full in
          update_loop-absorb fuel (flush filled) (drop space bytes)
            (omega (arith, length-drop_lt space bytes (omega (arith, k)) (omega arith), h))
            (subst (λ t. length t.block < 64) (sym emptied) (omega arith))
          ∙ ap (λ t. absorb t (drop space bytes))
              (sym (absorb-full s (take space bytes) k (omega (arith, taken, k))))
          ∙ sym (absorb-append s (take space bytes) (drop space bytes))
          ∙ ap (absorb s) (take-drop space bytes)
    ]

-- ===== src/AirwireWs/Rounds.antt =====
-- hpr_airwire_ws.c: `sha1_block` against the block of RFC 3174.
use hpr_readsb.Base.{
  ℕ, zero, suc, ◌+◌, ◌*◌, ◌/◌, ◌%◌, ◌^◌, ◌≤◌, ◌<◌, ◌≡◌, refl, sym, ap, ◌∙◌, arith,
}
use hpr_readsb.Base.{
  List, [], ◌∷◌, ◌++◌, length, get_or, drop, append_assoc, append-nil, length-append, reverse_onto,
}
use hpr_readsb.Base.{inl, inr, Bool-cases, ltb, ltb→lt}
use hpr_readsb.AirwireWs.Sha1.{
  Sha1, Vars, rol32, block_words, extend_words, round_f, round_k, rounds, sha1_block,
}
use hpr_readsb.AirwireWs.Standard.{
  Hash, circular_shift, choose_word, parity_word, majority_word, step_function, step_constants,
  step, steps, next_word, word_at, words_from, hash_block,
}

-- The words of the code's state.
abbrev pub hash_of : Sha1 → Hash
hash_of s = record { a = s.h0; b = s.h1; c = s.h2; d = s.h3; e = s.h4 }

hash_of_vars : Vars → Hash
hash_of_vars v = record { a = v.a; b = v.b; c = v.c; d = v.d; e = v.e }

vars_of : Hash → Vars
vars_of h = record { a = h.a; b = h.b; c = h.c; d = h.d; e = h.e }

get_or-drop : (k : ℕ) (xs : List ℕ) (j : ℕ) → get_or (drop k xs) j 0 ≡ get_or xs (k + j) 0
get_or-drop zero xs j = ap (λ i. get_or xs i 0) (omega arith)
get_or-drop (suc k) [] j = refl
get_or-drop (suc k) (x ∷ xs) j =
    let next : suc k + j ≡ suc (k + j) = omega arith in
    get_or-drop k xs j ∙ ap (λ i. get_or (x ∷ xs) i 0) (sym next)

drop_nil : (k : ℕ) → drop {A = ℕ} k [] ≡ []
drop_nil zero = refl
drop_nil (suc k) = refl

drop-drop : (j k : ℕ) (xs : List ℕ) → drop j (drop k xs) ≡ drop (k + j) xs
drop-drop j zero xs = ap (λ i. drop i xs) (omega arith)
drop-drop j (suc k) [] = drop_nil j ∙ sym (drop_nil (suc k + j))
drop-drop j (suc k) (x ∷ xs) =
    let next : suc k + j ≡ suc (k + j) = omega arith in
    drop-drop j k xs ∙ ap (λ i. drop i (x ∷ xs)) (sym next)

-- The words of a block.
block_words-words_from :
    (n i : ℕ) (block : List ℕ) → block_words n (drop (4 * i) block) ≡ words_from n i block
unfolding block_words words_from word_at
block_words-words_from zero i block = refl
block_words-words_from (suc n) i block =
    let behind : 4 * i + 4 ≡ 4 * suc i = omega arith in
    let rest =
      ap (block_words n) (drop-drop 4 (4 * i) block ∙ ap (λ k. drop k block) behind)
      ∙ block_words-words_from n (suc i) block in
    rw (
      get_or-drop (4 * i) block 0,
      get_or-drop (4 * i) block 1,
      get_or-drop (4 * i) block 2,
      get_or-drop (4 * i) block 3,
      rest,
    )

-- All words of a block, from the sixteen in the queue on.
expand : ℕ → List ℕ → List ℕ
expand zero queue = queue
expand (suc n) queue = get_or queue 0 0 ∷ expand n (drop 1 queue ++ (next_word queue ∷ []))

extend_words-expand :
    (n x0 x1 x2 x3 x4 x5 x6 x7 x8 x9 x10 x11 x12 x13 x14 x15 : ℕ) (older : List ℕ)
    → reverse_onto
        (extend_words n (
          x15 ∷ x14 ∷ x13 ∷ x12 ∷ x11 ∷ x10 ∷ x9 ∷ x8 ∷ x7 ∷ x6 ∷ x5 ∷ x4 ∷ x3 ∷ x2 ∷ x1 ∷ x0
          ∷ older))
        []
      ≡ reverse_onto older (
          expand n (
            x0 ∷ x1 ∷ x2 ∷ x3 ∷ x4 ∷ x5 ∷ x6 ∷ x7 ∷ x8 ∷ x9 ∷ x10 ∷ x11 ∷ x12 ∷ x13 ∷ x14 ∷ x15
            ∷ []))
unfolding extend_words expand rol32 next_word circular_shift
extend_words-expand zero x0 x1 x2 x3 x4 x5 x6 x7 x8 x9 x10 x11 x12 x13 x14 x15 older = refl
extend_words-expand (suc n) x0 x1 x2 x3 x4 x5 x6 x7 x8 x9 x10 x11 x12 x13 x14 x15 older =
    let queue =
      x0 ∷ x1 ∷ x2 ∷ x3 ∷ x4 ∷ x5 ∷ x6 ∷ x7 ∷ x8 ∷ x9 ∷ x10 ∷ x11 ∷ x12 ∷ x13 ∷ x14 ∷ x15 ∷ [] in
    extend_words-expand n x1 x2 x3 x4 x5 x6 x7 x8 x9 x10 x11 x12 x13 x14 x15 (next_word queue)
      (x0 ∷ older)

-- The steps, for a list of words.
run : ℕ → List ℕ → Hash → Hash
run t [] h = h
run t (w ∷ words) h = run (suc t) words (step t w h)

steps-run :
    (m t : ℕ) (words behind : List ℕ) (h : Hash)
    → length words ≡ m
    → steps m t (words ++ behind) h ≡ run t words h
unfolding steps run
steps-run zero t [] behind h e = refl
steps-run zero t (w ∷ words) behind h e = absurd (omega arith)
steps-run (suc m) t [] behind h e = absurd (omega arith)
steps-run (suc m) t (w ∷ words) behind h e =
    let more = next_word ((w ∷ words) ++ behind) ∷ [] in
    ap (λ q. steps m (suc t) q (step t w h)) (append_assoc words behind more)
    ∙ steps-run m (suc t) words (behind ++ more) (step t w h) (omega arith)

steps-expand :
    (n t : ℕ) (queue : List ℕ) (h : Hash)
    → length queue ≡ 16
    → steps (n + 16) t queue h ≡ run t (expand n queue) h
unfolding steps run expand
steps-expand zero t queue h e =
    ap (λ q. steps 16 t q h) (sym (append-nil queue)) ∙ steps-run 16 t queue [] h e
steps-expand (suc n) t [] h e = absurd (omega arith)
steps-expand (suc n) t (w ∷ words) h e =
    let more = next_word (w ∷ words) ∷ [] in
    let one_more : suc n + 16 ≡ suc (n + 16) = omega arith in
    ap (λ k. steps k t (w ∷ words) h) one_more
    ∙ steps-expand n (suc t) (words ++ more) (step t w h)
        (omega (arith, length-append words more, e))

-- The function and the constant of a step.
round_f-step_function :
    (i : ℕ) (v : Vars) → i < 80 → round_f i v ≡ step_function (i / 20) v.b v.c v.d
unfolding round_f step_function choose_word parity_word majority_word
round_f-step_function i v h = elim (Bool-cases (ltb i 20)) [
  | inl a ↦ let q : i / 20 ≡ 0 = omega (arith, ltb→lt i 20 a) in rw (a, q)
  | inr a ↦ elim (Bool-cases (ltb i 40)) [
    | inl b ↦ let q : i / 20 ≡ 1 = ground (arith, a, b) in rw (a, b, q)
    | inr b ↦ elim (Bool-cases (ltb i 60)) [
      | inl c ↦ let q : i / 20 ≡ 2 = ground (arith, b, c) in rw (a, b, c, q)
      | inr c ↦ let q : i / 20 ≡ 3 = ground (arith, c, h) in rw (a, b, c, q)
    ]
  ]
]

round_k-step_constants : (i : ℕ) → i < 80 → round_k i ≡ get_or step_constants (i / 20) 0
unfolding round_k
round_k-step_constants i h = elim (Bool-cases (ltb i 20)) [
  | inl a ↦ let q : i / 20 ≡ 0 = omega (arith, ltb→lt i 20 a) in rw (a, q)
  | inr a ↦ elim (Bool-cases (ltb i 40)) [
    | inl b ↦ let q : i / 20 ≡ 1 = ground (arith, a, b) in rw (a, b, q)
    | inr b ↦ elim (Bool-cases (ltb i 60)) [
      | inl c ↦ let q : i / 20 ≡ 2 = ground (arith, b, c) in rw (a, b, c, q)
      | inr c ↦ let q : i / 20 ≡ 3 = ground (arith, c, h) in rw (a, b, c, q)
    ]
  ]
]

rounds-run :
    (words : List ℕ) (t : ℕ) (v : Vars)
    → t + length words ≤ 80
    → hash_of_vars (rounds t words v) ≡ run t words (hash_of_vars v)
unfolding rounds run step rol32 circular_shift hash_of_vars
rounds-run [] t v h = refl
rounds-run (w ∷ words) t v h =
    let small : t < 80 = omega (arith, h) in
    rounds-run words (suc t) _ (omega (arith, h))
    ∙ rw (round_f-step_function t v small, round_k-step_constants t small)

length-words_from : (n i : ℕ) (block : List ℕ) → length (words_from n i block) ≡ n
unfolding words_from
length-words_from zero i block = refl
length-words_from (suc n) i block = ap suc (length-words_from n (suc i) block)

length-expand : (n : ℕ) (queue : List ℕ) → length queue ≡ 16 → length (expand n queue) ≡ n + 16
unfolding expand
length-expand zero queue e = e
length-expand (suc n) [] e = absurd (omega arith)
length-expand (suc n) (w ∷ words) e =
    let more = next_word (w ∷ words) ∷ [] in
    let rest = length-expand n (words ++ more) (omega (arith, length-append words more, e)) in
    omega (arith, rest)

-- The list of the words that the code makes.
code_words : List ℕ → List ℕ
code_words block = reverse_onto (extend_words 64 (reverse_onto (block_words 16 block) [])) []

code_words-expand : (block : List ℕ) → code_words block ≡ expand 64 (words_from 16 0 block)
unfolding code_words words_from
code_words-expand block =
    let at = λ (i : ℕ). word_at block i in
    ap (λ ws. reverse_onto (extend_words 64 (reverse_onto ws [])) [])
      (block_words-words_from 16 0 block)
    ∙ extend_words-expand 64 (at 0) (at 1) (at 2) (at 3) (at 4) (at 5) (at 6) (at 7) (at 8) (at 9)
        (at 10) (at 11) (at 12) (at 13) (at 14) (at 15) []

add_hash : Hash → Hash → Hash
add_hash h v = record {
  a = (h.a + v.a) % 2 ^ 32;
  b = (h.b + v.b) % 2 ^ 32;
  c = (h.c + v.c) % 2 ^ 32;
  d = (h.d + v.d) % 2 ^ 32;
  e = (h.e + v.e) % 2 ^ 32;
}

-- A block, as the code hashes it.
pub sha1_block-hash_block :
    (s : Sha1) (block : List ℕ) → hash_of (sha1_block s block) ≡ hash_block (hash_of s) block
unfolding sha1_block hash_block add_hash hash_of_vars code_words vars_of
sha1_block-hash_block s block =
    let v = vars_of (hash_of s) in
    let queue = words_from 16 0 block in
    let made = code_words-expand block in
    let sixteen = length-words_from 16 0 block in
    let eighty = length-expand 64 queue sixteen in
    ap (λ ws. add_hash (hash_of s) (hash_of_vars (rounds 0 ws v))) made
    ∙ ap (add_hash (hash_of s)) (
        rounds-run (expand 64 queue) 0 v (omega (arith, eighty))
        ∙ sym (steps-expand 64 0 queue (hash_of s) sixteen))

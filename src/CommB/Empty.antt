-- ===== src/CommB/Empty.antt =====
-- comm_b.c: which replies are taken for an empty response.
use hpr_readsb.Base.{ℕ, zero, suc, ◌<◌, ◌≡◌, ◌≢◌, ◌↔◌, refl, ap, ap₂, ◌∙◌, subst, sym, arith}
use hpr_readsb.Base.{◌⊎◌, inl, inr, true, ◌==◌, Bool-cases, ==_iff, List, [], ◌∷◌}
use hpr_readsb.Base.{length, replicate, get_or, none}
use hpr_readsb.Base.Doubles.{Doubles}
use hpr_readsb.Base.Int.{ℤ, pos, ◌<ℤ◌, ◌≤ℤ◌}
use hpr_readsb.ModeS.Message.{Message}
use hpr_readsb.ModeS.Bits.{getbit}
use hpr_readsb.CommB.Parts.{score_of}
use hpr_readsb.CommB.Capabilities.{
  decode_empty_response, is_empty, decode_bds10, decode_bds20, decode_bds30,
}
use hpr_readsb.CommB.Turn.{decode_bds50, points_50, penalty_50}
use hpr_readsb.CommB.Heading.{decode_bds60, points_60, penalty_60}
use hpr_readsb.CommB.Choose.{
  Decoder, empty_response, bds10, bds20, bds30, bds17, bds40, bds50, bds60, bds44, comm_b_score,
  comm_b_choice, Choice, unknown, ambiguous, chosen,
}
use hpr_readsb.CommB.Choice.{IsBest, IsAlone, comm_b_choice-IsBest}
use hpr_readsb.CommB.Bounds.{comm_b_score-most_of}

is_empty-get_or : (mb : List ℕ) (n i : ℕ) → is_empty mb n ≡ true → i < n → get_or mb i 0 ≡ 0
unfolding is_empty
is_empty-get_or mb zero i h lt = absurd (omega arith)
is_empty-get_or mb (suc n) i h lt = elim (Bool-cases (get_or mb n 0 == 0)) [
  | inl z ↦ elim (Bool-cases (i == n)) [
    | inl e ↦ ap (λ j. get_or mb j 0) ((==_iff i n).0 e) ∙ (==_iff (get_or mb n 0) 0).0 z
    | inr ne ↦ is_empty-get_or mb n i (rw z at h) (ground arith)
  ]
  | inr nz ↦ absurd (cc (rw nz at h))
]

all_zero :
    (xs : List ℕ) → ((i : ℕ) → i < length xs → get_or xs i 0 ≡ 0) → xs ≡ replicate (length xs) 0
all_zero [] h = refl
all_zero (x ∷ xs) h =
    ap₂ (λ y ys. y ∷ ys) (h 0 (omega arith)) (all_zero xs (λ i lt. h (suc i) (omega arith)))

abbrev pub zeros : List ℕ
zeros = replicate 7 0

points_50-zeros : (d : Doubles) (pi : d.Double) → points_50 d pi zeros ≡ none
unfolding points_50 getbit
points_50-zeros d pi = refl

points_60-zeros : (d : Doubles) → points_60 d zeros ≡ none
unfolding points_60 getbit
points_60-zeros d = refl

decode_empty_response-zeros : decode_empty_response zeros ≡ pos 56
unfolding decode_empty_response is_empty
decode_empty_response-zeros = refl

decode_bds10-zeros : decode_bds10 zeros ≡ pos 0
unfolding decode_bds10
decode_bds10-zeros = refl

decode_bds20-zeros : decode_bds20 zeros ≡ pos 0
unfolding decode_bds20
decode_bds20-zeros = refl

decode_bds30-zeros : decode_bds30 zeros ≡ pos 0
unfolding decode_bds30
decode_bds30-zeros = refl

lt_of_zero : (s : ℤ) → s ≡ pos 0 → s <ℤ pos 56
lt_of_zero s e = subst (λ t. t <ℤ pos 56) (sym e) (omega arith)

-- A positive score of `decodeEmptyResponse` means an empty payload.
decode_empty_response-is_empty :
    (mb : List ℕ) → pos 0 <ℤ decode_empty_response mb → is_empty mb 7 ≡ true
unfolding decode_empty_response
decode_empty_response-is_empty mb h = ground arith

module _ (d : Doubles) (pi : d.Double) (m : Message) where
  -- The other decoders do not reach its score on an empty payload.
  others_lt :
      m.mb ≡ zeros → (x : Decoder) → (x ≡ empty_response) ⊎ (comm_b_score d pi m x <ℤ pos 56)
  unfolding comm_b_score decode_bds50 decode_bds60 score_of
  others_lt e empty_response = inl refl
  others_lt e bds10 = inr (lt_of_zero _ (ap decode_bds10 e ∙ decode_bds10-zeros))
  others_lt e bds20 = inr (lt_of_zero _ (ap decode_bds20 e ∙ decode_bds20-zeros))
  others_lt e bds30 = inr (lt_of_zero _ (ap decode_bds30 e ∙ decode_bds30-zeros))
  others_lt e bds17 = inr (omega (arith, comm_b_score-most_of d pi m bds17))
  others_lt e bds40 = inr (omega (arith, comm_b_score-most_of d pi m bds40))
  others_lt e bds50 = inr (
      lt_of_zero _ (
        ap (λ p. score_of p (penalty_50 d pi m.mb)) (ap (points_50 d pi) e ∙ points_50-zeros d pi)))
  others_lt e bds60 = inr (
      lt_of_zero _ (ap (λ p. score_of p (penalty_60 d m)) (ap (points_60 d) e ∙ points_60-zeros d)))
  others_lt e bds44 = inr (omega (arith, comm_b_score-most_of d pi m bds44))

  empty_score : m.mb ≡ zeros → comm_b_score d pi m empty_response ≡ pos 56
  unfolding comm_b_score
  empty_score e = ap decode_empty_response e ∙ decode_empty_response-zeros

  -- A decoder that scores as high as the empty response is the empty response.
  only_empty :
      m.mb ≡ zeros
      → (x : Decoder) → comm_b_score d pi m empty_response ≤ℤ comm_b_score d pi m x
      → x ≡ empty_response
  only_empty e x h = elim (others_lt e x) [
    | inl same ↦ same
    | inr lt ↦ absurd (omega (arith, lt, subst (λ s. s ≤ℤ comm_b_score d pi m x) (empty_score e) h))
  ]

  chosen_empty :
      m.mb ≡ zeros → (c : Choice) → IsBest (comm_b_score d pi m) c → c ≡ chosen empty_response
  chosen_empty e unknown b =
      absurd (omega (arith, subst (λ s. s ≤ℤ pos 0) (empty_score e) (b empty_response)))
  chosen_empty e ambiguous (i, j, t) =
      let of_i = only_empty e i (t.highest empty_response) in
      let of_j = only_empty e j (
        subst (λ s. comm_b_score d pi m empty_response ≤ℤ s) (sym t.tied)
          (t.highest empty_response)) in
      absurd (t.distinct (of_j ∙ sym of_i))
  chosen_empty e (chosen i) b = elim (others_lt e i) [
    | inl same ↦ ap chosen same
    | inr lt ↦
        let score = comm_b_score d pi m in
        let distinct : empty_response ≢ i = λ same.
          let less = subst (λ x. score x <ℤ pos 56) (sym same) lt in
          omega (arith, subst (λ s. s <ℤ pos 56) (empty_score e) less) in
        let above = b.highest empty_response distinct in
        absurd (omega (arith, lt, subst (λ s. s <ℤ score i) (empty_score e) above))
  ]

  empty_chosen :
      comm_b_choice d pi m ≡ chosen empty_response
      → IsBest (comm_b_score d pi m) (comm_b_choice d pi m)
      → is_empty m.mb 7 ≡ true
  unfolding comm_b_score
  empty_chosen e b =
      let alone : IsAlone (comm_b_score d pi m) empty_response =
        subst (λ c. IsBest (comm_b_score d pi m) c) e b in
      decode_empty_response-is_empty m.mb alone.positive

  -- For a reply with DR 0, no corrected bits and a payload of seven bytes, decodeCommB chooses
  -- the empty response if and only if all seven bytes are 0, whatever the double arithmetic is.
  pub comm_b_choice-zeros :
      m.dr ≡ 0
      → m.correctedbits ≡ 0
      → length m.mb ≡ 7
      → (m.mb ≡ zeros) ↔ (comm_b_choice d pi m ≡ chosen empty_response)
  comm_b_choice-zeros dr bits l =
      let best = comm_b_choice-IsBest d pi m dr bits in
      (
        λ e. chosen_empty e _ best,
        λ e.
            let empty = empty_chosen e best in
            all_zero m.mb (λ i lt. is_empty-get_or m.mb 7 i empty (omega (arith, l)))
            ∙ ap (λ n. replicate n 0) l,
      )

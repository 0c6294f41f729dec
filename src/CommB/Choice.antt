-- ===== src/CommB/Choice.antt =====
-- comm_b.c: the loop of `decodeCommB` against what it looks for, the one decoder with the highest
-- positive score.
use hpr_readsb.Base.{ℕ, suc, ◌+◌, ◌<◌, ◌≤◌, ◌≡◌, ◌≢◌, refl, sym, ap, ◌∙◌, subst, arith, inl, inr}
use hpr_readsb.Base.{
  Bool, true, false, not, ◌||◌, Bool-cases, ltb→lt, ltb, Option, none, some, List, [], ◌∷◌,
}
use hpr_readsb.Base.{get_or, length, ◌==◌}
use hpr_readsb.Base.Doubles.{Doubles}
use hpr_readsb.Base.Int.{ℤ, pos, negsuc, ltb_ℤ, ◌<ℤ◌, ◌≤ℤ◌}
use hpr_readsb.ModeS.Message.{Message}
use hpr_readsb.CommB.Choose.{
  Decoder, empty_response, bds10, bds20, bds30, bds17, bds40, bds50, bds60, bds44,
}
use hpr_readsb.CommB.Choose.{
  comm_b_decoders, Best, consider, best_of, no_best, Choice, choose, comm_b_score, comm_b_choice,
  unknown, ambiguous, chosen,
}

-- The place of a decoder in `comm_b_decoders`.
abbrev number_of : Decoder → ℕ
number_of empty_response = 0
number_of bds10 = 1
number_of bds20 = 2
number_of bds30 = 3
number_of bds17 = 4
number_of bds40 = 5
number_of bds50 = 6
number_of bds60 = 7
number_of bds44 = 8

abbrev decoder_at : ℕ → Decoder
decoder_at n = get_or comm_b_decoders n empty_response

decoder_at-number_of : (x : Decoder) → decoder_at (number_of x) ≡ x
decoder_at-number_of empty_response = refl
decoder_at-number_of bds10 = refl
decoder_at-number_of bds20 = refl
decoder_at-number_of bds30 = refl
decoder_at-number_of bds17 = refl
decoder_at-number_of bds40 = refl
decoder_at-number_of bds50 = refl
decoder_at-number_of bds60 = refl
decoder_at-number_of bds44 = refl

number_of_lt : (x : Decoder) → number_of x < 9
number_of_lt empty_response = omega arith
number_of_lt bds10 = omega arith
number_of_lt bds20 = omega arith
number_of_lt bds30 = omega arith
number_of_lt bds17 = omega arith
number_of_lt bds40 = omega arith
number_of_lt bds50 = omega arith
number_of_lt bds60 = omega arith
number_of_lt bds44 = omega arith

number_of_injective : (x y : Decoder) → number_of x ≡ number_of y → x ≡ y
number_of_injective x y e = sym (decoder_at-number_of x) ∙ ap decoder_at e ∙ decoder_at-number_of y

ltb→ge : (a b : ℕ) → ltb a b ≡ false → b ≤ a
ltb→ge a b h = ground arith

≤ℤ_antisym : (a b : ℤ) → a ≤ℤ b → b ≤ℤ a → a ≡ b
≤ℤ_antisym (pos m) (pos n) h k = ap pos (omega arith)
≤ℤ_antisym (pos m) (negsuc n) h k = absurd (omega arith)
≤ℤ_antisym (negsuc m) (pos n) h k = absurd (omega arith)
≤ℤ_antisym (negsuc m) (negsuc n) h k = ap negsuc (omega arith)

-- The decoders of a list are those from `k` on.
abbrev Numbered : ℕ → List Decoder → Type 0
Numbered k [] = Unit {0}
Numbered k (x ∷ xs) = (number_of x ≡ k) × Numbered (suc k) xs

comm_b_decoders-Numbered : Numbered 0 comm_b_decoders
comm_b_decoders-Numbered =
    (refl, (refl, (refl, (refl, (refl, (refl, (refl, (refl, (refl, tt)))))))))

module _ (score : Decoder → ℤ) where
  -- The decoder `i` and no other has the highest score, and it is positive.
  pub record IsAlone (i : Decoder) : Type 0 where
    pub positive : pos 0 <ℤ score i
    pub highest : (x : Decoder) → x ≢ i → score x <ℤ score i

  -- Two decoders share the highest score, and it is positive.
  pub record AreTied (i j : Decoder) : Type 0 where
    pub distinct : j ≢ i
    pub tied : score j ≡ score i
    pub positive : pos 0 <ℤ score i
    pub highest : (x : Decoder) → score x ≤ℤ score i

  -- What a choice is to tell of the scores.
  abbrev pub IsBest : Choice → Type 0
  IsBest unknown = (x : Decoder) → score x ≤ℤ pos 0
  IsBest ambiguous = (i : Decoder) × (j : Decoder) × AreTied i j
  IsBest (chosen i) = IsAlone i

  -- What the flag `ambiguous` tells once the decoders below `k` are tried.
  unfoldable Flag : ℕ → Decoder → Bool → Type 0
  Flag k i false = (x : Decoder) → number_of x < k → x ≢ i → score x <ℤ score i
  Flag k i true = (j : Decoder) × (j ≢ i) × (score j ≡ score i)

  -- What `bestDecoder` tells then.
  unfoldable Top : ℕ → ℤ → Option Decoder → Bool → Type 0
  Top k s none b = s ≡ pos 0
  Top k s (some i) b = (s ≡ score i) × (pos 0 <ℤ s) × (number_of i < k) × Flag k i b

  record Leads (k : ℕ) (best : Best) : Type 0 where
    positive : pos 0 ≤ℤ best.score
    highest : (x : Decoder) → number_of x < k → score x ≤ℤ best.score
    top : Top k best.score best.decoder best.ambiguous

  -- The decoders below `suc k` are those below `k` and the one that is tried.
  upto :
      (P : Decoder → Type 0) (k : ℕ) (x : Decoder)
      → number_of x ≡ k
      → ((y : Decoder) → number_of y < k → P y)
      → P x
      → (y : Decoder) → number_of y < suc k
      → P y
  upto P k x e below here y h = elim (Bool-cases (ltb (number_of y) k)) [
    | inl lt ↦ below y (ltb→lt _ _ lt)
    | inr ge ↦ subst P (number_of_injective x y (ground arith)) here
  ]

  module _ (k : ℕ) (x : Decoder) (e : number_of x ≡ k) where
    -- A decoder above the best is the best.
    above :
        (best : Best)
        → Leads k best
        → best.score <ℤ score x
        → Leads (suc k) (record { score = score x; decoder = some x; ambiguous = false })
    unfolding Top Flag
    above best l lt =
        let low : (y : Decoder) → number_of y < k → score y <ℤ score x =
          λ y h. omega (arith, l.highest y h, lt) in
        record {
          positive = omega (arith, l.positive, lt);
          highest =
              upto (λ y. score y ≤ℤ score x) k x e (λ y h. omega (arith, low y h)) (omega arith);
          top = (
            refl,
            omega (arith, l.positive, lt),
            omega (arith, e),
            upto (λ y. y ≢ x → score y <ℤ score x) k x e (λ y h n. low y h) (λ n. absurd (n refl)),
          );
        }

    -- One with the same score makes the flag.
    level :
        (s : ℤ) (o : Option Decoder) (b : Bool)
        → Leads k (record { score = s; decoder = o; ambiguous = b })
        → score x ≡ s
        → Top (suc k) s o true
    unfolding Top Flag
    level s none b l h = l.top
    level s (some i) b l h =
        let (same, positive, lt, flag) = l.top in
        (
          same,
          positive,
          omega (arith, lt),
          (x, (λ n. omega (arith, e, ap number_of n, lt)), h ∙ same),
        )

    -- One below it changes nothing.
    below :
        (s : ℤ) (o : Option Decoder) (b : Bool)
        → Leads k (record { score = s; decoder = o; ambiguous = b })
        → score x <ℤ s
        → Top (suc k) s o b
    unfolding Top Flag
    below s none b l h = l.top
    below s (some i) false l h =
        let (same, positive, lt, flag) = l.top in
        (
          same,
          positive,
          omega (arith, lt),
          upto (λ y. y ≢ i → score y <ℤ score i) k x e flag (λ n. subst (λ t. score x <ℤ t) same h),
        )
    below s (some i) true l h =
        let (same, positive, lt, flag) = l.top in (same, positive, omega (arith, lt), flag)

    -- A pass of the loop.
    consider-Leads : (best : Best) → Leads k best → Leads (suc k) (consider x (score x) best)
    unfolding consider
    consider-Leads best l = elim (Bool-cases (ltb_ℤ best.score (score x))) [
      | inl lt ↦ rw lt (above best l (ltb→lt _ _ lt))
      | inr ge ↦ elim (Bool-cases (ltb_ℤ (score x) best.score)) [
        | inl lt ↦
            rw (ge, lt)
              (record {
                positive = l.positive;
                highest = upto (λ y. score y ≤ℤ best.score) k x e l.highest (ltb→ge _ _ ge);
                top = below best.score best.decoder best.ambiguous l (ltb→lt _ _ lt);
              })
        | inr le ↦
            rw (ge, le)
              (record {
                positive = l.positive;
                highest = upto (λ y. score y ≤ℤ best.score) k x e l.highest (ltb→ge _ _ ge);
                top =
                    level best.score best.decoder best.ambiguous l
                      (≤ℤ_antisym _ _ (ltb→ge _ _ ge) (ltb→ge _ _ le));
              })
      ]
    ]

  -- The loop.
  best_of-Leads :
      (k : ℕ) (xs : List Decoder) (best : Best)
      → Numbered k xs
      → Leads k best
      → Leads (k + length xs) (best_of score xs best)
  unfolding best_of
  best_of-Leads k [] best n l = subst (λ j. Leads j best) (omega arith) l
  best_of-Leads k (x ∷ xs) best n l =
      let last = best_of score xs (consider x (score x) best) in
      subst (λ j. Leads j last) (omega arith)
        (best_of-Leads (suc k) xs (consider x (score x) best) n.1 (consider-Leads k x n.0 best l))

  no_best-Leads : Leads 0 no_best
  unfolding Top
  no_best-Leads = record {
    positive = omega arith;
    highest = λ x h. absurd (omega arith);
    top = refl;
  }

  -- The end of the loop tells the truth of all decoders.
  choose-IsBest :
      (s : ℤ) (o : Option Decoder) (b : Bool)
      → Leads 9 (record { score = s; decoder = o; ambiguous = b })
      → IsBest (choose (record { score = s; decoder = o; ambiguous = b }))
  unfolding choose Top Flag
  choose-IsBest s none b l = λ x. subst (λ t. score x ≤ℤ t) l.top (l.highest x (number_of_lt x))
  choose-IsBest s (some i) false l =
      let (same, positive, lt, flag) = l.top in
      record {
        positive = subst (λ t. pos 0 <ℤ t) same positive;
        highest = λ x n. flag x (number_of_lt x) n;
      }
  choose-IsBest s (some i) true l =
      let (same, positive, lt, flag) = l.top in
      let (j, distinct, tied) = flag in
      (
        i,
        j,
        record {
          distinct = distinct;
          tied = tied;
          positive = subst (λ t. pos 0 <ℤ t) same positive;
          highest = λ x. subst (λ t. score x ≤ℤ t) same (l.highest x (number_of_lt x));
        },
      )

  best_of-IsBest : IsBest (choose (best_of score comm_b_decoders no_best))
  best_of-IsBest =
      let best = best_of score comm_b_decoders no_best in
      choose-IsBest best.score best.decoder best.ambiguous
        (best_of-Leads 0 comm_b_decoders no_best comm_b_decoders-Numbered no_best-Leads)

module _ (d : Doubles) (pi : d.Double) where
  -- For a reply with DR 0 and no corrected bits, decodeCommB chooses a decoder only if its score
  -- is positive and above the score of every other decoder, reports an ambiguous reply only if
  -- two different decoders share the highest score and it is positive, and reports an unknown one
  -- only if no score is positive.
  pub comm_b_choice-IsBest :
      (m : Message)
      → m.dr ≡ 0
      → m.correctedbits ≡ 0
      → IsBest (comm_b_score d pi m) (comm_b_choice d pi m)
  unfolding comm_b_choice
  comm_b_choice-IsBest m dr bits =
      let clear : (not (m.dr == 0) || ltb 0 m.correctedbits) ≡ false = ground arith in
      rw clear (best_of-IsBest (comm_b_score d pi m))

-- ===== src/ModeS/Verdict.antt =====
-- mode_s.c: the switch of `scoreModesMessage` against that of `decodeModesMessage`.
use hpr_readsb.Base.{ℕ, bit_and, refl, ◌≡◌, arith}
use hpr_readsb.Base.{Bool, true, false, ◌&&◌, ◌||◌, ◌==◌, ltb, leb, if◌then◌else◌, Option, some}
use hpr_readsb.Base.{Bool-cases, inl, inr}
use hpr_readsb.Base.Int.{ℤ, pos, pos_part}
use hpr_readsb.Crc.Table.{SortAndSearch, Diagnosis, unrepairable}
use hpr_readsb.Crc.Table.{modes_checksum_diagnose}
use hpr_readsb.IcaoFilter.{Filter, icao_filter_test}
use hpr_readsb.ModeS.Bits.{getbits}
use hpr_readsb.ModeS.Message.{Modes, Message}
use hpr_readsb.ModeS.Score.{score_type, score_all_call, score_all_call_errors, score_squitter}
use hpr_readsb.ModeS.Score.{score_address_parity, minus_1, minus_2}
use hpr_readsb.ModeS.Decode.{Step, returned, ◌then_do◌, decode_return, check_crc, check_squitter}
use hpr_readsb.ModeS.Decode.{repair_squitter, check_all_call, repair_all_call}
use hpr_readsb.ModeS.Accept.{Diagnosis-cases}

abbrev pub Rejected : Step → Type 0
Rejected s = (r : Message) × (s ≡ returned r) × (r.decode_result ≡ minus_2)

neither :
    (b : Bool) (x y : Option ℤ)
    → (x ≡ some minus_2 → ⊥)
    → (y ≡ some minus_2 → ⊥)
    → (if b then x else y) ≡ some minus_2
    → ⊥
neither true x y p q h = p h
neither false x y p q h = q h

parity_score : (b : Bool) → some (if b then pos 1000 else minus_1) ≡ some minus_2 → ⊥
parity_score true h = cc
parity_score false h = cc

call_type :
    (t : ℕ)
    → (t == 11) ≡ true
    → (t == 0 || t == 4 || t == 5 || t == 16 || (leb 24 t && leb t 31)) ≡ false
call_type t h = ground arith

squitter_type :
    (t : ℕ)
    → (t == 17 || t == 18) ≡ true
    → (t == 0 || t == 4 || t == 5 || t == 16 || (leb 24 t && leb t 31)) ≡ false
squitter_type t h = ground arith

third : (a b c : Bool) → (a || b || c) ≡ true → a ≡ false → b ≡ false → c ≡ true
third a b c h p q = ground arith

positive : (n : ℕ) → some (pos n) ≡ some minus_2 → ⊥
positive n h = cc

unknown : some minus_1 ≡ some minus_2 → ⊥
unknown h = cc

-- The formats that both know.
abbrev pub scored : ℕ → Bool
scored t =
    (t == 0 || t == 4 || t == 5 || t == 16 || t == 20 || t == 21) || t == 11 || (t == 17 || t == 18)

module _ (lib : SortAndSearch) (modes : Modes) (strict : modes.decode_all ≡ false) (filter : Filter)
    (m : Message) where
  abbrev diagnosis : Diagnosis
  diagnosis = modes_checksum_diagnose lib modes.tables m.crc m.msgbits

  -- With checksum 0 there is nothing to repair.
  not_clean : diagnosis ≡ unrepairable → (m.crc == 0) ≡ false
  unfolding modes_checksum_diagnose
  not_clean h = elim (Bool-cases (m.crc == 0)) [
    | inr dirty ↦ dirty
    | inl clean ↦ absurd (cc (rw (clean, modes_checksum_diagnose) at h))
  ]

  squitter-Rejected :
      score_squitter lib modes filter m.msg diagnosis ≡ some minus_2
      → Rejected (check_squitter modes lib filter m)
  unfolding score_squitter check_squitter repair_squitter decode_return ◌then_do◌
  squitter-Rejected h = elim (Diagnosis-cases diagnosis) [
    | inl fails ↦ absurd (cc (rw (fails, score_squitter) at h))
    | inr (inl beyond) ↦ (
      record m { decode_result = minus_2 },
      rw (not_clean beyond, beyond, repair_squitter, strict),
      refl,
    )
    | inr (inr (ei, found)) ↦ absurd (cc (rw (found, score_squitter) at h))
  ]

  all_call-Rejected :
      score_all_call lib modes filter m.msg m.crc m.msgbits ≡ some minus_2
      → Rejected (check_all_call modes lib filter m)
  unfolding score_all_call score_all_call_errors check_all_call repair_all_call decode_return
      ◌then_do◌
  all_call-Rejected h = elim (Bool-cases (bit_and m.crc 0xffff80 == 0)) [
    | inl checked ↦ absurd (
        neither (bit_and m.crc 0x7f == 0) _ _ (λ e. cc) (neither _ _ _ (positive 1000) unknown)
          (rw (checked, score_all_call) at h))
    | inr errors ↦ elim (Diagnosis-cases diagnosis) [
      | inl fails ↦ absurd (cc (rw (errors, score_all_call, fails, score_all_call_errors) at h))
      | inr (inl beyond) ↦ (
        record m {
          iid = bit_and m.crc 0x7f;
          maybe_addr = getbits m.msg 9 32;
          decode_result = minus_2;
        },
        rw (errors, beyond, repair_all_call, strict),
        refl,
      )
      | inr (inr (ei, found)) ↦ elim (Bool-cases (ltb 1 (pos_part ei.errors))) [
        | inl many ↦ (
          record m {
            iid = bit_and m.crc 0x7f;
            maybe_addr = getbits m.msg 9 32;
            decode_result = minus_2;
          },
          rw (errors, found, repair_all_call, many, strict),
          refl,
        )
        | inr one ↦ absurd (
            neither _ _ _ (positive 800) unknown
              (rw (errors, found, score_all_call, score_all_call_errors, one) at h))
      ]
    ]
  ]

  -- With decode_all off, for a message of a format that scoreModesMessage knows, 0, 4, 5, 11, 16,
  -- 17, 18, 20 or 21, with a given checksum and filter, if the switch of scoreModesMessage scores
  -- -2, then the switch of decodeModesMessage ends the decoding with result -2.
  pub score_type-check_crc :
      scored m.msgtype ≡ true
      → score_type lib modes filter m.msg m.msgtype m.crc m.msgbits ≡ some minus_2
      → Rejected (check_crc modes lib filter m)
  unfolding score_type score_address_parity check_crc
  score_type-check_crc known h =
      let t = m.msgtype in
      elim (Bool-cases (t == 0 || t == 4 || t == 5 || t == 16 || t == 20 || t == 21)) [
        | inl parity ↦
            absurd (parity_score (icao_filter_test filter m.crc) (rw (parity, score_type) at h))
        | inr other ↦ elim (Bool-cases (t == 11)) [
          | inl call ↦
              let own = call_type t call in
              rw (own, call, check_crc) (all_call-Rejected (rw (other, call, score_type) at h))
          | inr no_call ↦
              let squitter =
                third (t == 0 || t == 4 || t == 5 || t == 16 || t == 20 || t == 21) (t == 11)
                  (t == 17 || t == 18) known other no_call in
              let own = squitter_type t squitter in
              rw (own, no_call, squitter, check_crc)
                (squitter-Rejected (rw (other, no_call, squitter, score_type) at h))
        ]
      ]

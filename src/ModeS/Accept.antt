-- ===== src/ModeS/Accept.antt =====
-- mode_s.c: the steps of `decodeModesMessage` up to its switch over the format, where `decode_all`
-- is off.
pub mod Squitter
pub mod Parity
use hpr_readsb.Base.{ℕ, ◌*◌, ◌≤◌, bit_and, bit_or, refl, ◌≡◌, sym, ap, ap₂, ◌∙◌, subst, arith}
use hpr_readsb.Base.{
  Bool, true, false, not, ◌&&◌, ◌||◌, ◌==◌, leb, if◌then◌else◌, Option, none, some,
}
use hpr_readsb.Base.{
  List, [], ◌∷◌, length, set, length-set, get_or, Bool-cases, Option-cases, inl, inr, ==_iff, ◌⊎◌,
}
use hpr_readsb.Base.Int.{ℤ}
use hpr_readsb.Crc.{modes_checksum}
use hpr_readsb.Crc.Syndrome.{long}
use hpr_readsb.Crc.Table.{SortAndSearch, Diagnosis, failed_assertion, unrepairable, repairable}
use hpr_readsb.Crc.Table.{
  modes_checksum_diagnose, modes_checksum_fix, modes_checksum_init, ErrorInfo,
}
use hpr_readsb.Crc.Table.Entries.{IsSortAndSearch}
use hpr_readsb.Crc.Table.Patterns.{flip_all}
use hpr_readsb.Crc.Table.Repair.{IsRepaired, diagnose-fix}
use hpr_readsb.IcaoFilter.{Filter, icao_filter_test}
use hpr_readsb.ModeS.Bits.{getbits, modes_message_len_by_type}
use hpr_readsb.ModeS.Message.{Modes, Message}
use hpr_readsb.ModeS.Score.{fix_df17_msgtype, FixedType, near_17, all_zeros, minus_1, minus_2}
use hpr_readsb.ModeS.Decode.{Step, failed, returned, continued, ◌then_do◌, decode_return, begin}
use hpr_readsb.ModeS.Decode.{classify, check_crc, check_squitter, repair_squitter, check_message}
use hpr_readsb.ModeS.Decode.{check_address_parity, check_comm_b, check_all_call}

pub then_do-continued :
    (s : Step) (f : Message → Step) (k : Message)
    → (s then_do f) ≡ continued k
    → (j : Message) × (s ≡ continued j) × (f j ≡ continued k)
unfolding ◌then_do◌
then_do-continued failed f k h = absurd (cc)
then_do-continued (returned m) f k h = absurd (cc)
then_do-continued (continued m) f k h = (m, refl, h)

abbrev pub of_continued {ℓ} : {A : Type ℓ} → A → (Message → A) → Step → A
of_continued d f failed = d
of_continued d f (returned m) = d
of_continued d f (continued m) = f m

abbrev of_fixed : (List ℕ → ℕ) → Option FixedType → ℕ
of_fixed g none = 0
of_fixed g (some f) = g f.msg

getbits-set : (msg : List ℕ) (byte : ℕ) → getbits (set msg 0 byte) 9 32 ≡ getbits msg 9 32
unfolding getbits
getbits-set [] byte = refl
getbits-set (x ∷ msg) byte = refl

-- What does not depend on the first byte stays as it was.
unchanged-fix_df17_msgtype :
    (g : List ℕ → ℕ)
    → ((msg : List ℕ) (byte : ℕ) → g (set msg 0 byte) ≡ g msg)
    → (modes : Modes) (msg : List ℕ) (t : ℕ) (f : FixedType) → fix_df17_msgtype modes msg t ≡ some f
    → g f.msg ≡ g msg
unfolding fix_df17_msgtype
unchanged-fix_df17_msgtype g same modes msg t f h =
    let byte = bit_or (bit_and (get_or msg 0 0) 7) (17 * 8) in
    let fixed = set msg 0 byte in
    elim (Bool-cases (not modes.fix_df || modes.nfix_crc == 0)) [
      | inl off ↦ sym (ap (of_fixed g) (rw (off, fix_df17_msgtype) at h))
      | inr on ↦ elim (Bool-cases (near_17 t)) [
        | inr far ↦ sym (ap (of_fixed g) (rw (on, far, fix_df17_msgtype) at h))
        | inl near ↦ elim (Option-cases (modes_checksum fixed 112)) [
          | inl fails ↦ absurd (cc (rw (on, near, fails, fix_df17_msgtype) at h))
          | inr (res, e) ↦ elim (Bool-cases (res == 0)) [
            | inl clean ↦
                sym (ap (of_fixed g) (rw (on, near, e, clean, fix_df17_msgtype) at h))
                ∙ same msg byte
            | inr dirty ↦ sym (ap (of_fixed g) (rw (on, near, e, dirty, fix_df17_msgtype) at h))
          ]
        ]
      ]
    ]

-- What `classify` leaves.
pub record Classified (j k : Message) : Type 0 where
  pub same_length : length k.msg ≡ length j.msg
  pub same_addr : getbits k.msg 9 32 ≡ getbits j.msg 9 32
  pub bits : k.msgbits ≡ modes_message_len_by_type k.msgtype
  pub checked : modes_checksum k.msg k.msgbits ≡ some k.crc

pub classify-Classified :
    (modes : Modes) (j k : Message) → classify modes j ≡ continued k → Classified j k
unfolding classify
classify-Classified modes j k h =
    elim (Option-cases (fix_df17_msgtype modes j.msg (getbits j.msg 1 5))) [
      | inl fails ↦ absurd (cc (rw (fails, classify) at h))
      | inr (f, e) ↦
          elim (Option-cases (modes_checksum f.msg (modes_message_len_by_type f.msgtype))) [
            | inl fails ↦ absurd (cc (rw (e, fails, classify) at h))
            | inr (crc, c) ↦
                let q = rw (e, c, classify) at h in
                let msg = ap (of_continued [] (λ m. m.msg)) q in
                let type = ap (of_continued 0 (λ m. m.msgtype)) q in
                let bits = ap (of_continued 0 (λ m. m.msgbits)) q in
                let sum = ap (of_continued 0 (λ m. m.crc)) q in
                record {
                  same_length =
                      ap length (sym msg)
                      ∙ unchanged-fix_df17_msgtype length (λ l b. length-set l 0 b) modes j.msg
                          (getbits j.msg 1 5) f e;
                  same_addr =
                      ap (λ l. getbits l 9 32) (sym msg)
                      ∙ unchanged-fix_df17_msgtype (λ l. getbits l 9 32) getbits-set modes j.msg
                          (getbits j.msg 1 5) f e;
                  bits = sym bits ∙ ap modes_message_len_by_type type;
                  checked = ap₂ modes_checksum (sym msg) (sym bits) ∙ (c ∙ ap some sum);
                }
          ]
    ]

module _ (modes : Modes) (strict : modes.decode_all ≡ false) where
  pub decode_return-stops : (x : ℤ) (m k : Message) → decode_return modes x m ≡ continued k → ⊥
  unfolding decode_return
  decode_return-stops x m k h = cc (rw (strict) at h)

  pub msg-begin : (m j : Message) → begin modes m ≡ continued j → j.msg ≡ m.msg
  unfolding begin
  msg-begin m j h = elim (Bool-cases (all_zeros m.msg 7)) [
    | inl zeros ↦ absurd (decode_return-stops minus_2 _ j (rw (zeros, begin) at h))
    | inr more ↦ sym (ap (of_continued [] (λ m. m.msg)) (rw (more, begin) at h))
  ]

pub Diagnosis-cases :
    (d : Diagnosis)
    → (d ≡ failed_assertion) ⊎ (d ≡ unrepairable) ⊎ ((e : ErrorInfo) × (d ≡ repairable e))
Diagnosis-cases failed_assertion = inl refl
Diagnosis-cases unrepairable = inr (inl refl)
Diagnosis-cases (repairable e) = inr (inr (e, refl))

-- ===== src/ModeS/Accept/Squitter.antt =====
-- mode_s.c: the check and the repair of a squitter in `decodeModesMessage`.
use hpr_readsb.Base.{ℕ, refl, ◌≡◌, sym, ap, ◌∙◌, subst, arith}
use hpr_readsb.Base.{Bool, true, false, not, ◌&&◌, ◌||◌, ◌==◌, leb, if◌then◌else◌, some}
use hpr_readsb.Base.{List, [], length, Bool-cases, inl, inr, ==_iff, ◌⊎◌}
use hpr_readsb.Crc.{modes_checksum}
use hpr_readsb.Crc.Syndrome.{long}
use hpr_readsb.Crc.Table.{SortAndSearch}
use hpr_readsb.Crc.Table.{modes_checksum_diagnose, modes_checksum_init}
use hpr_readsb.Crc.Table.Entries.{IsSortAndSearch}
use hpr_readsb.Crc.Table.Patterns.{flip_all}
use hpr_readsb.Crc.Table.Repair.{diagnose-fix}
use hpr_readsb.IcaoFilter.{Filter, icao_filter_test}
use hpr_readsb.ModeS.Bits.{getbits, modes_message_len_by_type}
use hpr_readsb.ModeS.Message.{Modes, Message}
use hpr_readsb.ModeS.Score.{minus_1, minus_2}
use hpr_readsb.ModeS.Decode.{Step, continued, ◌then_do◌, begin}
use hpr_readsb.ModeS.Decode.{classify, check_crc, check_squitter, repair_squitter}
use hpr_readsb.ModeS.Accept.{then_do-continued, classify-Classified, decode_return-stops}
use hpr_readsb.ModeS.Accept.{msg-begin, of_continued, Diagnosis-cases}

if_continued :
    (b : Bool) (s : Step) (x k : Message)
    → (s ≡ continued k → ⊥)
    → (if b then s else continued x) ≡ continued k
    → (b ≡ false) × (x.msg ≡ k.msg)
if_continued true s x k stops h = absurd (stops h)
if_continued false s x k stops h = (refl, ap (of_continued [] (λ m. m.msg)) h)

-- A squitter without errors, its address as received or known to the filter.
pub record IsCleanSquitter (filter : Filter) (received : ℕ) (k : Message) : Type 0 where
  pub clean : modes_checksum k.msg 112 ≡ some 0
  pub named :
      (getbits k.msg 9 32 ≡ received) ⊎ (icao_filter_test filter (getbits k.msg 9 32) ≡ true)

module _ (lib : SortAndSearch) (laws : IsSortAndSearch lib) (modes : Modes) (fix_bits : ℕ)
    (made : modes_checksum_init lib fix_bits ≡ some modes.tables)
    (strict : modes.decode_all ≡ false) (filter : Filter) where
  address_tests : (a b : ℕ) (t : Bool) → (not (a == b) && not t) ≡ false → (b ≡ a) ⊎ (t ≡ true)
  address_tests a b t h = ground arith

  moved :
      (received : ℕ) (l : List ℕ) (k : Message)
      → l ≡ k.msg
      → modes_checksum l 112 ≡ some 0
      → (getbits l 9 32 ≡ received) ⊎ (icao_filter_test filter (getbits l 9 32) ≡ true)
      → IsCleanSquitter filter received k
  moved received l k e clean named = record {
    clean = subst (λ t. modes_checksum t 112 ≡ some 0) e clean;
    named =
        subst (λ t. (getbits t 9 32 ≡ received) ⊎ (icao_filter_test filter (getbits t 9 32) ≡ true))
          e named;
  }

  repair_squitter-IsCleanSquitter :
      (m k : Message)
      → length m.msg ≡ 14
      → modes_checksum m.msg 112 ≡ some m.crc
      → m.msgbits ≡ 112
      → repair_squitter modes lib filter m
          (modes_checksum_diagnose lib modes.tables m.crc m.msgbits)
        ≡ continued k
      → IsCleanSquitter filter (getbits m.msg 9 32) k
  unfolding repair_squitter
  repair_squitter-IsCleanSquitter m k size sum bits h =
      elim (Diagnosis-cases (modes_checksum_diagnose lib modes.tables m.crc m.msgbits)) [
        | inl fails ↦ absurd (cc (rw (fails, repair_squitter) at h))
        | inr (inl beyond) ↦
            absurd
              (decode_return-stops modes strict minus_2 m k (rw (beyond, repair_squitter) at h))
        | inr (inr (ei, found)) ↦
            let r =
              diagnose-fix lib laws fix_bits m.msg made (long refl refl) size sum
                (ap (modes_checksum_diagnose lib modes.tables m.crc) (sym bits) ∙ found) in
            let h1 = rw (found, repair_squitter, r.fixed) at h in
            let (named, same) =
              if_continued _ _ _ k (decode_return-stops modes strict minus_1 _ k) h1 in
            moved (getbits m.msg 9 32) (flip_all r.places m.msg) k same r.clean (
              address_tests (getbits m.msg 9 32) (getbits (flip_all r.places m.msg) 9 32)
                (icao_filter_test filter (getbits (flip_all r.places m.msg) 9 32)) named)
      ]

  check_squitter-IsCleanSquitter :
      (m k : Message)
      → length m.msg ≡ 14
      → m.msgbits ≡ 112
      → modes_checksum m.msg 112 ≡ some m.crc
      → check_squitter modes lib filter m ≡ continued k
      → IsCleanSquitter filter (getbits m.msg 9 32) k
  unfolding check_squitter
  check_squitter-IsCleanSquitter m k size bits sum h =
      let (j, repaired, rest) = then_do-continued _ _ k h in
      let same : j.msg ≡ k.msg = ap (of_continued [] (λ x. x.msg)) rest in
      let c : IsCleanSquitter filter (getbits m.msg 9 32) j = elim (Bool-cases (m.crc == 0)) [
        | inl clean ↦
            let kept : m.msg ≡ j.msg = ap (of_continued [] (λ x. x.msg)) (rw clean at repaired) in
            record {
              clean =
                  ap (λ l. modes_checksum l 112) (sym kept)
                  ∙ (sum ∙ ap some ((==_iff m.crc 0).0 clean));
              named = inl (ap (λ l. getbits l 9 32) (sym kept));
            }
        | inr dirty ↦ repair_squitter-IsCleanSquitter m j size sum bits (rw dirty at repaired)
      ] in
      moved (getbits m.msg 9 32) j.msg k same c.clean c.named

  squitter_type :
      (t : ℕ)
      → (t == 17 || t == 18) ≡ true
      → ((t == 0 || t == 4 || t == 5 || t == 16 || (leb 24 t && leb t 31)) ≡ false)
        × ((t == 11) ≡ false)
  squitter_type t h = ground arith

  long_type : (t : ℕ) → (t == 17 || t == 18) ≡ true → modes_message_len_by_type t ≡ 112
  unfolding modes_message_len_by_type
  long_type t h = elim (Bool-cases (t == 17)) [
    | inl a ↦ let e = (==_iff t 17).0 a in rw e
    | inr b ↦ let e : t ≡ 18 = ground arith in rw e
  ]

  -- With the tables of modesChecksumInit and decode_all off, if decodeModesMessage goes on to the
  -- fields of a message of 14 bytes whose format it found to be 17 or 18, the message as repaired
  -- has checksum 0, and its address is the one received or one that the filter knows. The library
  -- sort is assumed to make up no entries, and the search to find only entries with the syndrome
  -- that it looks for.
  pub check_crc-IsCleanSquitter :
      (m c k : Message)
      → length m.msg ≡ 14
      → (begin modes m then_do classify modes) ≡ continued c
      → (c.msgtype == 17 || c.msgtype == 18) ≡ true
      → check_crc modes lib filter c ≡ continued k
      → IsCleanSquitter filter (getbits m.msg 9 32) k
  unfolding check_crc
  check_crc-IsCleanSquitter m c k size classified type h =
      let (b, begun, rest) = then_do-continued (begin modes m) (classify modes) c classified in
      let x = classify-Classified modes b c rest in
      let same = msg-begin modes strict m b begun in
      let (other, call) = squitter_type c.msgtype type in
      let bits = x.bits ∙ long_type c.msgtype type in
      let r =
        check_squitter-IsCleanSquitter c k (x.same_length ∙ (ap length same ∙ size)) bits
          (ap (modes_checksum c.msg) (sym bits) ∙ x.checked)
          (rw (other, call, type, check_crc) at h) in
      subst (λ a. IsCleanSquitter filter a k) (x.same_addr ∙ ap (λ l. getbits l 9 32) same) r

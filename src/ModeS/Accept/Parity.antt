-- ===== src/ModeS/Accept/Parity.antt =====
-- mode_s.c: what `decodeModesMessage` does with a reply that has its address in its parity.
use hpr_readsb.Base.{ℕ, ◌≡◌, sym, ap, ◌∙◌, subst, arith}
use hpr_readsb.Base.{Bool, true, false, ◌&&◌, ◌||◌, ◌==◌, leb}
use hpr_readsb.Base.{Bool-cases, inl, inr}
use hpr_readsb.Crc.Table.{SortAndSearch}
use hpr_readsb.IcaoFilter.{Filter, icao_filter_test}
use hpr_readsb.ModeS.Message.{Modes, Message}
use hpr_readsb.ModeS.Score.{minus_1}
use hpr_readsb.ModeS.Decode.{continued}
use hpr_readsb.ModeS.Decode.{check_crc}
use hpr_readsb.ModeS.Decode.{check_address_parity, check_comm_b}
use hpr_readsb.ModeS.Accept.{then_do-continued, decode_return-stops}
use hpr_readsb.ModeS.Accept.{of_continued}

-- The formats whose checksum is the address.
abbrev pub in_parity : ℕ → Bool
in_parity t =
    (t == 0 || t == 4 || t == 5 || t == 16 || (leb 24 t && leb t 31)) || (t == 20 || t == 21)

module _ (lib : SortAndSearch) (modes : Modes) (strict : modes.decode_all ≡ false) (filter : Filter)
    (m k : Message) where
  squitter_type :
      (t : ℕ)
      → (t == 20 || t == 21) ≡ true
      → ((t == 0 || t == 4 || t == 5 || t == 16 || (leb 24 t && leb t 31)) ≡ false)
        × ((t == 11) ≡ false)
        × ((t == 17 || t == 18) ≡ false)
  squitter_type t h = ground arith

  known_addr :
      icao_filter_test filter m.crc ≡ true
      → m.crc ≡ k.addr
      → (k.addr ≡ m.crc) × (icao_filter_test filter k.addr ≡ true)
  known_addr known e = (sym e, subst (λ a. icao_filter_test filter a ≡ true) e known)

  check_address_parity-icao_filter_test :
      check_address_parity modes lib filter m ≡ continued k
      → (k.addr ≡ m.crc) × (icao_filter_test filter k.addr ≡ true)
  unfolding check_address_parity
  check_address_parity-icao_filter_test h =
      let (j, tested, rest) = then_do-continued _ _ k h in
      let e : j.crc ≡ k.addr = ap (of_continued 0 (λ x. x.addr)) rest in
      elim (Bool-cases (icao_filter_test filter m.crc)) [
        | inl known ↦
            let q : m.crc ≡ j.crc = ap (of_continued 0 (λ x. x.crc)) (rw known at tested) in
            known_addr known (q ∙ e)
        | inr unknown ↦ absurd (decode_return-stops modes strict minus_1 _ j (rw unknown at tested))
      ]

  check_comm_b-icao_filter_test :
      check_comm_b modes lib filter m ≡ continued k
      → (k.addr ≡ m.crc) × (icao_filter_test filter k.addr ≡ true)
  unfolding check_comm_b
  check_comm_b-icao_filter_test h = elim (Bool-cases (icao_filter_test filter m.crc)) [
    | inl known ↦
        known_addr known (ap (of_continued 0 (λ x. x.addr)) (rw (known, check_comm_b) at h))
    | inr unknown ↦
        absurd (decode_return-stops modes strict minus_1 _ k (rw (unknown, check_comm_b) at h))
  ]

  -- With decode_all off, if decodeModesMessage goes on to the fields of a message of a format
  -- that has its address in its parity, 0, 4, 5, 16, 20, 21 or 24 to 31, then the address of the
  -- message is its checksum and the filter knows it.
  pub check_crc-icao_filter_test :
      in_parity m.msgtype ≡ true
      → check_crc modes lib filter m ≡ continued k
      → (k.addr ≡ m.crc) × (icao_filter_test filter k.addr ≡ true)
  unfolding check_crc
  check_crc-icao_filter_test type h =
      let t = m.msgtype in
      elim (Bool-cases (t == 0 || t == 4 || t == 5 || t == 16 || (leb 24 t && leb t 31))) [
        | inl short ↦ check_address_parity-icao_filter_test (rw (short, check_crc) at h)
        | inr comm_b ↦
            let (a, b, c) = squitter_type t (rw comm_b at type) in
            check_comm_b-icao_filter_test (rw (a, b, c, rw comm_b at type, check_crc) at h)
      ]

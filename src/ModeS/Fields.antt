-- ===== src/ModeS/Fields.antt =====
-- mode_s.c: the fields of a message that hold an identity or an altitude.
use hpr_readsb.Base.{ℕ, zero, suc, ◌+◌, ◌-◌, ◌*◌, ◌/◌, ◌^◌, bit_and, bit_or, bit_xor}
use hpr_readsb.Base.{List, [], ◌∷◌, ◌&&◌}
use hpr_readsb.Base.{leb, if◌then◌else◌}
use hpr_readsb.Base.Int.{ℤ, pos, negsuc, sub_ℕ, ltb_ℤ, pos_part}
use hpr_readsb.ModeAc.{AcTables, mode_a_to_mode_c, has, invalid_altitude}
use hpr_readsb.Crc.Table.{ErrorInfo}

-- `if (x & mask) {acc |= bit;}`
abbrev or_if : ℕ → ℕ → ℕ → ℕ → ℕ
or_if x mask bit acc = if has x mask then bit_or acc bit else acc

-- `decodeID13Field`
unfoldable pub decode_id13_field : ℕ → ℕ
decode_id13_field id =
    let c1 = or_if id 0x1000 0x10 0 in
    let a1 = or_if id 0x800 0x1000 c1 in
    let c2 = or_if id 0x400 0x20 a1 in
    let a2 = or_if id 0x200 0x2000 c2 in
    let c4 = or_if id 0x100 0x40 a2 in
    let a4 = or_if id 0x80 0x4000 c4 in
    let b1 = or_if id 0x20 0x100 a4 in
    let d1 = or_if id 0x10 0x1 b1 in
    let b2 = or_if id 0x8 0x200 d1 in
    let d2 = or_if id 0x4 0x2 b2 in let b4 = or_if id 0x2 0x400 d2 in or_if id 0x1 0x4 b4

-- `altitude_unit_t`
pub data AltitudeUnit : Type 0 where
  feet meters : AltitudeUnit

-- An altitude, its unit and the Q bit, which the caller has set to 0.
pub record Altitude : Type 0 where
  pub value : ℤ
  pub unit : AltitudeUnit
  pub q_bit : ℕ

abbrev pub hundreds : ℤ → ℤ
hundreds (pos n) = pos (100 * n)
hundreds (negsuc n) = negsuc (100 * n + 99)

-- The hundreds of feet of a Gillham coded field.
abbrev pub gillham_feet : AcTables → ℕ → ℤ
gillham_feet t field =
    let n = mode_a_to_mode_c t (decode_id13_field field) in
    if ltb_ℤ n (negsuc 11) then invalid_altitude else hundreds n

-- `decodeAC13Field`
unfoldable pub decode_ac13_field : AcTables → ℕ → Altitude
decode_ac13_field t field =
    let q = has field 0x10 in
    let n =
      bit_or (bit_or (bit_and field 0x1f80 / 4) (bit_and field 0x20 / 2)) (bit_and field 0xf) in
    if has field 0x40
    then record { value = invalid_altitude; unit = meters; q_bit = if q then 1 else 0 }
    else if q
    then record { value = sub_ℕ (n * 25) 1000; unit = feet; q_bit = 1 }
    else record { value = gillham_feet t field; unit = feet; q_bit = 0 }

-- `decodeAC12Field`
unfoldable pub decode_ac12_field : AcTables → ℕ → Altitude
decode_ac12_field t field =
    let n = bit_or (bit_and field 0xfe0 / 2) (bit_and field 0xf) in
    let with_m = bit_or (bit_and field 0xfc0 * 2) (bit_and field 0x3f) in
    if has field 0x10
    then record { value = sub_ℕ (n * 25) 1000; unit = feet; q_bit = 1 }
    else record { value = gillham_feet t with_m; unit = feet; q_bit = 0 }

pub record Corrected : Type 0 where
  pub addr : ℕ
  pub addr_errors : ℕ

-- One pass of the loop of `correct_aa_field`.
unfoldable pub correct_aa_bit : ℤ → Corrected → Corrected
correct_aa_bit (pos i) c =
    if leb 8 i && leb i 31
    then record { addr = bit_xor c.addr (2 ^ (31 - i)); addr_errors = c.addr_errors + 1 }
    else c
correct_aa_bit (negsuc i) c = c

-- The loop, with `left` passes left.
unfoldable pub correct_aa_loop : ℕ → List ℤ → Corrected → Corrected
correct_aa_loop zero bit c = c
correct_aa_loop (suc left) [] c = c
correct_aa_loop (suc left) (b ∷ bit) c = correct_aa_loop left bit (correct_aa_bit b c)

-- `correct_aa_field`, for an entry that is not null.
unfoldable pub correct_aa_field : ℕ → ErrorInfo → Corrected
correct_aa_field addr ei =
    correct_aa_loop (pos_part ei.errors) ei.bit (record { addr = addr; addr_errors = 0 })

-- ===== src/ModeS/Altitude.antt =====
-- What the altitude fields hold: the two encodings of a 13 bit field, and the 12 bit field as the
-- 13 bit field without its M bit.
use hpr_readsb.Base.Below.{all_below, all_below-at}
use hpr_readsb.Base.{ℕ, zero, suc, ◌+◌, ◌*◌, ◌/◌, ◌%◌, ◌<◌, bit_and, bit_or}
use hpr_readsb.Base.{Bool, true, false, not, ◌&&◌, ◌||◌, arith, refl, ◌≡◌, ◌∙◌}
use hpr_readsb.Base.{◌==◌, if◌then◌else◌}
use hpr_readsb.Base.Int.{ℤ, pos, negsuc, sub_ℕ, ltb_ℤ}
use hpr_readsb.ModeAc.{AcTables, mode_ac_init, mode_a_to_mode_c, has}
use hpr_readsb.ModeAc.{mode_c_index, internal_mode_a_to_mode_c, mode_a_to_index}
use hpr_readsb.ModeAc.Gillham.{gillham, gillham-index, pulse, hundreds_code}
use hpr_readsb.ModeAc.Altitudes.{mode_a_to_mode_c-internal_mode_a_to_mode_c}
use hpr_readsb.ModeS.Fields.{feet, decode_ac13_field, decode_ac12_field}
use hpr_readsb.ModeS.Fields.{decode_id13_field, hundreds}

-- The bit of `code` under `mask`, as `bit`.
pub move : ℕ → ℕ → ℕ → ℕ
move code mask bit = if has code mask then bit else 0

-- The field of a Mode A code, M and Q clear.
pub field_of_code : ℕ → ℕ
field_of_code code =
    move code 0x10 0x1000
    + move code 0x1000 0x800
    + move code 0x20 0x400
    + move code 0x2000 0x200
    + move code 0x40 0x100
    + move code 0x4000 0x80
    + move code 0x100 0x20
    + move code 0x1 0x10
    + move code 0x200 0x8
    + move code 0x2 0x4
    + move code 0x400 0x2
    + move code 0x4 0x1

-- The field of the altitude `25 * n - 1000` feet, Q set.
pub field_of_steps : ℕ → ℕ
field_of_steps n = n / 32 * 128 + n / 16 % 2 * 32 + 16 + n % 16

-- A 12 bit field with a clear M bit put in.
pub insert_m : ℕ → ℕ
insert_m f = f / 64 * 128 + f % 64

field_reads : ℕ → Bool
field_reads n =
    let f = field_of_code (gillham (suc n)) in
    decode_id13_field f == gillham (suc n) && not (has f 0x10 || has f 0x40)

steps_read : ℕ → Bool
steps_read n =
    let f = field_of_steps n in
    bit_or (bit_or (bit_and f 0x1f80 / 4) (bit_and f 0x20 / 2)) (bit_and f 0xf) == n
    && has f 0x10
    && not (has f 0x40)

inserted : ℕ → Bool
inserted f =
    let g = insert_m f in
    let q_same = if has f 0x10 then has g 0x10 else not (has g 0x10) in
    bit_or (bit_and f 0xfe0 / 2) (bit_and f 0xf)
      == bit_or (bit_or (bit_and g 0x1f80 / 4) (bit_and g 0x20 / 2)) (bit_and g 0xf)
    && q_same
    && not (has g 0x40)
    && bit_or (bit_and f 0xfc0 * 2) (bit_and f 0x3f) == g

fields_read : all_below field_reads 1280 ≡ true
unfolding all_below field_reads field_of_code move decode_id13_field gillham pulse hundreds_code
fields_read = refl

all_steps_read : all_below steps_read 2048 ≡ true
unfolding all_below steps_read field_of_steps
all_steps_read = refl

all_inserted : all_below inserted 4096 ≡ true
unfolding all_below inserted insert_m
all_inserted = refl

three_checks :
    (a b : ℕ) (p q : Bool) → (a == b && p && not q) ≡ true → (a ≡ b) × (p ≡ true) × (q ≡ false)
three_checks a b p q h = ground arith

-- decodeAC13Field of the field that holds a count n below 2048 around a set Q bit and a clear M
-- bit is 25 * n - 1000 feet with the Q bit 1.
pub decode_ac13_field-field_of_steps :
    (t : AcTables) (n : ℕ)
    → n < 2048
    → decode_ac13_field t (field_of_steps n)
      ≡ record { value = sub_ℕ (n * 25) 1000; unit = feet; q_bit = 1 }
unfolding decode_ac13_field steps_read
decode_ac13_field-field_of_steps t n h =
    let f = field_of_steps n in
    let (e, q, m) =
      three_checks (bit_or (bit_or (bit_and f 0x1f80 / 4) (bit_and f 0x20 / 2)) (bit_and f 0xf)) n
        (has f 0x10) (has f 0x40) (all_below-at steps_read 2048 n all_steps_read h) in
    rw (m, q, e)

four_checks :
    (a b c d : ℕ) (p q m : Bool)
    → (a == b && (if p then q else not q) && not m && c == d) ≡ true
    → (a ≡ b) × (p ≡ q) × (m ≡ false) × (c ≡ d)
four_checks a b c d p q m h = ground arith

-- decodeAC12Field of each 12 bit field gives the altitude, unit and Q bit that decodeAC13Field
-- gives of the field with a clear M bit put in.
pub decode_ac12_field-decode_ac13_field :
    (t : AcTables) (f : ℕ) → f < 4096 → decode_ac12_field t f ≡ decode_ac13_field t (insert_m f)
unfolding decode_ac12_field decode_ac13_field inserted
decode_ac12_field-decode_ac13_field t f h =
    let g = insert_m f in
    let (e, q, m, w) =
      four_checks (bit_or (bit_and f 0xfe0 / 2) (bit_and f 0xf))
        (bit_or (bit_or (bit_and g 0x1f80 / 4) (bit_and g 0x20 / 2)) (bit_and g 0xf))
        (bit_or (bit_and f 0xfc0 * 2) (bit_and f 0x3f)) g (has f 0x10) (has g 0x10) (has g 0x40)
        (all_below-at inserted 4096 f all_inserted h) in
    rw (m, q, e, w)

altitude_of_index : (m : ℤ) (c : ℕ) → mode_c_index m ≡ c → 0 < c → c < 1281 → m ≡ sub_ℕ c 13
unfolding mode_c_index
altitude_of_index (pos n) c e l h = ground arith
altitude_of_index (negsuc n) c e l h = ground arith

pub gillham-altitude :
    (c : ℕ) → 0 < c → c < 1281 → mode_a_to_mode_c mode_ac_init (gillham c) ≡ sub_ℕ c 13
gillham-altitude c l h =
    let (back, code, small) = gillham-index c l h in
    let e = mode_a_to_mode_c-internal_mode_a_to_mode_c (mode_a_to_index (gillham c)) small in
    rw code at e ∙ altitude_of_index (internal_mode_a_to_mode_c (gillham c)) c back l h

not_below : (c : ℕ) → 0 < c → ltb_ℤ (sub_ℕ c 13) (negsuc 11) ≡ false
not_below c l = ground arith

read_checks :
    (a b : ℕ) (p q : Bool) → (a == b && not (p || q)) ≡ true → (a ≡ b) × (p ≡ false) × (q ≡ false)
read_checks a b p q h = ground arith

-- With the tables of modeACInit, decodeAC13Field of the field that holds the Gillham code of an
-- altitude from -1200 to 126700 feet, in hundreds of feet, with the M and Q bits clear, is that
-- altitude in feet with the Q bit 0.
pub decode_ac13_field-gillham :
    (c : ℕ)
    → 0 < c
    → c < 1281
    → decode_ac13_field mode_ac_init (field_of_code (gillham c))
      ≡ record { value = hundreds (sub_ℕ c 13); unit = feet; q_bit = 0 }
unfolding decode_ac13_field field_reads
decode_ac13_field-gillham zero l h = absurd (omega arith)
decode_ac13_field-gillham (suc n) l h =
    let f = field_of_code (gillham (suc n)) in
    let (e, q, m) =
      read_checks (decode_id13_field f) (gillham (suc n)) (has f 0x10) (has f 0x40)
        (all_below-at field_reads 1280 n fields_read (omega arith)) in
    rw (m, q, e, gillham-altitude (suc n) l h, not_below (suc n) l)

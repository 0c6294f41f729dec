-- ===== src/ModeS/Bits.antt =====
-- mode_s.h: the bits of a message, numbered from 1 at the top of the first byte.
use hpr_readsb.Base.{ℕ, ◌+◌, ◌-◌, ◌*◌, ◌/◌, ◌%◌, ◌^◌, bit_and, bit_or}
use hpr_readsb.Base.{Bool, not, List, ◌==◌, if◌then◌else◌, get_or}

-- `getbit`
unfoldable pub getbit : List ℕ → ℕ → ℕ
getbit msg bitnum =
    let bi = bitnum - 1 in if bit_and (get_or msg (bi / 8) 0) (2 ^ (7 - bi % 8)) == 0 then 0 else 1

-- `getbit`, as a condition.
abbrev pub bit : List ℕ → ℕ → Bool
bit msg i = not (getbit msg i == 0)

-- `getbits`, as far as its assertions hold.
unfoldable pub getbits : List ℕ → ℕ → ℕ → ℕ
getbits msg firstbit lastbit =
    let fbi = firstbit - 1 in
    let lbi = lastbit - 1 in
    let fby = fbi / 8 in
    let nby = lbi / 8 - fby + 1 in
    let shift = 7 - lbi % 8 in
    let top = bit_and (get_or msg fby 0) (0xff / 2 ^ (fbi % 8)) in
    let b1 = get_or msg (fby + 1) 0 in
    let b2 = get_or msg (fby + 2) 0 in
    let b3 = get_or msg (fby + 3) 0 in
    let b4 = get_or msg (fby + 4) 0 in
    if nby == 5
    then bit_or
        (bit_or
          (bit_or (bit_or (top * 2 ^ (32 - shift)) (b1 * 2 ^ (24 - shift))) (b2 * 2 ^ (16 - shift)))
          (b3 * 2 ^ (8 - shift)))
        (b4 / 2 ^ shift)
    else if nby == 4
    then bit_or
        (bit_or (bit_or (top * 2 ^ (24 - shift)) (b1 * 2 ^ (16 - shift))) (b2 * 2 ^ (8 - shift)))
        (b3 / 2 ^ shift)
    else if nby == 3
    then bit_or (bit_or (top * 2 ^ (16 - shift)) (b1 * 2 ^ (8 - shift))) (b2 / 2 ^ shift)
    else if nby == 2
    then bit_or (top * 2 ^ (8 - shift)) (b1 / 2 ^ shift)
    else if nby == 1
    then top / 2 ^ shift
    else 0

-- `modesMessageLenByType`
unfoldable pub modes_message_len_by_type : ℕ → ℕ
modes_message_len_by_type type = if bit_and type 0x10 == 0 then 56 else 112

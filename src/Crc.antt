-- ===== src/Crc.antt =====
-- crc.c: the Mode S parity check. `initLookupTables`, `modesChecksum` and `modesChecksumFix`.
-- The two static arrays are functions of their index. Where C asserts or reads past the message,
-- the result is `none`.
pub mod Linear
pub mod Shift
pub mod Division
pub mod Syndrome
pub mod Table
mod Tests
use hpr_readsb.Base.{ℕ, zero, suc, ◌+◌, ◌-◌, ◌*◌, ◌/◌, ◌%◌, ◌^◌, bit_xor}
use hpr_readsb.Base.{Option, none, some, List, [], ◌∷◌, ◌&&◌, ◌==◌, leb, if◌then◌else◌}
use hpr_readsb.Base.{length, get_or, set, replicate}

-- `MODES_GENERATOR_POLY`: the generator without its leading term.
abbrev pub generator_poly : ℕ
generator_poly = 0xfff409

abbrev pub short_msg_bits : ℕ
short_msg_bits = 56

abbrev pub long_msg_bits : ℕ
long_msg_bits = 112

-- One pass of the inner loop of `initLookupTables`, on a `uint32_t`.
unfoldable pub crc_shift : ℕ → ℕ
crc_shift c =
    if c / 2 ^ 23 % 2 == 1 then bit_xor (c * 2 % 2 ^ 32) generator_poly else c * 2 % 2 ^ 32

-- The inner loop, with `j` rounds left.
unfoldable pub crc_rounds : ℕ → ℕ → ℕ
crc_rounds zero c = c
crc_rounds (suc j) c = crc_rounds j (crc_shift c)

-- `crc_table[i]`.
unfoldable pub crc_table : ℕ → ℕ
crc_table i = crc_rounds 8 (i * 2 ^ 16) % 2 ^ 24

-- One pass of the loop of `modesChecksum`.
unfoldable pub crc_byte : ℕ → ℕ → ℕ
crc_byte rem m =
    bit_xor (rem * 2 ^ 8 % 2 ^ 32) (crc_table (bit_xor m (rem / 2 ^ 16 % 2 ^ 8))) % 2 ^ 24

-- The loop, with `k` passes left, at the bytes from `message[i]` on.
unfoldable pub crc_loop : ℕ → ℕ → List ℕ → ℕ
crc_loop zero rem message = rem
crc_loop (suc k) rem [] = rem
crc_loop (suc k) rem (m ∷ message) = crc_loop k (crc_byte rem m) message

-- The value that `modesChecksum` returns for `n` bytes, once its assertions hold.
unfoldable pub checksum : ℕ → List ℕ → ℕ
checksum n message =
    bit_xor
      (bit_xor (bit_xor (crc_loop (n - 3) 0 message) (get_or message (n - 3) 0 * 2 ^ 16))
        (get_or message (n - 2) 0 * 2 ^ 8))
      (get_or message (n - 1) 0)

-- `modesChecksum`. `none` is a failed assertion or a read past the end of the message.
unfoldable pub modes_checksum : List ℕ → ℕ → Option ℕ
modes_checksum message bits =
    if bits % 8 == 0 && (leb 3 (bits / 8) && leb (bits / 8) (length message))
    then some (checksum (bits / 8) message)
    else none

-- `msg[i >> 3] ^= 1 << (7 - (i & 7))`.
pub flip_bit : List ℕ → ℕ → List ℕ
flip_bit msg i = set msg (i / 8) (bit_xor (get_or msg (i / 8) 0) (2 ^ (7 - i % 8)))

-- `single_bit_syndrome[i]`: the checksum of a long message with bit `i` alone.
pub single_bit_syndrome : ℕ → ℕ
single_bit_syndrome i = checksum 14 (flip_bit (replicate 14 0) i)

-- ===== src/AirwireWs/Frame.antt =====
-- hpr_airwire_ws.c: `ws_send` up to the system call, and the frame at the start of the received
-- bytes as `client_read` takes it apart.
use hpr_readsb.Base.{ℕ, zero, suc, ◌+◌, ◌*◌, ◌/◌, ◌%◌, ◌^◌, bit_and, bit_or, bit_xor}
use hpr_readsb.Base.{Bool, not, ◌||◌, List, [], ◌∷◌, ◌++◌}
use hpr_readsb.Base.{◌==◌, ltb, leb, if◌then◌else◌, length, get_or, take, drop}

-- The length of the payload, in the last `n` of eight bytes.
unfoldable pub put_u64be : ℕ → ℕ → List ℕ
put_u64be len zero = []
put_u64be len (suc i) = (len / 2 ^ (i * 8) % 256) ∷ put_u64be len i

-- The header that `ws_send` writes.
unfoldable pub ws_header : ℕ → ℕ → List ℕ
ws_header opcode len =
    let first = bit_or 0x80 opcode % 256 in
    if ltb len 126
    then first ∷ len ∷ []
    else if leb len 0xffff
    then first ∷ 126 ∷ (len / 256 % 256) ∷ (len % 256) ∷ []
    else first ∷ 127 ∷ put_u64be len 8

-- The frame that `ws_send` sends.
pub ws_frame : ℕ → List ℕ → List ℕ
ws_frame opcode payload = ws_header opcode (length payload) ++ payload

-- `HPR_WS_RX_MAX`
abbrev pub rx_max : ℕ
rx_max = 512

-- What the loop of `client_read` does with the received bytes: `break`, `return -1`, or a frame
-- with its opcode, its unmasked payload and its length.
pub data Read : Type 0 where
  incomplete refused : Read
  frame : (opcode : ℕ) (msg : List ℕ) (consumed : ℕ) → Read

-- `p[off + i] ^ mask[i & 3]` for the bytes from `i` on.
unfoldable pub unmask : List ℕ → ℕ → List ℕ → List ℕ
unmask mask i [] = []
unmask mask i (b ∷ bytes) = bit_xor b (get_or mask (bit_and i 3) 0) ∷ unmask mask (suc i) bytes

-- A frame with `len` bytes of payload whose mask is at `off`.
unfoldable pub read_payload : List ℕ → Bool → ℕ → ℕ → ℕ → Read
read_payload p masked opcode len off =
    if not masked || ltb 256 len
    then refused
    else if ltb (length p) (off + 4 + len)
    then incomplete
    else frame opcode (unmask (take 4 (drop off p)) 0 (take len (drop (off + 4) p))) (off + 4 + len)

-- The loop of `client_read` up to the opcodes.
unfoldable pub read_frame : List ℕ → Read
read_frame p =
    let opcode = bit_and (get_or p 0 0) 0x0f in
    let masked = not (bit_and (get_or p 1 0) 0x80 == 0) in
    let len = bit_and (get_or p 1 0) 0x7f in
    if ltb (length p) 2
    then incomplete
    else if bit_and (get_or p 0 0) 0x80 == 0
    then refused
    else if len == 126
    then if ltb (length p) 4
      then incomplete
      else read_payload p masked opcode (get_or p 2 0 * 256 + get_or p 3 0) 4
    else if len == 127
    then refused
    else read_payload p masked opcode len 2

-- ===== src/AirwireWs/Reader.antt =====
-- hpr_airwire_ws.c: `parse_bbox` and `client_read`.
use hpr_readsb.Base.{ℕ, zero, suc, ◌-◌, Bool, not, ◌&&◌, ◌||◌}
use hpr_readsb.Base.{Option, none, some, List, [], ◌∷◌, ◌++◌}
use hpr_readsb.Base.{◌==◌, if◌then◌else◌, length, take, drop}
use hpr_readsb.Base.Doubles.{Doubles}
use hpr_readsb.Base.Int.{pos, negsuc}
use hpr_readsb.AirwireWs.Frame.{ws_frame, rx_max, incomplete, refused, frame, read_frame}
use hpr_readsb.AirwireWs.Client.{Bbox, Client, Entry, send_snapshot}

-- How a series of `recv` ends: `EAGAIN`, or the end of the stream or another error.
pub data End : Type 0 where
  would_block closed : End

-- The first loop of `client_read`, for the chunks that `recv` returns, none larger than the space;
-- an empty one is its result 0.
unfoldable pub receive : List (List ℕ) → End → List ℕ → Option (List ℕ)
receive [] end rx =
    if length rx == rx_max then none else elim end [ would_block ↦ some rx | closed ↦ none ]
receive ([] ∷ chunks) end rx = none
receive ((byte ∷ bytes) ∷ chunks) end rx =
    let rest = receive chunks end (rx ++ take (rx_max - length rx) (byte ∷ bytes)) in
    if length rx == rx_max then none else rest

module _ (d : Doubles) where
  -- What `sscanf` returns for a text: the number of fields, and s, n, w and e.
  pub record Fields : Type 0 where
    pub count : ℕ
    pub s : d.Double
    pub n : d.Double
    pub w : d.Double
    pub e : d.Double

  -- The system: `sscanf`, and whether `send` takes a whole frame after those that were sent.
  pub record System : Type 0 where
    pub scan_box : List ℕ → Fields
    pub sends : List (List ℕ) → List ℕ → Bool

  -- The range check of `parse_bbox`.
  unfoldable pub is_bad_box : Fields → Bool
  is_bad_box f =
      let int = d.of_int in
      d.less f.s (int (negsuc 89))
      || d.less (int (pos 90)) f.s
      || d.less f.n (int (negsuc 89))
      || d.less (int (pos 90)) f.n
      || d.less f.n f.s
      || d.less f.w (int (negsuc 179))
      || d.less (int (pos 180)) f.w
      || d.less f.e (int (negsuc 179))
      || d.less (int (pos 180)) f.e

  -- A client with the frames that were sent to it.
  pub record Connection : Type 0 where
    pub client : Client d
    pub sent : List (List ℕ)

  -- How the second loop ends: `out_of_fuel` belongs to the model only.
  pub data Outcome : Type 0 where
    done : Connection → Outcome
    failed out_of_fuel : Outcome

  module _ (system : System) where
    -- `ws_send`, given the frame.
    unfoldable pub ws_send : Connection → List ℕ → Option Connection
    ws_send k bytes =
        if system.sends k.sent bytes
        then some (record k { sent = k.sent ++ (bytes ∷ []) })
        else none

    -- `parse_bbox`
    unfoldable pub parse_bbox : List (Entry d) → Connection → List ℕ → Option Connection
    parse_bbox cache k text =
        let f = system.scan_box text in
        let box : Bbox d = record { south = f.s; north = f.n; west = f.w; east = f.e } in
        let (client, bytes) = send_snapshot d cache (record k.client { bbox = some box }) in
        if not (f.count == 4) && not (f.count == 5)
        then none
        else if is_bad_box f
        then none
        else ws_send (record k { client = client }) bytes

    -- What `client_read` does with the message of a frame.
    unfoldable pub answer : List (Entry d) → Connection → ℕ → List ℕ → Option Connection
    answer cache k opcode msg =
        if opcode == 8
        then none
        else if opcode == 9
        then ws_send k (ws_frame 0xa msg)
        else if opcode == 1
        then parse_bbox cache k msg
        else some k

    -- `memmove`
    unfoldable pub consume : Connection → ℕ → Connection
    consume k n = record k { client = record (k.client) { rx = drop n k.client.rx } }

    -- The second loop of `client_read`.
    unfoldable pub read_frames : List (Entry d) → ℕ → Connection → Outcome
    read_frames cache zero k = out_of_fuel
    read_frames cache (suc fuel) k = elim (read_frame k.client.rx) [
      | incomplete ↦ done k
      | refused ↦ failed
      | frame opcode msg n ↦ elim (answer cache k opcode msg) [
        | none ↦ failed
        | some answered ↦ read_frames cache fuel (consume answered n)
      ]
    ]

    -- `client_read`
    unfoldable pub client_read : List (Entry d) → List (List ℕ) → End → Connection → Outcome
    client_read cache chunks end k = elim (receive chunks end k.client.rx) [
      | none ↦ failed
      | some rx ↦
          read_frames cache (suc (length rx)) (record k { client = record (k.client) { rx = rx } })
    ]

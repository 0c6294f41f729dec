-- ===== src/ModeS/Kept.antt =====
-- mode_s.c: the address of an extended squitter.
use hpr_readsb.Base.{ℕ, ◌≡◌, refl, ◌∙◌, inl, inr, Bool-cases, arith}
use hpr_readsb.Base.{Bool, true, false, ◌&&◌, ◌||◌, ◌==◌, ltb, leb, if◌then◌else◌}
use hpr_readsb.Base.Doubles.{Doubles}
use hpr_readsb.ModeAc.{AcTables}
use hpr_readsb.ModeS.Bits.{getbits}
use hpr_readsb.ModeS.Fields.{Altitude}
use hpr_readsb.ModeS.Message.{Message}
use hpr_readsb.ModeS.Payload.{decode_es_ident_and_category}
use hpr_readsb.ModeS.Velocity.{decode_es_airborne_velocity}
use hpr_readsb.ModeS.Positions.{
  decode_es_surface_position, decode_es_airborne_position, decode_es_test_message,
  decode_es_aircraft_status, surveillance_status, put_altitude,
}
use hpr_readsb.ModeS.Decode.Body.{set_squawk_from_id13}
use hpr_readsb.ModeS.Status.{Status, decode_es_target_status}
use hpr_readsb.ModeS.Status.Operational.{decode_es_operational_status}
use hpr_readsb.ModeS.Squitter.{Stored, es_payload, es_format, decode_extended_squitter}

if_addr :
    (b : Bool) (m n : Message) (a : ℕ) → m.addr ≡ a → n.addr ≡ a → (if b then m else n).addr ≡ a
if_addr true m n a h k = h
if_addr false m n a h k = k

status-addr : (s : ℕ) (m : Message) → (surveillance_status s m).addr ≡ m.addr
unfolding surveillance_status
status-addr s m = if_addr (s == 0) _ _ m.addr refl (if_addr (s == 3) _ _ m.addr refl refl)

altitude-addr : (a : Altitude) (b : Bool) (m : Message) → (put_altitude a b m).addr ≡ m.addr
unfolding put_altitude
altitude-addr a true m = refl
altitude-addr a false m = refl

-- The decoders, where no IMF bit is looked for.
airborne-addr :
    (tables : AcTables) (m : Message) → (decode_es_airborne_position tables m false).0.addr ≡ m.addr
unfolding decode_es_airborne_position
airborne-addr tables m =
    let status = surveillance_status (getbits m.me 6 7) m in
    if_addr _ (put_altitude _ _ status) status m.addr (altitude-addr _ _ status ∙ status-addr _ m)
      (status-addr _ m)

test-addr : (m : Message) → (decode_es_test_message m).addr ≡ m.addr
unfolding decode_es_test_message set_squawk_from_id13
test-addr m = if_addr _ _ _ m.addr refl refl

module _ (d : Doubles) (pi : d.Double) where
  if_pair :
      (b : Bool) (x y : Message × Stored d pi) (a : ℕ)
      → x.0.addr ≡ a
      → y.0.addr ≡ a
      → (if b then x else y).0.addr ≡ a
  if_pair true x y a h k = h
  if_pair false x y a h k = k

  velocity-addr : (m : Message) → (decode_es_airborne_velocity d pi m false).0.addr ≡ m.addr
  unfolding decode_es_airborne_velocity
  velocity-addr m = elim (Bool-cases (ltb (getbits m.me 6 8) 1 || ltb 4 (getbits m.me 6 8))) [
    | inl e ↦ rw e
    | inr e ↦ rw e
  ]

  surface-addr : (m : Message) → (decode_es_surface_position d pi m false).0.addr ≡ m.addr
  unfolding decode_es_surface_position
  surface-addr m = refl

  emergency-addr : (m : Message) → (decode_es_aircraft_status m false).0.addr ≡ m.addr
  unfolding decode_es_aircraft_status set_squawk_from_id13
  emergency-addr m = elim (Bool-cases (getbits m.me 6 8 == 1)) [
    | inl e ↦ elim (Bool-cases (getbits m.me 12 24 == 0)) [ inl z ↦ rw (e, z) | inr z ↦ rw (e, z) ]
    | inr e ↦ elim (Bool-cases (getbits m.me 6 8 == 2)) [ inl z ↦ rw (e, z) | inr z ↦ rw (e, z) ]
  ]

  module _ (tables : AcTables) (before : Status d pi) where
    payload-addr : (m : Message) → (es_payload d pi tables before m false).0.addr ≡ m.addr
    unfolding es_payload decode_es_ident_and_category decode_es_target_status
        decode_es_operational_status
    payload-addr m = elim (Bool-cases (leb 1 m.metype && leb m.metype 4)) [
      | inl a ↦ rw a
      | inr a ↦ elim (Bool-cases (m.metype == 19)) [
        | inl b ↦ rw (a, b) (velocity-addr m)
        | inr b ↦ elim (Bool-cases (leb 5 m.metype && leb m.metype 8)) [
          | inl c ↦ rw (a, b, c) (surface-addr m)
          | inr c ↦
              elim (Bool-cases (
                m.metype == 0
                || (leb 9 m.metype && leb m.metype 18)
                || (leb 20 m.metype && leb m.metype 22))) [
                  | inl e ↦ rw (a, b, c, e) (airborne-addr tables m)
                  | inr e ↦ elim (Bool-cases (m.metype == 23)) [
                    | inl f ↦ rw (a, b, c, e, f) (test-addr m)
                    | inr f ↦ elim (Bool-cases (m.metype == 28)) [
                      | inl g ↦ rw (a, b, c, e, f, g) (emergency-addr m)
                      | inr g ↦ elim (Bool-cases (m.metype == 29)) [
                        | inl h ↦ rw (a, b, c, e, f, g, h)
                        | inr h ↦ elim (Bool-cases (m.metype == 31)) [
                          | inl i ↦ rw (a, b, c, e, f, g, h, i)
                          | inr i ↦ rw (a, b, c, e, f, g, h, i)
                        ]
                      ]
                    ]
                  ]
                ]
        ]
      ]
    ]

    -- decodeExtendedSquitter leaves the address of a message of DF 17 as it is, whatever its type
    -- and its payload are.
    pub decode_extended_squitter-addr :
        (m : Message)
        → m.msgtype ≡ 17
        → (decode_extended_squitter d pi tables before m).0.addr ≡ m.addr
    unfolding decode_extended_squitter es_format
    decode_extended_squitter-addr m df =
        let not_18 : (m.msgtype == 18) ≡ false = ground arith in
        let typed = record m { metype = getbits m.me 1 5 } in rw not_18 (payload-addr typed)

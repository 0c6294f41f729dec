-- ===== src/Airwire/Identities.antt =====
-- Reading the frame of an identity back, by the offsets of hpr/airwire/AIRWIRE-BINARY-V1.md.
use hpr_readsb.Base.{ℕ, zero, suc, ◌+◌, ◌-◌, ◌/◌, ◌%◌, ◌^◌, ◌<◌, arith, refl, ◌≡◌, ap, subst}
use hpr_readsb.Base.{Bool, true, ◌&&◌, ◌||◌, some, some-injective, List, [], ◌∷◌, ◌++◌, Bool-cases}
use hpr_readsb.Base.{◌==◌, leb, if◌then◌else◌, get_or, length, inl, inr, length-append}
use hpr_readsb.Airwire.{put_u16le, put_u24le, valid_icao, Identity, put_callsign}
use hpr_readsb.Airwire.{hpr_airwire_encode_identity}
use hpr_readsb.Airwire.Frames.{byte, read_u16, read_u24, u16_bytes, u24_bytes, valid_icao-lt}

pub length-put_callsign : (n : ℕ) (callsign : List ℕ) → length (put_callsign n callsign) ≡ n
unfolding put_callsign
length-put_callsign zero callsign = refl
length-put_callsign (suc n) [] = ap suc (length-put_callsign n [])
length-put_callsign (suc n) (ch ∷ callsign) = elim (Bool-cases (ch == 0)) [
  | inl end ↦ rw (end, put_callsign) (ap suc (length-put_callsign n []))
  | inr more ↦ rw (more, put_callsign) (ap suc (length-put_callsign n callsign))
]

-- Is it an empty place or a printable character?
abbrev pub shown : ℕ → Bool
shown c = c == 0 || (leb 0x20 c && leb c 0x7e)

shown_char : (ch : ℕ) → shown (if leb 0x20 ch && leb ch 0x7e then ch else 0x3f) ≡ true
shown_char ch = ground arith

put_callsign-shown :
    (n : ℕ) (callsign : List ℕ) (i : ℕ) → shown (get_or (put_callsign n callsign) i 0) ≡ true
unfolding put_callsign
put_callsign-shown zero callsign i = refl
put_callsign-shown (suc n) [] zero = refl
put_callsign-shown (suc n) [] (suc i) = put_callsign-shown n [] i
put_callsign-shown (suc n) (ch ∷ callsign) zero = elim (Bool-cases (ch == 0)) [
  | inl end ↦ rw (end, put_callsign) refl
  | inr more ↦ rw (more, put_callsign) (shown_char ch)
]
put_callsign-shown (suc n) (ch ∷ callsign) (suc i) = elim (Bool-cases (ch == 0)) [
  | inl end ↦ rw (end, put_callsign) (put_callsign-shown n [] i)
  | inr more ↦ rw (more, put_callsign) (put_callsign-shown n callsign i)
]

behind :
    (xs ys : List ℕ) (k j n : ℕ) → length xs ≡ k → n ≡ k + j → get_or (xs ++ ys) n 0 ≡ get_or ys j 0
behind [] ys k j n e q = ap (λ t. get_or ys t 0) (omega arith)
behind (x ∷ xs) ys k j zero e q = absurd (omega arith)
behind (x ∷ xs) ys k j (suc n) e q = behind xs ys (k - 1) j n (omega arith) (omega arith)

inside : (xs ys : List ℕ) (i : ℕ) → i < length xs → get_or (xs ++ ys) i 0 ≡ get_or xs i 0
inside [] ys i h = absurd (omega arith)
inside (x ∷ xs) ys zero h = refl
inside (x ∷ xs) ys (suc i) h = inside xs ys i (omega arith)

-- The frame of an identity, field by field.
pub record IsIdentityFrame (p : Identity) (frame : List ℕ) : Type 0 where
  pub size : length frame ≡ 15
  pub type : byte frame 0 ≡ 0x06
  pub icao : read_u24 frame 1 ≡ p.icao
  pub callsign : (i : ℕ) → i < 8 → shown (get_or frame (suc (suc (suc (suc i)))) 0) ≡ true
  pub category : byte frame 12 ≡ p.category
  pub squawk : read_u16 frame 13 ≡ p.squawk

-- If hpr_airwire_encode_identity accepts an identity with a squawk of 16 bits, its frame has 15
-- bytes and type 0x06, reading it at the offsets of AIRWIRE-BINARY-V1.md gives the address, the
-- category and the squawk, and each of the eight bytes of the callsign is 0 or a printable
-- character.
pub hpr_airwire_encode_identity-IsIdentityFrame :
    (p : Identity) (frame : List ℕ)
    → p.squawk < 65536
    → hpr_airwire_encode_identity p ≡ some frame
    → IsIdentityFrame p frame
unfolding hpr_airwire_encode_identity put_u24le put_u16le
hpr_airwire_encode_identity-IsIdentityFrame p frame small h =
    elim (Bool-cases (valid_icao p.icao)) [
      | inr bad ↦ absurd (cc (rw (bad, hpr_airwire_encode_identity) at h))
      | inl good ↦
          let q = some-injective _ _ (rw (good, hpr_airwire_encode_identity) at h) in
          let name = put_callsign 8 p.callsign in
          let eight = length-put_callsign 8 p.callsign in
          let rest = p.category ∷ p.squawk % 2 ^ 8 ∷ p.squawk / 2 ^ 8 % 2 ^ 8 ∷ [] in
          subst (IsIdentityFrame p) q (record {
            size = let total = length-append name rest in omega arith;
            type = refl;
            icao = u24_bytes p.icao (valid_icao-lt p.icao good);
            callsign =
                λ i hi. rw (inside name rest i (omega arith)) (put_callsign-shown 8 p.callsign i);
            category = behind name rest 8 0 8 eight refl;
            squawk =
                rw (behind name rest 8 1 9 eight refl, behind name rest 8 2 10 eight refl)
                  (u16_bytes p.squawk small);
          })
    ]

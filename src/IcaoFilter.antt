-- ===== src/IcaoFilter.antt =====
-- icao_filter.c: the set of recently seen addresses, in two open-addressed tables that are cleared
-- in turn; and `addrHash` of aircraft.h. A table is the list of its slots. A resize within a
-- resize is a recursion on fuel.
pub mod Search
pub mod Chains
pub mod Insert
pub mod Grow
pub mod Resize
pub mod Laws
pub mod Expiry
mod Tests
use mathlib.Core.Option
use hpr_readsb.Base.{ℕ, zero, suc, ◌+◌, ◌-◌, ◌*◌, ◌/◌, ◌%◌, ◌^◌, bit_xor}
use hpr_readsb.Base.{Bool, true, false, Option, none, some, List, [], ◌∷◌, ◌&&◌, ◌||◌, not}
use hpr_readsb.Base.{◌==◌, ltb, if◌then◌else◌, get_or, set, replicate}

-- `mix_fasthash`, on a `uint64_t`.
unfoldable pub mix_fasthash : ℕ → ℕ
mix_fasthash h =
    let h1 = bit_xor h (h / 2 ^ 23) in
    let h2 = h1 * 0x2127599bf4325c37 % 2 ^ 64 in bit_xor h2 (h2 / 2 ^ 47)

abbrev hash_multiplier : ℕ
hash_multiplier = 0x880355f21e6d1965

abbrev hash_seed : ℕ
hash_seed = 0x30732349f7810465

-- `addrHash`
unfoldable pub addr_hash : ℕ → ℕ → ℕ
addr_hash addr bits =
    let h = bit_xor hash_seed (4 * hash_multiplier % 2 ^ 64) in
    let h1 = bit_xor h (mix_fasthash addr) in
    let h2 = mix_fasthash (h1 * hash_multiplier % 2 ^ 64) in
    let res = bit_xor h2 (h2 / 2 ^ 32) in
    let res1 = if ltb bits 16 then bit_xor res (res / 2 ^ 16) else res in
    bit_xor res1 (res1 / 2 ^ bits) % 2 ^ bits

-- `EMPTY`
abbrev pub empty : ℕ
empty = 0xffffffff

-- `MINBITS`, and the 20 of `icaoFilterAdd`
abbrev pub min_bits : ℕ
min_bits = 8

abbrev pub max_bits : ℕ
max_bits = 20

-- The static variables; `icao_filter_active` is one of the two tables.
pub record Filter : Type 0 where
  pub bits : ℕ
  pub buckets : ℕ
  pub a : List ℕ
  pub b : List ℕ
  pub a_active : Bool
  pub occupied : ℕ

abbrev pub active : Filter → List ℕ
active f = if f.a_active then f.a else f.b

-- Two cleared tables of `2 ^ bits` slots, the first of them active.
pub cleared : ℕ → Filter
cleared bits = record {
  bits = bits;
  buckets = 2 ^ bits;
  a = replicate (2 ^ bits) empty;
  b = replicate (2 ^ bits) empty;
  a_active = true;
  occupied = 0;
}

-- `icaoFilterInit`
pub init : Filter
init = cleared min_bits

-- How a probe ends: at a slot that is empty or holds the address, or back where it began.
pub data ProbeEnd : Type 0 where
  stopped : ℕ → ProbeEnd
  wrapped out_of_fuel : ProbeEnd

-- The loop of `icaoFilterAdd` and `icaoFilterTest` at slot `h`. It visits each slot at most once,
-- so that as much fuel as there are slots is enough.
unfoldable pub probe : List ℕ → ℕ → ℕ → ℕ → ℕ → ℕ → ProbeEnd
probe t addr buckets h0 zero h = out_of_fuel
probe t addr buckets h0 (suc fuel) h = elim (get_or t h 0 == empty || get_or t h 0 == addr) [
  | true ↦ stopped h
  | false ↦
      let next = (h + 1) % buckets in
      elim (next == h0) [ true ↦ wrapped | false ↦ probe t addr buckets h0 fuel next ]
]

-- The half of `icaoFilterTest` for one table; the loop leaves `h` at `h0` where it wraps.
unfoldable pub test_table : List ℕ → ℕ → ℕ → ℕ → Bool
test_table t addr buckets h0 = elim (probe t addr buckets h0 buckets h0) [
  | stopped h ↦ get_or t h 0 == addr
  | wrapped ↦ get_or t h0 0 == addr
  | out_of_fuel ↦ false
]

-- `icaoFilterTest`
unfoldable pub icao_filter_test : Filter → ℕ → Bool
icao_filter_test f addr =
    let h0 = addr_hash addr f.bits in
    test_table f.a addr f.buckets h0 || test_table f.b addr f.buckets h0

-- `icao_filter_active[h] = addr`
pub store : Filter → ℕ → ℕ → Filter
store f h addr =
    if f.a_active
    then record f { a = set f.a h addr; occupied = f.occupied + 1 }
    else record f { b = set f.b h addr; occupied = f.occupied + 1 }

-- What `icaoFilterAdd` does with the slot at which its probe stopped.
pub occupy : Filter → ℕ → ℕ → Filter
occupy f h addr = if get_or (active f) h 0 == empty then store f h addr else f

-- The loop of `icaoFilterResize` over the old table, given `icaoFilterAdd`.
pub add_all : (Filter → ℕ → Option Filter) → List ℕ → Filter → Option Filter
add_all add [] f = some f
add_all add (x ∷ old) f = elim (x == empty) [
  | true ↦ add_all add old f
  | false ↦ elim (add f x) [ none ↦ none | some g ↦ add_all add old g ]
]

-- `icaoFilterAdd`, with fuel for the resizes within resizes; the resize makes two cleared tables
-- and adds the old active table to the first.
pub add_fuel : ℕ → Filter → ℕ → Option Filter
add_fuel zero f addr = none
add_fuel (suc fuel) f addr =
    let h0 = addr_hash addr f.bits in
    elim (probe (active f) addr f.buckets h0 f.buckets h0) [
      | wrapped ↦ some f
      | out_of_fuel ↦ none
      | stopped h ↦
          let g = occupy f h addr in
          let grown = add_all (add_fuel fuel) (active g) (cleared (g.bits + 1)) in
          if ltb (g.buckets / 3) g.occupied && ltb g.bits max_bits then grown else some g
    ]

abbrev pub resize_fuel : ℕ
resize_fuel = 20

-- `icaoFilterAdd`
pub icao_filter_add : Filter → ℕ → Option Filter
icao_filter_add = add_fuel resize_fuel

-- `icaoFilterResize`
pub resize : Filter → ℕ → Option Filter
resize f bits = add_all icao_filter_add (active f) (cleared bits)

-- The second half of `icaoFilterExpire`: the other table is cleared and becomes the active one.
pub switch_tables : Filter → Filter
switch_tables f =
    if f.a_active
    then record f { b = replicate f.buckets empty; a_active = false; occupied = 0 }
    else record f { a = replicate f.buckets empty; a_active = true; occupied = 0 }

-- `icaoFilterExpire`
pub icao_filter_expire : Filter → Option Filter
icao_filter_expire f =
    if ltb f.occupied (f.buckets / 9) && ltb min_bits f.bits
    then Option.map switch_tables (resize f (f.bits - 1))
    else some (switch_tables f)

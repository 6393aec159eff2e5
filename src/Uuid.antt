-- ===== src/Uuid.antt =====
-- internal/uuid/uuid.go: the 128-bit ids and their generator. The 16 bytes are two big-endian words of
-- 64 bits, so an id is the two words. The clock is the list of the readings that `time.Now().UnixMicro()`
-- will give.
pub mod Fields
pub mod Increasing
pub mod Returning
pub mod Text
mod Tests
use Prim.Native.Nat.{bit_and, bit_or}
use go_mud.Prelude.{
  ℕ, zero, suc, ◌+◌, ◌-◌, ◌*◌, ◌/◌, ◌%◌, ◌^◌, Bool, true, false, ◌&&◌, Option, none, some, List, [],
  ◌∷◌, ltb, leb, ◌==◌, if◌then◌else◌,
}

pub record Uuid : Type 0 where
  pub high : ℕ
  pub low : ℕ

pub record UuidGenerator : Type 0 where
  pub last_timestamp : ℕ
  pub sequence : ℕ

abbrev pub custom_epoch : ℕ
custom_epoch = 1735689600000000

abbrev pub current_version : ℕ
current_version = 1

abbrev pub nil_uuid : Uuid
nil_uuid = record { high = 0; low = 0 }

-- `a << k` of a uint64.
unfoldable pub shift_left : ℕ → ℕ → ℕ
shift_left a k = a * 2 ^ k % 2 ^ 64

unfoldable pub timestamp : Uuid → ℕ
timestamp u = u.high / 2 ^ 16

unfoldable pub sequence_of : Uuid → ℕ
sequence_of u = bit_and (u.high / 2 ^ 8) 255 % 256

unfoldable pub version : Uuid → ℕ
version u = bit_and (u.high / 2 ^ 4) 15 % 256

unfoldable pub id_type_of : Uuid → ℕ
id_type_of u =
    let type_high = bit_and u.high 15 in
    let type_low = bit_and (u.low / 2 ^ 56) 15 in bit_or (shift_left type_high 4) type_low % 256

unfoldable pub unused : Uuid → ℕ
unused u = bit_and u.low (2 ^ 56 - 1)

unfoldable pub is_nil : Uuid → Bool
is_nil u = u.high == 0 && u.low == 0

-- The upper word.
unfoldable pub high_of : ℕ → ℕ → ℕ → ℕ → ℕ
high_of now seq ver id_type =
    let type_high = bit_and (id_type / 2 ^ 4) 15 in
    bit_or (bit_or (bit_or (shift_left now 16) (shift_left seq 8)) (shift_left ver 4)) type_high

unfoldable pub low_of : ℕ → ℕ
low_of id_type = let type_low = bit_and id_type 15 in shift_left type_low 56

-- `uint64(time.Now().UnixMicro()) - customEpoch`
unfoldable pub since_epoch : ℕ → ℕ
since_epoch micros = (micros + 2 ^ 64 - custom_epoch) % 2 ^ 64

-- Reading the clock until it is past `last`: the time, and the readings that are left. `none` is still
-- waiting.
unfoldable pub wait_past : ℕ → List ℕ → Option (ℕ × List ℕ)
wait_past last [] = none
wait_past last (r ∷ rs) =
    let rest = wait_past last rs in
    if ltb last (since_epoch r) then some (since_epoch r, rs) else rest

-- The time and the sequence number of the next id.
unfoldable pub next_stamp : UuidGenerator → List ℕ → Option (UuidGenerator × List ℕ)
next_stamp g [] = none
next_stamp g (r ∷ rs) =
    let now = since_epoch r in
    if now == g.last_timestamp
    then if leb 256 (g.sequence + 1)
      then elim (wait_past g.last_timestamp rs) [
        | none ↦ none
        | some (later, left) ↦ some (record { last_timestamp = later; sequence = 0 }, left)
      ]
      else some (record g { sequence = g.sequence + 1 }, rs)
    else some (record { last_timestamp = now; sequence = 0 }, rs)

unfoldable pub uuid_of : UuidGenerator → ℕ → Uuid
uuid_of g id_type = record {
  high = high_of g.last_timestamp g.sequence current_version id_type;
  low = low_of id_type;
}

-- The id, the generator after it, and the readings that are left.
unfoldable pub new_uuid : ℕ → UuidGenerator → List ℕ → Option (Uuid × UuidGenerator × List ℕ)
new_uuid id_type g readings = elim (next_stamp g readings) [
  | none ↦ none
  | some (g', left) ↦ some (uuid_of g' id_type, g', left)
]

-- A call of `New` for each type.
unfoldable pub new_uuids : List ℕ → UuidGenerator → List ℕ → Option (List Uuid)
new_uuids [] g readings = some []
new_uuids (id_type ∷ types) g readings = elim (new_uuid id_type g readings) [
  | none ↦ none
  | some (u, g', left) ↦ elim (new_uuids types g' left) [ none ↦ none | some us ↦ some (u ∷ us) ]
]

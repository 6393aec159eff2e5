-- ===== src/Uuid/Text.antt =====
-- internal/uuid/uuid_string.go: an id as text, and back. A text is its bytes. The words of an id are
-- below 2 ^ 64, so that each field fits the width it is printed with.
pub mod Reading
use go_mud.Prelude.{
  ℕ, zero, suc, ◌+◌, ◌-◌, ◌*◌, ◌/◌, ◌%◌, ◌^◌, Bool, true, false, ◌&&◌, ◌||◌, Option, none, some,
  List, [], ◌∷◌, ◌++◌, take, drop, length, ltb, leb, ◌==◌, not, if◌then◌else◌,
}
use go_mud.Prelude.Bytes.{split}
use Prim.Native.Nat.{bit_or}
use go_mud.Uuid.{
  Uuid, nil_uuid, is_nil, timestamp, sequence_of, id_type_of, unused, high_of, low_of,
}

pub data UuidError : Type 0 where
  invalid_length : UuidError
  invalid_version : UuidError
  invalid_format : UuidError
  invalid_number : UuidError

pub data Parsed : Type 0 where
  ok : Uuid → Parsed
  err : UuidError → Parsed

abbrev pub hex_digit : ℕ → ℕ
hex_digit d = if ltb d 10 then 48 + d else 87 + d

-- `%0kx` of a number that fits `k` digits, in front of `rest`.
pub hex : ℕ → ℕ → List ℕ → List ℕ
hex zero n rest = rest
hex (suc k) n rest = hex k (n / 16) (hex_digit (n % 16) ∷ rest)

pub to_string_v1 : Uuid → List ℕ
to_string_v1 u =
    b'1'
    ∷ b'-'
    ∷ hex 13 (timestamp u)
        (hex 2 (sequence_of u) (b'-' ∷ hex 2 (id_type_of u) (b'-' ∷ hex 14 (unused u) [])))

pub to_string : Uuid → List ℕ
to_string u = if is_nil u then b'0' ∷ [] else to_string_v1 u

abbrev pub digit_value : ℕ → Option ℕ
digit_value b =
    if leb 48 b && leb b 57
    then some (b - 48)
    else if leb 97 b && leb b 102
    then some (b - 87)
    else if leb 65 b && leb b 70
    then some (b - 55)
    else none

pub digits_value : ℕ → List ℕ → Option ℕ
digits_value acc [] = some acc
digits_value acc (b ∷ bs) = elim (digit_value b) [
  | none ↦ none
  | some d ↦ digits_value (acc * 16 + d) bs
]

-- `strconv.ParseUint(s, 16, bits)`
pub parse_uint : ℕ → List ℕ → Option ℕ
parse_uint bits [] = none
parse_uint bits (b ∷ bs) = elim (digits_value 0 (b ∷ bs)) [
  | none ↦ none
  | some n ↦ if ltb n (2 ^ bits) then some n else none
]

pub rebuild_id : Option ℕ → Option ℕ → Option ℕ → Option ℕ → Parsed
rebuild_id (some ts) (some seq) (some typ) (some un) =
    ok (record { high = high_of ts seq 1 typ; low = bit_or (low_of typ) un })
rebuild_id (some ts) (some seq) (some typ) none = err invalid_number
rebuild_id (some ts) (some seq) none un = err invalid_number
rebuild_id (some ts) none typ un = err invalid_number
rebuild_id none seq typ un = err invalid_number

pub of_parts : List (List ℕ) → Parsed
of_parts (v ∷ stamp ∷ kind ∷ rest ∷ []) =
    if length v == 1 && (length stamp == 15 && (length kind == 2 && length rest == 14))
    then rebuild_id (parse_uint 52 (take 13 stamp)) (parse_uint 8 (drop 13 stamp))
        (parse_uint 8 kind) (parse_uint 56 rest)
    else err invalid_format
of_parts parts = err invalid_format

pub from_string_v1 : List ℕ → Parsed
from_string_v1 s = if length s == 35 then of_parts (split s) else err invalid_length

pub from_string : List ℕ → Parsed
from_string [] = ok nil_uuid
from_string (b ∷ bs) = if b == b'0' then ok nil_uuid else elim (parse_uint 8 (b ∷ [])) [
  | none ↦ err invalid_version
  | some v ↦ if v == 1 then from_string_v1 (b ∷ bs) else err invalid_version
]

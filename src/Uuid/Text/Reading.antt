-- ===== src/Uuid/Text/Reading.antt =====
-- internal/uuid/uuid_string.go: the text of an id reads back.
use mathlib.Core.List.{append_assoc}
use go_mud.Prelude.{
  ℕ, zero, suc, ◌+◌, ◌*◌, ◌/◌, ◌%◌, ◌^◌, ◌<◌, ◌≡◌, ◌∙◌, refl, ap, sym, false, some, List, [], ◌∷◌,
  ◌++◌, length, length-append, take_prefix, drop_prefix, lt→ltb, arith,
}
use Prim.Native.Nat.{bit_or}
use go_mud.Prelude.Bytes.{split, NoDash, split-last, split-part}
use go_mud.Prelude.Predicates.{All, All-append}
use go_mud.Prelude.Bitwise.{and_four, and_byte, and_unused}
use go_mud.Uuid.{Uuid, is_nil, timestamp, sequence_of, id_type_of, version, unused, high_of, low_of}
use go_mud.Uuid.Fields.{type_words, high_sum, low_shift, or_aligned}
use go_mud.Uuid.Text.{
  ok, hex, hex_digit, to_string, to_string_v1, split, digit_value, digits_value, parse_uint,
  rebuild_id, of_parts, from_string, from_string_v1,
}

abbrev pow16 : ℕ → ℕ
pow16 zero = 1
pow16 (suc k) = 16 * pow16 k

digit_value-hex_digit : (d : ℕ) → d < 16 → digit_value (hex_digit d) ≡ some d
digit_value-hex_digit d h = ground arith

digits_value-hex :
    (k n : ℕ) (rest : List ℕ) → n < pow16 k → digits_value 0 (hex k n rest) ≡ digits_value n rest
unfolding hex digits_value
digits_value-hex zero n rest h = ap (λ (m : ℕ). digits_value m rest) (omega arith)
digits_value-hex (suc k) n rest h =
    digits_value-hex k (n / 16) (hex_digit (n % 16) ∷ rest) (omega arith)
    ∙ rw (digit_value-hex_digit (n % 16) (omega arith), digits_value)
        (ap (λ (m : ℕ). digits_value m rest) (omega arith))

hex-append : (k n : ℕ) (rest : List ℕ) → hex k n rest ≡ hex k n [] ++ rest
unfolding hex
hex-append zero n rest = refl
hex-append (suc k) n rest =
    hex-append k (n / 16) (hex_digit (n % 16) ∷ rest)
    ∙ sym (append_assoc (hex k (n / 16) []) (hex_digit (n % 16) ∷ []) rest)
    ∙ ap (λ (l : List ℕ). l ++ rest) (sym (hex-append k (n / 16) (hex_digit (n % 16) ∷ [])))

length-hex : (k n : ℕ) (rest : List ℕ) → length (hex k n rest) ≡ k + length rest
unfolding hex
length-hex zero n rest = omega arith
length-hex (suc k) n rest = omega (arith, length-hex k (n / 16) (hex_digit (n % 16) ∷ rest))

hex_digit-NoDash : (d : ℕ) → NoDash (hex_digit d)
hex_digit-NoDash d = ground arith

hex-NoDash : (k n : ℕ) (rest : List ℕ) → All NoDash rest → All NoDash (hex k n rest)
unfolding hex
hex-NoDash zero n rest h = h
hex-NoDash (suc k) n rest h =
    hex-NoDash k (n / 16) (hex_digit (n % 16) ∷ rest) (hex_digit-NoDash (n % 16), h)

parse_uint_lem :
    (bits n : ℕ) (l : List ℕ)
    → 0 < length l
    → digits_value 0 l ≡ some n
    → n < 2 ^ bits
    → parse_uint bits l ≡ some n
unfolding parse_uint
parse_uint_lem bits n [] h e f = absurd (omega arith)
parse_uint_lem bits n (b ∷ l) h e f = rw (e, parse_uint, lt→ltb n (2 ^ bits) f) refl

parse_uint-hex :
    (bits k n : ℕ) → n < pow16 (suc k) → n < 2 ^ bits → parse_uint bits (hex (suc k) n []) ≡ some n
unfolding digits_value
parse_uint-hex bits k n h f =
    parse_uint_lem bits n (hex (suc k) n []) (omega (arith, length-hex (suc k) n []))
      (digits_value-hex (suc k) n [] h) f

-- The parts between the dashes.
stamp_part : Uuid → List ℕ
stamp_part u = hex 13 (timestamp u) [] ++ hex 2 (sequence_of u) []

spelled :
    (u : Uuid)
    → to_string_v1 u
      ≡ b'1'
        ∷ b'-'
        ∷ (stamp_part u ++ b'-' ∷ (hex 2 (id_type_of u) [] ++ b'-' ∷ hex 14 (unused u) []))
unfolding to_string_v1 stamp_part
spelled u =
    ap (λ (l : List ℕ). b'1' ∷ b'-' ∷ l)
      (hex-append 13 (timestamp u)
          (hex 2 (sequence_of u) (b'-' ∷ hex 2 (id_type_of u) (b'-' ∷ hex 14 (unused u) [])))
        ∙ ap (λ (l : List ℕ). hex 13 (timestamp u) [] ++ l)
            (hex-append 2 (sequence_of u)
              (b'-' ∷ hex 2 (id_type_of u) (b'-' ∷ hex 14 (unused u) [])))
        ∙ sym (
            append_assoc (hex 13 (timestamp u) []) (hex 2 (sequence_of u) [])
              (b'-' ∷ hex 2 (id_type_of u) (b'-' ∷ hex 14 (unused u) [])))
        ∙ ap (λ (l : List ℕ). stamp_part u ++ b'-' ∷ l)
            (hex-append 2 (id_type_of u) (b'-' ∷ hex 14 (unused u) [])))

split-to_string_v1 :
    (u : Uuid)
    → split (to_string_v1 u)
      ≡ (b'1' ∷ []) ∷ stamp_part u ∷ hex 2 (id_type_of u) [] ∷ hex 14 (unused u) [] ∷ []
unfolding stamp_part
split-to_string_v1 u =
    ap split (spelled u)
    ∙ split-part (b'1' ∷ [])
        (stamp_part u ++ b'-' ∷ (hex 2 (id_type_of u) [] ++ b'-' ∷ hex 14 (unused u) [])) (refl, tt)
    ∙ ap (λ ps. (b'1' ∷ []) ∷ ps)
        (split-part (stamp_part u) (hex 2 (id_type_of u) [] ++ b'-' ∷ hex 14 (unused u) []) (
            All-append NoDash (hex 13 (timestamp u) []) (hex 2 (sequence_of u) [])
              (hex-NoDash 13 (timestamp u) [] tt) (hex-NoDash 2 (sequence_of u) [] tt))
          ∙ ap (λ ps. stamp_part u ∷ ps)
              (split-part (hex 2 (id_type_of u) []) (hex 14 (unused u) [])
                  (hex-NoDash 2 (id_type_of u) [] tt)
                ∙ ap (λ ps. hex 2 (id_type_of u) [] ∷ ps)
                    (split-last (hex 14 (unused u) []) (hex-NoDash 14 (unused u) [] tt))))

length-to_string_v1 : (u : Uuid) → length (to_string_v1 u) ≡ 35
unfolding to_string_v1
length-to_string_v1 u = omega (
  arith,
  length-hex 13 (timestamp u)
      (hex 2 (sequence_of u) (b'-' ∷ hex 2 (id_type_of u) (b'-' ∷ hex 14 (unused u) []))),
  length-hex 2 (sequence_of u) (b'-' ∷ hex 2 (id_type_of u) (b'-' ∷ hex 14 (unused u) [])),
  length-hex 2 (id_type_of u) (b'-' ∷ hex 14 (unused u) []),
  length-hex 14 (unused u) [],
)

-- An id whose fields fit the widths of the text.
pub record FitsText (u : Uuid) : Type 0 where
  pub high : u.high < 2 ^ 64
  pub low : u.low < 2 ^ 60
  pub one : version u ≡ 1

from_string-v1 : (u : Uuid) → from_string (to_string_v1 u) ≡ of_parts (split (to_string_v1 u))
unfolding from_string from_string_v1 parse_uint digits_value
from_string-v1 u =
    rw (spelled u, ap length (sym (spelled u)) ∙ length-to_string_v1 u, from_string_v1) refl

module _ (u : Uuid) (f : FitsText u) where
  fields_read :
      of_parts ((b'1' ∷ []) ∷ stamp_part u ∷ hex 2 (id_type_of u) [] ∷ hex 14 (unused u) [] ∷ [])
      ≡ rebuild_id
          (some (timestamp u))
          (some (sequence_of u))
          (some (id_type_of u))
          (some (unused u))
  unfolding of_parts stamp_part sequence_of id_type_of unused timestamp
  fields_read =
      rw
        (
          length-append (hex 13 (timestamp u) []) (hex 2 (sequence_of u) []),
          length-hex 13 (timestamp u) [],
          length-hex 2 (sequence_of u) [],
          length-hex 2 (id_type_of u) [],
          length-hex 14 (unused u) [],
          take_prefix 13 (hex 13 (timestamp u) []) (hex 2 (sequence_of u) [])
              (length-hex 13 (timestamp u) []),
          drop_prefix 13 (hex 13 (timestamp u) []) (hex 2 (sequence_of u) [])
              (length-hex 13 (timestamp u) []),
          parse_uint-hex 52 12 (timestamp u) (omega (arith, f.high)) (omega (arith, f.high)),
          parse_uint-hex 8 1 (sequence_of u) (omega arith) (omega arith),
          parse_uint-hex 8 1 (id_type_of u) (omega arith) (omega arith),
          parse_uint-hex 56 13 (unused u) (omega (arith, and_unused u.low))
              (omega (arith, and_unused u.low)),
        )
        refl

  type_sum : id_type_of u ≡ u.high % 16 * 16 + u.low / 2 ^ 56 % 16
  type_sum =
      type_words u (u.high % 16 * 16 + u.low / 2 ^ 56 % 16) (omega arith)
        (omega (arith, and_four u.high)) (omega (arith, and_four (u.low / 2 ^ 56)))

  high_again : high_of (timestamp u) (sequence_of u) 1 (id_type_of u) ≡ u.high
  unfolding timestamp sequence_of version
  high_again = omega (
    arith,
    type_sum,
    f.high,
    f.one,
    and_byte (u.high / 2 ^ 8),
    and_four (u.high / 2 ^ 4),
    high_sum (timestamp u) (sequence_of u) 1 (id_type_of u) (omega arith) (omega arith)
        (omega (arith, type_sum)),
  )

  low_again : bit_or (low_of (id_type_of u)) (unused u) ≡ u.low
  unfolding unused
  low_again =
      let top : low_of (id_type_of u) ≡ id_type_of u % 16 * 2 ^ 56 =
        low_shift (id_type_of u) (omega (arith, type_sum)) in
      or_aligned 56 (id_type_of u % 16) (low_of (id_type_of u)) (unused u) top
        (omega (arith, and_unused u.low))
      ∙ omega (arith, top, type_sum, f.low, and_unused u.low)

  from_string-to_string_v1 : from_string (to_string_v1 u) ≡ ok u
  unfolding rebuild_id
  from_string-to_string_v1 =
      from_string-v1 u
      ∙ ap of_parts (split-to_string_v1 u)
      ∙ fields_read
      ∙ rw (high_again, low_again) refl

not_nil : (u : Uuid) → version u ≡ 1 → is_nil u ≡ false
unfolding is_nil version
not_nil u e = ground (arith, and_four (u.high / 2 ^ 4))

-- The text of an id of version 1 reads back as the id, as long as its words are below 2 ^ 64 and the
-- lower one has its top four bits unset, which nothing prints.
pub from_string-to_string : (u : Uuid) → FitsText u → from_string (to_string u) ≡ ok u
unfolding to_string
from_string-to_string u f = rw (not_nil u f.one, to_string) (from_string-to_string_v1 u f)

-- ===== src/Uuid/Fields.antt =====
-- internal/uuid/uuid.go: the fields of an id.
use Prim.Native.Nat.{bit_and, bit_or}
use go_mud.Prelude.{ℕ, ◌+◌, ◌*◌, ◌/◌, ◌%◌, ◌^◌, ◌<◌, ◌≡◌, ap, ◌∙◌, arith}
use go_mud.Prelude.Bitwise.{or_below, and_four, and_byte, and_unused}
use go_mud.Uuid.{
  Uuid, UuidGenerator, shift_left, high_of, low_of, timestamp, sequence_of, version, id_type_of,
  unused, uuid_of,
}

-- A field below a number that ends in enough zero digits.
pub or_aligned : (k q x r : ℕ) → x ≡ q * 2 ^ k → r < 2 ^ k → bit_or x r ≡ x + r
or_aligned k q x r e h = rw e (or_below k q r h)

-- The upper word as a number.
pub high_sum :
    (now seq ver id_type : ℕ)
    → seq < 256
    → ver < 16
    → id_type < 256
    → high_of now seq ver id_type ≡ now % 2 ^ 48 * 2 ^ 16 + seq * 2 ^ 8 + ver * 2 ^ 4 + id_type / 16
unfolding high_of shift_left
high_sum now seq ver id_type h k l =
    let time : shift_left now 16 ≡ now % 2 ^ 48 * 2 ^ 16 = omega arith in
    let count : shift_left seq 8 ≡ seq * 2 ^ 8 = omega arith in
    let number : shift_left ver 4 ≡ ver * 2 ^ 4 = omega arith in
    let kind : bit_and (id_type / 2 ^ 4) 15 ≡ id_type / 16 =
      omega (arith, and_four (id_type / 2 ^ 4)) in
    let a : bit_or (now % 2 ^ 48 * 2 ^ 16) (seq * 2 ^ 8) ≡ now % 2 ^ 48 * 2 ^ 16 + seq * 2 ^ 8 =
      or_below 16 (now % 2 ^ 48) (seq * 2 ^ 8) (omega arith) in
    let b : bit_or (now % 2 ^ 48 * 2 ^ 16 + seq * 2 ^ 8) (ver * 2 ^ 4)
        ≡ now % 2 ^ 48 * 2 ^ 16 + seq * 2 ^ 8 + ver * 2 ^ 4 =
      or_aligned 8 (now % 2 ^ 48 * 2 ^ 8 + seq) (now % 2 ^ 48 * 2 ^ 16 + seq * 2 ^ 8) (ver * 2 ^ 4)
        (omega arith) (omega arith) in
    let c =
      or_aligned 4 (now % 2 ^ 48 * 2 ^ 12 + seq * 2 ^ 4 + ver)
        (now % 2 ^ 48 * 2 ^ 16 + seq * 2 ^ 8 + ver * 2 ^ 4) (id_type / 16) (omega arith)
        (omega arith) in
    rw (time, count, number, kind, a, b) c

pub low_shift : (id_type : ℕ) → id_type < 256 → low_of id_type ≡ id_type % 16 * 2 ^ 56
unfolding low_of shift_left
low_shift id_type h = omega (arith, and_four id_type)

type_join : (t : ℕ) → t < 256 → bit_or (t / 16 * 16 % 2 ^ 64) (t % 16) % 256 ≡ t
type_join t h =
    let fits : t / 16 * 16 % 2 ^ 64 ≡ t / 16 * 2 ^ 4 = omega arith in
    omega (arith, or_aligned 4 (t / 16) (t / 16 * 16 % 2 ^ 64) (t % 16) fits (omega arith))

pub type_words :
    (u : Uuid) (t : ℕ)
    → t < 256
    → bit_and u.high 15 ≡ t / 16
    → bit_and (u.low / 2 ^ 56) 15 ≡ t % 16
    → id_type_of u ≡ t
unfolding id_type_of shift_left
type_words u t h top bot =
    ap (λ (x : ℕ). bit_or (x * 16 % 2 ^ 64) (bit_and (u.low / 2 ^ 56) 15) % 256) top
    ∙ ap (λ (y : ℕ). bit_or (t / 16 * 16 % 2 ^ 64) y % 256) bot
    ∙ type_join t h

-- An id made from a timestamp, a sequence number below 256 and a type below 256 gives back the sequence
-- number, version 1 and the type, nothing in the unused bits, and of the timestamp the remainder by
-- 2 ^ 48.
pub uuid_of-fields :
    (g : UuidGenerator) (id_type : ℕ)
    → g.sequence < 256
    → id_type < 256
    → let u = uuid_of g id_type in
      (timestamp u ≡ g.last_timestamp % 2 ^ 48)
      × (sequence_of u ≡ g.sequence)
      × (version u ≡ 1)
      × (id_type_of u ≡ id_type)
      × (unused u ≡ 0)
unfolding timestamp sequence_of version id_type_of unused uuid_of shift_left
uuid_of-fields g id_type h l =
    let high = high_sum g.last_timestamp g.sequence 1 id_type h (omega arith) l in
    let low = low_shift id_type l in
    let hi = high_of g.last_timestamp g.sequence 1 id_type in
    (
      omega (arith, high),
      omega (arith, high, and_byte (hi / 2 ^ 8)),
      omega (arith, high, and_four (hi / 2 ^ 4)),
      type_words (uuid_of g id_type) id_type l (omega (arith, high, and_four hi))
          (omega (arith, low, and_four (low_of id_type / 2 ^ 56))),
      omega (arith, low, and_unused (low_of id_type)),
    )

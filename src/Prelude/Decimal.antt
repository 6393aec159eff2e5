-- ===== src/Prelude/Decimal.antt =====
-- Natural numbers in decimal, as `fmt.Sprintf` prints them with `%d` and `fmt.Sscanf` reads them. A
-- text is its bytes.
use mathlib.Core.List.{append_assoc}
use go_mud.Prelude.{
  not, ◌==◌, ◌++◌, ap, sym, ◌∙◌, ℕ, zero, suc, ◌+◌, ◌-◌, ◌*◌, ◌/◌, ◌%◌, ◌≤◌, ◌<◌, ◌≡◌, Bool, true,
  false, ◌&&◌, List, [], ◌∷◌, length, ltb, leb, ltb→lt, lt→ltb, ◌^◌, if◌then◌else◌, arith, inl, inr,
  Bool-cases, refl,
}
use go_mud.Prelude.Bytes.{is_empty}
use go_mud.Prelude.Predicates.{All}

-- The digits of `n`, in front of `rest`.
pub print_to : ℕ → ℕ → List ℕ → List ℕ
print_to zero n rest = rest
print_to (suc fuel) n rest = elim (ltb n 10) [
  | true ↦ (48 + n) ∷ rest
  | false ↦ print_to fuel (n / 10) ((48 + n % 10) ∷ rest)
]

pub print : ℕ → List ℕ → List ℕ
print n rest = print_to (suc n) n rest

abbrev pub is_digit : ℕ → Bool
is_digit b = leb 48 b && leb b 57

abbrev pub starts_digit : List ℕ → Bool
starts_digit [] = false
starts_digit (b ∷ bs) = is_digit b

-- The digits that the bytes start with, read after `acc`, and what follows them.
unfoldable pub scan_digits : ℕ → List ℕ → ℕ × List ℕ
scan_digits acc [] = (acc, [])
scan_digits acc (b ∷ bs) = if is_digit b then scan_digits (acc * 10 + b - 48) bs else (acc, b ∷ bs)

-- Reading a digit.
scan_digits-cons :
    (acc d : ℕ) (rest : List ℕ)
    → d < 10
    → scan_digits acc ((48 + d) ∷ rest) ≡ scan_digits (acc * 10 + d) rest
unfolding scan_digits
scan_digits-cons acc d rest h = ground arith

scan_digits-print_to :
    (fuel n : ℕ) (rest : List ℕ)
    → n < fuel
    → scan_digits 0 (print_to fuel n rest) ≡ scan_digits n rest
unfolding print_to
scan_digits-print_to zero n rest h = absurd (omega arith)
scan_digits-print_to (suc fuel) n rest h = elim (Bool-cases (ltb n 10)) [
  | inl e ↦ rw (e, print_to) (ground (arith, scan_digits-cons 0 n rest))
  | inr e ↦
      rw (e, print_to)
        (ground (
          arith,
          scan_digits-print_to fuel (n / 10) ((48 + n % 10) ∷ rest),
          scan_digits-cons (n / 10) (n % 10) rest,
        ))
]

-- What is printed reads back, whatever follows it.
pub scan_digits-print : (n : ℕ) (rest : List ℕ) → scan_digits 0 (print n rest) ≡ scan_digits n rest
unfolding print
scan_digits-print n rest = scan_digits-print_to (suc n) n rest (omega arith)

starts_digit-print_to :
    (fuel n d : ℕ) (rest : List ℕ)
    → d < 10
    → starts_digit (print_to fuel n ((48 + d) ∷ rest)) ≡ true
unfolding print_to
starts_digit-print_to zero n d rest h = ground arith
starts_digit-print_to (suc fuel) n d rest h = elim (Bool-cases (ltb n 10)) [
  | inl e ↦ rw (e, print_to) (ground arith)
  | inr e ↦
      rw (e, print_to)
        (starts_digit-print_to fuel (n / 10) (n % 10) ((48 + d) ∷ rest) (omega arith))
]

pub starts_digit-print : (n : ℕ) (rest : List ℕ) → starts_digit (print n rest) ≡ true
unfolding print print_to
starts_digit-print n rest = elim (Bool-cases (ltb n 10)) [
  | inl e ↦ rw (e, print_to) (ground arith)
  | inr e ↦ rw (e, print_to) (starts_digit-print_to n (n / 10) (n % 10) rest (omega arith))
]

abbrev pub pow10 : ℕ → ℕ
pow10 zero = 1
pow10 (suc k) = 10 * pow10 k

pub length-print_to :
    (k fuel n : ℕ) (rest : List ℕ)
    → n < pow10 (suc k)
    → length (print_to fuel n rest) ≤ suc k + length rest
unfolding print_to
length-print_to k zero n rest h = omega arith
length-print_to zero (suc fuel) n rest h = rw (lt→ltb n 10 h, print_to) (omega arith)
length-print_to (suc k) (suc fuel) n rest h = elim (Bool-cases (ltb n 10)) [
  | inl e ↦ rw (e, print_to) (omega arith)
  | inr e ↦
      rw (e, print_to)
        (omega (arith, length-print_to k fuel (n / 10) ((48 + n % 10) ∷ rest) (omega arith)))
]

-- A number of 64 bits has at most 20 digits.
pub length-print : (n : ℕ) (rest : List ℕ) → n < 2 ^ 64 → length (print n rest) ≤ 20 + length rest
unfolding print
length-print n rest h = length-print_to 19 (suc n) n rest (omega arith)

module _ (P : ℕ → Type 0) (digit : (d : ℕ) → d < 10 → P (48 + d)) where
  All-print_to : (fuel n : ℕ) (rest : List ℕ) → All P rest → All P (print_to fuel n rest)
  unfolding print_to
  All-print_to zero n rest h = h
  All-print_to (suc fuel) n rest h = elim (Bool-cases (ltb n 10)) [
    | inl e ↦ rw (e, print_to) (digit n (ltb→lt n 10 e), h)
    | inr e ↦
        rw (e, print_to)
          (All-print_to fuel (n / 10) ((48 + n % 10) ∷ rest) (digit (n % 10) (omega arith), h))
  ]

  pub All-print : (n : ℕ) (rest : List ℕ) → All P rest → All P (print n rest)
  unfolding print
  All-print n rest h = All-print_to (suc n) n rest h

print_to-append : (fuel n : ℕ) (rest : List ℕ) → print_to fuel n rest ≡ print_to fuel n [] ++ rest
unfolding print_to
print_to-append zero n rest = refl
print_to-append (suc fuel) n rest = elim (Bool-cases (ltb n 10)) [
  | inl e ↦ rw (e, print_to) refl
  | inr e ↦
      rw (e, print_to)
        (print_to-append fuel (n / 10) ((48 + n % 10) ∷ rest)
          ∙ sym (append_assoc (print_to fuel (n / 10) []) ((48 + n % 10) ∷ []) rest)
          ∙ ap (λ (l : List ℕ). l ++ rest)
              (sym (print_to-append fuel (n / 10) ((48 + n % 10) ∷ []))))
]

-- The digits stand in front.
pub print-append : (n : ℕ) (rest : List ℕ) → print n rest ≡ print n [] ++ rest
unfolding print
print-append n rest = print_to-append (suc n) n rest

-- `strconv.Atoi` of a text without a dash: 0 for what is no number, and the largest int for a number
-- that is too large, which is seen before what follows 64 bits of digits.
abbrev pub strip_plus : List ℕ → List ℕ
strip_plus [] = []
strip_plus (b ∷ bs) = if b == b'+' then bs else b ∷ bs

unfoldable pub atoi : List ℕ → ℕ
atoi text =
    let bs = strip_plus text in
    let scanned = scan_digits 0 bs in
    if not (starts_digit bs)
    then 0
    else if leb (2 ^ 64) scanned.0
    then 2 ^ 63 - 1
    else if not (is_empty scanned.1)
    then 0
    else if ltb scanned.0 (2 ^ 63)
    then scanned.0
    else 2 ^ 63 - 1

strip_plus-digit : (bs : List ℕ) → starts_digit bs ≡ true → strip_plus bs ≡ bs
strip_plus-digit [] h = refl
strip_plus-digit (b ∷ bs) h = ground arith

-- What is printed below 2 ^ 63 is read as the number.
pub atoi-print : (n : ℕ) → n < 2 ^ 63 → atoi (print n []) ≡ n
unfolding atoi scan_digits
atoi-print n h =
    rw
      (
        strip_plus-digit (print n []) (starts_digit-print n []),
        starts_digit-print n [],
        scan_digits-print n [],
      )
      (ground arith)

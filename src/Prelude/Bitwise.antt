-- ===== src/Prelude/Bitwise.antt =====
-- `|` of fields that do not overlap and `&` with a mask of low bits, as arithmetic.
use Prim.Native.Nat.{min, max, bit_and, bit_or, digits, bit_and-bitwise, bit_or-bitwise}
use native.Mathlib.Nat.{pow-suc, one-le-pow}
use go_mud.Prelude.{ℕ, zero, suc, ◌+◌, ◌-◌, ◌*◌, ◌/◌, ◌%◌, ◌^◌, ◌≤◌, ◌<◌, ◌≡◌, refl, ap, arith}

-- What the native operations stand for stops at the first number's digits; more fuel changes nothing.
enough :
    (z : ℕ → ℕ) (f : ℕ → ℕ → ℕ) (k n a b : ℕ) → a ≤ k → a ≤ n → digits z f k a b ≡ digits z f n a b
enough z f zero zero zero b h g = refl
enough z f zero (suc n) zero b h g = refl
enough z f (suc k) zero zero b h g = refl
enough z f (suc k) (suc n) zero b h g = refl
enough z f zero n (suc a) b h g = absurd (omega arith)
enough z f (suc k) zero (suc a) b h g = absurd (omega arith)
enough z f (suc k) (suc n) (suc a) b h g =
    let less : suc a / 2 ≤ k = omega arith in
    let less' : suc a / 2 ≤ n = omega arith in
    ap (λ (t : ℕ). t * 2 + f (suc a % 2) (b % 2)) (enough z f k n (suc a / 2) (b / 2) less less')

or_halves : (a b : ℕ) → bit_or a b ≡ bit_or (a / 2) (b / 2) * 2 + max (a % 2) (b % 2)
or_halves zero b = simp bit_or-bitwise (omega arith)
or_halves (suc a) b =
    let less : suc a / 2 ≤ a = omega arith in
    let same = enough (λ y. y) max a (suc a / 2) (suc a / 2) (b / 2) less (omega arith) in
    simp bit_or-bitwise (omega (arith, same))

and_halves : (a b : ℕ) → bit_and a b ≡ bit_and (a / 2) (b / 2) * 2 + min (a % 2) (b % 2)
and_halves zero b = simp bit_and-bitwise (omega arith)
and_halves (suc a) b =
    let less : suc a / 2 ≤ a = omega arith in
    let same = enough (λ y. 0) min a (suc a / 2) (suc a / 2) (b / 2) less (omega arith) in
    simp bit_and-bitwise (omega (arith, same))

-- By induction on a bound.
or_none : (n a : ℕ) → a ≤ n → bit_or a 0 ≡ a
or_none n zero h = refl
or_none zero (suc a) h = absurd (omega arith)
or_none (suc n) (suc a) h = omega (arith, or_halves (suc a) 0, or_none n (suc a / 2) (omega arith))

and_none : (n a : ℕ) → a ≤ n → bit_and a 0 ≡ 0
and_none n zero h = refl
and_none zero (suc a) h = absurd (omega arith)
and_none (suc n) (suc a) h =
    omega (arith, and_halves (suc a) 0, and_none n (suc a / 2) (omega arith))

twice : (q k : ℕ) → q * 2 ^ suc k ≡ 2 * (q * 2 ^ k)
twice q k = omega (arith, ap (λ (t : ℕ). q * t) (pow-suc 2 k))

-- A field below a multiple of `2 ^ k`.
pub or_below : (k q r : ℕ) → r < 2 ^ k → bit_or (q * 2 ^ k) r ≡ q * 2 ^ k + r
or_below zero q r h = ground (arith, or_none q q (omega arith))
or_below (suc k) q r h = ground (
  arith,
  or_halves (q * 2 ^ suc k) r,
  twice q k,
  pow-suc 2 k,
  or_below k q (r / 2) (omega (arith, pow-suc 2 k)),
)

and_below : (k q r : ℕ) → r < 2 ^ k → bit_and (q * 2 ^ k + r) (2 ^ k - 1) ≡ r
and_below zero q r h = rw (and_none (q * 1 + r) (q * 1 + r) (omega arith)) (omega arith)
and_below (suc k) q r h = ground (
  arith,
  and_halves (q * 2 ^ suc k + r) (2 ^ suc k - 1),
  twice q k,
  pow-suc 2 k,
  one-le-pow k 2,
  and_below k q (r / 2) (omega (arith, pow-suc 2 k)),
)

-- The masks of the fields.
pub and_four : (a : ℕ) → bit_and a 15 ≡ a % 16
and_four a = ground (arith, and_below 4 (a / 16) (a % 16) (omega arith))

pub and_byte : (a : ℕ) → bit_and a 255 ≡ a % 256
and_byte a = ground (arith, and_below 8 (a / 256) (a % 256) (omega arith))

pub and_unused : (a : ℕ) → bit_and a (2 ^ 56 - 1) ≡ a % 2 ^ 56
and_unused a = ground (arith, and_below 56 (a / 2 ^ 56) (a % 2 ^ 56) (omega arith))

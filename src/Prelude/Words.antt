-- ===== src/Prelude/Words.antt =====
-- Machine words in bytes, with the low byte first, as `encoding/binary` writes them.
use go_mud.Prelude.{
  ℕ, zero, suc, ◌+◌, ◌-◌, ◌*◌, ◌/◌, ◌%◌, ◌^◌, ◌<◌, ◌≡◌, refl, List, [], ◌∷◌, length, ltb,
  if◌then◌else◌, arith,
}
use go_mud.Prelude.Int.{ℤ, pos, negsuc}

-- The low `k` bytes of a number.
unfoldable pub bytes_of : ℕ → ℕ → List ℕ
bytes_of zero n = []
bytes_of (suc k) n = (n % 256) ∷ bytes_of k (n / 256)

unfoldable pub of_bytes : List ℕ → ℕ
of_bytes [] = 0
of_bytes (b ∷ bs) = b + 256 * of_bytes bs

pub length-bytes_of : (k n : ℕ) → length (bytes_of k n) ≡ k
unfolding bytes_of
length-bytes_of zero n = refl
length-bytes_of (suc k) n = omega (arith, length-bytes_of k (n / 256))

abbrev pow256 : ℕ → ℕ
pow256 zero = 1
pow256 (suc k) = 256 * pow256 k

of_bytes-bytes_of : (k n : ℕ) → n < pow256 k → of_bytes (bytes_of k n) ≡ n
unfolding bytes_of of_bytes
of_bytes-bytes_of zero n h = omega arith
of_bytes-bytes_of (suc k) n h = omega (arith, of_bytes-bytes_of k (n / 256) (omega arith))

-- The 64 bits of a signed integer, and the integer that they stand for.
pub word_of : ℤ → ℕ
word_of (pos n) = n % 2 ^ 64
word_of (negsuc n) = 2 ^ 64 - 1 - n % 2 ^ 64

pub int_of : ℕ → ℤ
int_of w = if ltb w (2 ^ 63) then pos w else negsuc (2 ^ 64 - 1 - w)

abbrev pub IsInt64 : ℤ → Type 0
IsInt64 (pos n) = n < 2 ^ 63
IsInt64 (negsuc n) = n < 2 ^ 63

int_of-word_of : (i : ℤ) → IsInt64 i → int_of (word_of i) ≡ i
unfolding int_of word_of
int_of-word_of (pos n) h = ground arith
int_of-word_of (negsuc n) h = ground arith

word_of_bound : (i : ℤ) → word_of i < pow256 8
unfolding word_of
word_of_bound (pos n) = omega arith
word_of_bound (negsuc n) = omega arith

-- An integer of 64 bits reads back from its eight bytes.
pub of_bytes-word_of : (i : ℤ) → IsInt64 i → int_of (of_bytes (bytes_of 8 (word_of i))) ≡ i
of_bytes-word_of i h = rw (of_bytes-bytes_of 8 (word_of i) (word_of_bound i)) (int_of-word_of i h)

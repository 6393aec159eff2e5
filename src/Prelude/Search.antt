-- ===== src/Prelude/Search.antt =====
-- Loops over a slice of ids that look for one of them, and finite maps as functions.
use Prim.Native.Nat.{ℕ, ◌+◌, ◌-◌, ◌≤◌}
use mathlib.Core.Path.{◌≡◌, refl}
use mathlib.Core.Bool.{Bool, true, false}
use mathlib.Core.Option.{Option, none, some}
use mathlib.Core.List.{List, [], ◌∷◌, ◌++◌}
use native.Mathlib.Omega.{arith}
use go_mud.Prelude.Tests.{◌==◌, ltb, if◌then◌else◌}
use go_mud.Prelude.Lists.{length}

-- The number of places that hold the id.
unfoldable pub count : ℕ → List ℕ → ℕ
count u [] = 0
count u (x ∷ xs) = (if x == u then 1 else 0) + count u xs

-- `for _, id := range l { if id == u { return true } }; return false`
unfoldable pub contains : ℕ → List ℕ → Bool
contains u [] = false
contains u (x ∷ xs) = if x == u then true else contains u xs

-- `for i, id := range l { if id == u { l = append(l[:i], l[i+1:]...); break } }`
unfoldable pub remove_first : ℕ → List ℕ → List ℕ
remove_first u [] = []
remove_first u (x ∷ xs) = if x == u then xs else x ∷ remove_first u xs

pub count-nil : (u : ℕ) → count u [] ≡ 0
unfolding count
count-nil u = refl

pub count-cons : (u x : ℕ) (xs : List ℕ) → count u (x ∷ xs) ≡ (if x == u then 1 else 0) + count u xs
unfolding count
count-cons u x xs = refl

pub count-append : (u : ℕ) (xs ys : List ℕ) → count u (xs ++ ys) ≡ count u xs + count u ys
unfolding count
count-append u [] ys = omega arith
count-append u (x ∷ xs) ys = omega (arith, count-append u xs ys)

pub contains-count : (u : ℕ) (l : List ℕ) → contains u l ≡ ltb 0 (count u l)
unfolding contains count
contains-count u [] = refl
contains-count u (x ∷ xs) = ground (arith, contains-count u xs)

pub count-remove_first :
    (u v : ℕ) (l : List ℕ) → count v (remove_first u l) ≡ count v l - (if u == v then 1 else 0)
unfolding remove_first count
count-remove_first u v [] = ground arith
count-remove_first u v (x ∷ xs) = ground (arith, count-remove_first u v xs)

pub count-le-length : (u : ℕ) (l : List ℕ) → count u l ≤ length l
unfolding count
count-le-length u [] = omega arith
count-le-length u (x ∷ xs) = ground (arith, count-le-length u xs)

pub remove_first_absent : (u : ℕ) (l : List ℕ) → count u l ≡ 0 → remove_first u l ≡ l
unfolding remove_first count
remove_first_absent u [] h = refl
remove_first_absent u (x ∷ xs) h = ground (arith, remove_first_absent u xs)

-- A Go map with integer keys: what each key holds.
abbrev pub Map {ℓ} : Type ℓ → Type ℓ
Map V = ℕ → Option V

module _ {ℓ} {V : Type ℓ} where
  abbrev pub update : (ℕ → V) → ℕ → V → ℕ → V
  update f k v j = if k == j then v else f j

module _ {ℓ} {V : Type ℓ} where
  -- `m[k] = v`
  abbrev pub put : Map V → ℕ → V → Map V
  put m k v = update m k (some v)

  -- `delete(m, k)`
  abbrev pub delete : Map V → ℕ → Map V
  delete m k = update m k none

  -- `for _, k := range l { delete(m, k) }`
  unfoldable pub delete_all : Map V → List ℕ → Map V
  delete_all m [] = m
  delete_all m (k ∷ ks) = delete_all (delete m k) ks

  pub delete_all_lem :
      (m : Map V) (l : List ℕ) (j : ℕ)
      → delete_all m l j ≡ (if ltb 0 (count j l) then none else m j)
  unfolding delete_all count
  delete_all_lem m [] j = refl
  delete_all_lem m (k ∷ ks) j = ground (arith, delete_all_lem (delete m k) ks j)

pub remove_first-append : (u : ℕ) (l : List ℕ) → count u l ≡ 0 → remove_first u (l ++ u ∷ []) ≡ l
unfolding remove_first count
remove_first-append u [] h = ground arith
remove_first-append u (x ∷ xs) h = ground (arith, remove_first-append u xs)

pub contains_last : (u : ℕ) (l : List ℕ) → contains u (l ++ u ∷ []) ≡ true
contains_last u l =
    ground (arith, contains-count u (l ++ u ∷ []), count-append u l (u ∷ []), count-cons u u [])

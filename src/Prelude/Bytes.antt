-- ===== src/Prelude/Bytes.antt =====
-- Texts as lists of bytes: their equality, and `strings.Split` at a dash.
use go_mud.Prelude.{
  map, ◌+◌, ◌||◌, leb, ℕ, ◌≡◌, ◌↔◌, refl, Bool, true, false, ◌&&◌, List, [], ◌∷◌, ◌++◌, ◌==◌,
  if◌then◌else◌, arith,
}
use go_mud.Prelude.Predicates.{All}
use go_mud.Prelude.Assoc.{Eq}

abbrev pub eq_bytes : List ℕ → List ℕ → Bool
eq_bytes [] [] = true
eq_bytes [] (b ∷ bs) = false
eq_bytes (a ∷ l) [] = false
eq_bytes (a ∷ l) (b ∷ bs) = a == b && eq_bytes l bs

pub eq_bytes_iff : (a b : List ℕ) → (eq_bytes a b ≡ true) ↔ (a ≡ b)
eq_bytes_iff [] [] = ground arith
eq_bytes_iff [] (y ∷ b) = ground arith
eq_bytes_iff (x ∷ a) [] = ground arith
eq_bytes_iff (x ∷ a) (y ∷ b) = ground (arith, eq_bytes_iff a b)

instance abbrev pub bytes_eq : Eq (List ℕ)
bytes_eq = record { beq = eq_bytes; beq_iff = eq_bytes_iff }

-- `strings.Split(s, "-")`
abbrev pub onto_first : ℕ → List (List ℕ) → List (List ℕ)
onto_first b [] = (b ∷ []) ∷ []
onto_first b (p ∷ ps) = (b ∷ p) ∷ ps

unfoldable pub split : List ℕ → List (List ℕ)
split [] = [] ∷ []
split (b ∷ bs) = let parts = split bs in if b == b'-' then [] ∷ parts else onto_first b parts

abbrev pub NoDash : ℕ → Type 0
NoDash b = (b == b'-') ≡ false

pub split-last : (part : List ℕ) → All NoDash part → split part ≡ part ∷ []
unfolding split
split-last [] h = refl
split-last (b ∷ part) h = rw (h.0, split-last part h.1) refl

pub split-part :
    (part rest : List ℕ) → All NoDash part → split (part ++ b'-' ∷ rest) ≡ part ∷ split rest
unfolding split
split-part [] rest h = refl
split-part (b ∷ part) rest h = rw (h.0, split-part part rest h.1) refl

abbrev pub is_space : ℕ → Bool
is_space b = b == 32 || leb 9 b && leb b 13

unfoldable pub trim_left : List ℕ → List ℕ
trim_left [] = []
trim_left (b ∷ bs) = if is_space b then trim_left bs else b ∷ bs

abbrev pub cons_unless_space : ℕ → List ℕ → List ℕ
cons_unless_space b [] = if is_space b then [] else b ∷ []
cons_unless_space b (c ∷ bs) = b ∷ c ∷ bs

unfoldable pub trim_right : List ℕ → List ℕ
trim_right [] = []
trim_right (b ∷ bs) = cons_unless_space b (trim_right bs)

-- `strings.TrimSpace`
unfoldable pub trim_space : List ℕ → List ℕ
trim_space bs = trim_right (trim_left bs)

-- `strings.ToLower` of ASCII
abbrev pub lower_byte : ℕ → ℕ
lower_byte b = if leb 65 b && leb b 90 then b + 32 else b

unfoldable pub to_lower : List ℕ → List ℕ
to_lower name = map lower_byte name

abbrev pub is_empty : List ℕ → Bool
is_empty [] = true
is_empty (b ∷ bs) = false

-- `strings.HasPrefix` of the second text
abbrev pub starts_with : List ℕ → List ℕ → Bool
starts_with [] bs = true
starts_with (a ∷ l) [] = false
starts_with (a ∷ l) (b ∷ bs) = a == b && starts_with l bs

-- ===== src/Matching/Tests.antt =====
-- A search among concrete names.
use go_mud.Prelude.{ℕ, List, [], ◌∷◌}

abbrev sword : List ℕ
sword = b's' ∷ b'w' ∷ b'o' ∷ b'r' ∷ b'd' ∷ []

abbrev items : List (List ℕ)
items = (b'a' ∷ b' ' ∷ sword) ∷ sword ∷ (b'S' ∷ b'w' ∷ b'o' ∷ b'r' ∷ b'd' ∷ b's' ∷ []) ∷ []

-- "swo#2"
abbrev second : List ℕ
second = b's' ∷ b'w' ∷ b'o' ∷ b'#' ∷ b'2' ∷ []

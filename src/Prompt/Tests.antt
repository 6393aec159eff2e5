-- ===== src/Prompt/Tests.antt =====
-- A prompt at concrete questions.
use go_mud.Prelude.{ℕ, ◌≡◌, ◌⊎◌, refl, arith, true, false, List, [], ◌∷◌}
use go_mud.Prelude.Predicates.{All}
use go_mud.Prelude.Bytes.{to_lower, trim_space, trim_left, trim_right}
use go_mud.Prompt.{Question, answer}
use go_mud.Prompt.Answering.{In, Nearest, Starts, answer-Nearest}

abbrev yes_no : List (List ℕ)
yes_no = (b'y' ∷ b'e' ∷ b's' ∷ []) ∷ (b'n' ∷ b'o' ∷ []) ∷ []

abbrev sure : Question
sure = record {
  question = b's' ∷ b'u' ∷ b'r' ∷ b'e' ∷ [];
  options = yes_no;
  default_response = [];
  response = [];
  done = false;
}

-- " N"
abbrev input : List ℕ
input = b' ' ∷ b'N' ∷ []

answer-Nearest_example :
    ((o : List ℕ) × (answer input sure ≡ record sure { response = o; done = true })
      × In o yes_no
      × Nearest (to_lower (trim_space input)) o yes_no)
    ⊎ ((answer input sure ≡ sure)
        × All (λ p. (k : ℕ) → Starts k (to_lower (trim_space input)) p → k ≡ 0) yes_no)
unfolding trim_space trim_left trim_right
answer-Nearest_example = answer-Nearest input sure (omega arith) refl (refl, (refl, tt))

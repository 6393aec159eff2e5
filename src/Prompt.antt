-- ===== src/Prompt.antt =====
-- internal/prompt/prompt.go: the questions that a command asks a user, one after the other. The code
-- hands out pointers to questions; here a pointer is the place in the list of the prompt. Texts are
-- bytes.
pub mod Answering
pub mod Pending
mod Tests
use go_mud.Prelude.{
  ℕ, zero, suc, ◌-◌, Bool, true, false, not, Option, none, some, List, [], ◌∷◌, ◌++◌, length, ltb,
  ◌==◌, if◌then◌else◌,
}
use go_mud.Prelude.Bytes.{eq_bytes, to_lower, trim_space, is_empty}

pub record Question : Type 0 where
  pub question : List ℕ
  pub options : List (List ℕ)
  pub default_response : List ℕ
  pub response : List ℕ
  pub done : Bool

pub record Prompt : Type 0 where
  pub command : List ℕ
  pub rest : List ℕ
  pub questions : List Question

abbrev pub new_prompt : List ℕ → List ℕ → Prompt
new_prompt command rest = record { command = command; rest = rest; questions = [] }

-- The place of the first question with the text, from place `i` on.
unfoldable pub question_at : List ℕ → List Question → ℕ → Option ℕ
question_at text [] i = none
question_at text (q ∷ qs) i =
    let later = question_at text qs (suc i) in if eq_bytes q.question text then some i else later

unfoldable pub named_options : List (List ℕ) → List (List ℕ)
named_options [] = []
named_options (o ∷ os) = if is_empty o then named_options os else o ∷ named_options os

-- The default option is empty when there is none.
unfoldable pub new_question : List ℕ → List (List ℕ) → List ℕ → Question
new_question text options default = record {
  question = text;
  options = named_options options;
  default_response = default;
  response = [];
  done = false;
}

unfoldable pub ask : List ℕ → List (List ℕ) → List ℕ → Prompt → Prompt × ℕ
ask text options default p =
    let asked = if is_empty text then b'?' ∷ [] else text in
    elim (question_at asked p.questions 0) [
      | some i ↦ (p, i)
      | none ↦ (
        record p { questions = p.questions ++ new_question asked options default ∷ [] },
        length p.questions,
      )
    ]

unfoldable pub any_pending : List Question → Bool
any_pending [] = false
any_pending (q ∷ qs) = if not q.done then true else any_pending qs

-- The place of the question that is returned, `none` for nil.
unfoldable pub get_next_question : Prompt → Option ℕ
get_next_question p = if any_pending p.questions then some (length p.questions - 1) else none

unfoldable pub reset : Question → Question
reset q = record q { done = false }

unfoldable pub reject_response : Question → Question
reject_response q = record q { response = []; done = false }

-- How many bytes two texts share at the start.
abbrev pub shared : List ℕ → List ℕ → ℕ
shared [] b = 0
shared (x ∷ a) [] = 0
shared (x ∷ a) (y ∷ b) = if x == y then suc (shared a b) else 0

-- The loop over the options: the closest one so far, and how many bytes it shares with the answer. An
-- option that equals the answer ends it.
unfoldable pub closest : List ℕ → Option (List ℕ) → ℕ → List (List ℕ) → Option (List ℕ)
closest test best len [] = best
closest test best len (o ∷ os) =
    let common = shared (to_lower o) test in
    let later =
      closest test (if ltb len common then some o else best)
        (if ltb len common then common else len) os in
    if eq_bytes (to_lower o) test then some o else later

-- The end of `Answer`.
unfoldable pub settle : List ℕ → Question → Question
settle text q = record q { response = if is_empty text then q.response else text; done = true }

unfoldable pub choose : List ℕ → Question → Question
choose text q =
    if ltb 1 (length q.options)
    then elim (closest (to_lower text) none 0 q.options) [ none ↦ q | some o ↦ settle o q ]
    else settle text q

unfoldable pub answer : List ℕ → Question → Question
answer input q =
    let text = trim_space input in
    if is_empty text
    then if is_empty q.default_response
      then q
      else choose text (record q { response = q.default_response; done = true })
    else choose text q

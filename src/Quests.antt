-- ===== src/Quests.antt =====
-- internal/quests/quests.go: quest tokens, such as "12-start", and their order; and the methods of
-- internal/characters/character.go that keep a character's progress. The quests that the data files
-- give are a parameter. Texts are bytes.
pub mod Tokens
pub mod Forward
pub mod Counted
mod Tests
use go_mud.Prelude.{
  ℕ, zero, suc, ◌-◌, ◌^◌, ◌≡◌, Bool, true, false, ◌&&◌, ◌||◌, not, Option, none, some, List, [],
  ◌∷◌, ◌++◌, Map, put, delete, length, ltb, leb, ◌==◌, if◌then◌else◌,
}
use go_mud.Prelude.Bytes.{is_empty, eq_bytes, split}
use go_mud.Prelude.Decimal.{atoi, print, scan_digits, starts_digit}

pub record Quest : Type 0 where
  pub steps : List (List ℕ)

-- `quests[id]`, of the data files.
abbrev pub Quests : Type 0
Quests = Map Quest

-- `QuestProgress`, from quest ids to the step reached.
abbrev pub Progress : Type 0
Progress = Map (List ℕ)

abbrev pub start_step : List ℕ
start_step = b's' ∷ b't' ∷ b'a' ∷ b'r' ∷ b't' ∷ []

abbrev pub end_step : List ℕ
end_step = b'e' ∷ b'n' ∷ b'd' ∷ []

abbrev pub all_steps : List ℕ
all_steps = b'a' ∷ b'l' ∷ b'l' ∷ b'+' ∷ []

unfoldable pub of_token_parts : List (List ℕ) → ℕ × List ℕ
of_token_parts [] = (0, start_step)
of_token_parts (id ∷ []) = (atoi id, start_step)
of_token_parts (id ∷ step ∷ more) = (atoi id, step)

unfoldable pub token_to_parts : List ℕ → ℕ × List ℕ
token_to_parts token = of_token_parts (split token)

unfoldable pub parts_to_token : ℕ → List ℕ → List ℕ
parts_to_token id step = print id (b'-' ∷ step)

unfoldable pub has_step : List ℕ → List (List ℕ) → Bool
has_step step [] = false
has_step step (s ∷ steps) = if eq_bytes s step then true else has_step step steps

-- The loop over the steps: `started` is `startLooking`.
unfoldable pub comes_after : List ℕ → List ℕ → Bool → List (List ℕ) → Bool
comes_after current next started [] = false
comes_after current next started (s ∷ steps) =
    let looking = started || eq_bytes s current in
    let rest = comes_after current next looking steps in
    if looking && eq_bytes s next then true else rest

unfoldable pub step_or_empty : Option (List ℕ) → List ℕ
step_or_empty none = []
step_or_empty (some step) = step

module _ (quests : Quests) where
  unfoldable pub get_quest : List ℕ → Option Quest
  get_quest token =
      let parts = token_to_parts token in
      elim (quests parts.0) [
        | none ↦ none
        | some quest ↦
            if eq_bytes parts.1 all_steps
            then some quest
            else if is_empty parts.1 || has_step parts.1 quest.steps
            then some quest
            else none
      ]

  unfoldable pub is_token_after : List ℕ → List ℕ → Bool
  is_token_after current_token next_token =
      let current = token_to_parts current_token in
      let next = token_to_parts next_token in
      if is_empty current.1
      then if eq_bytes next.1 start_step
        then true
        else if eq_bytes next.1 end_step
        then elim (get_quest next_token) [ none ↦ false | some quest ↦ length quest.steps == 1 ]
        else false
      else if not (current.0 == next.0) || eq_bytes current.1 next.1
      then false
      else elim (get_quest current_token) [
        | none ↦ false
        | some quest ↦ comes_after current.1 next.1 false quest.steps
      ]

  unfoldable pub is_quest_done : List ℕ → Progress → Bool
  is_quest_done token progress =
      eq_bytes (step_or_empty (progress (token_to_parts token).0)) end_step

  unfoldable pub has_quest : List ℕ → Progress → Bool
  has_quest token progress =
      let parts = token_to_parts token in
      elim (progress parts.0) [
        | none ↦ false
        | some current ↦
            if eq_bytes current parts.1
            then true
            else is_token_after token (parts_to_token parts.0 current)
      ]

  unfoldable pub give_quest_token : List ℕ → Progress → Progress × Bool
  give_quest_token token progress =
      let parts = token_to_parts token in
      let current = parts_to_token parts.0 (step_or_empty (progress parts.0)) in
      if is_token_after current token
      then (put progress parts.0 parts.1, true)
      else (progress, false)

unfoldable pub clear_quest_token : List ℕ → Progress → Progress
clear_quest_token token progress = delete progress (token_to_parts token).0

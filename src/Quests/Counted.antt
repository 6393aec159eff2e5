-- ===== src/Quests/Counted.antt =====
-- internal/characters/character.go: a quest is given out at most once for each of its steps.
use go_mud.Prelude.{
  ℕ, suc, ◌+◌, ◌<◌, ◌≤◌, ◌≡◌, ◌^◌, ◌∙◌, ap, true, ◌&&◌, none, some, List, [], ◌∷◌, length, ◌==◌,
  put, if◌then◌else◌, arith, inl, inr, Bool-cases, Option-cases,
}
use mathlib.Core.Path.{subst}
use go_mud.Prelude.Predicates.{All}
use go_mud.Prelude.Bytes.{NoDash}
use go_mud.Quests.{
  Quest, Quests, Progress, token_to_parts, parts_to_token, is_token_after, step_or_empty,
  give_quest_token,
}
use go_mud.Quests.Tokens.{token_to_parts-NoDash, token_to_parts_bound}
use go_mud.Quests.Forward.{IsTidy, IsProper, rank, rank-nil, advance-rank}

-- How many of the tokens are accepted for the quest, one after the other.
pub granted : Quests → ℕ → List (List ℕ) → Progress → ℕ
granted quests id [] progress = 0
granted quests id (token ∷ tokens) progress =
    let given = give_quest_token quests token progress in
    (if given.1 && (token_to_parts token).0 == id then 1 else 0) + granted quests id tokens given.0

==→eq : (a b : ℕ) → (a == b) ≡ true → a ≡ b
==→eq a b h = ground arith

put-IsTidy :
    (progress : Progress) (id : ℕ) (step : List ℕ)
    → IsTidy progress
    → All NoDash step
    → IsTidy (put progress id step)
unfolding step_or_empty
put-IsTidy progress id step tidy plain = record {
  plain = λ j s e. elim (Bool-cases (id == j)) [
    | inl f ↦ subst (All NoDash) (ap (λ o. step_or_empty o) (rw f at e)) plain
    | inr f ↦ tidy.plain j s (rw f at e)
  ];
}

give_quest_token-IsTidy :
    (quests : Quests) (token : List ℕ) (progress : Progress)
    → IsTidy progress
    → IsTidy (give_quest_token quests token progress).0
unfolding give_quest_token
give_quest_token-IsTidy quests token progress tidy =
    let parts = token_to_parts token in
    elim (Bool-cases
      (is_token_after quests (parts_to_token parts.0 (step_or_empty (progress parts.0))) token)) [
        | inl f ↦
            rw (f, give_quest_token)
              (put-IsTidy progress parts.0 parts.1 tidy (token_to_parts-NoDash token))
        | inr f ↦ rw (f, give_quest_token) tidy
      ]

current_NoDash :
    (progress : Progress) (id : ℕ) → IsTidy progress → All NoDash (step_or_empty (progress id))
unfolding step_or_empty
current_NoDash progress id tidy = elim (Option-cases (progress id)) [
  | inl e ↦ rw e tt
  | inr (step, e) ↦ rw e (tidy.plain id step e)
]

module _ (quests : Quests) (id : ℕ) (quest : Quest) (at : quests id ≡ some quest)
    (proper : IsProper quest) where
  reached : Progress → ℕ
  reached progress = rank quest.steps (step_or_empty (progress id))

  given_reached :
      (token : List ℕ) (progress : Progress)
      → IsTidy progress
      → reached progress ≤ suc (length quest.steps)
      → let given = give_quest_token quests token progress in
        ((if given.1 && (token_to_parts token).0 == id then 1 else 0) + reached progress
          ≤ reached given.0)
        × (reached given.0 ≤ suc (length quest.steps))
  unfolding give_quest_token reached step_or_empty
  given_reached token progress tidy low =
      let parts = token_to_parts token in
      let current = step_or_empty (progress parts.0) in
      elim (Bool-cases (is_token_after quests (parts_to_token parts.0 current) token)) [
        | inr f ↦ rw (f, give_quest_token) (omega arith, low)
        | inl f ↦ elim (Bool-cases (parts.0 == id)) [
          | inr g ↦ rw (f, give_quest_token, g) (omega arith, low)
          | inl g ↦
              let same = ==→eq parts.0 id g in
              let further =
                advance-rank quests id quest at proper token current same
                  (subst (λ (j : ℕ). j < 2 ^ 63) same (token_to_parts_bound token))
                  (current_NoDash progress parts.0 tidy)
                  (subst (λ (j : ℕ). is_token_after quests (parts_to_token j current) token ≡ true)
                    same f) in
              rw (f, give_quest_token, g)
                (
                  omega (
                    arith,
                    further.0,
                    ap (λ (j : ℕ). rank quest.steps (step_or_empty (progress j))) same,
                  ),
                  further.1,
                )
        ]
      ]

  granted-reached :
      (tokens : List (List ℕ)) (progress : Progress)
      → IsTidy progress
      → reached progress ≤ suc (length quest.steps)
      → granted quests id tokens progress + reached progress ≤ suc (length quest.steps)
  unfolding granted
  granted-reached [] progress tidy low = omega (arith, low)
  granted-reached (token ∷ tokens) progress tidy low =
      let step = given_reached token progress tidy low in
      let given = (give_quest_token quests token progress).0 in
      omega (
        arith,
        step.0,
        granted-reached tokens given (give_quest_token-IsTidy quests token progress tidy) step.1,
      )

  -- Of any sequence of tokens, the character accepts those of a quest at most once for each step of the
  -- quest and once more, where the steps of the quest are different and have names, and no token was
  -- cleared between.
  pub granted_bound :
      (tokens : List (List ℕ)) (progress : Progress)
      → IsTidy progress
      → progress id ≡ none
      → granted quests id tokens progress ≤ suc (length quest.steps)
  unfolding reached step_or_empty
  granted_bound tokens progress tidy e =
      let start = ap (λ o. rank quest.steps (step_or_empty o)) e ∙ rank-nil quest.steps in
      omega (arith, start, granted-reached tokens progress tidy (omega (arith, start)))

-- ===== src/Quests/Forward.antt =====
-- internal/quests/quests.go: a token comes after another when its step stands behind in the quest.
use go_mud.Prelude.{
  ℕ, suc, ◌<◌, ◌≤◌, ◌≡◌, ◌∙◌, refl, ap, sym, Bool, true, false, ◌&&◌, ◌||◌, some, List, [], ◌∷◌,
  length, ◌==◌, if◌then◌else◌, arith, inl, inr, Bool-cases, Option-cases, ◌^◌,
}
use go_mud.Prelude.Predicates.{All}
use go_mud.Prelude.Bytes.{is_empty, eq_bytes, eq_bytes_iff, NoDash}
use go_mud.Quests.{
  Quest, Quests, Progress, get_quest, is_token_after, comes_after, token_to_parts, parts_to_token,
  start_step, end_step,
}
use go_mud.Quests.Tokens.{token_to_parts-parts_to_token}

-- The place of the first step of a name, or the number of steps.
pub index : List ℕ → List (List ℕ) → ℕ
index step [] = 0
index step (s ∷ steps) = if eq_bytes s step then 0 else suc (index step steps)

-- No step stands twice.
abbrev pub Unique : List (List ℕ) → Type 0
Unique [] = Unit
Unique (s ∷ steps) = All (λ t. eq_bytes s t ≡ false) steps × Unique steps

index-absent :
    (step : List ℕ) (steps : List (List ℕ))
    → All (λ t. eq_bytes step t ≡ false) steps
    → index step steps ≡ length steps
unfolding index
index-absent step [] h = refl
index-absent step (s ∷ steps) h =
    ground (arith, index-absent step steps h.1, h.0, eq_bytes_iff s step, eq_bytes_iff step s)

found_later :
    (current next : List ℕ) (started : Bool) (steps : List (List ℕ))
    → comes_after current next started steps ≡ true
    → index next steps < length steps
unfolding comes_after index
found_later current next started [] h = absurd (cc)
found_later current next started (s ∷ steps) h =
    ground (arith, found_later current next (started || eq_bytes s current) steps)

comes_after-index :
    (current next : List ℕ) (steps : List (List ℕ))
    → Unique steps
    → eq_bytes current next ≡ false
    → comes_after current next false steps ≡ true
    → index current steps < index next steps
unfolding comes_after index
comes_after-index current next [] u ne h = absurd (cc)
comes_after-index current next (s ∷ steps) u ne h = elim (Bool-cases (eq_bytes s current)) [
  | inl e ↦ ground (arith, eq_bytes_iff s current, eq_bytes_iff s next, eq_bytes_iff current next)
  | inr e ↦
      let k : comes_after current next false steps ≡ true = rw (comes_after, e) at h in
      elim (Bool-cases (eq_bytes s next)) [
        | inl g ↦ absurd (
            omega (
              arith,
              ap (λ t. index t steps) ((eq_bytes_iff s next).0 g),
              index-absent s steps u.0,
              found_later current next false steps k,
            ))
        | inr g ↦ rw (e, g) (omega (arith, comes_after-index current next steps u.1 ne k))
      ]
]

-- The steps of a quest are different and have names.
pub record IsProper (quest : Quest) : Type 0 where
  pub once : Unique quest.steps
  pub named : All (λ s. is_empty s ≡ false) quest.steps

comes_after-named :
    (current next : List ℕ) (started : Bool) (steps : List (List ℕ))
    → All (λ s. is_empty s ≡ false) steps
    → comes_after current next started steps ≡ true
    → is_empty next ≡ false
unfolding comes_after
comes_after-named current next started [] n h = absurd (cc)
comes_after-named current next started (s ∷ steps) n h = elim (Bool-cases (eq_bytes s next)) [
  | inl e ↦ ap is_empty (sym ((eq_bytes_iff s next).0 e)) ∙ n.0
  | inr e ↦ comes_after-named current next (started || eq_bytes s current) steps n.1 (
      passed (started || eq_bytes s current)
        (comes_after current next (started || eq_bytes s current) steps) (rw (comes_after, e) at h))
]
  where
    passed : (a b : Bool) → (if a && false then true else b) ≡ true → b ≡ true
    passed a b h = ground arith

-- What a character's progress is like: steps that tokens can have.
pub record IsTidy (progress : Progress) : Type 0 where
  pub plain : (id : ℕ) (step : List ℕ) → progress id ≡ some step → All NoDash step

-- How far a step is: 0 for no progress.
pub rank : List (List ℕ) → List ℕ → ℕ
rank steps step = if is_empty step then 0 else suc (index step steps)

index-le : (step : List ℕ) (steps : List (List ℕ)) → index step steps ≤ length steps
unfolding index
index-le step [] = omega arith
index-le step (s ∷ steps) = ground (arith, index-le step steps)

-- What is taken up with no progress is `start` or `end`.
first_step :
    (next : List ℕ) (single : Bool)
    → (if eq_bytes next start_step then true else if eq_bytes next end_step then single else false)
      ≡ true
    → is_empty next ≡ false
first_step [] single h = absurd (cc)
first_step (b ∷ bs) single h = refl

pub rank-nil : (steps : List (List ℕ)) → rank steps [] ≡ 0
unfolding rank
rank-nil steps = refl

module _ (quests : Quests) (id : ℕ) (quest : Quest) (at : quests id ≡ some quest)
    (proper : IsProper quest) where
  get_quest-steps :
      (token : List ℕ) (found : Quest)
      → (token_to_parts token).0 ≡ id
      → get_quest quests token ≡ some found
      → found.steps ≡ quest.steps
  unfolding get_quest
  get_quest-steps token found e h = let k = rw (get_quest, e, at) at h in ground arith

  -- Progress to a token that comes after is progress in rank.
  pub advance-rank :
      (token current : List ℕ)
      → (token_to_parts token).0 ≡ id
      → id < 2 ^ 63
      → All NoDash current
      → is_token_after quests (parts_to_token id current) token ≡ true
      → (rank quest.steps current < rank quest.steps (token_to_parts token).1)
        × (rank quest.steps (token_to_parts token).1 ≤ suc (length quest.steps))
  unfolding is_token_after rank
  advance-rank token current e small plain h =
      let next = (token_to_parts token).1 in
      let own = token_to_parts-parts_to_token id current small plain in
      let self : (id == id) ≡ true = ground arith in
      elim (Bool-cases (is_empty current)) [
        | inl f ↦
            let k = rw (is_token_after, own, f) at h in
            let some_step : is_empty next ≡ false = first_step next _ k in
            ground (arith, index-le next quest.steps)
        | inr f ↦ elim (Bool-cases (eq_bytes current next)) [
          | inl g ↦ absurd (let k = rw (is_token_after, own, f, e, self, g) at h in cc)
          | inr g ↦ elim (Option-cases (get_quest quests (parts_to_token id current))) [
            | inl q ↦ absurd (let k = rw (is_token_after, own, f, e, self, g, q) at h in cc)
            | inr (found, q) ↦
                let steps =
                  get_quest-steps (parts_to_token id current) found (ap (λ p. p.0) own) q in
                let k = rw (is_token_after, own, f, e, self, g, q, own, steps) at h in
                ground (
                  arith,
                  index-le next quest.steps,
                  comes_after-named current next false quest.steps proper.named k,
                  comes_after-index current next quest.steps proper.once g k,
                )
          ]
        ]
      ]

-- ===== src/Mutators/Updating.antt =====
-- internal/mutators/mutators.go, the updates of a list: they do not panic, and what they keep.
use Prim.Native.String.{String}
use text.Mathlib.Text.{◌==◌ as str_eq}
use go_mud.Prelude.{
  ℕ, ◌≡◌, ◌⊎◌, Bool, true, false, ◌||◌, ◌<◌, ◌≤◌, ◌==◌, none, not, Option, some, List, [], ◌∷◌,
}
use go_mud.Mutators.{MutatorSpec, Mutator, update_mutator, is_mutator}

module _ (all_mutators : String → Option MutatorSpec) (add_period : String → ℕ → ℕ) where
  -- A spec that decays into another names one that there is.
  abbrev pub IsClosed : Type 0
  IsClosed =
      (name : String) (spec : MutatorSpec)
      → all_mutators name ≡ some spec
      → (str_eq spec.decay_into_id "" ≡ true)
        ⊎ (is_mutator all_mutators add_period spec.decay_into_id ≡ true)

  abbrev pub Known : Mutator → Type 0
  Known m = is_mutator all_mutators add_period m.mutator_id ≡ true

  -- The mutator is live, or its spec has a respawn rate.
  pub stays : Mutator → Bool
  stays m = m.despawned_round == 0 || elim (all_mutators m.mutator_id) [
    | none ↦ false
    | some spec ↦ not (str_eq spec.respawn_rate "")
  ]

  -- A mutator that is gone and has a respawn rate is live again, from the round on at which the rate
  -- is over, if that round has come, and else it is as it was.
  abbrev pub Respawns : ℕ → Mutator → Mutator → Type 0
  Respawns now m m' =
      (spec : MutatorSpec)
      → all_mutators m.mutator_id ≡ some spec
      → str_eq spec.respawn_rate "" ≡ false
      → 0 < m.despawned_round
      → let due = add_period spec.respawn_rate m.despawned_round in
        ((due ≤ now) × (m' ≡ record m { despawned_round = 0; spawned_round = due }))
        ⊎ ((now < due) × (m' ≡ m))

  -- The mutators before and after their own updates.
  pub data Updated (now : ℕ) : List Mutator → List Mutator → Type 0 where
    no_more : Updated now [] []
    one_more :
        {ml us : List Mutator} {m u : Mutator}
        → update_mutator all_mutators add_period now m ≡ some u
        → Respawns now m u
        → Updated now ml us
        → Updated now (m ∷ ml) (u ∷ us)

-- ===== src/Mutators.antt =====
-- internal/mutators/mutators.go: the mutators of a room or a zone. The specs that the data files
-- give are a parameter, with the fields that the operations read, and so is
-- `gametime.GetDate(round).AddPeriod(rate)`. A mutator whose id has no spec makes `Update` and
-- `Removable` panic: these give `none`.
pub mod Updating
pub mod Listed
mod Tests
use Prim.Native.String.{String, len, slice}
use text.Mathlib.Text.{◌==◌ as str_eq}
use go_mud.Prelude.{
  ℕ, ◌-◌, Bool, true, false, ◌&&◌, ◌||◌, not, Option, none, some, List, [], ◌∷◌, ◌++◌, leb, ◌==◌,
  if◌then◌else◌,
}

pub record MutatorSpec : Type 0 where
  pub decay_into_id : String
  pub decay_rate : String
  pub respawn_rate : String

pub record Mutator : Type 0 where
  pub mutator_id : String
  pub spawned_round : ℕ
  pub despawned_round : ℕ

-- `strings.HasSuffix`
pub has_suffix : String → String → Bool
has_suffix s t = leb (len t) (len s) && str_eq (slice s (len s - len t) (len s)) t

pub special_period : String → Bool
special_period rate =
    has_suffix rate "noon"
    || has_suffix rate "noons"
    || has_suffix rate "midnight"
    || has_suffix rate "midnights"
    || has_suffix rate "sunrise"
    || has_suffix rate "sunrises"
    || has_suffix rate "sunset"
    || has_suffix rate "sunsets"

pub live : Mutator → Bool
live m = m.despawned_round == 0

-- The first block of `Update`: the round of a mutator that is new.
pub initialize : MutatorSpec → ℕ → Mutator → Mutator
initialize spec now m =
    if m.spawned_round == 0 && m.despawned_round == 0
    then if special_period spec.respawn_rate
      then record m { despawned_round = now }
      else record m { spawned_round = now }
    else m

module _ (all_mutators : String → Option MutatorSpec) (add_period : String → ℕ → ℕ) where
  -- The second block: a mutator that is gone and may come back.
  pub respawn : MutatorSpec → ℕ → Mutator → Mutator
  respawn spec now m =
      let respawn_round = add_period spec.respawn_rate m.despawned_round in
      if leb respawn_round now
      then record m { despawned_round = 0; spawned_round = respawn_round }
      else m

  -- The last block.
  pub decay : MutatorSpec → ℕ → Mutator → Mutator
  decay spec now m =
      if str_eq spec.decay_rate ""
      then m
      else if leb (add_period spec.decay_rate m.spawned_round) now
      then if str_eq spec.decay_into_id ""
        then record m { despawned_round = now }
        else record { mutator_id = spec.decay_into_id; spawned_round = now; despawned_round = 0 }
      else m

  -- `(*Mutator).Update`
  pub update_mutator : ℕ → Mutator → Option Mutator
  unfolding initialize respawn decay live
  update_mutator now m = elim (all_mutators m.mutator_id) [
    | none ↦ none
    | some spec ↦
        let m' = initialize spec now m in
        if not (str_eq spec.respawn_rate "") && not (live m')
        then some (respawn spec now m')
        else some (decay spec now m')
  ]

  -- `(*Mutator).Removable`
  pub removable : Mutator → Option Bool
  unfolding live
  removable m = if live m then some false else elim (all_mutators m.mutator_id) [
    | none ↦ none
    | some spec ↦ some (str_eq spec.respawn_rate "")
  ]

  -- `(*MutatorList).Update`: the loop with the removal of the marked indices, from the last on.
  pub update_list : ℕ → List Mutator → Option (List Mutator)
  update_list now [] = some []
  update_list now (m ∷ ml) = elim (update_mutator now m) [
    | none ↦ none
    | some m' ↦ elim (removable m') [
      | none ↦ none
      | some remove ↦ elim (update_list now ml) [
        | none ↦ none
        | some rest ↦ some (if remove then rest else m' ∷ rest)
      ]
    ]
  ]

  pub is_mutator : String → Bool
  is_mutator name = elim (all_mutators name) [ none ↦ false | some spec ↦ true ]

  pub has_loop : String → List Mutator → Bool
  has_loop name [] = false
  has_loop name (m ∷ ml) = if str_eq m.mutator_id name then true else has_loop name ml

  pub has : String → List Mutator → Bool
  has name ml = if is_mutator name then has_loop name ml else false

  -- The loop of `Add`: the first one of the name that is not live starts again; else one is added.
  pub add_loop : ℕ → String → List Mutator → Option (List Mutator)
  add_loop now name [] =
      some (record { mutator_id = name; spawned_round = 0; despawned_round = 0 } ∷ [])
  add_loop now name (m ∷ ml) =
      if str_eq m.mutator_id name && not (live m)
      then elim (update_mutator now (record m { despawned_round = 0; spawned_round = 0 })) [
        | none ↦ none
        | some m' ↦ some (m' ∷ ml)
      ]
      else elim (add_loop now name ml) [ none ↦ none | some rest ↦ some (m ∷ rest) ]

  pub add : ℕ → String → List Mutator → Option (List Mutator × Bool)
  add now name ml =
      if is_mutator name
      then elim (add_loop now name ml) [ none ↦ none | some rest ↦ some (rest, true) ]
      else some (ml, false)

  -- The loop of `Remove`, up to the update: the first live one of the name is marked as despawned.
  pub remove_loop : ℕ → String → List Mutator → Option (List Mutator)
  remove_loop now name [] = none
  remove_loop now name (m ∷ ml) =
      if str_eq m.mutator_id name && live m
      then some (record m { despawned_round = now; spawned_round = 0 } ∷ ml)
      else elim (remove_loop now name ml) [ none ↦ none | some rest ↦ some (m ∷ rest) ]

  pub remove : ℕ → String → List Mutator → Option (List Mutator × Bool)
  remove now name ml = elim (remove_loop now name ml) [
    | none ↦ some (ml, false)
    | some marked ↦ elim (update_list now marked) [ none ↦ none | some rest ↦ some (rest, true) ]
  ]

  pub get_active : List Mutator → List Mutator
  get_active [] = []
  get_active (m ∷ ml) = if live m then m ∷ get_active ml else get_active ml

-- ===== src/Mutators/Listed.antt =====
-- internal/mutators/mutators.go: adding a mutator to a list and removing one.
use Prim.Native.String.{String}
use text.Mathlib.Text.{◌==◌ as str_eq}
use text.Mathlib.TextEquality.{eq_iff}
use go_mud.Prelude.{
  ℕ, ◌<◌, ◌≤◌, ◌≡◌, refl, true, false, not, Option, some, List, [], ◌∷◌, ◌++◌, arith, Bool-cases,
  inl, inr,
}
use go_mud.Prelude.Predicates.{All}
use go_mud.Mutators.{
  MutatorSpec, Mutator, live, initialize, decay, update_mutator, removable, update_list, is_mutator,
  remove, remove_loop, add, add_loop,
}

module _ (all_mutators : String → Option MutatorSpec) (add_period : String → ℕ → ℕ) where
  -- Each mutator of the name is live.
  abbrev pub AllLive : String → List Mutator → Type 0
  AllLive name ml = All (λ m. (str_eq m.mutator_id name ≡ true) → (live m ≡ true)) ml

  add_loop-live :
      (now : ℕ) (name : String) (ml : List Mutator)
      → AllLive name ml
      → add_loop all_mutators add_period now name ml
        ≡ some (ml ++ record { mutator_id = name; spawned_round = 0; despawned_round = 0 } ∷ [])
  unfolding add_loop
  add_loop-live now name [] h = refl
  add_loop-live now name (m ∷ ml) h = elim (Bool-cases (str_eq m.mutator_id name)) [
    | inl e ↦ rw (e, h.0 e, add_loop, add_loop-live now name ml h.1) refl
    | inr e ↦ rw (e, add_loop, add_loop-live now name ml h.1) refl
  ]

  -- `Add` of a name with a spec, in a list where each mutator of the name is live, adds a new one
  -- at the end, whether or not the list has one already: so a mutator that is live and is added
  -- again stands in the list twice.
  add_live :
      (now : ℕ) (name : String) (ml : List Mutator)
      → is_mutator all_mutators add_period name ≡ true
      → AllLive name ml
      → add all_mutators add_period now name ml
        ≡ some
            (ml ++ record { mutator_id = name; spawned_round = 0; despawned_round = 0 } ∷ [], true)
  unfolding add
  add_live now name ml known h = rw (known, add, add_loop-live now name ml h) refl

  marked_decays :
      (now : ℕ) (m : Mutator) (spec : MutatorSpec)
      → 0 < m.despawned_round
      → all_mutators m.mutator_id ≡ some spec
      → str_eq spec.respawn_rate "" ≡ true
      → str_eq spec.decay_rate "" ≡ false
      → str_eq spec.decay_into_id "" ≡ false
      → add_period spec.decay_rate m.spawned_round ≤ now
      → update_mutator all_mutators add_period now m
        ≡ some
            (record { mutator_id = spec.decay_into_id; spawned_round = now; despawned_round = 0 })
  unfolding update_mutator initialize decay
  marked_decays now m spec gone e respawns decays into past =
      rw (e, update_mutator, respawns, not, decays, into) (ground arith)

  -- In a list of exactly one mutator, live, whose spec has no respawn rate, a decay rate, and an id to
  -- decay into: `Remove` of it at a round that is above 0 and not before one decay period added to
  -- round 0 does not take it away; the update that follows turns it into what it decays into, live
  -- from now on.
  remove_decays :
      (now : ℕ) (m : Mutator) (spec : MutatorSpec)
      → 0 < now
      → live m ≡ true
      → all_mutators m.mutator_id ≡ some spec
      → str_eq spec.respawn_rate "" ≡ true
      → str_eq spec.decay_rate "" ≡ false
      → str_eq spec.decay_into_id "" ≡ false
      → add_period spec.decay_rate 0 ≤ now
      → remove all_mutators add_period now m.mutator_id (m ∷ [])
        ≡ some (
          record { mutator_id = spec.decay_into_id; spawned_round = now; despawned_round = 0 } ∷ [],
          true,
        )
  unfolding remove remove_loop update_list removable live
  remove_decays now m spec gone alive e respawns decays into past =
      let same : str_eq m.mutator_id m.mutator_id ≡ true =
        (eq_iff m.mutator_id m.mutator_id).1 refl in
      let marked = record m { despawned_round = now; spawned_round = 0 } in
      let step = marked_decays now marked spec gone e respawns decays into past in
      rw (same, alive, remove_loop, remove) (rw (step, update_list) refl)

-- ===== src/Buffs/Kept.antt =====
-- internal/buffs/buffs.go: the operations of a round keep the list and the id map in agreement.
use mathlib.Core.List.{reverse, reverse-reverse}
use native.Mathlib.Nat.{zero-add}
use go_mud.Prelude.{
  ℕ, suc, zero, ◌≤◌, ◌≡◌, refl, Bool, true, none, some, List, [], ◌∷◌, arith, inl, inr,
  Option-cases, sym, ◌∙◌, ap,
}
use go_mud.Prelude.Int.{ℤ, pos}
use go_mud.Prelude.Assoc.{lookup, int_eq}
use go_mud.Buffs.{
  Buff, BuffSpec, Buffs, Specs, new, get_buff_spec, validate, rebuild, add_buff, remove_buff,
  started,
}
use go_mud.Buffs.Rounds.{prune, trigger_buff, trigger_loop, trigger}
use go_mud.Buffs.Indexed.{
  IsIndexed, id_count, position, SameIds, SameIds-IsIndexed, ℕ_zero, add_buff-IsIndexed,
  remove_buff-IsIndexed, started-IsIndexed,
}
use go_mud.Buffs.Pruning.{
  survivors, casualties, prune_loop-all, rebuild-absent, rebuild-present, rebuild-list, List-cases,
}

module _ (specs : Specs) where
  id_count-survivors : (id : ℤ) (l : List Buff) → id_count id (survivors specs l) ≤ id_count id l
  unfolding id_count survivors
  id_count-survivors id [] = omega arith
  id_count-survivors id (b ∷ l) = ground (arith, id_count-survivors id l)

  pub survivors_all : (l : List Buff) → casualties specs l ≡ [] → survivors specs l ≡ l
  unfolding survivors casualties
  survivors_all [] h = refl
  survivors_all (b ∷ l) h = ground (arith, survivors_all l)

  pub validate_forced :
      (bs : Buffs)
      → validate specs true bs
        ≡ rebuild specs 0 bs.list (record bs { buff_ids = []; buff_flags = [] })
  unfolding validate
  validate_forced bs = ground arith

  validate-IsIndexed :
      (bs : Buffs) → ((id : ℤ) → id_count id bs.list ≤ 1) → IsIndexed (validate specs true bs)
  validate-IsIndexed bs h = rw (validate_forced bs) (record {
    sound = λ id i e. elim (ℕ_zero (id_count id bs.list)) [
      | inl z ↦ absurd (ground (arith, rebuild-absent specs 0 bs.list clear id z, e, lookup_nil id))
      | inr p ↦
          let (j, at) = position id bs.list p in
          let e' = rebuild-present specs 0 bs.list clear id j (h id) at in
          let same : j ≡ i = ground arith in rw kept (rw same at at)
    ];
    complete = λ id i at.
        rebuild-present specs 0 bs.list clear id i (h id) (rw kept at at) ∙ ap some (zero-add i);
    unique = λ id. rw kept (h id);
  })
    where
      clear : Buffs
      clear = record bs { buff_ids = []; buff_flags = [] }

      kept : (rebuild specs 0 bs.list clear).list ≡ bs.list
      kept = rebuild-list specs 0 bs.list clear

      lookup_nil : (id : ℤ) → lookup id clear.buff_ids ≡ none
      lookup_nil id = unfold lookup in refl

  pub prune-IsIndexed : (bs : Buffs) → IsIndexed bs → IsIndexed (prune specs bs).0
  unfolding prune
  prune-IsIndexed bs v =
      let left = ap (λ s. s.0) (prune_loop-all specs bs.list) in
      elim (List-cases (reverse (casualties specs bs.list))) [
        | inl e ↦
            let no_loss = sym (reverse-reverse (casualties specs bs.list)) ∙ ap reverse e in
            rw (prune_loop-all specs bs.list, e, prune) (rw (left, survivors_all bs.list no_loss) v)
        | inr (b, r, e) ↦
            rw (prune_loop-all specs bs.list, e, prune)
              (validate-IsIndexed _
                (λ id. rw left (omega (arith, id_count-survivors id bs.list, v.unique id))))
      ]

  trigger_buff-id : (n : ℕ) (b : Buff) → (trigger_buff n b).0.buff_id ≡ b.buff_id
  unfolding trigger_buff
  trigger_buff-id n b = ground arith

  -- One buff in the loop of `Trigger`.
  abbrev triggered_head : Buff → Buff
  triggered_head b = elim (get_buff_spec specs b.buff_id) [
    | none ↦ b
    | some info ↦ (trigger_buff info.round_interval b).0
  ]

  triggered_head-id : (b : Buff) → (triggered_head b).buff_id ≡ b.buff_id
  triggered_head-id b = elim (Option-cases (get_buff_spec specs b.buff_id)) [
    | inl e ↦ ground arith
    | inr (info, e) ↦ ground (arith, trigger_buff-id info.round_interval b)
  ]

  trigger_loop-cons :
      (b : Buff) (l : List Buff)
      → (trigger_loop specs (b ∷ l)).0 ≡ triggered_head b ∷ (trigger_loop specs l).0
  unfolding trigger_loop
  trigger_loop-cons b l = ground arith

  pub trigger_loop-SameIds : (l : List Buff) → SameIds l (trigger_loop specs l).0
  unfolding id_count
  trigger_loop-SameIds [] = unfold trigger_loop in record { at = λ i. refl; counts = λ id. refl }
  trigger_loop-SameIds (b ∷ l) = rw (trigger_loop-cons b l) (record {
    at = elim [ zero ↦ ap some (triggered_head-id b) | suc i ↦ (trigger_loop-SameIds l).at i ];
    counts = λ id. ground (arith, triggered_head-id b, (trigger_loop-SameIds l).counts id);
  })

  pub trigger-IsIndexed :
      (ids : List ℤ) (bs : Buffs) → IsIndexed bs → IsIndexed (trigger specs ids bs).0
  unfolding trigger
  trigger-IsIndexed ids bs v = SameIds-IsIndexed bs _ (trigger_loop-SameIds bs.list) v

-- The operations on a character's buffs; buffs are added by the ids of the specs.
pub data Call (specs : Specs) (bs : Buffs) : Buffs → Type 0 where
  adding : (id : ℕ) (permanent : Bool) → Call specs bs (add_buff specs (pos id) permanent bs).0
  removing : (id : ℤ) → Call specs bs (remove_buff id bs).0
  starting : (id : ℤ) → Call specs bs (started id bs)
  triggering : (ids : List ℤ) → Call specs bs (trigger specs ids bs).0
  pruning : Call specs bs (prune specs bs).0

pub data Reach (specs : Specs) : Buffs → Type 0 where
  start : Reach specs new
  next : {bs cs : Buffs} → Reach specs bs → Call specs bs cs → Reach specs cs

new-IsIndexed : IsIndexed new
unfolding new lookup id_count
new-IsIndexed = record { sound = λ id i h. cc; complete = λ id i h. cc; unique = λ id. omega arith }

pub spec_at :
    (specs : Specs) (id : ℕ) (info : BuffSpec)
    → get_buff_spec specs (pos id) ≡ some info
    → specs id ≡ some info
unfolding get_buff_spec
spec_at specs id info e = e

-- After any sequence of additions, removals, start marks, triggers and prunings that begins with no
-- buff, each buff id stands at most once in the list, and the id map gives an id exactly the
-- position at which it stands. Every spec is found under its own id.
pub Reach-IsIndexed :
    (specs : Specs) {bs : Buffs}
    → ((id : ℕ) (info : BuffSpec) → specs id ≡ some info → info.buff_id ≡ pos id)
    → Reach specs bs
    → IsIndexed bs
Reach-IsIndexed specs own start = new-IsIndexed
Reach-IsIndexed specs own (next {bs} r (adding id p)) =
    add_buff-IsIndexed specs (pos id) p bs (λ info e. own id info (spec_at specs id info e))
      (Reach-IsIndexed specs own r)
Reach-IsIndexed specs own (next {bs} r (removing id)) =
    remove_buff-IsIndexed id bs (Reach-IsIndexed specs own r)
Reach-IsIndexed specs own (next {bs} r (starting id)) =
    started-IsIndexed id bs (Reach-IsIndexed specs own r)
Reach-IsIndexed specs own (next {bs} r (triggering ids)) =
    trigger-IsIndexed specs ids bs (Reach-IsIndexed specs own r)
Reach-IsIndexed specs own (next {bs} r pruning) =
    prune-IsIndexed specs bs (Reach-IsIndexed specs own r)

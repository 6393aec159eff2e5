-- ===== src/Buffs/Rounds.antt =====
-- internal/buffs/buffs.go, the operations of a round: Trigger, GetBuffs, Prune, HasFlag and
-- GetDurations. Validated specs have a round interval of at least 1.
use go_mud.Prelude.{
  ℕ, suc, zero, ◌+◌, ◌-◌, ◌*◌, ◌%◌, Bool, true, false, none, some, List, [], ◌∷◌, ◌++◌, ◌==◌, ltb,
  if◌then◌else◌, length, get_elem?, take, drop,
}
use go_mud.Prelude.Int.{ℤ, pos, ◌==ℤ◌, sub_ℕ}
use go_mud.Prelude.Assoc.{string_eq}
use go_mud.Buffs.{
  Buff, BuffSpec, Buffs, Specs, get_buff_spec, expired, validate, triggers_left_unlimited,
}

-- One buff in `Trigger`: the buff afterwards, and whether it triggered.
unfoldable pub trigger_buff : ℕ → Buff → Buff × Bool
trigger_buff interval b =
    if ltb 0 b.triggers_left
    then (let counter = b.round_counter + 1 in
        if counter % interval == 0
        then if b.triggers_left == triggers_left_unlimited
          then (record b { round_counter = 0 }, true)
          else (record b { round_counter = counter; triggers_left = b.triggers_left - 1 }, true)
        else (record b { round_counter = counter }, false))
    else (b, false)

module _ (specs : Specs) where
  -- The loop of `Trigger`: the list afterwards, and the buffs that triggered. The code's inner loop
  -- over the ids asked for continues only itself, so the ids play no part.
  unfoldable pub trigger_loop : List Buff → List Buff × List Buff
  trigger_loop [] = ([], [])
  trigger_loop (b ∷ l) =
      let (l', triggered) = trigger_loop l in
      elim (get_buff_spec specs b.buff_id) [
        | none ↦ (b ∷ l', triggered)
        | some info ↦
            let (b', hit) = trigger_buff info.round_interval b in
            (b' ∷ l', if hit then b' ∷ triggered else triggered)
      ]

  unfoldable pub trigger : List ℤ → Buffs → Buffs × List Buff
  trigger ids bs = let (l, triggered) = trigger_loop bs.list in (record bs { list = l }, triggered)

  -- Whether `Prune` drops the buff.
  unfoldable pub dead : Buff → Bool
  dead b = elim (get_buff_spec specs b.buff_id) [ none ↦ true | some _ ↦ expired b ]

  -- The loop of `Prune` over the positions below the given one, downwards.
  unfoldable pub prune_loop : ℕ → List Buff → List Buff → List Buff × List Buff
  prune_loop zero l pruned = (l, pruned)
  prune_loop (suc i) l pruned = elim (get_elem? l i) [
    | none ↦ prune_loop i l pruned
    | some b ↦ elim (dead b) [
      | true ↦ prune_loop i (take i l ++ drop (suc i) l) (pruned ++ b ∷ [])
      | false ↦ prune_loop i l pruned
    ]
  ]

  unfoldable pub prune : Buffs → Buffs × List Buff
  prune bs =
      let (l, pruned) = prune_loop (length bs.list) bs.list [] in
      let bs' = record bs { list = l } in
      elim pruned [ [] ↦ (bs', []) | b ∷ r ↦ (validate specs true bs', b ∷ r) ]

-- The inner loop of `GetBuffs`: one copy for each id asked for that is the buff's.
unfoldable pub matching : List ℤ → Buff → List Buff
matching [] b = []
matching (id ∷ ids) b = let r = matching ids b in if b.buff_id ==ℤ id then b ∷ r else r

unfoldable pub get_buffs_loop : List ℤ → List Buff → List Buff
unfolding matching
get_buffs_loop ids [] = []
get_buffs_loop ids (b ∷ l) =
    let r = get_buffs_loop ids l in
    if expired b then r else elim ids [ [] ↦ b ∷ r | i ∷ is ↦ matching (i ∷ is) b ++ r ]

unfoldable pub get_buffs : List ℤ → Buffs → List Buff
unfolding get_buffs_loop
get_buffs ids bs = get_buffs_loop ids bs.list

-- (rounds left, total rounds)
unfoldable pub get_durations : Buff → BuffSpec → ℤ × ℤ
get_durations b spec =
    let total = spec.trigger_count * spec.round_interval in (sub_ℕ total b.round_counter, pos total)

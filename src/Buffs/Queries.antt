-- ===== src/Buffs/Queries.antt =====
-- internal/buffs/buffs.go: HasFlag on the buffs that a character can come to have, and the panic of
-- HasFlag with `expire` set.
use Prim.Native.String.{String}
use text.Mathlib.Text.{◌==◌ as str_eq}
use go_mud.Prelude.{
  ℕ, suc, ◌≡◌, ◌≢◌, refl, Bool, true, false, not, ◌&&◌, none, some, List, [], ◌∷◌, if◌then◌else◌,
  arith, inl, inr, Option-cases,
}
use go_mud.Prelude.Int.{ℤ, pos}
use go_mud.Prelude.Assoc.{lookup, int_eq, string_eq}
use go_mud.Buffs.{Buff, BuffSpec, Buffs, Specs, new, get_buff_spec, expired}
use go_mud.Buffs.Flags.{all_flag, flag_hit, hit, has_flag_loop, has_flag, absent}
use go_mud.Buffs.Indexed.{id_at}
use go_mud.Buffs.Kept.{Reach, adding, removing, starting, triggering, pruning, start, next, spec_at}
use go_mud.Buffs.Flagged.{
  IsFlagged, member, spec_flags, add_buff-IsFlagged, remove_buff-IsFlagged, started-IsFlagged,
  trigger-IsFlagged, prune-IsFlagged,
}

Reach-IsFlagged :
    (specs : Specs) {bs : Buffs}
    → ((id : ℕ) (info : BuffSpec) → specs id ≡ some info → info.buff_id ≡ pos id)
    → Reach specs bs
    → IsFlagged specs bs
unfolding new
Reach-IsFlagged specs own start = record { known = λ i id h. cc; keyed = λ f i id h. cc }
Reach-IsFlagged specs own (next {bs} r (adding id p)) =
    add_buff-IsFlagged specs (pos id) p bs (λ info e. own id info (spec_at specs id info e))
      (Reach-IsFlagged specs own r)
Reach-IsFlagged specs own (next {bs} r (removing id)) =
    remove_buff-IsFlagged specs id bs (Reach-IsFlagged specs own r)
Reach-IsFlagged specs own (next {bs} r (starting id)) =
    started-IsFlagged specs id bs (Reach-IsFlagged specs own r)
Reach-IsFlagged specs own (next {bs} r (triggering ids)) =
    trigger-IsFlagged specs ids bs (Reach-IsFlagged specs own r)
Reach-IsFlagged specs own (next {bs} r pruning) =
    prune-IsFlagged specs bs (Reach-IsFlagged specs own r)

pub some_flag : List String → Bool
some_flag [] = false
some_flag (f ∷ fs) = true

-- Whether a buff has triggers left and has the flag by its spec; every flag counts for "".
unfoldable pub is_live_with : Specs → String → Buff → Bool
is_live_with specs f b =
    not (expired b)
    && (if str_eq f all_flag
        then some_flag (spec_flags specs b.buff_id)
        else member f (spec_flags specs b.buff_id))

unfoldable pub any_live : Specs → String → List Buff → Bool
any_live specs f [] = false
any_live specs f (b ∷ l) = if is_live_with specs f b then true else any_live specs f l

flag_hit_lem :
    (f : String) (fs : List String)
    → flag_hit f fs ≡ (if str_eq f all_flag then some_flag fs else member f fs)
unfolding flag_hit some_flag member
flag_hit_lem f [] = ground arith
flag_hit_lem f (g ∷ gs) = ground (arith, flag_hit_lem f gs)

pub hit_lem :
    (specs : Specs) (f : String) (b : Buff)
    → get_buff_spec specs b.buff_id ≢ none
    → hit specs f b ≡ some (is_live_with specs f b)
unfolding hit is_live_with
hit_lem specs f b h = elim (Option-cases (get_buff_spec specs b.buff_id)) [
  | inl e ↦ absurd (h e)
  | inr (info, e) ↦ ground (arith, flag_hit_lem f info.flags)
]

has_flag_loop_lem :
    (specs : Specs) (f : String) (l : List Buff)
    → ((i : ℕ) (id : ℤ) → id_at l i ≡ some id → get_buff_spec specs id ≢ none)
    → has_flag_loop specs f l ≡ some (any_live specs f l)
unfolding has_flag_loop any_live
has_flag_loop_lem specs f [] h = refl
has_flag_loop_lem specs f (b ∷ l) h =
    ground
      (arith, hit_lem specs f b (h 0 b.buff_id refl), has_flag_loop_lem specs f l (λ i. h (suc i)))

absent_live :
    (specs : Specs) (f : String) (l : List Buff)
    → str_eq f all_flag ≡ false
    → ((i : ℕ) (id : ℤ) → id_at l i ≡ some id → member f (spec_flags specs id) ≡ true → ⊥)
    → any_live specs f l ≡ false
unfolding any_live is_live_with
absent_live specs f [] n h = refl
absent_live specs f (b ∷ l) n h =
    ground (arith, h 0 b.buff_id refl, absent_live specs f l n (λ i. h (suc i)))

-- On every collection of buffs that arises from the empty one by additions, removals, start marks,
-- triggers and prunings, `HasFlag` without `expire` does not panic, changes nothing, and answers
-- whether some buff with triggers left has the flag by its spec (any flag at all, for the flag "").
-- Every spec is found under its own id.
pub Reach-has_flag :
    (specs : Specs) (bs : Buffs) (f : String)
    → ((id : ℕ) (info : BuffSpec) → specs id ≡ some info → info.buff_id ≡ pos id)
    → Reach specs bs
    → has_flag specs f false bs ≡ some (bs, any_live specs f bs.list)
unfolding has_flag
Reach-has_flag specs bs f own r =
    let v = Reach-IsFlagged specs own r in
    ground (
      arith,
      has_flag_loop_lem specs f bs.list v.known,
      λ (n : str_eq f all_flag ≡ false) (a : absent (lookup f bs.buff_flags) ≡ true).
          absent_live specs f bs.list n (λ i id at m. cc (v.keyed f i id at m, a)),
    )

-- ===== src/Buffs/Tests.antt =====
-- Runs of internal/buffs/buffs.go, and the theorems at concrete buffs.
use Prim.Native.String.{String}
use text.Mathlib.Text.{◌==◌ as str_eq}
use mathlib.Core.List.{}
use go_mud.Prelude.{
  ℕ, ◌*◌, ◌/◌, ◌≡◌, ◌≢◌, ◌&&◌, ◌||◌, if◌then◌else◌, refl, true, false, not, none, some, [], ◌∷◌,
  ◌==◌, arith,
}
use go_mud.Prelude.Int.{pos, ◌==ℤ◌}
use go_mud.Prelude.Assoc.{lookup, insert, string_eq, int_eq}
use go_mud.Buffs.{
  Buff, BuffSpec, Buffs, Specs, new, get_buff_spec, expired, add_buff, add_flags, add_flag,
  at_index, triggers_left_unlimited,
}
use go_mud.Buffs.Rounds.{trigger, trigger_loop, trigger_buff}
use go_mud.Buffs.Flags.{has_flag, hit, flag_hit, all_flag, absent}
use go_mud.Buffs.Indexed.{IsIndexed}
use go_mud.Buffs.Kept.{Reach, start, next, adding, Reach-IsIndexed}
use go_mud.Buffs.Lifetime.{rounds, rounds-expired}
use go_mud.Buffs.Queries.{Reach-has_flag, any_live}
use go_mud.Buffs.Expiring.{clear_flag, has_flag_expires, has_flag_panics}

-- Buff 0 (meditation) and buff 3 (hidden) are both cancelled by an action.
abbrev spec_of : ℕ → BuffSpec
spec_of n = record {
  buff_id = pos n;
  name = "buff";
  round_interval = 2;
  trigger_count = 3;
  stat_mods = [];
  flags = "cancel-on-action" ∷ [];
}

table : Specs
table n = if n == 0 || n == 3 then some (spec_of n) else none

own : (id : ℕ) (info : BuffSpec) → table id ≡ some info → info.buff_id ≡ pos id
unfolding table
own id info h = ground arith

abbrev both : Buffs
both = (add_buff table (pos 3) false (add_buff table (pos 0) false new).0).0

abbrev hidden : Buffs
hidden = (add_buff table (pos 3) false new).0

both-Reach : Reach table both
both-Reach = next (next start (adding 0 false)) (adding 3 false)

hidden-Reach : Reach table hidden
hidden-Reach = next start (adding 3 false)

-- What the list of `both` holds.
abbrev fresh : ℕ → Buff
fresh n = record {
  buff_id = pos n;
  source = "";
  on_start_waiting = false;
  perma_buff = false;
  round_counter = 0;
  triggers_left = 3;
}

both_list : both.list ≡ fresh 0 ∷ fresh 3 ∷ []
unfolding add_buff new table lookup insert add_flags add_flag ◌==ℤ◌ get_buff_spec at_index
both_list = refl

hidden_list : hidden.list ≡ fresh 3 ∷ []
unfolding add_buff new table lookup get_buff_spec
hidden_list = refl

abbrev action : String
action = "cancel-on-action"

both_keyed : (not (str_eq action all_flag) && absent (lookup action both.buff_flags)) ≡ false
unfolding add_buff new table lookup insert add_flags add_flag ◌==ℤ◌ get_buff_spec at_index absent
both_keyed = refl

hidden_keyed : (not (str_eq action all_flag) && absent (lookup action hidden.buff_flags)) ≡ false
unfolding add_buff new table lookup insert add_flags add_flag ◌==ℤ◌ get_buff_spec at_index absent
hidden_keyed = refl

fresh_hits : (hit table action (fresh 0) ≡ some true) × (hit table action (fresh 3) ≡ some true)
unfolding hit table get_buff_spec expired flag_hit
fresh_hits = (refl, refl)

-- A trigger that is asked for buff 7 alone triggers buff 3 all the same.
other_id_triggers :
    (trigger table
      (pos 7 ∷ [])
      (record hidden { list = record (fresh 3) { round_counter = 1 } ∷ [] })).1
    ≡ record (fresh 3) { round_counter = 2; triggers_left = 2 } ∷ []
unfolding trigger trigger_loop trigger_buff table get_buff_spec
other_id_triggers = refl

Reach-IsIndexed_example : IsIndexed both
Reach-IsIndexed_example = Reach-IsIndexed table own both-Reach

rounds-expired_example :
    let (t, n) = rounds 2 6 (fresh 3) in (n ≡ 6 / 2) × (expired t ≡ (6 == 3 * 2))
rounds-expired_example =
    rounds-expired 2 3 6 (fresh 3) (omega arith) (omega arith) refl refl (omega arith)

abbrev permanent : Buff
permanent = record (fresh 3) { triggers_left = triggers_left_unlimited; perma_buff = true }

Reach-has_flag_example :
    has_flag table action false both ≡ some (both, any_live table action both.list)
Reach-has_flag_example = Reach-has_flag table both action own both-Reach

hidden_known : get_buff_spec table (pos 3) ≢ none
unfolding get_buff_spec table
hidden_known = λ h. cc

has_flag_expires_example :
    has_flag table action true hidden
    ≡ some (
      record hidden { list = clear_flag table action hidden.list },
      any_live table action hidden.list,
    )
has_flag_expires_example =
    has_flag_expires table action hidden (rw hidden_list ((λ h. ground arith), hidden_known, tt))
      hidden_keyed

has_flag_panics_example : has_flag table action true both ≡ none
has_flag_panics_example =
    has_flag_panics table action both (fresh 0) (fresh 3) both_list refl (λ h. cc) fresh_hits.0
      fresh_hits.1 both_keyed

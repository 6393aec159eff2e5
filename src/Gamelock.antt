-- ===== src/Gamelock.antt =====
-- internal/gamelock/gamelock.go: a lock on a container or an exit. The current round and the period
-- arithmetic of gametime are parameters; the buffs of a trap are ids.
pub mod Relocking
mod Tests
use Prim.Native.String.{String}
use text.Mathlib.Text.{◌==◌ as str_eq}
use go_mud.Prelude.{ℕ, Bool, true, false, List, leb, ltb, ◌==◌, if◌then◌else◌}

abbrev pub default_relock_time : String
default_relock_time = "1 hour"

pub record Lock : Type 0 where
  pub difficulty : ℕ
  pub unlocked_round : ℕ
  pub relock_interval : String
  pub trap_buff_ids : List ℕ

pub is_locked : (String → ℕ → ℕ) → ℕ → Lock → Bool
is_locked add_period now l =
    if l.difficulty == 0
    then false
    else if l.unlocked_round == 0
    then true
    else if str_eq l.relock_interval ""
    then leb (add_period default_relock_time now) now
    else leb (add_period l.relock_interval now) now

pub set_unlocked : ℕ → Lock → Lock
set_unlocked now l = if ltb 0 l.difficulty then record l { unlocked_round = now } else l

pub set_locked : Lock → Lock
set_locked l = record l { unlocked_round = 0 }

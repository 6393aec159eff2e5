-- ===== src/Cooldowns.antt =====
-- internal/characters/cooldowns.go: the rounds until a character may try something again. The map
-- is a function here, since each operation treats the tags one by one; it is not nil. The period
-- arithmetic of gametime is a parameter.
pub mod Waiting
mod Tests
use Prim.Native.String.{String}
use text.Mathlib.Text.{◌==◌ as str_eq}
use go_mud.Prelude.{ℕ, zero, suc, Bool, true, false, Option, none, some, if◌then◌else◌}
use go_mud.Prelude.Int.{ℤ, pos, ◌-ℤ◌, ltb_ℤ, sub_ℕ}

abbrev pub Cooldowns : Type 0
Cooldowns = String → Option ℤ

pub round_tick : Cooldowns → Cooldowns
round_tick cd tag = elim (cd tag) [ none ↦ none | some n ↦ some (n -ℤ pos 1) ]

pub prune : Cooldowns → Cooldowns
prune cd tag = elim (cd tag) [ none ↦ none | some n ↦ if ltb_ℤ (pos 0) n then some n else none ]

pub set_rounds : String → ℤ → Cooldowns → Cooldowns
set_rounds tag n cd other = if str_eq tag other then some n else cd other

module _ (add_period : String → ℕ → ℕ) where
  pub rounds_of : String → ℤ
  rounds_of period = sub_ℕ (add_period period 1000000) 1000000

  pub try : String → String → Cooldowns → Cooldowns × Bool
  try tag period cd =
      let pruned = prune cd in
      if ltb_ℤ (rounds_of period) (pos 1) then (pruned, true) else elim (pruned tag) [
        | none ↦ (set_rounds tag (rounds_of period) pruned, true)
        | some n ↦
            if ltb_ℤ (pos 0) n
            then (pruned, false)
            else (set_rounds tag (rounds_of period) pruned, true)
      ]

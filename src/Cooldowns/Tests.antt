-- ===== src/Cooldowns/Tests.antt =====
-- Runs of internal/characters/cooldowns.go, and the theorem at a concrete character.
use Prim.Native.String.{String}
use go_mud.Prelude.{ℕ, ◌+◌, ◌≡◌, refl, true, false, none}
use go_mud.Cooldowns.{Cooldowns, prune, set_rounds, rounds_of, try}
use go_mud.Cooldowns.Waiting.{ticks, try-ticks}

abbrev no_cooldowns : Cooldowns
no_cooldowns tag = none

abbrev three_rounds : String → ℕ → ℕ
three_rounds period r = r + 3

blocked_at_once :
    (try three_rounds "steal" "3 rounds" (try three_rounds "steal" "3 rounds" no_cooldowns).0).1
    ≡ false
unfolding try rounds_of prune set_rounds
blocked_at_once = refl

try-ticks_example :
    (try three_rounds "steal" "3 rounds"
      (ticks 3 (try three_rounds "steal" "3 rounds" no_cooldowns).0)).1
    ≡ true
unfolding try rounds_of prune
try-ticks_example =
    try-ticks three_rounds "steal" "3 rounds" "3 rounds" no_cooldowns 3 2 refl refl refl

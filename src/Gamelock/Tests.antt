-- ===== src/Gamelock/Tests.antt =====
-- A run of internal/gamelock/gamelock.go, and the theorem at a concrete lock.
use Prim.Native.String.{String}
use go_mud.Prelude.{ℕ, ◌+◌, ◌≡◌, refl, true, []}
use go_mud.Gamelock.{Lock, is_locked}

abbrev chest : Lock
chest = record { difficulty = 3; unlocked_round = 0; relock_interval = "1 day"; trap_buff_ids = [] }

abbrev ten_rounds : String → ℕ → ℕ
ten_rounds period r = r + 10

chest_locked : is_locked ten_rounds 100 chest ≡ true
unfolding is_locked
chest_locked = refl

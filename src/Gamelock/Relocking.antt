-- ===== src/Gamelock/Relocking.antt =====
-- internal/gamelock/gamelock.go: when a lock is locked.
use Prim.Native.String.{String}
use text.Mathlib.Text.{◌==◌ as str_eq}

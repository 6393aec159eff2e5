-- ===== src/Mutators/Tests.antt =====
-- Runs of internal/mutators/mutators.go, and the theorems at concrete mutators.
use Prim.Native.String.{String}
use text.Mathlib.Text.{◌==◌ as str_eq}
use go_mud.Prelude.{ℕ, ◌+◌, ◌≡◌, refl, true, Option, some, if◌then◌else◌}
use go_mud.Mutators.{MutatorSpec, Mutator, has_suffix, special_period}

abbrev fire_spec : MutatorSpec
fire_spec = record { decay_into_id = "ash"; decay_rate = "10 rounds"; respawn_rate = "" }

abbrev ash_spec : MutatorSpec
ash_spec = record { decay_into_id = ""; decay_rate = ""; respawn_rate = "" }

abbrev lava_spec : MutatorSpec
lava_spec = record { decay_into_id = ""; decay_rate = ""; respawn_rate = "10 rounds" }

-- Any name but two is ash.
abbrev specs : String → Option MutatorSpec
specs name =
    some
      (if str_eq name "fire" then fire_spec else if str_eq name "lava" then lava_spec else ash_spec)

abbrev ten_rounds : String → ℕ → ℕ
ten_rounds rate r = r + 10

abbrev fire : Mutator
fire = record { mutator_id = "fire"; spawned_round = 15; despawned_round = 0 }

suffixes : special_period "2 sunrises" ≡ true
unfolding special_period has_suffix
suffixes = refl

-- Gone since round 5, and back ten rounds later.
abbrev lava : Mutator
lava = record { mutator_id = "lava"; spawned_round = 0; despawned_round = 5 }

-- ===== src/Character/Tests.antt =====
-- A character at concrete numbers.
use go_mud.Prelude.{◌≡◌, refl, [], ◌∷◌, arith}
use go_mud.Prelude.Int.{pos, negsuc, ◌+ℤ◌}
use go_mud.Character.Vitals.{Vitals, apply_health_change, heal}
use go_mud.Character.Clamped.{
  min_ℤ, max_ℤ, apply_health_change_clamped, IsWithin, health, healing, points, run_calls,
  run_calls-IsWithin,
}
use go_mud.Character.Memory.{Recalls, remember_room, remember_rooms, remember_rooms-Recalls}

abbrev hurt : Vitals
hurt = record {
  health = pos 3;
  health_max = pos 20;
  mana = pos 5;
  mana_max = pos 10;
  action_points = pos 100;
}

apply_health_change_clamped_example :
    ((apply_health_change (negsuc 49) hurt).0.health
      ≡ min_ℤ (pos 20) (max_ℤ (negsuc 4) (pos 3 +ℤ negsuc 49)))
    × (pos 3 +ℤ (apply_health_change (negsuc 49) hurt).2
        ≡ (apply_health_change (negsuc 49) hurt).0.health)
apply_health_change_clamped_example = apply_health_change_clamped (negsuc 49) hurt (omega arith)

hurt-IsWithin : IsWithin hurt
hurt-IsWithin = record {
  floor = omega arith;
  top = omega arith;
  mana_floor = omega arith;
  mana_top = omega arith;
  points = omega arith;
  health_max = omega arith;
  mana_max = omega arith;
}

run_calls-IsWithin_example : IsWithin (
    run_calls
      (health (negsuc 49) ∷ health (negsuc 49) ∷ healing (pos 30) (pos 1) ∷ points (pos 7) ∷ [])
      hurt)
run_calls-IsWithin_example =
    run_calls-IsWithin
      (health (negsuc 49) ∷ health (negsuc 49) ∷ healing (pos 30) (pos 1) ∷ points (pos 7) ∷ [])
      hurt (tt, (tt, (omega arith, (tt, tt)))) hurt-IsWithin

-- A healing of 2 and of no mana.
healed : (heal (pos 2) (pos 0) hurt).0.mana ≡ pos 7
unfolding heal ◌+ℤ◌
healed = refl

remember_rooms-Recalls_example : Recalls 1 (4 ∷ 5 ∷ 6 ∷ []) (remember_rooms 1 (4 ∷ 5 ∷ 6 ∷ []) [])
remember_rooms-Recalls_example = remember_rooms-Recalls 1 (4 ∷ 5 ∷ 6 ∷ []) (omega arith)

pruned : remember_rooms 1 (4 ∷ 5 ∷ 6 ∷ []) [] ≡ 6 ∷ []
unfolding remember_rooms remember_room
pruned = refl

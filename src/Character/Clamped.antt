-- ===== src/Character/Clamped.antt =====
-- internal/characters/character.go: the vitals stay within their limits.
use go_mud.Prelude.{◌≡◌, inl, inr, Bool-cases, if◌then◌else◌, arith, List, [], ◌∷◌}
use go_mud.Prelude.Int.{ℤ, pos, negsuc, ◌+ℤ◌, ◌-ℤ◌, ◌≤ℤ◌, ltb_ℤ, +ℤ_parts, int_laws}
use go_mud.Prelude.Predicates.{All}
use go_mud.Character.Vitals.{
  Vitals, limit_health, apply_health_change, apply_mana_change, heal, deduct_action_points,
}

pub min_ℤ : ℤ → ℤ → ℤ
min_ℤ a b = if ltb_ℤ b a then b else a

pub max_ℤ : ℤ → ℤ → ℤ
max_ℤ a b = if ltb_ℤ a b then b else a

add_sub : (a b : ℤ) → a +ℤ (b -ℤ a) ≡ b
add_sub a b = omega int_laws

-- The health after a change is the sum, kept between a floor and the maximum, which is not negative:
-- the floor is -5 for a character that was up, so that no single change kills it, and -10 for one that
-- was down. The change that is returned is the difference.
pub apply_health_change_clamped :
    (change : ℤ) (v : Vitals)
    → pos 0 ≤ℤ v.health_max
    → let floor = if ltb_ℤ (pos 0) v.health then negsuc 4 else negsuc 9 in
      let result = apply_health_change change v in
      ((result.0).health ≡ min_ℤ v.health_max (max_ℤ floor (v.health +ℤ change)))
      × (v.health +ℤ result.2 ≡ (result.0).health)
unfolding apply_health_change limit_health min_ℤ max_ℤ
apply_health_change_clamped change v top = (
  ground (arith, +ℤ_parts v.health change),
  add_sub v.health (limit_health v.health (v.health +ℤ change) v.health_max),
)

-- The vitals are within their limits.
pub record IsWithin (v : Vitals) : Type 0 where
  pub floor : negsuc 9 ≤ℤ v.health
  pub top : v.health ≤ℤ v.health_max
  pub mana_floor : pos 0 ≤ℤ v.mana
  pub mana_top : v.mana ≤ℤ v.mana_max
  pub points : pos 0 ≤ℤ v.action_points
  pub health_max : pos 0 ≤ℤ v.health_max
  pub mana_max : pos 0 ≤ℤ v.mana_max

pub data Call : Type 0 where
  health : ℤ → Call
  mana : ℤ → Call
  healing : ℤ → ℤ → Call
  points : ℤ → Call

pub apply : Call → Vitals → Vitals
apply (health change) v = (apply_health_change change v).0
apply (mana change) v = (apply_mana_change change v).0
apply (healing hp mp) v = (heal hp mp v).0
apply (points amount) v = (deduct_action_points amount v).0

-- A healing is not negative.
abbrev pub IsCall : Call → Type 0
IsCall (health change) = Unit
IsCall (mana change) = Unit
IsCall (healing hp mp) = pos 0 ≤ℤ hp
IsCall (points amount) = Unit

pub run_calls : List Call → Vitals → Vitals
run_calls [] v = v
run_calls (c ∷ calls) v = run_calls calls (apply c v)

limit_health-low : (old new top : ℤ) → pos 0 ≤ℤ top → negsuc 9 ≤ℤ limit_health old new top
unfolding limit_health
limit_health-low old new top h = ground arith

limit_health-top : (old new top : ℤ) → pos 0 ≤ℤ top → limit_health old new top ≤ℤ top
unfolding limit_health
limit_health-top old new top h = ground arith

-- The health, the mana or the points change, and the limits stay.
with_health :
    (h : ℤ) (v : Vitals)
    → negsuc 9 ≤ℤ h
    → h ≤ℤ v.health_max
    → IsWithin v
    → IsWithin (record v { health = h })
with_health h v low top w = record {
  floor = low;
  top = top;
  mana_floor = w.mana_floor;
  mana_top = w.mana_top;
  points = w.points;
  health_max = w.health_max;
  mana_max = w.mana_max;
}

with_mana :
    (m : ℤ) (v : Vitals)
    → pos 0 ≤ℤ m
    → m ≤ℤ v.mana_max
    → IsWithin v
    → IsWithin (record v { mana = m })
with_mana m v low top w = record {
  floor = w.floor;
  top = w.top;
  mana_floor = low;
  mana_top = top;
  points = w.points;
  health_max = w.health_max;
  mana_max = w.mana_max;
}

with_points :
    (p : ℤ) (v : Vitals) → pos 0 ≤ℤ p → IsWithin v → IsWithin (record v { action_points = p })
with_points p v low w = record {
  floor = w.floor;
  top = w.top;
  mana_floor = w.mana_floor;
  mana_top = w.mana_top;
  points = low;
  health_max = w.health_max;
  mana_max = w.mana_max;
}

-- A sum with a number that is not negative, cut at the top.
raised :
    (a b low top : ℤ)
    → low ≤ℤ a
    → low ≤ℤ top
    → pos 0 ≤ℤ b
    → low ≤ℤ (if ltb_ℤ top (a +ℤ b) then top else a +ℤ b)
raised a b low top h k l = ground (arith, +ℤ_parts a b)

cut_top : (a top : ℤ) → (if ltb_ℤ top a then top else a) ≤ℤ top
cut_top a top = ground arith

cut_low :
    (a top : ℤ)
    → pos 0 ≤ℤ top
    → pos 0 ≤ℤ (if ltb_ℤ a (pos 0) then pos 0 else if ltb_ℤ top a then top else a)
cut_low a top h = ground arith

cut_both :
    (a top : ℤ)
    → pos 0 ≤ℤ top
    → (if ltb_ℤ a (pos 0) then pos 0 else if ltb_ℤ top a then top else a) ≤ℤ top
cut_both a top h = ground arith

not_negative : (a : ℤ) → pos 0 ≤ℤ (if ltb_ℤ a (pos 0) then pos 0 else a)
not_negative a = ground arith

deduct_action_points-IsWithin :
    (amount : ℤ) (v : Vitals) → IsWithin v → IsWithin (deduct_action_points amount v).0
unfolding deduct_action_points
deduct_action_points-IsWithin amount v w = elim (Bool-cases (ltb_ℤ v.action_points amount)) [
  | inl e ↦ rw (e, deduct_action_points) w
  | inr e ↦
      rw (e, deduct_action_points) (with_points _ v (not_negative (v.action_points -ℤ amount)) w)
]

apply-IsWithin : (c : Call) (v : Vitals) → IsCall c → IsWithin v → IsWithin (apply c v)
unfolding apply apply_health_change apply_mana_change heal deduct_action_points
apply-IsWithin (health change) v ok w =
    with_health (limit_health v.health (v.health +ℤ change) v.health_max) v
      (limit_health-low v.health (v.health +ℤ change) v.health_max w.health_max)
      (limit_health-top v.health (v.health +ℤ change) v.health_max w.health_max) w
apply-IsWithin (mana change) v ok w =
    with_mana _ v (cut_low (v.mana +ℤ change) v.mana_max w.mana_max)
      (cut_both (v.mana +ℤ change) v.mana_max w.mana_max) w
apply-IsWithin (healing hp mp) v ok w =
    let up = if ltb_ℤ v.health_max (v.health +ℤ hp) then v.health_max else v.health +ℤ hp in
    with_mana _ (record v { health = up })
      (raised v.mana hp (pos 0) v.mana_max w.mana_floor w.mana_max ok)
      (cut_top (v.mana +ℤ hp) v.mana_max)
      (with_health up v
        (raised v.health hp (negsuc 9) v.health_max w.floor (omega (arith, w.health_max)) ok)
        (cut_top (v.health +ℤ hp) v.health_max) w)
apply-IsWithin (points amount) v ok w = deduct_action_points-IsWithin amount v w

-- Whatever the changes of health and mana, the healings that are not negative and the points that are
-- spent, where the limits hold at the start: the health stays between -10 and
-- its maximum, the mana between 0 and its maximum, and the action points are not negative.
pub run_calls-IsWithin :
    (calls : List Call) (v : Vitals) → All IsCall calls → IsWithin v → IsWithin (run_calls calls v)
unfolding run_calls
run_calls-IsWithin [] v ok w = w
run_calls-IsWithin (c ∷ calls) v ok w =
    run_calls-IsWithin calls (apply c v) ok.1 (apply-IsWithin c v ok.0 w)

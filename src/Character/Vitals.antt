-- ===== src/Character/Vitals.antt =====
-- internal/characters/character.go: health, mana, action points and alignment. `ApplyHealthChange` asks
-- for the buffs that combat cancels to be removed; that request is the second result.
use go_mud.Prelude.{Bool, true, false, ◌&&◌, if◌then◌else◌}
use go_mud.Prelude.Int.{ℤ, pos, negsuc, ◌+ℤ◌, ◌-ℤ◌, ltb_ℤ}

pub record Vitals : Type 0 where
  pub health : ℤ
  pub health_max : ℤ
  pub mana : ℤ
  pub mana_max : ℤ
  pub action_points : ℤ

-- What `ApplyHealthChange` makes of the health before and the sum.
unfoldable pub limit_health : ℤ → ℤ → ℤ → ℤ
limit_health old new top =
    if ltb_ℤ new (pos 0)
    then if ltb_ℤ new (negsuc 4) && ltb_ℤ (pos 0) old
      then negsuc 4
      else if ltb_ℤ new (negsuc 8)
      then negsuc 9
      else new
    else if ltb_ℤ top new
    then top
    else new

-- The vitals, whether the combat buffs are to be cancelled, and the change that was made.
unfoldable pub apply_health_change : ℤ → Vitals → Vitals × Bool × ℤ
apply_health_change change v =
    let new = v.health +ℤ change in
    let limited = limit_health v.health new v.health_max in
    (record v { health = limited }, ltb_ℤ new (pos 0), limited -ℤ v.health)

unfoldable pub apply_mana_change : ℤ → Vitals → Vitals × ℤ
apply_mana_change change v =
    let new = v.mana +ℤ change in
    let limited =
      if ltb_ℤ new (pos 0) then pos 0 else if ltb_ℤ v.mana_max new then v.mana_max else new in
    (record v { mana = limited }, limited -ℤ v.mana)

-- The mana rises by `hp`, as in the source.
unfoldable pub heal : ℤ → ℤ → Vitals → Vitals × ℤ × ℤ
heal hp mana v =
    let health = if ltb_ℤ v.health_max (v.health +ℤ hp) then v.health_max else v.health +ℤ hp in
    let mana = if ltb_ℤ v.mana_max (v.mana +ℤ hp) then v.mana_max else v.mana +ℤ hp in
    (record v { health = health; mana = mana }, health -ℤ v.health, mana -ℤ v.mana)

unfoldable pub deduct_action_points : ℤ → Vitals → Vitals × Bool
deduct_action_points amount v =
    let left = v.action_points -ℤ amount in
    if ltb_ℤ v.action_points amount
    then (v, false)
    else (record v { action_points = if ltb_ℤ left (pos 0) then pos 0 else left }, true)

-- An alignment is from -100 to 100.
unfoldable pub update_alignment : ℤ → ℤ → ℤ
update_alignment amount alignment =
    let new = alignment +ℤ amount in
    if ltb_ℤ new (negsuc 99) then negsuc 99 else if ltb_ℤ (pos 100) new then pos 100 else new

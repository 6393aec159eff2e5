-- ===== src/KdStats/Tests.antt =====
-- Runs of internal/characters/kdstats.go, and the theorem at a concrete character.
use Prim.Native.String.{String}
use go_mud.Prelude.{ℕ, ◌+◌, ◌≡◌, refl, [], ◌∷◌, if◌then◌else◌}
use go_mud.Prelude.Assoc.{lookup, insert, nat_eq}
use go_mud.KdStats.{KdStats, get_mob_kills, add_mob_kill, add_player_kill}
use go_mud.KdStats.Tallies.{start, mob_kill, player_kill, total, Reach-total}

abbrev new_character : KdStats
new_character = record {
  total_kills = 0;
  kills = [];
  total_deaths = 0;
  total_pvp_kills = 0;
  player_kills = [];
  player_deaths = [];
  total_pvp_deaths = 0;
}

abbrev name_only : ℕ → String → String
name_only id name = name

abbrev hunter : KdStats
hunter =
    add_player_kill name_only 4 "Bob"
      (add_mob_kill 7 (add_mob_kill 9 (add_mob_kill 7 new_character)))

hunter-kills : hunter.kills ≡ (7, 2) ∷ (9, 1) ∷ []
unfolding add_mob_kill add_player_kill insert lookup
hunter-kills = refl

Reach-total_example :
    (get_mob_kills [] hunter ≡ total hunter.kills)
    × (hunter.total_pvp_kills ≡ total hunter.player_kills)
    × ((id other : ℕ)
        → get_mob_kills (other ∷ []) (add_mob_kill id hunter)
          ≡ get_mob_kills (other ∷ []) hunter + (if nat_eq.beq id other then 1 else 0))
Reach-total_example =
    Reach-total name_only (player_kill 4 "Bob" (mob_kill 7 (mob_kill 9 (mob_kill 7 start))))

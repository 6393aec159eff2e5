-- ===== src/KdStats.antt =====
-- internal/characters/kdstats.go: the counts of kills and deaths. A nil map is an empty one, since
-- each operation makes it before it writes. `fmt.Sprintf("%d:%s", id, name)` is a parameter. The two
-- ratios are floating point numbers and are left out.
pub mod Tallies
mod Tests
use Prim.Native.String.{String}
use go_mud.Prelude.{ℕ, suc, ◌+◌, Option, none, some, List, [], ◌∷◌}
use go_mud.Prelude.Assoc.{lookup, insert, nat_eq, string_eq}

pub record KdStats : Type 0 where
  pub total_kills : ℕ
  pub kills : List (ℕ × ℕ)
  pub total_deaths : ℕ
  pub total_pvp_kills : ℕ
  pub player_kills : List (String × ℕ)
  pub player_deaths : List (String × ℕ)
  pub total_pvp_deaths : ℕ

-- A missing key reads as 0.
abbrev pub times : Option ℕ → ℕ
times none = 0
times (some n) = n

pub sum_kills : List ℕ → List (ℕ × ℕ) → ℕ
sum_kills [] kills = 0
sum_kills (id ∷ ids) kills = times (lookup id kills) + sum_kills ids kills

pub get_mob_kills : List ℕ → KdStats → ℕ
unfolding sum_kills
get_mob_kills [] kd = kd.total_kills
get_mob_kills (id ∷ ids) kd = sum_kills (id ∷ ids) kd.kills

pub add_mob_kill : ℕ → KdStats → KdStats
add_mob_kill mob_id kd = record kd {
  total_kills = suc kd.total_kills;
  kills = insert mob_id (times (lookup mob_id kd.kills) + 1) kd.kills;
}

pub get_mob_deaths : KdStats → ℕ
get_mob_deaths kd = kd.total_deaths

pub get_pvp_deaths : KdStats → ℕ
get_pvp_deaths kd = kd.total_pvp_deaths

pub add_mob_death : KdStats → KdStats
add_mob_death kd = record kd { total_deaths = suc kd.total_deaths }

pub add_pvp_death : KdStats → KdStats
add_pvp_death kd = record kd { total_pvp_deaths = suc kd.total_pvp_deaths }

module _ (key_name : ℕ → String → String) where
  pub add_player_kill : ℕ → String → KdStats → KdStats
  add_player_kill user_id char_name kd =
      let key = key_name user_id char_name in
      record kd {
        total_pvp_kills = suc kd.total_pvp_kills;
        player_kills = insert key (times (lookup key kd.player_kills) + 1) kd.player_kills;
      }

  pub add_player_death : ℕ → String → KdStats → KdStats
  add_player_death user_id char_name kd =
      let key = key_name user_id char_name in
      record kd {
        player_deaths = insert key (times (lookup key kd.player_deaths) + 1) kd.player_deaths;
      }

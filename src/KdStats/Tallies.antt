-- ===== src/KdStats/Tallies.antt =====
-- internal/characters/kdstats.go: the tallies are the sums of the maps.
use Prim.Native.String.{String}
use go_mud.Prelude.{ℕ, suc, ◌+◌, ◌≡◌, ◌∙◌, sym, ap, refl, List, [], ◌∷◌, arith, if◌then◌else◌}
use go_mud.Prelude.Assoc.{Eq, lookup, insert, nat_eq, string_eq, lookup-insert}
use go_mud.KdStats.{
  KdStats, times, sum_kills, get_mob_kills, add_mob_kill, add_mob_death, add_pvp_death,
  add_player_kill, add_player_death,
}

unfoldable pub total : {K : Type 0} → List (K × ℕ) → ℕ
total [] = 0
total ((k, n) ∷ m) = n + total m

module _ {K : Type 0} ⦃e : Eq K⦄ where
  total-insert :
      (k : K) (m : List (K × ℕ)) → total (insert k (times (lookup k m) + 1) m) ≡ suc (total m)
  unfolding total insert lookup
  total-insert k [] = refl
  total-insert k ((j, n) ∷ m) = ground (arith, total-insert k m)

module _ (key_name : ℕ → String → String) where
  -- The counts that the calls reach from those of a new character.
  pub data Reach : KdStats → Type 0 where
    start : Reach (record {
      total_kills = 0;
      kills = [];
      total_deaths = 0;
      total_pvp_kills = 0;
      player_kills = [];
      player_deaths = [];
      total_pvp_deaths = 0;
    })
    mob_kill : {kd : KdStats} (id : ℕ) → Reach kd → Reach (add_mob_kill id kd)
    mob_death : {kd : KdStats} → Reach kd → Reach (add_mob_death kd)
    pvp_death : {kd : KdStats} → Reach kd → Reach (add_pvp_death kd)
    player_kill :
        {kd : KdStats} (id : ℕ) (name : String)
        → Reach kd
        → Reach (add_player_kill key_name id name kd)
    player_death :
        {kd : KdStats} (id : ℕ) (name : String)
        → Reach kd
        → Reach (add_player_death key_name id name kd)

  -- After any calls, the tally of the kills is the sum of the kills of each mob, and the tally of the
  -- kills of players is the sum of those of each player; and one more kill of a mob changes what
  -- GetMobKills gives for that mob by one, and for no other.
  pub Reach-total :
      {kd : KdStats}
      → Reach kd
      → (get_mob_kills [] kd ≡ total kd.kills)
        × (kd.total_pvp_kills ≡ total kd.player_kills)
        × ((id other : ℕ)
            → get_mob_kills (other ∷ []) (add_mob_kill id kd)
              ≡ get_mob_kills (other ∷ []) kd + (if nat_eq.beq id other then 1 else 0))
  unfolding get_mob_kills add_mob_kill add_mob_death add_pvp_death add_player_kill add_player_death
      total sum_kills
  Reach-total {kd} c = (tallied c, pvp_tallied c, λ id other. one_more id other kd)
    where
      tallied : {kd : KdStats} → Reach kd → kd.total_kills ≡ total kd.kills
      tallied start = refl
      tallied (mob_kill {kd = kd} id c) = ap suc (tallied c) ∙ sym (total-insert id kd.kills)
      tallied (mob_death c) = tallied c
      tallied (pvp_death c) = tallied c
      tallied (player_kill id name c) = tallied c
      tallied (player_death id name c) = tallied c

      pvp_tallied : {kd : KdStats} → Reach kd → kd.total_pvp_kills ≡ total kd.player_kills
      pvp_tallied start = refl
      pvp_tallied (mob_kill id c) = pvp_tallied c
      pvp_tallied (mob_death c) = pvp_tallied c
      pvp_tallied (pvp_death c) = pvp_tallied c
      pvp_tallied (player_kill {kd = kd} id name c) =
          ap suc (pvp_tallied c) ∙ sym (total-insert (key_name id name) kd.player_kills)
      pvp_tallied (player_death id name c) = pvp_tallied c

      one_more :
          (id other : ℕ) (kd : KdStats)
          → get_mob_kills (other ∷ []) (add_mob_kill id kd)
            ≡ get_mob_kills (other ∷ []) kd + (if nat_eq.beq id other then 1 else 0)
      one_more id other kd =
          ground (arith, lookup-insert id other (times (lookup id kd.kills) + 1) kd.kills)

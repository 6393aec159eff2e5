-- ===== src/Follow/Tests.antt =====
-- Runs of modules/follow/follow.go, and the theorems at concrete followers.
use go_mud.Prelude.{ℕ, ◌≡◌, refl, none, [], ◌∷◌, if◌then◌else◌, ◌==◌}
use go_mud.Prelude.Assoc.{lookup, insert, erase}
use go_mud.Follow.{
  FollowId, FollowModule, same, follow_eq, get_followers, remove_id, has_id, drop_follower,
  stop_following, start_follow, lose_followers,
}
use go_mud.Follow.Consistent.{IsConsistent, follows}
use go_mud.Follow.Losing.{Reach, start, follow, lose_followers_lem, Reach-IsConsistent}

abbrev user_at : ℕ → FollowId
user_at u = record { user_id = u; mob_instance_id = 0 }

abbrev guard_mob : FollowId
guard_mob = record { user_id = 0; mob_instance_id = 7 }

abbrev nobody_follows : FollowModule
nobody_follows = record { followed = []; followers = []; follow_limits = [] }

-- The mob follows user 1 until round 50, and users 2 and 3 follow him too.
abbrev three_follow : FollowModule
three_follow =
    start_follow (user_at 1) (user_at 3) 0 (
      start_follow (user_at 1) (user_at 2) 0 (start_follow (user_at 1) guard_mob 50 nobody_follows))

three_follow-followers :
    get_followers (user_at 1) three_follow ≡ guard_mob ∷ user_at 2 ∷ user_at 3 ∷ []
unfolding start_follow stop_following get_followers same lookup insert erase
three_follow-followers = refl

switched :
    get_followers (user_at 1) (start_follow (user_at 9) (user_at 2) 0 three_follow)
    ≡ guard_mob ∷ user_at 3 ∷ []
unfolding start_follow stop_following get_followers same lookup insert erase drop_follower remove_id
    has_id
switched = refl

three_follow-Reach : Reach three_follow
three_follow-Reach =
    follow (user_at 1) (user_at 3) 0
      (follow (user_at 1) (user_at 2) 0 (follow (user_at 1) guard_mob 50 start))

Reach-IsConsistent_example : IsConsistent three_follow
Reach-IsConsistent_example = Reach-IsConsistent three_follow-Reach

lose_followers_lem_example :
    let (g, lost) = lose_followers (user_at 1) three_follow in
    (lost ≡ get_followers (user_at 1) three_follow)
    × (get_followers (user_at 1) g ≡ [])
    × IsConsistent g
    × ((s : FollowId)
        → lookup s g.followers ≡ (
            if 0 == follows s (user_at 1) three_follow
            then lookup s three_follow.followers
            else none))
lose_followers_lem_example =
    lose_followers_lem (user_at 1) three_follow (Reach-IsConsistent three_follow-Reach)

-- ===== src/Follow/Losing.antt =====
-- modules/follow/follow.go, loseFollowers, and runs of the module from its start.
use go_mud.Prelude.{ℕ, ◌≡◌, ◌∙◌, refl, none, List, [], ◌∷◌, ◌==◌, arith, if◌then◌else◌}
use go_mud.Prelude.Assoc.{lookup, lookup-erase}
use go_mud.Follow.{
  FollowId, FollowModule, same, same_iff, follow_eq, get_followers, has_id, stop_following,
  start_follow, stop_all, lose_followers,
}
use go_mud.Follow.Consistent.{
  IsConsistent, places, follows, stop_following-IsConsistent, start_follow-IsConsistent,
  has_id-places,
}

stop_all-IsConsistent :
    (l : List FollowId) (f : FollowModule) → IsConsistent f → IsConsistent (stop_all l f)
unfolding stop_all
stop_all-IsConsistent [] f v = v
stop_all-IsConsistent (x ∷ l) f v = stop_all-IsConsistent l _ (stop_following-IsConsistent x f v)

lookup-stop_following :
    (x s : FollowId) (f : FollowModule)
    → lookup s (stop_following x f).0.followers ≡ (if same x s then none else lookup s f.followers)
unfolding stop_following
lookup-stop_following x s f = ground (arith, lookup-erase x s f.followers, same_iff x s)

lookup-stop_all :
    (l : List FollowId) (s : FollowId) (f : FollowModule)
    → lookup s (stop_all l f).followers ≡ (if has_id s l then none else lookup s f.followers)
unfolding stop_all has_id
lookup-stop_all [] s f = refl
lookup-stop_all (x ∷ l) s f =
    ground (arith, lookup-stop_all l s (stop_following x f).0, lookup-stop_following x s f)

no_places : (l : List FollowId) → ((s : FollowId) → places s l ≡ 0) → l ≡ []
unfolding places
no_places [] h = refl
no_places (x ∷ l) h = absurd (ground (arith, h x, same_iff x x))

-- `loseFollowers` returns the followers of the target. After it the target has none, each of them
-- follows nobody, everybody else follows whom he followed, and the maps are consistent.
pub lose_followers_lem :
    (t : FollowId) (f : FollowModule)
    → IsConsistent f
    → let (g, lost) = lose_followers t f in
      (lost ≡ get_followers t f)
      × (get_followers t g ≡ [])
      × IsConsistent g
      × ((s : FollowId)
          → lookup s g.followers ≡ (if 0 == follows s t f then lookup s f.followers else none))
unfolding lose_followers
lose_followers_lem t f v =
    let w = stop_all-IsConsistent (get_followers t f) f v in
    (refl, no_places _ (λ s. w.inverse s t ∙ left s), w, gone)
  where
    gone :
        (s : FollowId)
        → lookup s (stop_all (get_followers t f) f).followers
          ≡ (if 0 == follows s t f then lookup s f.followers else none)
    gone s = ground (
      arith,
      lookup-stop_all (get_followers t f) s f,
      has_id-places s (get_followers t f),
      v.inverse s t,
    )

    left : (s : FollowId) → follows s t (stop_all (get_followers t f) f) ≡ 0
    left s = ground (arith, gone s)

pub data Reach : FollowModule → Type 0 where
  start : Reach (record { followed = []; followers = []; follow_limits = [] })
  follow :
      {f : FollowModule} (t s : FollowId) (cutoff : ℕ) → Reach f → Reach (start_follow t s cutoff f)
  stop : {f : FollowModule} (s : FollowId) → Reach f → Reach (stop_following s f).0
  lose : {f : FollowModule} (t : FollowId) → Reach f → Reach (lose_followers t f).0

-- After any calls of the module, a source stands exactly once among the followers of the target
-- that it follows and among no others, no target keeps an empty slice, and only a source that
-- follows somebody has a limit.
pub Reach-IsConsistent : {f : FollowModule} → Reach f → IsConsistent f
unfolding lose_followers same lookup
Reach-IsConsistent start = record {
  inverse = λ s t. unfold places get_followers in refl;
  nonempty = λ t h. absurd (cc);
  limited = λ s h. refl;
}
Reach-IsConsistent (follow {f = f} t s c r) =
    start_follow-IsConsistent t s c f (Reach-IsConsistent r)
Reach-IsConsistent (stop s r) = stop_following-IsConsistent s _ (Reach-IsConsistent r)
Reach-IsConsistent (lose t r) = stop_all-IsConsistent _ _ (Reach-IsConsistent r)

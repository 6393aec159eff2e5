-- ===== src/Follow/Consistent.antt =====
-- modules/follow/follow.go: the two maps of the module are inverse to each other.
use go_mud.Prelude.{
  ℕ, ◌+◌, ◌-◌, ◌≡◌, ◌≢◌, refl, false, none, some, List, [], ◌∷◌, ◌++◌, ltb, arith, if◌then◌else◌,
  Option-cases, inl, inr,
}
use go_mud.Prelude.Assoc.{lookup, insert, lookup-insert, lookup-erase}
use go_mud.Follow.{
  FollowId, FollowModule, same, same_iff, follow_eq, list_of, is_following, get_followers,
  remove_id, has_id, drop_follower, stop_following, start_follow,
}

-- How often the id stands in the list.
unfoldable pub places : FollowId → List FollowId → ℕ
places s [] = 0
places s (x ∷ xs) = (if same x s then 1 else 0) + places s xs

abbrev pub follows : FollowId → FollowId → FollowModule → ℕ
follows s t f = elim (lookup s f.followers) [ none ↦ 0 | some u ↦ if same u t then 1 else 0 ]

-- A source stands once among the followers of its target and nowhere else, no empty slice is kept,
-- and only a source has a limit.
pub record IsConsistent (f : FollowModule) : Type 0 where
  pub inverse : (s t : FollowId) → places s (get_followers t f) ≡ follows s t f
  pub nonempty : (t : FollowId) → lookup t f.followed ≢ some []
  pub limited : (s : FollowId) → is_following s f ≡ false → lookup s f.follow_limits ≡ none

places-remove_id :
    (u v : FollowId) (l : List FollowId)
    → places v (remove_id u l) ≡ places v l - (if same u v then 1 else 0)
unfolding remove_id places
places-remove_id u v [] = ground arith
places-remove_id u v (x ∷ xs) =
    ground (arith, places-remove_id u v xs, same_iff x u, same_iff x v, same_iff u v)

pub places-append :
    (u : FollowId) (l : List FollowId) (v : FollowId)
    → places u (l ++ v ∷ []) ≡ places u l + (if same v u then 1 else 0)
unfolding places
places-append u [] v = ground arith
places-append u (x ∷ xs) v = ground (arith, places-append u xs v)

pub has_id-places : (u : FollowId) (l : List FollowId) → has_id u l ≡ ltb 0 (places u l)
unfolding has_id places
has_id-places u [] = refl
has_id-places u (x ∷ xs) = ground (arith, has_id-places u xs)

-- The lookup in the map that the loop of `stopFollowing` leaves.
lookup-drop_follower :
    (t s u : FollowId) (m : List (FollowId × List FollowId))
    → lookup u (drop_follower t s m) ≡ (
        if same t u
        then if has_id s (list_of (lookup t m))
          then elim (remove_id s (list_of (lookup t m))) [ [] ↦ none | x ∷ xs ↦ some (x ∷ xs) ]
          else lookup t m
        else lookup u m)
unfolding drop_follower
lookup-drop_follower t s u m = ground (
  arith,
  lookup-insert t u [] m,
  same_iff t u,
  lookup-insert t u (remove_id s (list_of (lookup t m))) m,
  lookup-erase t u (insert t [] m),
)

places-drop_follower :
    (t s u v : FollowId) (m : List (FollowId × List FollowId))
    → places v (list_of (lookup u (drop_follower t s m)))
      ≡ places v (list_of (lookup u m)) - (if same t u then if same s v then 1 else 0 else 0)
unfolding places
places-drop_follower t s u v m = ground (
  arith,
  lookup-drop_follower t s u m,
  same_iff t u,
  same_iff s v,
  has_id-places s (list_of (lookup t m)),
  places-remove_id s v (list_of (lookup t m)),
)

pub nonempty-drop_follower :
    (t s u : FollowId) (m : List (FollowId × List FollowId))
    → lookup u m ≢ some []
    → lookup u (drop_follower t s m) ≢ some []
nonempty-drop_follower t s u m h = ground (arith, lookup-drop_follower t s u m, same_iff t u)

pub stopped : (x : FollowId) (f : FollowModule) → lookup x (stop_following x f).0.followers ≡ none
unfolding stop_following
stopped x f = ground (arith, lookup-erase x x f.followers, same_iff x x)

append_nonempty : (l : List FollowId) (x : FollowId) → some (l ++ x ∷ []) ≢ some []
append_nonempty [] x h = absurd (cc)
append_nonempty (y ∷ l) x h = absurd (cc)

-- What is known of one pair of ids is kept by a call, so the clauses are lemmas over one pair.
pub inverse-stop_following :
    (x s t : FollowId) (f : FollowModule)
    → ((s t : FollowId) → places s (get_followers t f) ≡ follows s t f)
    → places s (get_followers t (stop_following x f).0) ≡ follows s t (stop_following x f).0
unfolding stop_following get_followers
inverse-stop_following x s t f v = elim (Option-cases (lookup x f.followers)) [
  | inl e ↦ rw (e, stop_following) (v s t)
  | inr (u, e) ↦
      rw (e, stop_following)
        (ground (
          arith,
          v s t,
          places-drop_follower u x t s f.followed,
          lookup-erase x s f.followers,
          same_iff x s,
          same_iff u t,
        ))
]

pub stop_following-IsConsistent :
    (x : FollowId) (f : FollowModule) → IsConsistent f → IsConsistent (stop_following x f).0
unfolding stop_following is_following
stop_following-IsConsistent x f v = record {
  inverse = λ s t. inverse-stop_following x s t f v.inverse;
  nonempty = λ t. elim (Option-cases (lookup x f.followers)) [
    | inl e ↦ rw (e, stop_following) (v.nonempty t)
    | inr (u, e) ↦ rw (e, stop_following) (nonempty-drop_follower u x t f.followed (v.nonempty t))
  ];
  limited = λ s h. ground (
    arith,
    v.limited s,
    h,
    lookup-erase x s f.followers,
    lookup-erase x s f.follow_limits,
    same_iff x s,
  );
}

pub start_follow-IsConsistent :
    (t x : FollowId) (cutoff : ℕ) (f : FollowModule)
    → IsConsistent f
    → IsConsistent (start_follow t x cutoff f)
unfolding start_follow is_following get_followers
start_follow-IsConsistent t x cutoff f v =
    let g = (stop_following x f).0 in
    let w = stop_following-IsConsistent x f v in
    let l = list_of (lookup t g.followed) in
    record {
      inverse = λ s u. ground (
        arith,
        w.inverse s u,
        stopped x f,
        lookup-insert t u (l ++ x ∷ []) g.followed,
        lookup-insert x s t g.followers,
        places-append s l x,
        same_iff x s,
        same_iff t u,
      );
      nonempty = λ u.
          ground
            (arith, w.nonempty u, lookup-insert t u (l ++ x ∷ []) g.followed, append_nonempty l x);
      limited = λ s h. ground (
        arith,
        h,
        w.limited s,
        lookup-insert x s t g.followers,
        lookup-insert x s cutoff g.follow_limits,
        same_iff x s,
      );
    }

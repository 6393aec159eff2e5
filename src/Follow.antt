-- ===== src/Follow.antt =====
-- modules/follow/follow.go: who follows whom. The two maps and the limits are Go maps, and the
-- slices are lists. A user or a mob is named by its two ids.
pub mod Consistent
pub mod Losing
mod Tests
use go_mud.Prelude.{
  ℕ, ◌≡◌, ◌↔◌, Bool, true, false, ◌&&◌, Option, none, some, List, [], ◌∷◌, ◌++◌, ltb, ◌==◌, arith,
  if◌then◌else◌,
}
use go_mud.Prelude.Assoc.{Eq, lookup, insert, erase}

pub record FollowId : Type 0 where
  pub user_id : ℕ
  pub mob_instance_id : ℕ

pub same : FollowId → FollowId → Bool
same f g = f.user_id == g.user_id && f.mob_instance_id == g.mob_instance_id

pub same_iff : (f g : FollowId) → (same f g ≡ true) ↔ (f ≡ g)
unfolding same
same_iff f g = ground arith

instance abbrev pub follow_eq : Eq FollowId
follow_eq = record { beq = same; beq_iff = same_iff }

-- `followId{}`
abbrev pub nobody : FollowId
nobody = record { user_id = 0; mob_instance_id = 0 }

pub record FollowModule : Type 0 where
  pub followed : List (FollowId × List FollowId)
  pub followers : List (FollowId × FollowId)
  pub follow_limits : List (FollowId × ℕ)

-- A nil slice has no elements.
abbrev pub list_of : Option (List FollowId) → List FollowId
list_of none = []
list_of (some l) = l

pub is_following : FollowId → FollowModule → Bool
is_following check f = elim (lookup check f.followers) [ none ↦ false | some t ↦ true ]

pub get_followers : FollowId → FollowModule → List FollowId
get_followers target f = list_of (lookup target f.followed)

-- `append(l[0:idx], l[idx+1:]...)` at the first place of the id.
pub remove_id : FollowId → List FollowId → List FollowId
remove_id s [] = []
remove_id s (x ∷ xs) = if same x s then xs else x ∷ remove_id s xs

pub has_id : FollowId → List FollowId → Bool
has_id s [] = false
has_id s (x ∷ xs) = if same x s then true else has_id s xs

-- The loop of `stopFollowing` over the followers of the target: the first place of the source goes,
-- and an empty slice goes from the map.
pub drop_follower :
    FollowId → FollowId → List (FollowId × List FollowId) → List (FollowId × List FollowId)
drop_follower target source followed =
    let l = list_of (lookup target followed) in
    if has_id source l
    then elim (remove_id source l) [
      | [] ↦ erase target (insert target [] followed)
      | x ∷ xs ↦ insert target (x ∷ xs) followed
    ]
    else followed

pub stop_following : FollowId → FollowModule → FollowModule × FollowId
stop_following source f = elim (lookup source f.followers) [
  | none ↦ (record f { follow_limits = erase source f.follow_limits }, nobody)
  | some target ↦ (
    record {
      followed = drop_follower target source f.followed;
      followers = erase source f.followers;
      follow_limits = erase source f.follow_limits;
    },
    target,
  )
]

-- The variadic cutoff is 0 where it is not given.
pub start_follow : FollowId → FollowId → ℕ → FollowModule → FollowModule
start_follow target source cutoff f =
    let g = (stop_following source f).0 in
    let others = list_of (lookup target g.followed) in
    record {
      followed = insert target (others ++ source ∷ []) g.followed;
      followers = insert source target g.followers;
      follow_limits =
          if ltb 0 cutoff then insert source cutoff g.follow_limits else g.follow_limits;
    }

pub stop_all : List FollowId → FollowModule → FollowModule
stop_all [] f = f
stop_all (s ∷ l) f = stop_all l (stop_following s f).0

pub lose_followers : FollowId → FollowModule → FollowModule × List FollowId
lose_followers target f =
    let all_followers = get_followers target f in (stop_all all_followers f, all_followers)

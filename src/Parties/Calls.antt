-- ===== src/Parties/Calls.antt =====
-- internal/parties/parties.go under the callers of internal/usercommands/party.go and
-- internal/hooks/PlayerDespawn_HandleLeave.go: every party is taken from the map, by `Get` of a user.
use Prim.Native.String.{String}
use go_mud.Prelude.{ℕ, ◌<◌, ◌≡◌, Bool, some, arith, count, true, contains-count}
use go_mud.Parties.{
  Party, Store, new, invite_player, accept_invite, decline_invite, disband, leave, is_member,
  store_party, set_rank, set_auto_attack, empty,
}
use go_mud.Parties.Invariant.{IsValid, new-IsValid, invite_player-IsValid}
use go_mud.Parties.Leaving.{
  accept_invite-IsValid, decline_invite-IsValid, disband-IsValid, leave-IsValid,
}

pub data Call (s : Store) : Store → Type 0 where
  create : (u : ℕ) → Call s (new u s).0
  invite : (c p u : ℕ) → s.party_map c ≡ some p → Call s (invite_player p u s).0
  accept : (u p : ℕ) → s.party_map u ≡ some p → Call s (accept_invite p u s).0
  decline : (u p : ℕ) → s.party_map u ≡ some p → Call s (decline_invite p u s).0
  break_up : (u p : ℕ) → s.party_map u ≡ some p → Call s (disband p s)
  depart_member :
      (u p : ℕ)
      → s.party_map u ≡ some p
      → is_member (s.party_at p) u ≡ true
      → Call s (leave p u s).0
  rank :
      (u p : ℕ) (r : String)
      → s.party_map u ≡ some p
      → Call s (store_party p (set_rank u r (s.party_at p)) s)
  auto_attack :
      (u p : ℕ) (on : Bool)
      → s.party_map u ≡ some p
      → Call s (store_party p (set_auto_attack u on (s.party_at p)).0 s)

pub data Reach : Store → Type 0 where
  start : Reach empty
  next : {s t : Store} → Reach s → Call s t → Reach t

store_party-IsValid :
    (p : ℕ) (q : Party) (s : Store)
    → IsValid s
    → q.user_ids ≡ (s.party_at p).user_ids
    → q.invite_user_ids ≡ (s.party_at p).invite_user_ids
    → q.leader_user_id ≡ (s.party_at p).leader_user_id
    → IsValid (store_party p q s)
store_party-IsValid p q s v a b c = record {
  owned = v.owned;
  once = λ w r. ground (arith, v.once w r);
  complete = λ d w r. ground (arith, v.complete d w r);
  leads = λ w r. ground (arith, v.leads w r);
}

set_rank_rosters :
    (u : ℕ) (r : String) (q : Party)
    → ((set_rank u r q).user_ids ≡ q.user_ids)
      × ((set_rank u r q).invite_user_ids ≡ q.invite_user_ids)
      × ((set_rank u r q).leader_user_id ≡ q.leader_user_id)
unfolding set_rank
set_rank_rosters u r q = ground arith

set_auto_attack_rosters :
    (u : ℕ) (on : Bool) (q : Party)
    → ((set_auto_attack u on q).0.user_ids ≡ q.user_ids)
      × ((set_auto_attack u on q).0.invite_user_ids ≡ q.invite_user_ids)
      × ((set_auto_attack u on q).0.leader_user_id ≡ q.leader_user_id)
unfolding set_auto_attack
set_auto_attack_rosters u on q = ground arith

member-count : (q : Party) (u : ℕ) → is_member q u ≡ true → 0 < count u q.user_ids
unfolding is_member
member-count q u h = ground (arith, contains-count u q.user_ids)

pub Call-IsValid : {s t : Store} → Call s t → IsValid s → IsValid t
Call-IsValid {s} (create u) v = new-IsValid u s v
Call-IsValid {s} (invite c p u h) v = invite_player-IsValid c p u s v h
Call-IsValid {s} (accept u p h) v = accept_invite-IsValid p u s v h
Call-IsValid {s} (decline u p h) v = decline_invite-IsValid p u s v h
Call-IsValid {s} (break_up u p h) v = disband-IsValid p u s v h
Call-IsValid {s} (depart_member u p h m) v =
    leave-IsValid p u s v h (member-count (s.party_at p) u m)
Call-IsValid {s} (rank u p r h) v =
    let (a, b, c) = set_rank_rosters u r (s.party_at p) in store_party-IsValid p _ s v a b c
Call-IsValid {s} (auto_attack u p on h) v =
    let (a, b, c) = set_auto_attack_rosters u on (s.party_at p) in store_party-IsValid p _ s v a b c

-- After any sequence of calls the user map and the rosters agree: a mapped user is listed exactly
-- once by the party that the map gives, every user whom a party in the map lists is mapped to that
-- party, and each party in the map has its leader among its members. A call takes its party from
-- the map, and `Leave` is called for members only.
pub Reach-IsValid : {s : Store} → Reach s → IsValid s
Reach-IsValid start = record {
  owned = λ u p h. cc;
  once = λ u p h. cc;
  complete = λ c u p h. cc;
  leads = λ u p h. cc;
}
Reach-IsValid (next r c) = Call-IsValid c (Reach-IsValid r)

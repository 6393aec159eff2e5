-- ===== src/Parties.antt =====
-- internal/parties/parties.go: parties of players, and the map from a user to the party that the
-- user belongs to or is invited to. `*Party` is an index into the store's parties, so that the map
-- entries of one party share it as the pointers do; `next` is the first index not yet allocated.
pub mod Invariant
pub mod Leaving
pub mod Calls
pub mod Effects
pub mod Ranks
mod Tests
use Prim.Native.String.{String}
use text.Mathlib.Text.{◌==◌ as str_eq}
use go_mud.Prelude.{
  ℕ, suc, ◌+◌, Bool, true, false, ◌||◌, Option, none, some, List, [], ◌∷◌, ◌++◌, ◌==◌,
  if◌then◌else◌, length, contains, remove_first, Map, update, put, delete, delete_all,
}

pub record Party : Type 0 where
  pub leader_user_id : ℕ
  pub user_ids : List ℕ
  pub invite_user_ids : List ℕ
  pub auto_attackers : List ℕ
  pub position : Map String

pub record Store : Type 0 where
  pub party_at : ℕ → Party
  pub next : ℕ
  pub party_map : Map ℕ

-- The value that an index holds before it is allocated is never read.
abbrev pub no_party : Party
no_party = record {
  leader_user_id = 0;
  user_ids = [];
  invite_user_ids = [];
  auto_attackers = [];
  position = λ _. none;
}

abbrev pub empty : Store
empty = record { party_at = λ _. no_party; next = 0; party_map = λ _. none }

-- `p.field = ...` through the pointer `p`.
abbrev pub store_party : ℕ → Party → Store → Store
store_party p q s = record s { party_at = update s.party_at p q }

pub new : ℕ → Store → Store × Option ℕ
new u s = elim (s.party_map u) [
  | some _ ↦ (s, none)
  | none ↦ (
    record {
      party_at =
          update s.party_at s.next (record no_party { leader_user_id = u; user_ids = u ∷ [] });
      next = suc s.next;
      party_map = put s.party_map u s.next;
    },
    some s.next,
  )
]

pub get : ℕ → Store → Option ℕ
get u s = s.party_map u

pub is_leader : Party → ℕ → Bool
is_leader q u = q.leader_user_id == u

pub is_member : Party → ℕ → Bool
is_member q u = contains u q.user_ids

pub invited : Party → ℕ → Bool
invited q u = contains u q.invite_user_ids

pub get_rank : Party → ℕ → String
get_rank q u = elim (q.position u) [ some rank ↦ rank | none ↦ "middle" ]

pub set_rank : ℕ → String → Party → Party
set_rank u rank q =
    if str_eq rank "front" || str_eq rank "back"
    then record q { position = put q.position u rank }
    else record q { position = delete q.position u }

pub chance_to_be_targetted : Party → ℕ → ℕ
chance_to_be_targetted q u =
    if str_eq (get_rank q u) "front" then 2 else if str_eq (get_rank q u) "back" then 0 else 1

pub set_auto_attack : ℕ → Bool → Party → Party × Bool
set_auto_attack u true q =
    if contains u q.auto_attackers
    then (q, true)
    else (record q { auto_attackers = q.auto_attackers ++ u ∷ [] }, false)
set_auto_attack u false q =
    if contains u q.auto_attackers
    then (record q { auto_attackers = remove_first u q.auto_attackers }, true)
    else (q, false)

pub get_auto_attack_user_ids : Party → List ℕ
get_auto_attack_user_ids q = q.auto_attackers

pub get_members : Party → List ℕ
get_members q = q.user_ids

pub get_invited : Party → List ℕ
get_invited q = q.invite_user_ids

pub disband : ℕ → Store → Store
disband p s =
    let q = s.party_at p in
    record s { party_map = delete_all (delete_all s.party_map q.user_ids) q.invite_user_ids }

-- The loop of `Leave` that looks for the next leader: the first other member.
pub first_other : ℕ → List ℕ → Option ℕ
first_other u [] = none
first_other u (x ∷ xs) = if x == u then first_other u xs else some x

pub new_leader : ℕ → Party → ℕ
unfolding first_other is_leader
new_leader u q =
    if is_leader q u
    then elim (first_other u q.user_ids) [ some id ↦ id | none ↦ q.leader_user_id ]
    else q.leader_user_id

-- What `Leave` does unless it disbands the party.
pub depart : ℕ → ℕ → Store → Store
depart p u s =
    let q = s.party_at p in
    record (store_party p
      (record q { leader_user_id = new_leader u q; user_ids = remove_first u q.user_ids }) s) {
        party_map = delete s.party_map u;
      }

pub leave : ℕ → ℕ → Store → Store × Bool
leave p u s =
    if is_leader (s.party_at p) u
    then if length (s.party_at p).user_ids == 1 then (disband p s, true) else (depart p u s, true)
    else (depart p u s, true)

pub invite_player : ℕ → ℕ → Store → Store × Bool
invite_player p u s = elim (s.party_map u) [
  | some _ ↦ (s, false)
  | none ↦ (
    let q = s.party_at p in
        record (store_party p (record q { invite_user_ids = q.invite_user_ids ++ u ∷ [] }) s) {
          party_map = put s.party_map u p;
        },
    true,
  )
]

pub accept_invite : ℕ → ℕ → Store → Store × Bool
unfolding invited
accept_invite p u s =
    let q = s.party_at p in
    if invited q u
    then (
      store_party p
          (record q {
            user_ids = q.user_ids ++ u ∷ [];
            invite_user_ids = remove_first u q.invite_user_ids;
          })
          s,
      true,
    )
    else (s, false)

pub decline_invite : ℕ → ℕ → Store → Store × Bool
unfolding invited
decline_invite p u s =
    let q = s.party_at p in
    if invited q u
    then (
      record (store_party p (record q { invite_user_ids = remove_first u q.invite_user_ids }) s) {
        party_map = delete s.party_map u;
      },
      true,
    )
    else (s, false)

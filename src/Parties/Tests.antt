-- ===== src/Parties/Tests.antt =====
-- Runs of internal/parties/parties.go, and the theorems at concrete parties.
use go_mud.Prelude.{
  ℕ, ◌<◌, ◌≤◌, ◌≡◌, refl, true, none, some, [], ◌∷◌, arith, count, contains, remove_first,
}
use go_mud.Parties.{
  Party, Store, empty, no_party, new, invite_player, accept_invite, disband, depart, leave,
  is_leader, is_member, invited, first_other, new_leader,
}
use go_mud.Parties.Invariant.{IsValid, listed}
use go_mud.Parties.Calls.{Reach, start, next, create, invite, accept, Reach-IsValid}
use go_mud.Parties.Effects.{stale_invitation}

-- User 1 has party 0 with member 2, and user 5 has party 1 and has invited user 6.
abbrev one : Store
one = (new 1 empty).0

abbrev two : Store
two = (invite_player 0 2 one).0

abbrev three : Store
three = (accept_invite 0 2 two).0

abbrev four : Store
four = (new 5 three).0

abbrev five : Store
five = (invite_player 1 6 four).0

five_rosters :
    ((five.party_at 0).user_ids ≡ 1 ∷ 2 ∷ [])
    × ((five.party_at 1).invite_user_ids ≡ 6 ∷ [])
    × (five.party_map 6 ≡ some 1)
unfolding new invite_player accept_invite contains remove_first
five_rosters = (refl, refl, refl)

five-Reach : Reach five
unfolding new invite_player accept_invite contains remove_first
five-Reach =
    next
      (next (next (next (next start (create 1)) (invite 1 0 2 refl)) (accept 2 0 refl)) (create 5))
      (invite 5 1 6 refl)

leader_leaves : ((leave 0 1 five).0.party_at 0).leader_user_id ≡ 2
unfolding new invite_player accept_invite contains remove_first leave depart is_leader new_leader
    first_other
leader_leaves = refl

-- What the examples need of these stores.
record Facts : Type 0 where
  leader : five.party_map 1 ≡ some 0
  member : five.party_map 2 ≡ some 0
  other : five.party_map 5 ≡ some 1
  guest : five.party_map 6 ≡ some 1
  free : five.party_map 9 ≡ none
  asked : invited (five.party_at 1) 6 ≡ true
  lists : 0 < listed 2 (five.party_at 0)

facts : Facts
unfolding new invite_player accept_invite contains remove_first invited count
facts = record {
  leader = refl;
  member = refl;
  other = refl;
  guest = refl;
  free = refl;
  asked = refl;
  lists = omega arith;
}

five-IsValid : IsValid five
five-IsValid = Reach-IsValid five-Reach

Reach-IsValid_example : IsValid five
Reach-IsValid_example = Reach-IsValid five-Reach

stale_invitation_example :
    let left = (leave 1 6 five).0 in
    let asked = (invite_player 0 6 left).0 in
    let joined = (accept_invite 0 6 asked).0 in
    let final = disband 1 joined in
    (final.party_map 6 ≡ none) × (is_member (final.party_at 0) 6 ≡ true)
stale_invitation_example =
    stale_invitation 1 6 five five-IsValid 1 0 facts.guest facts.asked facts.leader (omega arith)

ranked : Party
ranked = record no_party { auto_attackers = 4 ∷ [] }

once_each : (w : ℕ) → count w ranked.auto_attackers ≤ 1
unfolding ranked count
once_each w = ground arith

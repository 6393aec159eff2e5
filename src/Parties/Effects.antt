-- ===== src/Parties/Effects.antt =====
-- internal/parties/parties.go: what a call changes, for the party and for the others.
use go_mud.Prelude.{
  contains_last, ℕ, ◌≡◌, ◌≢◌, none, some, [], ◌∷◌, ◌++◌, arith, count, true, false, count-append,
  contains-count, count-cons, count-nil, remove_first-append, delete_all, delete_all_lem, refl,
  contains,
}
use go_mud.Parties.{
  Store, is_leader, invite_player, accept_invite, decline_invite, disband, depart, leave, invited,
  is_member,
}
use go_mud.Parties.Invariant.{IsValid, listed}

leave_other : (p u q : ℕ) (s : Store) → p ≢ q → (leave p u s).0.party_at q ≡ s.party_at q
unfolding leave depart disband
leave_other p u q s ne = ground arith

disband_listed :
    (p u : ℕ) (s : Store) → invited (s.party_at p) u ≡ true → (disband p s).party_map u ≡ none
unfolding disband invited
disband_listed p u s h = ground (
  arith,
  contains-count u (s.party_at p).invite_user_ids,
  delete_all_lem (delete_all s.party_map (s.party_at p).user_ids) (s.party_at p).invite_user_ids u,
)

disband_parties : (p q : ℕ) (s : Store) → (disband p s).party_at q ≡ s.party_at q
unfolding disband
disband_parties p q s = refl

-- A user without a party joins by an invitation; the other parties keep their state.
joins :
    (q u : ℕ) (s : Store)
    → s.party_map u ≡ none
    → let r = (accept_invite q u (invite_player q u s).0).0 in
      (is_member (r.party_at q) u ≡ true) × ((p : ℕ) → p ≢ q → r.party_at p ≡ s.party_at p)
unfolding accept_invite invite_player is_member invited
joins q u s h = (
  ground (
    arith,
    contains_last u (s.party_at q).invite_user_ids,
    contains_last u (s.party_at q).user_ids,
  ),
  λ p ne. ground arith,
)

module _ (p u : ℕ) (s : Store) (v : IsValid s) where
  -- Disbanding a party that the map gives for some user leaves no user mapped to it, and leaves the
  -- entries of the users of other parties as they were.
  disband_unmaps :
      s.party_map u ≡ some p
      → (w : ℕ)
      → ((disband p s).party_map w ≢ some p)
        × (s.party_map w ≢ some p → (disband p s).party_map w ≡ s.party_map w)
  unfolding disband
  disband_unmaps h w = ground (
    arith,
    delete_all_lem s.party_map (s.party_at p).user_ids w,
    delete_all_lem (delete_all s.party_map (s.party_at p).user_ids) (s.party_at p).invite_user_ids
        w,
    v.once w p,
    v.complete u w p,
  )

  -- An invitation and its refusal by a user who had no party leave every party and the user map as
  -- they were, and both calls succeed.
  decline-invite_player :
      (c : ℕ)
      → s.party_map c ≡ some p
      → s.party_map u ≡ none
      → let (t, sent) = invite_player p u s in
        let (r, declined) = decline_invite p u t in
        (sent ≡ true)
        × (declined ≡ true)
        × ((w : ℕ) → r.party_map w ≡ s.party_map w)
        × ((q : ℕ) → r.party_at q ≡ s.party_at q)
  unfolding decline_invite invite_player invited
  decline-invite_player c h free = (
    ground arith,
    ground (arith, has),
    λ w. ground (arith, has),
    λ q. ground (arith, has, remove_first-append u (s.party_at p).invite_user_ids, fresh),
  )
    where
      fresh : count u (s.party_at p).invite_user_ids ≡ 0
      fresh = ground (arith, v.complete c u p)

      has : contains u ((s.party_at p).invite_user_ids ++ u ∷ []) ≡ true
      has = contains_last u (s.party_at p).invite_user_ids

  -- An invitation that is accepted makes a user who had no party a member of the inviting party and
  -- no longer invited; every other user stays listed by that party as before.
  accept_invite-invite_player :
      (c : ℕ)
      → s.party_map c ≡ some p
      → s.party_map u ≡ none
      → let (t, sent) = invite_player p u s in
        let (r, accepted) = accept_invite p u t in
        (accepted ≡ true)
        × (r.party_map u ≡ some p)
        × (is_member (r.party_at p) u ≡ true)
        × (invited (r.party_at p) u ≡ false)
        × ((w : ℕ) → w ≢ u → listed w (r.party_at p) ≡ listed w (s.party_at p))
  unfolding accept_invite invite_player invited is_member
  accept_invite-invite_player c h free = (
    ground (arith, has),
    ground (arith, has),
    ground (arith, has, joined),
    ground (arith, has, absent, remove_first-append u (s.party_at p).invite_user_ids, fresh),
    λ w ne. ground (
      arith,
      has,
      joined,
      remove_first-append u (s.party_at p).invite_user_ids,
      fresh,
      count-append w (s.party_at p).user_ids (u ∷ []),
      count-cons w u [],
      count-nil w,
    ),
  )
    where
      fresh : count u (s.party_at p).invite_user_ids ≡ 0
      fresh = ground (arith, v.complete c u p)

      has : contains u ((s.party_at p).invite_user_ids ++ u ∷ []) ≡ true
      has = contains_last u (s.party_at p).invite_user_ids

      joined : contains u ((s.party_at p).user_ids ++ u ∷ []) ≡ true
      joined = contains_last u (s.party_at p).user_ids

      absent : contains u (s.party_at p).invite_user_ids ≡ false
      absent = ground (arith, fresh, contains-count u (s.party_at p).invite_user_ids)

  -- A user who leaves while only invited loses the map entry and stays listed by the party.
  pub leave_stale :
      s.party_map u ≡ some p
      → invited (s.party_at p) u ≡ true
      → ((leave p u s).0.party_map u ≡ none) × (invited ((leave p u s).0.party_at p) u ≡ true)
  unfolding leave depart is_leader invited
  leave_stale h i =
      ground (arith, v.once u p, v.leads u p, contains-count u (s.party_at p).invite_user_ids)

  -- A user who leaves a party while only invited to it, and then joins another party by its
  -- invitation, is a member there without a map entry once the first party is disbanded.
  pub stale_invitation :
      (d q : ℕ)
      → s.party_map u ≡ some p
      → invited (s.party_at p) u ≡ true
      → s.party_map d ≡ some q
      → p ≢ q
      → let left = (leave p u s).0 in
        let asked = (invite_player q u left).0 in
        let joined = (accept_invite q u asked).0 in
        let final = disband p joined in
        (final.party_map u ≡ none) × (is_member (final.party_at q) u ≡ true)
  stale_invitation d q h i hd ne =
      let gone = leave_stale h i in
      let after = joins q u (leave p u s).0 gone.0 in
      (disband_listed p u _ (rw (after.1 p ne) gone.1), rw disband_parties after.0)

-- ===== src/Parties/Leaving.antt =====
-- internal/parties/parties.go: accepting, declining, leaving and disbanding keep the user map and
-- the rosters in agreement.
use go_mud.Prelude.{
  ℕ, ◌<◌, ◌≡◌, ◌≢◌, none, some, List, [], ◌∷◌, arith, length, count, ◌==◌, ltb, if◌then◌else◌,
  count-append, count-remove_first, contains-count, count-cons, count-nil, delete_all,
  delete_all_lem, inl, inr, Bool-cases, ◌⊎◌, false,
}
use go_mud.Parties.{
  Store, first_other, new_leader, is_leader, accept_invite, decline_invite, disband, depart, leave,
}
use go_mud.Parties.Invariant.{IsValid, listed}

-- The next leader is another member, if there is one.
first_other-some :
    (u : ℕ) (l : List ℕ) (w : ℕ) → first_other u l ≡ some w → (w ≢ u) × (0 < count w l)
unfolding first_other
first_other-some u [] w h = cc
first_other-some u (x ∷ xs) w h = ground (arith, first_other-some u xs w, count-cons w x xs)

first_other-none : (u : ℕ) (l : List ℕ) → first_other u l ≡ none → count u l ≡ length l
unfolding first_other
first_other-none u [] h = count-nil u
first_other-none u (x ∷ xs) h = ground (arith, first_other-none u xs, count-cons u x xs)

module _ (p u : ℕ) (s : Store) (v : IsValid s) (caller : s.party_map u ≡ some p) where
  pub accept_invite-IsValid : IsValid (accept_invite p u s).0
  unfolding accept_invite
  accept_invite-IsValid = record {
    owned = λ w q. ground (arith, v.owned w q);
    once = λ w q. ground (
      arith,
      v.once w q,
      v.once w p,
      contains-count u (s.party_at p).invite_user_ids,
      count-append w (s.party_at p).user_ids (u ∷ []),
      count-cons w u [],
      count-nil w,
      count-remove_first u w (s.party_at p).invite_user_ids,
    );
    complete = λ d w q. ground (
      arith,
      v.complete d w q,
      contains-count u (s.party_at p).invite_user_ids,
      count-append w (s.party_at p).user_ids (u ∷ []),
      count-cons w u [],
      count-nil w,
      count-remove_first u w (s.party_at p).invite_user_ids,
    );
    leads = λ w q. ground (
      arith,
      v.leads w q,
      count-append (s.party_at p).leader_user_id (s.party_at p).user_ids (u ∷ []),
    );
  }

  pub decline_invite-IsValid : IsValid (decline_invite p u s).0
  unfolding decline_invite
  decline_invite-IsValid = record {
    owned = λ w q. ground (arith, v.owned w q);
    once = λ w q. ground (arith, v.once w q, count-remove_first u w (s.party_at p).invite_user_ids);
    complete = λ d w q. ground (
      arith,
      v.complete d w q,
      v.once u p,
      v.complete d u q,
      contains-count u (s.party_at p).invite_user_ids,
      count-remove_first u w (s.party_at p).invite_user_ids,
    );
    leads = λ w q. ground (arith, v.leads w q);
  }

  pub disband-IsValid : IsValid (disband p s)
  unfolding disband
  disband-IsValid = record {
    owned = λ w q. ground (arith, v.owned w q, gone w);
    once = λ w q. ground (arith, v.once w q, gone w);
    complete = λ d w q.
        ground (arith, v.complete d w q, v.complete u w p, v.once d q, v.once w p, gone d, gone w);
    leads = λ w q. ground (arith, v.leads w q, gone w);
  }
    where
      gone :
          (w : ℕ)
          → (disband p s).party_map w
            ≡ (if ltb 0 (listed w (s.party_at p)) then none else s.party_map w)
      gone w = ground (
        arith,
        delete_all_lem s.party_map (s.party_at p).user_ids w,
        delete_all_lem (delete_all s.party_map (s.party_at p).user_ids)
            (s.party_at p).invite_user_ids w,
      )

  -- After a departure that leaves a member behind, the leader is still a member.
  new_leader_stays : (new_leader u (s.party_at p) ≢ u) ⊎ (length (s.party_at p).user_ids ≡ 1)
  unfolding new_leader is_leader
  new_leader_stays = ground (
    arith,
    first_other-none u (s.party_at p).user_ids,
    v.once u p caller,
    v.leads u p caller,
    first_other-some u (s.party_at p).user_ids (new_leader u (s.party_at p)),
  )

  new_leader-counted : 0 < count (new_leader u (s.party_at p)) (s.party_at p).user_ids
  unfolding new_leader is_leader
  new_leader-counted = ground (
    arith,
    v.leads u p caller,
    first_other-some u (s.party_at p).user_ids (new_leader u (s.party_at p)),
  )

  depart-IsValid :
      0 < count u (s.party_at p).user_ids → new_leader u (s.party_at p) ≢ u → IsValid (depart p u s)
  unfolding depart
  depart-IsValid member led = record {
    owned = λ w q. ground (arith, v.owned w q);
    once = λ w q. ground (arith, v.once w q, count-remove_first u w (s.party_at p).user_ids);
    complete = λ d w q. ground (
      arith,
      v.complete d w q,
      v.once u p caller,
      v.complete d u q,
      count-remove_first u w (s.party_at p).user_ids,
    );
    leads = λ w q. ground (
      arith,
      v.leads w q,
      new_leader-counted,
      count-remove_first u (new_leader u (s.party_at p)) (s.party_at p).user_ids,
    );
  }

  not_leader_stays : is_leader (s.party_at p) u ≡ false → new_leader u (s.party_at p) ≢ u
  unfolding new_leader is_leader
  not_leader_stays h = ground arith

  pub leave-IsValid : 0 < count u (s.party_at p).user_ids → IsValid (leave p u s).0
  unfolding leave
  leave-IsValid member = elim (Bool-cases (is_leader (s.party_at p) u)) [
    | inr other ↦ rw other (depart-IsValid member (not_leader_stays other))
    | inl leader ↦ elim (Bool-cases (length (s.party_at p).user_ids == 1)) [
      | inl alone ↦ rw (leader, alone) disband-IsValid
      | inr more ↦ rw (leader, more) (depart-IsValid member (ground (arith, new_leader_stays)))
    ]
  ]

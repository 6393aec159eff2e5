-- ===== src/Parties/Invariant.antt =====
-- internal/parties/parties.go: the user map and the rosters agree.
use go_mud.Prelude.{
  ℕ, ◌+◌, ◌<◌, ◌≡◌, some, [], ◌∷◌, arith, count, count-append, count-cons, count-nil,
}
use go_mud.Parties.{Party, Store, new, invite_player}

-- How often the party lists the user, as a member or as invited.
abbrev pub listed : ℕ → Party → ℕ
listed u q = count u q.user_ids + count u q.invite_user_ids

pub record IsValid (s : Store) : Type 0 where
  pub owned : (u p : ℕ) → s.party_map u ≡ some p → p < s.next
  pub once : (u p : ℕ) → s.party_map u ≡ some p → listed u (s.party_at p) ≡ 1
  pub complete :
      (c u p : ℕ) → s.party_map c ≡ some p → 0 < listed u (s.party_at p) → s.party_map u ≡ some p
  pub leads :
      (u p : ℕ)
      → s.party_map u ≡ some p
      → 0 < count (s.party_at p).leader_user_id (s.party_at p).user_ids

pub new-IsValid : (u : ℕ) (s : Store) → IsValid s → IsValid (new u s).0
unfolding new
new-IsValid u s v = record {
  owned = λ w q. ground (arith, v.owned w q);
  once = λ w q. ground (arith, v.once w q, v.owned w q, count-cons w u [], count-nil w);
  complete = λ c w q. ground (
    arith,
    v.complete c w q,
    v.owned c q,
    v.owned w q,
    v.once u q,
    count-cons w u [],
    count-nil w,
  );
  leads = λ w q. ground (arith, v.leads w q, v.owned w q, count-cons u u []);
}

module _ (c p u : ℕ) (s : Store) (v : IsValid s) (caller : s.party_map c ≡ some p) where
  pub invite_player-IsValid : IsValid (invite_player p u s).0
  unfolding invite_player
  invite_player-IsValid = record {
    owned = λ w q. ground (arith, v.owned w q, v.owned c p);
    once = λ w q. ground (
      arith,
      v.once w q,
      v.complete c u p caller,
      v.complete w u q,
      caller,
      count-append w (s.party_at p).invite_user_ids (u ∷ []),
      count-cons w u [],
      count-nil w,
    );
    complete = λ d w q. ground (
      arith,
      v.complete d w q,
      v.complete c w p,
      count-append w (s.party_at p).invite_user_ids (u ∷ []),
      count-cons w u [],
      count-nil w,
    );
    leads = λ w q. ground (arith, v.leads w q, v.leads c p);
  }

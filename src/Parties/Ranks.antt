-- ===== src/Parties/Ranks.antt =====
-- internal/parties/parties.go: combat positions and the auto attackers.
use Prim.Native.String.{String}
use text.Mathlib.Text.{◌==◌ as str_eq}
use go_mud.Prelude.{
  contains_last, ℕ, ◌≤◌, ◌≡◌, refl, Bool-cases, inl, inr, ◌≢◌, Bool, true, false, [], ◌∷◌, ◌++◌,
  ◌||◌, arith, count, contains, ◌==◌, if◌then◌else◌, count-append, count-remove_first,
  contains-count, count-cons, count-nil, remove_first,
}
use go_mud.Parties.{Party, get_rank, set_rank, chance_to_be_targetted, set_auto_attack}

-- Setting a position changes what is read for that user alone: the front or the back if one of
-- these was set, else the middle.
pub get_rank-set_rank :
    (q : Party) (u w : ℕ) (r : String)
    → get_rank (set_rank u r q) w ≡ (
        if u == w
        then if str_eq r "front" || str_eq r "back" then r else "middle"
        else get_rank q w)
unfolding get_rank set_rank
get_rank-set_rank q u w r = ground arith

weight : String → ℕ
weight r = if str_eq r "front" then 2 else if str_eq r "back" then 0 else 1

weight_kept :
    (r : String) → weight (if str_eq r "front" || str_eq r "back" then r else "middle") ≡ weight r
unfolding weight
weight_kept r = elim (Bool-cases (str_eq r "front")) [
  | inl f ↦ rw f (rw f)
  | inr nf ↦ elim (Bool-cases (str_eq r "back")) [
    | inl b ↦ rw (nf, b) (rw (nf, b))
    | inr nb ↦ rw (nf, nb)
  ]
]

weight_if :
    (b : Bool) (old r : String)
    → weight (if b then if str_eq r "front" || str_eq r "back" then r else "middle" else old)
      ≡ (if b then weight r else weight old)
weight_if true old r = weight_kept r
weight_if false old r = refl

-- A user sent to the front is chosen with weight 2, to the back with weight 0, and to any other
-- position with weight 1; the weights of the other users stay as they were.
chance-set_rank :
    (q : Party) (u w : ℕ) (r : String)
    → chance_to_be_targetted (set_rank u r q) w ≡ (
        if u == w
        then if str_eq r "front" then 2 else if str_eq r "back" then 0 else 1
        else chance_to_be_targetted q w)
unfolding chance_to_be_targetted weight
chance-set_rank q u w r = rw (get_rank-set_rank q u w r) (weight_if (u == w) (get_rank q w) r)

-- Where nobody stands twice among the auto attackers, `SetAutoAttack` returns whether the user
-- attacked before, makes the user attack as asked, adds nobody twice and changes nothing for others.
set_auto_attack_lem :
    (q : Party) (u : ℕ) (on : Bool)
    → ((w : ℕ) → count w q.auto_attackers ≤ 1)
    → let (t, before) = set_auto_attack u on q in
      (before ≡ contains u q.auto_attackers)
      × (contains u t.auto_attackers ≡ on)
      × ((w : ℕ) → count w t.auto_attackers ≤ 1)
      × ((w : ℕ) → w ≢ u → contains w t.auto_attackers ≡ contains w q.auto_attackers)
unfolding set_auto_attack
set_auto_attack_lem q u true h = (
  ground arith,
  ground (arith, contains_last u q.auto_attackers),
  λ w. ground (
    arith,
    h w,
    contains-count u q.auto_attackers,
    count-append w q.auto_attackers (u ∷ []),
    count-cons w u [],
    count-nil w,
  ),
  λ w ne. ground (
    arith,
    contains-count w q.auto_attackers,
    contains-count w (q.auto_attackers ++ u ∷ []),
    count-append w q.auto_attackers (u ∷ []),
    count-cons w u [],
    count-nil w,
  ),
)
set_auto_attack_lem q u false h = (
  ground arith,
  ground (
    arith,
    h u,
    contains-count u q.auto_attackers,
    contains-count u (remove_first u q.auto_attackers),
    count-remove_first u u q.auto_attackers,
  ),
  λ w. ground (arith, h w, count-remove_first u w q.auto_attackers),
  λ w ne. ground (
    arith,
    contains-count w q.auto_attackers,
    contains-count w (remove_first u q.auto_attackers),
    count-remove_first u w q.auto_attackers,
  ),
)

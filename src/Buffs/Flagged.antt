-- ===== src/Buffs/Flagged.antt =====
-- internal/buffs/buffs.go: the map from flags to positions knows every flag of the list, so that
-- HasFlag may look there first.
use Prim.Native.String.{String}
use text.Mathlib.Text.{◌==◌ as str_eq}
use mathlib.Core.List.{reverse, reverse-reverse}
use go_mud.Prelude.{
  ℕ, suc, zero, ◌≡◌, ◌≢◌, refl, Bool, true, false, none, some, List, [], ◌∷◌, ◌++◌, if◌then◌else◌,
  arith, inl, inr, Option-cases, Bool-cases, sym, ◌∙◌, ap,
}
use go_mud.Prelude.Int.{ℤ}
use go_mud.Prelude.Assoc.{lookup, lookup-insert, int_eq, string_eq}
use go_mud.Buffs.{
  Buff, BuffSpec, Buffs, Specs, get_buff_spec, validate, rebuild, note_buff, add_buff, remove_buff,
  started, add_flag, add_flags,
}
use go_mud.Buffs.Rounds.{dead, prune, trigger}
use go_mud.Buffs.Flags.{absent}
use go_mud.Buffs.Indexed.{id_at, at_index-SameIds, id_at-append}
use go_mud.Buffs.Kept.{trigger_loop-SameIds, survivors_all, validate_forced}
use go_mud.Buffs.Pruning.{survivors, casualties, prune_loop-all, rebuild-list, List-cases}

-- Whether the spec of the id lists the flag.
unfoldable pub member : String → List String → Bool
member f [] = false
member f (g ∷ gs) = if str_eq g f then true else member f gs

abbrev pub spec_flags : Specs → ℤ → List String
spec_flags specs id = elim (get_buff_spec specs id) [ none ↦ [] | some sp ↦ sp.flags ]

-- Every buff has a spec, and every flag of a spec is a key of the flag map.
pub record IsFlagged (specs : Specs) (bs : Buffs) : Type 0 where
  pub known : (i : ℕ) (id : ℤ) → id_at bs.list i ≡ some id → get_buff_spec specs id ≢ none
  pub keyed :
      (f : String) (i : ℕ) (id : ℤ)
      → id_at bs.list i ≡ some id
      → member f (spec_flags specs id) ≡ true
      → absent (lookup f bs.buff_flags) ≡ false

absent-add_flag :
    (idx : ℕ) (g f : String) (m : List (String × List ℕ))
    → absent (lookup f (add_flag idx g m)) ≡ (if str_eq g f then false else absent (lookup f m))
unfolding add_flag absent
absent-add_flag idx g f m = elim (Option-cases (lookup g m)) [
  | inl e ↦ rw (e, add_flag, lookup-insert g f (idx ∷ []) m) (split _ (str_eq g f))
  | inr (l, e) ↦ rw (e, add_flag, lookup-insert g f (l ++ idx ∷ []) m) (split _ (str_eq g f))
]
  where
    split :
        (v : List ℕ) (b : Bool)
        → absent (if b then some v else lookup f m) ≡ (if b then false else absent (lookup f m))
    split v true = refl
    split v false = refl

absent-add_flags :
    (idx : ℕ) (gs : List String) (f : String) (m : List (String × List ℕ))
    → absent (lookup f (add_flags idx gs m)) ≡ (if member f gs then false else absent (lookup f m))
unfolding add_flags member
absent-add_flags idx [] f m = refl
absent-add_flags idx (g ∷ gs) f m =
    absent-add_flags idx gs f (add_flag idx g m) ∙ ground (arith, absent-add_flag idx g f m)

-- Positions with their ids kept as they were keep the property.
same-IsFlagged :
    (specs : Specs) (bs : Buffs) (l : List Buff)
    → ((i : ℕ) → id_at l i ≡ id_at bs.list i)
    → IsFlagged specs bs
    → IsFlagged specs (record bs { list = l })
same-IsFlagged specs bs l same v = record {
  known = λ i id e. v.known i id (sym (same i) ∙ e);
  keyed = λ f i id e. v.keyed f i id (sym (same i) ∙ e);
}

module _ (specs : Specs) where
  pub remove_buff-IsFlagged :
      (id : ℤ) (bs : Buffs) → IsFlagged specs bs → IsFlagged specs (remove_buff id bs).0
  unfolding remove_buff
  remove_buff-IsFlagged id bs v = elim (Option-cases (lookup id bs.buff_ids)) [
    | inl e ↦ rw (e, remove_buff) v
    | inr (i, e) ↦
        rw (e, remove_buff)
          (same-IsFlagged specs bs _ (at_index-SameIds i _ bs.list (λ b. refl)).at v)
  ]

  pub started-IsFlagged :
      (id : ℤ) (bs : Buffs) → IsFlagged specs bs → IsFlagged specs (started id bs)
  unfolding started
  started-IsFlagged id bs v = elim (Option-cases (lookup id bs.buff_ids)) [
    | inl e ↦ rw (e, started) v
    | inr (i, e) ↦
        rw (e, started) (same-IsFlagged specs bs _ (at_index-SameIds i _ bs.list (λ b. refl)).at v)
  ]

  pub trigger-IsFlagged :
      (ids : List ℤ) (bs : Buffs) → IsFlagged specs bs → IsFlagged specs (trigger specs ids bs).0
  unfolding trigger
  trigger-IsFlagged ids bs v = same-IsFlagged specs bs _ (trigger_loop-SameIds specs bs.list).at v

  append-IsFlagged :
      (b : Buff) (bs : Buffs) (info : BuffSpec) (ids : List (ℤ × ℕ)) (k : ℕ)
      → get_buff_spec specs b.buff_id ≡ some info
      → IsFlagged specs bs
      → IsFlagged specs (record {
        list = bs.list ++ b ∷ [];
        buff_flags = add_flags k info.flags bs.buff_flags;
        buff_ids = ids;
      })
  append-IsFlagged b bs info ids k e v = record {
    known = λ i id. ground (arith, id_at-append bs.list b i, v.known i id);
    keyed = λ f i id. ground (
      arith,
      id_at-append bs.list b i,
      v.keyed f i id,
      absent-add_flags k info.flags f bs.buff_flags,
    );
  }

  pub add_buff-IsFlagged :
      (id : ℤ) (permanent : Bool) (bs : Buffs)
      → ((info : BuffSpec) → get_buff_spec specs id ≡ some info → info.buff_id ≡ id)
      → IsFlagged specs bs
      → IsFlagged specs (add_buff specs id permanent bs).0
  unfolding add_buff
  add_buff-IsFlagged id permanent bs own v = elim (Option-cases (get_buff_spec specs id)) [
    | inl e ↦ rw (e, add_buff) v
    | inr (info, e) ↦ elim (Option-cases (lookup id bs.buff_ids)) [
      | inr (i, at) ↦
          rw (e, add_buff, at)
            (same-IsFlagged specs bs _ (at_index-SameIds i _ bs.list (λ b. refl)).at v)
      | inl free ↦
          rw (e, add_buff, free)
            (append-IsFlagged _ bs info _ _ (ap (get_buff_spec specs) (own info e) ∙ e) v)
    ]
  ]

  absent-note_buff :
      (k : ℕ) (b : Buff) (acc : Buffs) (f : String)
      → absent (lookup f (note_buff specs k b acc).buff_flags) ≡ (
          if member f (spec_flags specs b.buff_id) then false else absent (lookup f acc.buff_flags))
  unfolding note_buff member
  absent-note_buff k b acc f = elim (Option-cases (get_buff_spec specs b.buff_id)) [
    | inl e ↦ ground arith
    | inr (info, e) ↦ ground (arith, absent-add_flags k info.flags f acc.buff_flags)
  ]

  absent-rebuild :
      (k : ℕ) (l : List Buff) (acc : Buffs) (f : String)
      → absent (lookup f acc.buff_flags) ≡ false
      → absent (lookup f (rebuild specs k l acc).buff_flags) ≡ false
  unfolding rebuild
  absent-rebuild k [] acc f h = h
  absent-rebuild k (b ∷ l) acc f h =
      absent-rebuild (suc k) l _ f (ground (arith, absent-note_buff k b acc f))

  rebuild-keyed :
      (k : ℕ) (l : List Buff) (acc : Buffs) (f : String) (i : ℕ) (id : ℤ)
      → id_at l i ≡ some id
      → member f (spec_flags specs id) ≡ true
      → absent (lookup f (rebuild specs k l acc).buff_flags) ≡ false
  unfolding rebuild
  rebuild-keyed k [] acc f i id at h = cc
  rebuild-keyed k (b ∷ l) acc f zero id at h =
      absent-rebuild (suc k) l _ f (ground (arith, absent-note_buff k b acc f))
  rebuild-keyed k (b ∷ l) acc f (suc i) id at h = rebuild-keyed (suc k) l _ f i id at h

  -- An id that is kept stood in the list before.
  position-survivors :
      (l : List Buff) (i : ℕ) (id : ℤ)
      → id_at (survivors specs l) i ≡ some id
      → (j : ℕ) × (id_at l j ≡ some id)
  unfolding survivors
  position-survivors [] i id h = cc
  position-survivors (b ∷ l) i id h = elim (Bool-cases (dead specs b)) [
    | inl d ↦ let (j, at) = position-survivors l i id (rw (d, survivors) at h) in (suc j, at)
    | inr k ↦ later i (rw (k, survivors) at h) (λ i' h'. position-survivors l i' id h')
  ]
    where
      later :
          (i : ℕ)
          → id_at (b ∷ survivors specs l) i ≡ some id
          → ((i' : ℕ) → id_at (survivors specs l) i' ≡ some id → (j : ℕ) × (id_at l j ≡ some id))
          → (j : ℕ) × (id_at (b ∷ l) j ≡ some id)
      later zero e ih = (zero, e)
      later (suc i') e ih = let (j, at) = ih i' e in (suc j, at)

  validate-IsFlagged :
      (bs : Buffs)
      → ((i : ℕ) (id : ℤ) → id_at bs.list i ≡ some id → get_buff_spec specs id ≢ none)
      → IsFlagged specs (validate specs true bs)
  validate-IsFlagged bs h = rw (validate_forced specs bs) (record {
    known = λ i id at. h i id (rw kept at at);
    keyed = λ f i id at m. rebuild-keyed 0 bs.list clear f i id (rw kept at at) m;
  })
    where
      clear : Buffs
      clear = record bs { buff_ids = []; buff_flags = [] }

      kept : (rebuild specs 0 bs.list clear).list ≡ bs.list
      kept = rebuild-list specs 0 bs.list clear

  pub prune-IsFlagged : (bs : Buffs) → IsFlagged specs bs → IsFlagged specs (prune specs bs).0
  unfolding prune
  prune-IsFlagged bs v =
      let left = ap (λ s. s.0) (prune_loop-all specs bs.list) in
      elim (List-cases (reverse (casualties specs bs.list))) [
        | inl e ↦
            let no_loss = sym (reverse-reverse (casualties specs bs.list)) ∙ ap reverse e in
            rw (prune_loop-all specs bs.list, e, prune)
              (rw (left, survivors_all specs bs.list no_loss) v)
        | inr (b, r, e) ↦
            rw (prune_loop-all specs bs.list, e, prune)
              (validate-IsFlagged _ λ i id at.
                let (j, at') = position-survivors bs.list i id (rw left at at) in v.known j id at')
      ]

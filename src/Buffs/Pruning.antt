-- ===== src/Buffs/Pruning.antt =====
-- internal/buffs/buffs.go: what Prune keeps and drops, and the maps that it rebuilds.
use mathlib.Core.List.{reverse, reverse-append, append-nil, append_assoc}
use go_mud.Prelude.{
  ℕ, suc, zero, ◌+◌, ◌≤◌, ◌<◌, ◌⊎◌, ◌≡◌, refl, Bool, some, List, [], ◌∷◌, ◌++◌, if◌then◌else◌,
  length, get_elem?, arith, inl, inr, Bool-cases, take, drop, ◌∙◌, ap,
}
use go_mud.Prelude.Int.{ℤ, ==ℤ_iff}
use go_mud.Prelude.Assoc.{lookup, lookup-insert, int_eq, string_eq}
use go_mud.Buffs.{Buff, Buffs, Specs, validate, rebuild, note_buff}
use go_mud.Buffs.Rounds.{dead, prune_loop}
use go_mud.Buffs.Indexed.{id_at, id_count}

module _ {ℓ} {A : Type ℓ} where
  get_elem?-some : (l : List A) (i : ℕ) → i < length l → (a : A) × (get_elem? l i ≡ some a)
  get_elem?-some [] i h = absurd (omega arith)
  get_elem?-some (x ∷ l) zero h = (x, refl)
  get_elem?-some (x ∷ l) (suc i) h = get_elem?-some l i (omega arith)

  take-suc :
      (l : List A) (i : ℕ) (a : A) → get_elem? l i ≡ some a → take (suc i) l ≡ take i l ++ a ∷ []
  take-suc [] i a h = cc
  take-suc (x ∷ l) zero a h = cc
  take-suc (x ∷ l) (suc i) a h = ap (λ r. x ∷ r) (take-suc l i a h)

  drop-get_elem? :
      (l : List A) (i : ℕ) (a : A) → get_elem? l i ≡ some a → drop i l ≡ a ∷ drop (suc i) l
  drop-get_elem? [] i a h = cc
  drop-get_elem? (x ∷ l) zero a h = cc
  drop-get_elem? (x ∷ l) (suc i) a h = drop-get_elem? l i a h

  take-take-append : (l ys : List A) (i : ℕ) → i ≤ length l → take i (take i l ++ ys) ≡ take i l
  take-take-append l ys zero h = refl
  take-take-append [] ys (suc i) h = absurd (omega arith)
  take-take-append (x ∷ l) ys (suc i) h = ap (λ r. x ∷ r) (take-take-append l ys i (omega arith))

  drop-take-append : (l ys : List A) (i : ℕ) → i ≤ length l → drop i (take i l ++ ys) ≡ ys
  drop-take-append l ys zero h = refl
  drop-take-append [] ys (suc i) h = absurd (omega arith)
  drop-take-append (x ∷ l) ys (suc i) h = drop-take-append l ys i (omega arith)

  length-take-append : (l ys : List A) (i : ℕ) → i ≤ length l → i ≤ length (take i l ++ ys)
  length-take-append l ys zero h = omega arith
  length-take-append [] ys (suc i) h = absurd (omega arith)
  length-take-append (x ∷ l) ys (suc i) h = omega (arith, length-take-append l ys i (omega arith))

  take_all : (l : List A) → take (length l) l ≡ l
  take_all [] = refl
  take_all (x ∷ l) = ap (λ r. x ∷ r) (take_all l)

  drop_all : (l : List A) → drop (length l) l ≡ []
  drop_all [] = refl
  drop_all (x ∷ l) = drop_all l

pub List-cases {ℓ} : {A : Type ℓ} (l : List A) → (l ≡ []) ⊎ ((a : A) × (r : List A) × (l ≡ a ∷ r))
List-cases [] = inl refl
List-cases (a ∷ r) = inr (a, r, refl)

module _ (specs : Specs) where
  -- The buffs that are kept, and those that are dropped, in the list's order.
  unfoldable pub survivors : List Buff → List Buff
  survivors [] = []
  survivors (b ∷ l) = if dead specs b then survivors l else b ∷ survivors l

  unfoldable pub casualties : List Buff → List Buff
  casualties [] = []
  casualties (b ∷ l) = if dead specs b then b ∷ casualties l else casualties l

  survivors-append : (xs ys : List Buff) → survivors (xs ++ ys) ≡ survivors xs ++ survivors ys
  unfolding survivors
  survivors-append [] ys = refl
  survivors-append (x ∷ xs) ys = elim (Bool-cases (dead specs x)) [
    | inl e ↦ rw e (survivors-append xs ys)
    | inr e ↦ rw e (ap (λ r. x ∷ r) (survivors-append xs ys))
  ]

  casualties-append : (xs ys : List Buff) → casualties (xs ++ ys) ≡ casualties xs ++ casualties ys
  unfolding casualties
  casualties-append [] ys = refl
  casualties-append (x ∷ xs) ys = elim (Bool-cases (dead specs x)) [
    | inl e ↦ rw e (ap (λ r. x ∷ r) (casualties-append xs ys))
    | inr e ↦ rw e (casualties-append xs ys)
  ]

  -- The effect of one more buff, dropped or kept, on what is kept and on what is dropped.
  survivors-snoc :
      (xs : List Buff) (b : Buff)
      → survivors (xs ++ b ∷ []) ≡ (if dead specs b then survivors xs else survivors xs ++ b ∷ [])
  survivors-snoc xs b = survivors-append xs (b ∷ []) ∙ one
    where
      one :
          survivors xs ++ survivors (b ∷ [])
          ≡ (if dead specs b then survivors xs else survivors xs ++ b ∷ [])
      one =
          unfold survivors in
          elim (Bool-cases (dead specs b)) [
            | inl e ↦ rw e (append-nil (survivors xs))
            | inr e ↦ rw e
          ]

  casualties-snoc :
      (xs : List Buff) (b : Buff)
      → casualties (xs ++ b ∷ [])
        ≡ (if dead specs b then casualties xs ++ b ∷ [] else casualties xs)
  casualties-snoc xs b = casualties-append xs (b ∷ []) ∙ one
    where
      one :
          casualties xs ++ casualties (b ∷ [])
          ≡ (if dead specs b then casualties xs ++ b ∷ [] else casualties xs)
      one =
          unfold casualties in
          elim (Bool-cases (dead specs b)) [
            | inl e ↦ rw e
            | inr e ↦ rw e (append-nil (casualties xs))
          ]

  pub prune_loop_lem :
      (i : ℕ) (l out : List Buff)
      → i ≤ length l
      → prune_loop specs i l out
        ≡ (survivors (take i l) ++ drop i l, out ++ reverse (casualties (take i l)))
  unfolding prune_loop
  prune_loop_lem zero l out h = unfold survivors casualties in simp append-nil
  prune_loop_lem (suc i) l out h =
      let (b, at) = get_elem?-some l i (omega arith) in
      let low : i ≤ length l = omega arith in
      elim (Bool-cases (dead specs b)) [
        | inl d ↦
            rw (at, prune_loop, d)
              (rw
                (
                  prune_loop_lem i (take i l ++ drop (suc i) l) (out ++ b ∷ [])
                      (length-take-append l _ i low),
                  take-take-append l (drop (suc i) l) i low,
                  drop-take-append l (drop (suc i) l) i low,
                  take-suc l i b at,
                  survivors-snoc,
                  casualties-snoc,
                  d,
                )
                (simp (reverse-append, append_assoc)))
        | inr k ↦
            rw (at, prune_loop, k)
              (rw
                (
                  prune_loop_lem i l out low,
                  take-suc l i b at,
                  drop-get_elem? l i b at,
                  survivors-snoc,
                  casualties-snoc,
                  k,
                )
                (simp append_assoc))
      ]

  pub prune_loop-all :
      (l : List Buff) → prune_loop specs (length l) l [] ≡ (survivors l, reverse (casualties l))
  prune_loop-all l =
      rw (prune_loop_lem (length l) l [] (omega arith), take_all, drop_all, append-nil)

  pub rebuild-list : (k : ℕ) (l : List Buff) (acc : Buffs) → (rebuild specs k l acc).list ≡ acc.list
  unfolding rebuild note_buff
  rebuild-list k [] acc = refl
  rebuild-list k (b ∷ l) acc = rebuild-list (suc k) l _

  validate-list : (force : Bool) (bs : Buffs) → (validate specs force bs).list ≡ bs.list
  unfolding validate
  validate-list force bs =
      ground (arith, rebuild-list 0 bs.list (record bs { buff_ids = []; buff_flags = [] }))

  -- What the loop of `Validate` makes of the id map.
  pub rebuild-absent :
      (k : ℕ) (l : List Buff) (acc : Buffs) (id : ℤ)
      → id_count id l ≡ 0
      → lookup id (rebuild specs k l acc).buff_ids ≡ lookup id acc.buff_ids
  unfolding rebuild id_count note_buff
  rebuild-absent k [] acc id h = refl
  rebuild-absent k (b ∷ l) acc id h = ground (
    arith,
    rebuild-absent (suc k) l (note_buff specs k b acc) id,
    lookup-insert b.buff_id id k acc.buff_ids,
  )

  pub rebuild-present :
      (k : ℕ) (l : List Buff) (acc : Buffs) (id : ℤ) (i : ℕ)
      → id_count id l ≤ 1
      → id_at l i ≡ some id
      → lookup id (rebuild specs k l acc).buff_ids ≡ some (k + i)
  unfolding rebuild id_count note_buff
  rebuild-present k [] acc id i h at = cc
  rebuild-present k (b ∷ l) acc id zero h at = ground (
    arith,
    rebuild-absent (suc k) l (note_buff specs k b acc) id,
    lookup-insert b.buff_id id k acc.buff_ids,
    ==ℤ_iff b.buff_id id,
  )
  rebuild-present k (b ∷ l) acc id (suc i) h at =
      ground (arith, rebuild-present (suc k) l (note_buff specs k b acc) id i)

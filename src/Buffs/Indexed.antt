-- ===== src/Buffs/Indexed.antt =====
-- internal/buffs/buffs.go: the map from buff ids to positions agrees with the list.
use Prim.Native.String.{String}
use go_mud.Prelude.{
  ℕ, suc, zero, ◌+◌, ◌≤◌, ◌<◌, ◌≡◌, refl, Bool, Option, none, some, List, [], ◌∷◌, ◌++◌, ◌==◌, ltb,
  if◌then◌else◌, length, arith, inl, inr, ◌⊎◌, Option-cases, Bool-cases,
}
use go_mud.Prelude.Int.{ℤ, ◌==ℤ◌, ==ℤ_iff}
use go_mud.Prelude.Assoc.{lookup, insert, lookup-insert, int_eq, string_eq}
use go_mud.Buffs.{
  Buff, BuffSpec, Buffs, Specs, get_buff_spec, add_buff, remove_buff, started, at_index,
}

-- The id of the buff at a position.
abbrev pub id_at : List Buff → ℕ → Option ℤ
id_at [] i = none
id_at (b ∷ l) zero = some b.buff_id
id_at (b ∷ l) (suc i) = id_at l i

-- How many buffs of the list have the id.
unfoldable pub id_count : ℤ → List Buff → ℕ
id_count id [] = 0
id_count id (b ∷ l) = (if b.buff_id ==ℤ id then 1 else 0) + id_count id l

-- Each id stands once in the list, and the map gives its position.
pub record IsIndexed (bs : Buffs) : Type 0 where
  pub sound : (id : ℤ) (i : ℕ) → lookup id bs.buff_ids ≡ some i → id_at bs.list i ≡ some id
  pub complete : (id : ℤ) (i : ℕ) → id_at bs.list i ≡ some id → lookup id bs.buff_ids ≡ some i
  pub unique : (id : ℤ) → id_count id bs.list ≤ 1

-- A list that holds the same ids at the same positions.
pub record SameIds (l l' : List Buff) : Type 0 where
  pub at : (i : ℕ) → id_at l' i ≡ id_at l i
  pub counts : (id : ℤ) → id_count id l' ≡ id_count id l

pub SameIds-IsIndexed :
    (bs : Buffs) (l : List Buff)
    → SameIds bs.list l
    → IsIndexed bs
    → IsIndexed (record bs { list = l })
SameIds-IsIndexed bs l same v = record {
  sound = λ id i. ground (arith, v.sound id i, same.at i);
  complete = λ id i. ground (arith, v.complete id i, same.at i);
  unique = λ id. ground (arith, v.unique id, same.counts id);
}

id_at-at_index :
    (k : ℕ) (f : Buff → Buff) (l : List Buff)
    → ((b : Buff) → (f b).buff_id ≡ b.buff_id)
    → (i : ℕ) → id_at (at_index k f l) i ≡ id_at l i
unfolding at_index
id_at-at_index k f [] h i = refl
id_at-at_index zero f (b ∷ l) h zero = ground (arith, h b)
id_at-at_index zero f (b ∷ l) h (suc i) = refl
id_at-at_index (suc k) f (b ∷ l) h zero = refl
id_at-at_index (suc k) f (b ∷ l) h (suc i) = id_at-at_index k f l h i

id_count-at_index :
    (k : ℕ) (f : Buff → Buff) (l : List Buff)
    → ((b : Buff) → (f b).buff_id ≡ b.buff_id)
    → (id : ℤ) → id_count id (at_index k f l) ≡ id_count id l
unfolding at_index id_count
id_count-at_index k f [] h id = refl
id_count-at_index zero f (b ∷ l) h id = ground (arith, h b)
id_count-at_index (suc k) f (b ∷ l) h id = ground (arith, id_count-at_index k f l h id)

pub at_index-SameIds :
    (k : ℕ) (f : Buff → Buff) (l : List Buff)
    → ((b : Buff) → (f b).buff_id ≡ b.buff_id)
    → SameIds l (at_index k f l)
at_index-SameIds k f l h = record {
  at = id_at-at_index k f l h;
  counts = id_count-at_index k f l h;
}

-- Buffs that are appended.
pub id_at-append :
    (l : List Buff) (b : Buff) (i : ℕ)
    → id_at (l ++ b ∷ []) i
      ≡ (if ltb i (length l) then id_at l i else if i == length l then some b.buff_id else none)
id_at-append [] b zero = ground arith
id_at-append [] b (suc i) = ground arith
id_at-append (c ∷ l) b zero = ground arith
id_at-append (c ∷ l) b (suc i) = ground (arith, id_at-append l b i)

id_count-append :
    (l : List Buff) (b : Buff) (id : ℤ)
    → id_count id (l ++ b ∷ []) ≡ id_count id l + (if b.buff_id ==ℤ id then 1 else 0)
unfolding id_count
id_count-append [] b id = ground arith
id_count-append (c ∷ l) b id = ground (arith, id_count-append l b id)

id_at-bound : (l : List Buff) (i : ℕ) (id : ℤ) → id_at l i ≡ some id → i < length l
id_at-bound [] i id h = cc
id_at-bound (c ∷ l) zero id h = ground arith
id_at-bound (c ∷ l) (suc i) id h = ground (arith, id_at-bound l i id h)

pub position : (id : ℤ) (l : List Buff) → 0 < id_count id l → (i : ℕ) × (id_at l i ≡ some id)
unfolding id_count
position id [] h = absurd (omega arith)
position id (b ∷ l) h = elim (Bool-cases (b.buff_id ==ℤ id)) [
  | inl e ↦ (0, ground (arith, ==ℤ_iff b.buff_id id))
  | inr e ↦ let (i, p) = position id l (ground arith) in (suc i, p)
]

pub ℕ_zero : (n : ℕ) → (n ≡ 0) ⊎ (0 < n)
ℕ_zero n = ground arith

-- An id that the map does not have is not in the list.
absent-count :
    (bs : Buffs) (id : ℤ) → IsIndexed bs → lookup id bs.buff_ids ≡ none → id_count id bs.list ≡ 0
absent-count bs id v h = elim (ℕ_zero (id_count id bs.list)) [
  | inl e ↦ e
  | inr p ↦ let (i, at) = position id bs.list p in absurd (ground (arith, v.complete id i at))
]

pub remove_buff-IsIndexed : (id : ℤ) (bs : Buffs) → IsIndexed bs → IsIndexed (remove_buff id bs).0
unfolding remove_buff
remove_buff-IsIndexed id bs v = elim (Option-cases (lookup id bs.buff_ids)) [
  | inl e ↦ rw (e, remove_buff) v
  | inr (i, e) ↦
      rw (e, remove_buff) (SameIds-IsIndexed bs _ (at_index-SameIds i _ bs.list (λ b. refl)) v)
]

pub started-IsIndexed : (id : ℤ) (bs : Buffs) → IsIndexed bs → IsIndexed (started id bs)
unfolding started
started-IsIndexed id bs v = elim (Option-cases (lookup id bs.buff_ids)) [
  | inl e ↦ rw (e, started) v
  | inr (i, e) ↦
      rw (e, started) (SameIds-IsIndexed bs _ (at_index-SameIds i _ bs.list (λ b. refl)) v)
]

append-IsIndexed :
    (id : ℤ) (b : Buff) (bs : Buffs) (flags : List (String × List ℕ))
    → b.buff_id ≡ id
    → lookup id bs.buff_ids ≡ none
    → IsIndexed bs
    → IsIndexed (record {
      list = bs.list ++ b ∷ [];
      buff_flags = flags;
      buff_ids = insert id (length bs.list) bs.buff_ids;
    })
append-IsIndexed id b bs flags own free v = record {
  sound = λ j i. ground (
    arith,
    lookup-insert id j (length bs.list) bs.buff_ids,
    ==ℤ_iff id j,
    v.sound j i,
    id_at-append bs.list b i,
    id_at-bound bs.list i j,
  );
  complete = λ j i. ground (
    arith,
    lookup-insert id j (length bs.list) bs.buff_ids,
    ==ℤ_iff id j,
    v.complete j i,
    id_at-append bs.list b i,
    free,
  );
  unique = λ j.
      ground
        (arith, id_count-append bs.list b j, v.unique j, absent-count bs id v free, ==ℤ_iff id j);
}

-- Adding a buff whose spec goes by the id that is asked for keeps the list and the map in agreement.
pub add_buff-IsIndexed :
    (specs : Specs) (id : ℤ) (permanent : Bool) (bs : Buffs)
    → ((info : BuffSpec) → get_buff_spec specs id ≡ some info → info.buff_id ≡ id)
    → IsIndexed bs
    → IsIndexed (add_buff specs id permanent bs).0
unfolding add_buff
add_buff-IsIndexed specs id permanent bs own v = elim (Option-cases (get_buff_spec specs id)) [
  | inl e ↦ rw (e, add_buff) v
  | inr (info, e) ↦ elim (Option-cases (lookup id bs.buff_ids)) [
    | inr (i, at) ↦
        rw (e, add_buff, at) (SameIds-IsIndexed bs _ (at_index-SameIds i _ bs.list (λ b. refl)) v)
    | inl free ↦ rw (e, add_buff, free) (append-IsIndexed id _ bs _ (own info e) free v)
  ]
]

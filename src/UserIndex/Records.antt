-- ===== src/UserIndex/Records.antt =====
-- internal/users/index.go: a record that stands in the file reads back.
use go_mud.Prelude.Bytes.{starts_with, eq_bytes}
use go_mud.Prelude.{
  ℕ, zero, suc, ◌+◌, ◌≤◌, ◌≡◌, ◌≢◌, ◌∙◌, refl, not, ◌&&◌, ◌||◌, some, List, [], ◌∷◌, ◌++◌, length,
  drop, get_or, length-append, drop_prefix, drop-drop, ltb, ◌==◌, arith, ap, sym,
}
use mathlib.Core.List.{append_assoc}
use go_mud.Prelude.Int.{ℤ}
use go_mud.Prelude.Predicates.{All}
use go_mud.Prelude.Words.{bytes_of, word_of, IsInt64, length-bytes_of, of_bytes-word_of}
use go_mud.UserIndex.{IndexMetaData, IndexUserRecord}
use go_mud.UserIndex.Header.{read_full_there}
use go_mud.UserIndex.Calls.{
  copy_into, name_field, write_record, record_at, terminator_at, read_record, read, record_offset,
}
use go_mud.UserIndex.Searches.{name_matches, trim_zeros}

-- A name that a record can hold: at most 80 bytes, none of them zero.
pub record IsName (name : List ℕ) : Type 0 where
  pub short : length name ≤ 80
  pub plain : All (λ b. b ≢ 0) name

-- An entry of the index: a name in lower case and an id.
abbrev pub Entry : Type 0
Entry = List ℕ × ℤ

pub record IsEntry (e : Entry) : Type 0 where
  pub name : IsName e.0
  pub id : IsInt64 e.1

-- The record that stores an entry.
unfoldable pub stored : Entry → IndexUserRecord
stored e = record { user_id = e.1; username = name_field e.0 }

length-copy_into : (n : ℕ) (name : List ℕ) → length (copy_into n name) ≡ n
unfolding copy_into
length-copy_into zero name = refl
length-copy_into (suc n) [] = ap suc (length-copy_into n [])
length-copy_into (suc n) (b ∷ bs) = ap suc (length-copy_into n bs)

trim_zeros-copy_into_nil : (n : ℕ) → trim_zeros (copy_into n []) ≡ []
unfolding copy_into trim_zeros
trim_zeros-copy_into_nil zero = refl
trim_zeros-copy_into_nil (suc n) = rw (trim_zeros-copy_into_nil n) refl

trim_zeros-copy_into :
    (n : ℕ) (name : List ℕ)
    → length name ≤ n
    → All (λ b. b ≢ 0) name
    → trim_zeros (copy_into n name) ≡ name
unfolding copy_into trim_zeros
trim_zeros-copy_into n [] h p = trim_zeros-copy_into_nil n
trim_zeros-copy_into zero (b ∷ bs) h p = absurd (omega arith)
trim_zeros-copy_into (suc n) (b ∷ []) h p =
    rw (trim_zeros-copy_into n [] (omega arith) tt) (ground arith)
trim_zeros-copy_into (suc n) (b ∷ c ∷ bs) h p =
    rw (trim_zeros-copy_into n (c ∷ bs) (omega arith) p.1) refl

-- The comparison of a name with the field of another, over arrays of any length.
matches-copy_into :
    (n : ℕ) (name other : List ℕ)
    → length name ≤ n
    → length other ≤ n
    → All (λ b. b ≢ 0) name
    → All (λ b. b ≢ 0) other
    → ((not (ltb (length name) n) || get_or (copy_into n other) (length name) 0 == 0)
        && starts_with name (copy_into n other))
      ≡ eq_bytes other name
unfolding copy_into
matches-copy_into zero [] [] h k p q = refl
matches-copy_into zero [] (c ∷ cs) h k p q = absurd (omega arith)
matches-copy_into zero (b ∷ bs) other h k p q = absurd (omega arith)
matches-copy_into (suc n) [] [] h k p q = ground arith
matches-copy_into (suc n) [] (c ∷ cs) h k p q = ground (arith, q.0)
matches-copy_into (suc n) (b ∷ bs) [] h k p q = ground (arith, p.0)
matches-copy_into (suc n) (b ∷ bs) (c ∷ cs) h k p q =
    ground (arith, matches-copy_into n bs cs (omega arith) (omega arith) p.1 q.1)

-- What a search finds in a record is whether the names are equal.
pub name_matches-name_field :
    (name other : List ℕ)
    → IsName name
    → IsName other
    → name_matches name (name_field other) ≡ eq_bytes other name
unfolding name_matches name_field
name_matches-name_field name other v w =
    matches-copy_into 80 name other v.short w.short v.plain w.plain

pub trim_zeros-name_field : (name : List ℕ) → IsName name → trim_zeros (name_field name) ≡ name
unfolding name_field
trim_zeros-name_field name v = trim_zeros-copy_into 80 name v.short v.plain

length-write_record : (e : Entry) → length (write_record (stored e)) ≡ 89
unfolding write_record stored name_field
length-write_record e = omega (
  arith,
  length-append (copy_into 80 e.0) (bytes_of 8 (word_of e.1) ++ 10 ∷ []),
  length-append (bytes_of 8 (word_of e.1)) (10 ∷ []),
  length-copy_into 80 e.0,
  length-bytes_of 8 (word_of e.1),
)

-- The bytes of a record, with what follows.
spread_record :
    (e : Entry) (rest : List ℕ)
    → write_record (stored e) ++ rest ≡ name_field e.0 ++ (bytes_of 8 (word_of e.1) ++ (10 ∷ rest))
unfolding write_record stored
spread_record e rest = simp append_assoc refl

module _ (m : IndexMetaData) (i : ℕ) (bytes : List ℕ) (e : Entry) (rest : List ℕ)
    (at : drop (record_offset m i) bytes ≡ write_record (stored e) ++ rest) where
  name_there :
      drop (record_offset m i) bytes ≡ name_field e.0 ++ (bytes_of 8 (word_of e.1) ++ (10 ∷ rest))
  name_there = at ∙ spread_record e rest

  id_there : drop (record_offset m i + 80) bytes ≡ bytes_of 8 (word_of e.1) ++ (10 ∷ rest)
  unfolding name_field
  id_there =
      sym (drop-drop (record_offset m i) 80 bytes)
      ∙ ap (drop 80) name_there
      ∙ drop_prefix 80 (name_field e.0) (bytes_of 8 (word_of e.1) ++ (10 ∷ rest))
          (length-copy_into 80 e.0)

  end_there : drop (record_offset m i + 88) bytes ≡ 10 ∷ rest
  end_there =
      ap (λ (k : ℕ). drop k bytes) (omega arith)
      ∙ sym (drop-drop (record_offset m i + 80) 8 bytes)
      ∙ ap (drop 8) id_there
      ∙ drop_prefix 8 (bytes_of 8 (word_of e.1)) (10 ∷ rest) (length-bytes_of 8 (word_of e.1))

  pub record_at_there : IsEntry e → record_at m i bytes ≡ some (stored e)
  unfolding record_at name_field stored
  record_at_there v =
      rw
        (
          read_full_there 80 (record_offset m i) bytes (name_field e.0)
              (bytes_of 8 (word_of e.1) ++ (10 ∷ rest)) name_there (length-copy_into 80 e.0),
          record_at,
          read_full_there 8 (record_offset m i + 80) bytes (bytes_of 8 (word_of e.1)) (10 ∷ rest)
              id_there (length-bytes_of 8 (word_of e.1)),
          of_bytes-word_of e.1 v.id,
        )
        refl

  pub read_record_there : IsEntry e → read_record m i bytes ≡ read (stored e)
  unfolding read_record terminator_at
  read_record_there v =
      rw
        (
          record_at_there v,
          read_record,
          read_full_there 1 (record_offset m i + 88) bytes (10 ∷ []) rest end_there refl,
          terminator_at,
        )
        refl

  pub drop_record : drop (record_offset m i + 89) bytes ≡ rest
  drop_record =
      sym (drop-drop (record_offset m i) 89 bytes)
      ∙ ap (drop 89) at
      ∙ drop_prefix 89 (write_record (stored e)) rest (length-write_record e)

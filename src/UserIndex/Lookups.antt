-- ===== src/UserIndex/Lookups.antt =====
-- internal/users/index.go: the searches find what the entries of the file say.
use go_mud.Prelude.{
  drop_prefix, ℕ, suc, ◌+◌, ◌≤◌, ◌<◌, ◌≡◌, ◌≢◌, ◌∙◌, refl, true, Option, none, some, List, [], ◌∷◌,
  ◌++◌, map, length, drop, length-map, ltb, ltb→lt, if◌then◌else◌, arith, ap, sym, inl, inr,
  Bool-cases,
}
use go_mud.Prelude.Int.{ℤ, ltb_ℤ, ◌==ℤ◌}
use go_mud.Prelude.Predicates.{All}
use go_mud.Prelude.Bytes.{to_lower, lower_byte, eq_bytes, eq_bytes_iff, bytes_eq}
use go_mud.Prelude.Assoc.{lookup}
use go_mud.UserIndex.{UserIndex, IndexMetaData}
use go_mud.UserIndex.Header.{Fits, header_bytes, length-header_bytes}
use go_mud.UserIndex.Calls.{highest_loop, record_offset}
use go_mud.UserIndex.Searches.{
  find_name_loop, find_by_username, find_id_loop, find_by_user_id, write_records,
}
use go_mud.UserIndex.Records.{
  Entry, IsName, IsEntry, stored, record_at_there, read_record_there, drop_record,
  name_matches-name_field, trim_zeros-name_field,
}

-- The first name with the id.
unfoldable pub name_of : ℤ → List Entry → Option (List ℕ)
name_of id [] = none
name_of id ((name, i) ∷ l) = if i ==ℤ id then some name else name_of id l

-- The largest id, and at least `h`.
unfoldable pub highest : ℤ → List Entry → ℤ
highest h [] = h
highest h ((name, i) ∷ l) = highest (if ltb_ℤ h i then i else h) l

abbrev pub all_stored : List Entry → List ℕ
all_stored l = write_records (map stored l)

-- The index stands for the list of entries: the file is a header with the numbers that the index holds
-- too, and then a record for each entry.
pub record Represents (idx : UserIndex) (l : List Entry) : Type 0 where
  pub size : idx.meta_data.meta_data_size ≡ 100
  pub record_size : idx.meta_data.record_size ≡ 89
  pub records : idx.meta_data.record_count ≡ length l
  pub fits : Fits idx.meta_data
  pub bytes : idx.file ≡ some (header_bytes idx.meta_data ++ all_stored l)
  pub entries : All IsEntry l

-- The records from number `i` on are those of `l`.
abbrev pub At : IndexMetaData → ℕ → List ℕ → List Entry → Type 0
At m i bytes l = drop (record_offset m i) bytes ≡ all_stored l

module _ (m : IndexMetaData) (bytes : List ℕ) (size : m.record_size ≡ 89) where
  pub At-suc : (i : ℕ) (e : Entry) (l : List Entry) → At m i bytes (e ∷ l) → At m (suc i) bytes l
  unfolding write_records
  At-suc i e l at = ap (λ (k : ℕ). drop k bytes) next ∙ drop_record m i bytes e (all_stored l) at
    where
      next : record_offset m (suc i) ≡ record_offset m i + 89
      next = rw size (omega arith)

  pub find_name_loop_lem :
      (name : List ℕ) (l : List Entry) (i : ℕ)
      → IsName name
      → All IsEntry l
      → At m i bytes l
      → find_name_loop m bytes name (length l) i ≡ lookup name l
  unfolding find_name_loop lookup write_records stored
  find_name_loop_lem name [] i v h at = refl
  find_name_loop_lem name (e ∷ l) i v h at =
      rw
        (
          read_record_there m i bytes e (all_stored l) at h.0,
          find_name_loop,
          stored,
          name_matches-name_field name e.0 v (h.0).name,
          find_name_loop_lem name l (suc i) v h.1 (At-suc i e l at),
        )
        refl

  pub find_id_loop_lem :
      (id : ℤ) (l : List Entry) (i : ℕ)
      → All IsEntry l
      → At m i bytes l
      → find_id_loop m bytes id (length l) i ≡ name_of id l
  unfolding find_id_loop name_of write_records stored
  find_id_loop_lem id [] i h at = refl
  find_id_loop_lem id (e ∷ l) i h at =
      rw
        (
          read_record_there m i bytes e (all_stored l) at h.0,
          find_id_loop,
          stored,
          trim_zeros-name_field e.0 (h.0).name,
          find_id_loop_lem id l (suc i) h.1 (At-suc i e l at),
        )
        refl

  pub highest_loop_lem :
      (l : List Entry) (i : ℕ) (h : ℤ)
      → All IsEntry l
      → At m i bytes l
      → highest_loop m bytes (length l) i h ≡ highest h l
  unfolding highest_loop highest write_records stored
  highest_loop_lem [] i h v at = refl
  highest_loop_lem (e ∷ l) i h v at =
      rw (record_at_there m i bytes e (all_stored l) at v.0, highest_loop, stored)
        (highest_loop_lem l (suc i) (if ltb_ℤ h e.1 then e.1 else h) v.1 (At-suc i e l at))

pub to_lower-plain : (name : List ℕ) → All (λ b. b ≢ 0) name → All (λ b. b ≢ 0) (to_lower name)
unfolding to_lower
to_lower-plain [] h = tt
to_lower-plain (b ∷ bs) h = (ground (arith, h.0), to_lower-plain bs h.1)

pub to_lower-IsName :
    (name : List ℕ) → All (λ b. b ≢ 0) name → length name ≤ 80 → IsName (to_lower name)
unfolding to_lower
to_lower-IsName name plain short = record {
  short = omega (arith, length-map name lower_byte);
  plain = to_lower-plain name plain;
}

-- No entry has a name that is too long.
lookup_long :
    (name : List ℕ) (l : List Entry) → All IsEntry l → 80 < length name → lookup name l ≡ none
unfolding lookup
lookup_long name [] h long = refl
lookup_long name (e ∷ l) h long = elim (Bool-cases (eq_bytes e.0 name)) [
  | inl f ↦ absurd (omega (arith, ap length ((eq_bytes_iff e.0 name).0 f), (h.0).name.short))
  | inr f ↦ rw f (lookup_long name l h.1 long)
]

module _ (idx : UserIndex) (l : List Entry) (r : Represents idx l) where
  pub At-start :
      (rest : List ℕ)
      → drop (record_offset idx.meta_data 0) (header_bytes idx.meta_data ++ rest) ≡ rest
  At-start rest =
      drop_prefix (record_offset idx.meta_data 0) (header_bytes idx.meta_data) rest
        (length-header_bytes idx.meta_data r.fits ∙ sym start)
    where
      start : record_offset idx.meta_data 0 ≡ 100
      start = omega (arith, r.size)

  -- A search for a name gives the id of the first entry with the name in lower case, and nothing when
  -- there is none, for any name without a zero byte, names of more than 80 bytes included.
  pub find_by_username-lookup :
      (name : List ℕ) → All (λ b. b ≢ 0) name → find_by_username name idx ≡ lookup (to_lower name) l
  unfolding find_by_username to_lower
  find_by_username-lookup name plain = elim (Bool-cases (ltb 80 (length name))) [
    | inl f ↦ rw (f, find_by_username) (sym (lookup_long (to_lower name) l r.entries (longer f)))
    | inr f ↦
        rw (f, find_by_username, r.bytes)
          (ap
              (λ (k : ℕ).
                find_name_loop idx.meta_data (header_bytes idx.meta_data ++ all_stored l)
                  (to_lower name) k 0)
              r.records
            ∙ find_name_loop_lem idx.meta_data (header_bytes idx.meta_data ++ all_stored l)
                r.record_size (to_lower name) l 0 (to_lower-IsName name plain (ground arith))
                r.entries (At-start (all_stored l)))
  ]
    where
      longer : ltb 80 (length name) ≡ true → 80 < length (to_lower name)
      longer f = omega (arith, length-map name lower_byte, ltb→lt 80 (length name) f)

  -- A search for an id gives the name of the first entry with that id, and nothing when there is none.
  pub find_by_user_id-name_of : (id : ℤ) → find_by_user_id id idx ≡ name_of id l
  unfolding find_by_user_id
  find_by_user_id-name_of id =
      rw (r.bytes, find_by_user_id)
        (ap
            (λ (k : ℕ).
              find_id_loop idx.meta_data (header_bytes idx.meta_data ++ all_stored l) id k 0)
            r.records
          ∙ find_id_loop_lem idx.meta_data (header_bytes idx.meta_data ++ all_stored l)
              r.record_size id l 0 r.entries (At-start (all_stored l)))

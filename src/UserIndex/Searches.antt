-- ===== src/UserIndex/Searches.antt =====
-- internal/users/index.go: the searches, and the removal of a name. Each loop goes over the record numbers from
-- `i` on, `n` of them, and seeks to each record. An error comes beside the index, `none` for nil.
use go_mud.Prelude.{
  ℕ, zero, suc, Bool, false, not, ◌&&◌, ◌||◌, Option, none, some, List, [], ◌∷◌, ◌++◌, length,
  get_or, ltb, ◌==◌, if◌then◌else◌,
}
use go_mud.Prelude.Int.{ℤ, ◌==ℤ◌}
use go_mud.UserIndex.{
  UserIndex, IndexMetaData, IndexUserRecord, IndexError, no_file, header_too_long, not_found,
  format,
}
use go_mud.Prelude.Bytes.{starts_with, to_lower, eq_bytes}
use go_mud.UserIndex.Calls.{read_record, read, failed, write_record}

-- The comparison of `FindByUsername`: the bytes of the name, and a zero behind them.
unfoldable pub name_matches : List ℕ → List ℕ → Bool
name_matches name field =
    (not (ltb (length name) 80) || get_or field (length name) 0 == 0) && starts_with name field

unfoldable pub find_name_loop : IndexMetaData → List ℕ → List ℕ → ℕ → ℕ → Option ℤ
find_name_loop m bytes name zero i = none
find_name_loop m bytes name (suc n) i = elim (read_record m i bytes) [
  | failed e ↦ none
  | read r ↦
      let rest = find_name_loop m bytes name n (suc i) in
      if name_matches name r.username then some r.user_id else rest
]

-- `none` is the result (0, false).
unfoldable pub find_by_username : List ℕ → UserIndex → Option ℤ
find_by_username name idx = if ltb 80 (length name) then none else elim idx.file [
  | none ↦ none
  | some bytes ↦ find_name_loop idx.meta_data bytes (to_lower name) idx.meta_data.record_count 0
]

-- `bytes.TrimRight` of zero bytes.
abbrev pub cons_unless_zero : ℕ → List ℕ → List ℕ
cons_unless_zero b [] = if b == 0 then [] else b ∷ []
cons_unless_zero b (c ∷ bs) = b ∷ c ∷ bs

unfoldable pub trim_zeros : List ℕ → List ℕ
trim_zeros [] = []
trim_zeros (b ∷ bs) = cons_unless_zero b (trim_zeros bs)

unfoldable pub find_id_loop : IndexMetaData → List ℕ → ℤ → ℕ → ℕ → Option (List ℕ)
find_id_loop m bytes id zero i = none
find_id_loop m bytes id (suc n) i = elim (read_record m i bytes) [
  | failed e ↦ none
  | read r ↦
      let rest = find_id_loop m bytes id n (suc i) in
      if r.user_id ==ℤ id then some (trim_zeros r.username) else rest
]

unfoldable pub find_by_user_id : ℤ → UserIndex → Option (List ℕ)
find_by_user_id id idx = elim idx.file [
  | none ↦ none
  | some bytes ↦ find_id_loop idx.meta_data bytes id idx.meta_data.record_count 0
]

-- The records that stay, and whether one was left out.
pub data Collected : Type 0 where
  collected : List IndexUserRecord → Bool → Collected
  broke : IndexError → Collected

unfoldable pub keep_record : IndexUserRecord → Collected → Collected
keep_record r (collected rs found) = collected (r ∷ rs) found
keep_record r (broke e) = broke e

-- `found` is `recordFound`.
unfoldable pub collect_loop : IndexMetaData → List ℕ → List ℕ → ℕ → ℕ → Bool → Collected
collect_loop m bytes name zero i found = collected [] found
collect_loop m bytes name (suc n) i found = elim (read_record m i bytes) [
  | failed e ↦ broke e
  | read r ↦
      let hit = eq_bytes (trim_zeros r.username) name && not found in
      let rest = collect_loop m bytes name n (suc i) (found || hit) in
      if hit then rest else keep_record r rest
]

unfoldable pub write_records : List IndexUserRecord → List ℕ
write_records [] = []
write_records (r ∷ rs) = write_record r ++ write_records rs

-- `os.Create` empties the file first.
unfoldable pub write_complete_index :
    List IndexUserRecord → UserIndex → UserIndex × Option IndexError
write_complete_index records idx = elim (format idx.meta_data) [
  | none ↦ (record idx { file = some [] }, some header_too_long)
  | some header ↦ (record idx { file = some (header ++ write_records records) }, none)
]

unfoldable pub remove_by_username : List ℕ → UserIndex → UserIndex × Option IndexError
remove_by_username name idx = elim idx.file [
  | none ↦ (idx, some no_file)
  | some bytes ↦
      elim (collect_loop idx.meta_data bytes (to_lower name) idx.meta_data.record_count 0 false) [
        | broke e ↦ (idx, some e)
        | collected records found ↦
            if found
            then write_complete_index records
                (record idx { meta_data = record idx.meta_data { record_count = length records } })
            else (idx, some not_found)
      ]
]

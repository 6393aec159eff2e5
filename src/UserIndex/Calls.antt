-- ===== src/UserIndex/Calls.antt =====
-- internal/users/index.go: the operations on the index. Each loop goes over the record numbers from
-- `i` on, `n` of them, and seeks to each record. An error comes beside the index, `none` for nil.
use go_mud.Prelude.{
  ℕ, zero, suc, ◌+◌, ◌*◌, Option, none, some, List, [], ◌∷◌, ◌++◌, length, drop, get_or, ◌==◌,
  if◌then◌else◌,
}
use go_mud.Prelude.Int.{ℤ, pos, ltb_ℤ}
use go_mud.Prelude.Bytes.{to_lower}
use go_mud.Prelude.Words.{bytes_of, of_bytes, word_of, int_of}
use go_mud.UserIndex.{
  UserIndex, IndexMetaData, IndexUserRecord, IndexError, no_file, header_too_long, short_read,
  invalid_terminator, index_line_terminator_v1, index_record_size_v1, fixed_header_total_length,
  format, read_full, get_meta_data_from_file,
}

-- `copy` into an array of `n` zero bytes; of a longer text the start.
unfoldable pub copy_into : ℕ → List ℕ → List ℕ
copy_into zero bs = []
copy_into (suc n) [] = 0 ∷ copy_into n []
copy_into (suc n) (b ∷ bs) = b ∷ copy_into n bs

unfoldable pub name_field : List ℕ → List ℕ
name_field name = copy_into 80 name

unfoldable pub write_record : IndexUserRecord → List ℕ
write_record r = r.username ++ (bytes_of 8 (word_of r.user_id) ++ index_line_terminator_v1 ∷ [])

abbrev pub record_offset : IndexMetaData → ℕ → ℕ
record_offset m i = m.meta_data_size + i * m.record_size

-- The name and the id of a record.
unfoldable pub record_at : IndexMetaData → ℕ → List ℕ → Option IndexUserRecord
record_at m i bytes = elim (read_full 80 (record_offset m i) bytes) [
  | none ↦ none
  | some name ↦ elim (read_full 8 (record_offset m i + 80) bytes) [
    | none ↦ none
    | some id ↦ some (record { user_id = int_of (of_bytes id); username = name })
  ]
]

unfoldable pub terminator_at : IndexMetaData → ℕ → List ℕ → Option ℕ
terminator_at m i bytes = elim (read_full 1 (record_offset m i + 88) bytes) [
  | none ↦ none
  | some term ↦ some (get_or term 0 0)
]

-- A record and its terminator, with what went wrong.
pub data Reading : Type 0 where
  read : IndexUserRecord → Reading
  failed : IndexError → Reading

unfoldable pub read_record : IndexMetaData → ℕ → List ℕ → Reading
read_record m i bytes = elim (record_at m i bytes) [
  | none ↦ failed short_read
  | some r ↦ elim (terminator_at m i bytes) [
    | none ↦ failed short_read
    | some t ↦ if t == index_line_terminator_v1 then read r else failed invalid_terminator
  ]
]

unfoldable pub highest_loop : IndexMetaData → List ℕ → ℕ → ℕ → ℤ → ℤ
highest_loop m bytes zero i h = h
highest_loop m bytes (suc n) i h = elim (record_at m i bytes) [
  | none ↦ h
  | some r ↦ highest_loop m bytes n (suc i) (if ltb_ℤ h r.user_id then r.user_id else h)
]

unfoldable pub calculate_highest_user_id : UserIndex → UserIndex
calculate_highest_user_id idx = elim idx.file [
  | none ↦ idx
  | some bytes ↦ record idx {
    highest_user_id =
        highest_loop idx.meta_data bytes idx.meta_data.record_count 0 idx.highest_user_id;
  }
]

unfoldable pub new_user_index : Option (List ℕ) → UserIndex
new_user_index file =
    let idx : UserIndex = record {
      meta_data = record {
        meta_data_size = 0;
        index_version = 0;
        record_count = 0;
        record_size = 0;
      };
      highest_user_id = pos 0;
      file = file;
    } in
    elim file [
      | none ↦ idx
      | some bytes ↦
          calculate_highest_user_id
            (record idx { meta_data = get_meta_data_from_file (some bytes) })
    ]

abbrev pub fresh_meta_data : IndexMetaData
fresh_meta_data = record {
  meta_data_size = fixed_header_total_length;
  index_version = 1;
  record_count = 0;
  record_size = index_record_size_v1;
}

-- `Delete` and `os.Create` leave an empty file, which the header goes into.
unfoldable pub create : UserIndex → UserIndex × Option IndexError
create idx = elim (format fresh_meta_data) [
  | none ↦ (record idx { file = some []; meta_data = fresh_meta_data }, some header_too_long)
  | some header ↦ (record idx { file = some header; meta_data = fresh_meta_data }, none)
]

-- A write at the start of a file.
unfoldable pub overwrite : List ℕ → List ℕ → List ℕ
overwrite new old = new ++ drop (length new) old

unfoldable pub add_user : ℤ → List ℕ → UserIndex → UserIndex × Option IndexError
add_user id name idx = elim idx.file [
  | none ↦ (idx, some no_file)
  | some bytes ↦
      let appended =
        bytes ++ write_record (record { user_id = id; username = name_field (to_lower name) }) in
      let highest = if ltb_ℤ idx.highest_user_id id then id else idx.highest_user_id in
      let meta : IndexMetaData = record idx.meta_data {
        record_count = idx.meta_data.record_count + 1;
      } in
      elim (format meta) [
        | none ↦ (
          record { meta_data = meta; highest_user_id = highest; file = some appended },
          some header_too_long,
        )
        | some header ↦ (
          record {
            meta_data = meta;
            highest_user_id = highest;
            file = some (overwrite header appended);
          },
          none,
        )
      ]
]

-- `Rebuild`, over the users that `SearchOfflineUsers` finds: errors are dropped.
unfoldable pub rebuild : List (ℤ × List ℕ) → UserIndex → UserIndex
rebuild [] idx = idx
rebuild ((id, name) ∷ users) idx = rebuild users (add_user id name idx).0

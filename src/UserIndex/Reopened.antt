-- ===== src/UserIndex/Reopened.antt =====
-- internal/users/index.go: runs of operations, and an index that a later start reads from the file.
use go_mud.Prelude.Bytes.{to_lower, bytes_eq}
use go_mud.Prelude.{ℕ, ◌+◌, ◌^◌, ◌<◌, ◌≡◌, ◌≢◌, ◌∙◌, ap, List, [], ◌∷◌, ◌++◌, length, arith}
use go_mud.Prelude.Int.{ℤ, pos}
use go_mud.Prelude.Predicates.{All}
use go_mud.Prelude.Assoc.{lookup}
use go_mud.Prelude.Words.{IsInt64}
use go_mud.UserIndex.{UserIndex}
use go_mud.UserIndex.Header.{header_bytes, get_meta_data-header_bytes}
use go_mud.UserIndex.Calls.{
  create, add_user, new_user_index, calculate_highest_user_id, highest_loop,
}
use go_mud.UserIndex.Searches.{remove_by_username, find_by_username, find_by_user_id}
use go_mud.UserIndex.Records.{Entry}
use go_mud.UserIndex.Lookups.{
  Represents, name_of, highest, all_stored, highest_loop_lem, At-start, find_by_username-lookup,
  find_by_user_id-name_of,
}
use go_mud.UserIndex.Adding.{
  add_entry, length-add_entry, made, create-Represents, add_user-Represents,
}
use go_mud.UserIndex.Removing.{remove_entry, length-remove_entry, remove_by_username-Represents}

-- The calls that change an index.
pub data Call : Type 0 where
  add_name : ℤ → List ℕ → Call
  remove_name : List ℕ → Call

pub apply : Call → UserIndex → UserIndex
apply (add_name id name) idx = (add_user id name idx).0
apply (remove_name name) idx = (remove_by_username name idx).0

pub run_calls : List Call → UserIndex → UserIndex
run_calls [] idx = idx
run_calls (c ∷ calls) idx = run_calls calls (apply c idx)

-- What the calls mean for the entries.
pub run_entries : List Call → List Entry → List Entry
run_entries [] l = l
run_entries (add_name id name ∷ calls) l = run_entries calls (add_entry id name l)
run_entries (remove_name name ∷ calls) l = run_entries calls (remove_entry (to_lower name) l)

-- An id of 64 bits, and a name without a zero byte.
abbrev pub IsCall : Call → Type 0
IsCall (add_name id name) = IsInt64 id × All (λ b. b ≢ 0) name
IsCall (remove_name name) = Unit

run-Represents :
    (calls : List Call) (idx : UserIndex) (l : List Entry)
    → Represents idx l
    → All IsCall calls
    → length l + length calls < 2 ^ 64
    → Represents (run_calls calls idx) (run_entries calls l)
unfolding run_calls run_entries apply
run-Represents [] idx l r ok room = r
run-Represents (add_name id name ∷ calls) idx l r ok room =
    run-Represents calls (add_user id name idx).0 (add_entry id name l)
      (add_user-Represents idx l r id name (ok.0).0 (ok.0).1 (omega arith)).0 ok.1
      (omega (arith, length-add_entry id name l))
run-Represents (remove_name name ∷ calls) idx l r ok room =
    run-Represents calls (remove_by_username name idx).0 (remove_entry (to_lower name) l)
      (remove_by_username-Represents idx l r name).0 ok.1
      (omega (arith, length-remove_entry (to_lower name) l))

-- After an index is created, over any file, and any calls on it that add ids of 64 bits and names
-- without a zero byte, fewer than 2 ^ 64 calls, a search for such a name and a search for an id give
-- what the list of entries gives that the same calls make of the empty list.
pub run-create :
    (idx : UserIndex) (calls : List Call) (name : List ℕ) (id : ℤ)
    → All IsCall calls
    → length calls < 2 ^ 64
    → All (λ b. b ≢ 0) name
    → (find_by_username name (run_calls calls (create idx).0)
        ≡ lookup (to_lower name) (run_entries calls []))
      × (find_by_user_id id (run_calls calls (create idx).0) ≡ name_of id (run_entries calls []))
run-create idx calls name id ok few plain =
    let r = run-Represents calls (create idx).0 [] (create-Represents idx) ok (omega arith) in
    (
      find_by_username-lookup (run_calls calls (create idx).0) (run_entries calls []) r name plain,
      find_by_user_id-name_of (run_calls calls (create idx).0) (run_entries calls []) r id,
    )

-- An index that is opened on the file of another stands for the same entries, and its highest id is
-- the largest of theirs, or 0.
pub new_user_index-Represents :
    (idx : UserIndex) (l : List Entry)
    → Represents idx l
    → Represents (new_user_index idx.file) l
      × ((new_user_index idx.file).highest_user_id ≡ highest (pos 0) l)
unfolding new_user_index calculate_highest_user_id
new_user_index-Represents idx l r =
    let bytes = header_bytes idx.meta_data ++ all_stored l in
    let meta = get_meta_data-header_bytes idx.meta_data (all_stored l) r.fits r.size in
    let found =
      ap (λ (k : ℕ). highest_loop idx.meta_data bytes k 0 (pos 0)) r.records
      ∙ highest_loop_lem idx.meta_data bytes r.record_size l 0 (pos 0) r.entries
          (At-start idx l r (all_stored l)) in
    simp (r.bytes, new_user_index, calculate_highest_user_id, meta)
      (
        made idx.meta_data (highest_loop idx.meta_data bytes idx.meta_data.record_count 0 (pos 0)) l
            r.size r.record_size r.records r.fits r.entries,
        found,
      )

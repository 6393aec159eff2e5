-- ===== src/UserIndex/Tests.antt =====
-- The index at concrete users.
use go_mud.Prelude.Bytes.{to_lower, bytes_eq}
use go_mud.Prelude.{false, length, ℕ, ◌≡◌, ◌≢◌, arith, none, some, List, [], ◌∷◌, if◌then◌else◌}
use go_mud.Prelude.Int.{pos}
use go_mud.Prelude.Predicates.{All}
use go_mud.Prelude.Assoc.{lookup}
use go_mud.UserIndex.{UserIndex, not_found}
use go_mud.UserIndex.Calls.{create, add_user, new_user_index}
use go_mud.UserIndex.Searches.{find_by_username, find_by_user_id, remove_by_username}
use go_mud.UserIndex.Lookups.{Represents, name_of, highest}
use go_mud.UserIndex.Adding.{add_entry, create-Represents, add_user-Represents}
use go_mud.UserIndex.Removing.{remove_entry, holds, remove_by_username-Represents}
use go_mud.UserIndex.Reopened.{
  Call, add_name, remove_name, run_calls, run_entries, IsCall, run-create,
  new_user_index-Represents,
}

abbrev no_index : UserIndex
no_index = record {
  meta_data = record { meta_data_size = 0; index_version = 0; record_count = 0; record_size = 0 };
  highest_user_id = pos 0;
  file = none;
}

abbrev bob : List ℕ
bob = b'B' ∷ b'o' ∷ b'b' ∷ []

abbrev ann : List ℕ
ann = b'a' ∷ b'n' ∷ b'n' ∷ []

abbrev calls : List Call
calls = add_name (pos 7) bob ∷ add_name (pos 9) ann ∷ remove_name bob ∷ []

plain_bob : All (λ b. b ≢ 0) bob
plain_bob = (omega arith, (omega arith, (omega arith, tt)))

plain_ann : All (λ b. b ≢ 0) ann
plain_ann = (omega arith, (omega arith, (omega arith, tt)))

calls-IsCall : All IsCall calls
calls-IsCall = ((omega arith, plain_bob), ((omega arith, plain_ann), (tt, tt)))

run-create_example :
    (find_by_username ann (run_calls calls (create no_index).0)
      ≡ lookup (to_lower ann) (run_entries calls []))
    × (find_by_user_id (pos 7) (run_calls calls (create no_index).0)
        ≡ name_of (pos 7) (run_entries calls []))
run-create_example = run-create no_index calls ann (pos 7) calls-IsCall (omega arith) plain_ann

one_user : Represents (add_user (pos 7) bob (create no_index).0).0 (add_entry (pos 7) bob [])
one_user =
    (add_user-Represents (create no_index).0 [] (create-Represents no_index) (pos 7) bob
      (omega arith) plain_bob (omega arith)).0

abbrev with_bob : UserIndex
with_bob = (add_user (pos 7) bob (create no_index).0).0

remove_by_username-Represents_example :
    Represents
      (remove_by_username bob (add_user (pos 7) bob (create no_index).0).0).0
      (remove_entry (to_lower bob) (add_entry (pos 7) bob []))
    × ((remove_by_username bob (add_user (pos 7) bob (create no_index).0).0).1
        ≡ (if holds (to_lower bob) (add_entry (pos 7) bob []) then none else some not_found))
    × ((remove_by_username bob with_bob).0.highest_user_id ≡ with_bob.highest_user_id)
    × ((remove_by_username bob with_bob).0.meta_data ≡ record with_bob.meta_data {
      record_count = length (remove_entry (to_lower bob) (add_entry (pos 7) bob []));
    })
    × ((holds (to_lower bob) (add_entry (pos 7) bob []) ≡ false)
        → ((remove_by_username bob with_bob).0 ≡ with_bob))
remove_by_username-Represents_example =
    remove_by_username-Represents (add_user (pos 7) bob (create no_index).0).0
      (add_entry (pos 7) bob []) one_user bob

new_user_index-Represents_example :
    Represents
      (new_user_index (add_user (pos 7) bob (create no_index).0).0.file)
      (add_entry (pos 7) bob [])
    × ((new_user_index (add_user (pos 7) bob (create no_index).0).0.file).highest_user_id
        ≡ highest (pos 0) (add_entry (pos 7) bob []))
new_user_index-Represents_example =
    new_user_index-Represents (add_user (pos 7) bob (create no_index).0).0
      (add_entry (pos 7) bob []) one_user

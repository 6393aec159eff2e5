-- ===== src/Ephemeral/Tests.antt =====
-- Runs of internal/rooms/ephemeral.go, and the theorem at concrete rooms.
use go_mud.Prelude.{ℕ, ◌≡◌, refl, true, Option, none, [], ◌∷◌}
use go_mud.Prelude.Predicates.{All}
use go_mud.Ephemeral.{
  Room, Rooms, next_available, get_next_available_chunk, add_room_to_memory, ephemeral_id,
  create_empty, create_empty_ephemeral_rooms, is_ephemeral_room_id, chunk_of,
}
use go_mud.Ephemeral.Chunks.{start, empty_rooms, Reach-chunk_of}

abbrev no_file : ℕ → Option Room
no_file id = none

abbrev no_rooms : Rooms
no_rooms = record { memory = λ id. none; chunks = λ c. []; original_ids = [] }

abbrev two_chunks : Rooms
two_chunks =
    (create_empty_ephemeral_rooms 1000000000 no_file no_file 1
      (create_empty_ephemeral_rooms 1000000000 no_file no_file 2 no_rooms).0).0

two_chunks-ids : two_chunks.chunks 1 ≡ 1000001000 ∷ []
unfolding create_empty_ephemeral_rooms create_empty get_next_available_chunk next_available
    add_room_to_memory ephemeral_id
two_chunks-ids = refl

Reach-chunk_of_example :
    All
      (λ id.
        (is_ephemeral_room_id 1000000000 no_file no_file id ≡ true)
        × (chunk_of 1000000000 no_file no_file id ≡ 1))
      (two_chunks.chunks 1)
Reach-chunk_of_example =
    Reach-chunk_of 1000000000 no_file no_file 1 (empty_rooms 1 (empty_rooms 2 (start (λ c. refl))))

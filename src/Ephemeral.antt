-- ===== src/Ephemeral.antt =====
-- internal/rooms/ephemeral.go: copies of rooms with ids of their own, in 100 chunks of 1000 ids. The
-- rooms in memory are a map, with the exits and the players of a room; templates and saved rooms
-- are parameters, and so is the least ephemeral id, which depends on the platform. A panic is
-- `none`. The zone's list of rooms comes from the caller.
pub mod Unchanged
pub mod Chunks
mod Tests
use Prim.Native.String.{String}
use go_mud.Prelude.{
  ℕ, zero, suc, ◌+◌, ◌-◌, ◌*◌, ◌/◌, Bool, true, false, ◌||◌, Option, none, some, List, [], ◌∷◌,
  ◌++◌, ltb, leb, ◌==◌, length, map, if◌then◌else◌, Map, put, delete, update, contains,
}
use go_mud.Prelude.Assoc.{lookup, insert, erase, nat_eq}

pub record Room : Type 0 where
  pub room_id : ℕ
  pub exits : List (String × ℕ)
  pub players : List ℕ

pub record Rooms : Type 0 where
  pub memory : Map Room
  pub chunks : ℕ → List ℕ
  pub original_ids : List (ℕ × ℕ)

pub data EphemeralError : Type 0 where
  no_room_ids_provided invalid_room_quantity chunk_limit room_limit : EphemeralError
  non_unique_room_id : EphemeralError

pub data Result (A : Type 0) : Type 0 where
  ok : A → Result A
  error : EphemeralError → Result A

abbrev pub chunks_limit : ℕ
chunks_limit = 100

abbrev pub chunk_size : ℕ
chunk_size = 1000

pub count_chunks : ℕ → Rooms → ℕ
count_chunks zero s = 0
count_chunks (suc n) s = count_chunks n s + (if ltb 0 (length (s.chunks n)) then 1 else 0)

-- The loop from chunk i on, over n chunks.
pub next_available : ℕ → ℕ → Rooms → Option ℕ
next_available zero i s = none
next_available (suc n) i s =
    let later = next_available n (suc i) s in if length (s.chunks i) == 0 then some i else later

pub get_next_available_chunk : Rooms → Option ℕ
get_next_available_chunk s = next_available chunks_limit 0 s

pub find_ids : ℕ → List (ℕ × ℕ) → List ℕ
find_ids room_id [] = []
find_ids room_id ((ephemeral, original) ∷ m) =
    let rest = find_ids room_id m in if original == room_id then ephemeral ∷ rest else rest

-- A room that is in memory stays as it is.
pub add_room_to_memory : Room → Rooms → Rooms
add_room_to_memory r s = elim (s.memory r.room_id) [
  | some _ ↦ s
  | none ↦ record s { memory = put s.memory r.room_id r }
]

pub remove_room_from_memory : Room → Rooms → Rooms
remove_room_from_memory r s = elim (s.memory r.room_id) [
  | none ↦ s
  | some room ↦
      if ltb 0 (length room.players) then s else record s { memory = delete s.memory r.room_id }
]

abbrev pub ids_of : List (ℕ × ℕ) → List ℕ
ids_of [] = []
ids_of ((original, id) ∷ copies) = id ∷ ids_of copies

-- Whether an id stands twice.
pub has_repeat : List ℕ → Bool
has_repeat [] = false
has_repeat (x ∷ xs) = contains x xs || has_repeat xs

pub replace_exits : List (ℕ × ℕ) → List (String × ℕ) → List (String × ℕ)
replace_exits table [] = []
replace_exits table ((name, to) ∷ exits) =
    (name, elim (lookup to table) [ none ↦ to | some r ↦ r ]) ∷ replace_exits table exits

module _ (minimum : ℕ) (load_template load_instance : ℕ → Option Room) where
  pub is_ephemeral_room_id : ℕ → Bool
  is_ephemeral_room_id room_id = leb minimum room_id

  pub ephemeral_id : ℕ → ℕ → ℕ
  ephemeral_id chunk i = minimum + chunk * chunk_size + i

  pub load_room : ℕ → Rooms → Rooms × Option Room
  load_room room_id s = elim (s.memory room_id) [
    | some r ↦ (s, some r)
    | none ↦ elim (load_instance room_id) [
      | some r ↦ (add_room_to_memory r s, some r)
      | none ↦ (s, none)
    ]
  ]

  -- The rooms i, i + 1, ... of a chunk, n of them.
  pub create_empty : ℕ → ℕ → ℕ → Rooms → Rooms × List ℕ
  create_empty zero i chunk s = (s, [])
  create_empty (suc n) i chunk s =
      let id = ephemeral_id chunk i in
      let s' = record s { original_ids = insert id 0 s.original_ids } in
      let (s'', ids) =
        create_empty n (suc i) chunk
          (add_room_to_memory (record { room_id = id; exits = []; players = [] }) s') in
      (s'', id ∷ ids)

  pub create_empty_ephemeral_rooms : ℕ → Rooms → Rooms × Result (List ℕ)
  create_empty_ephemeral_rooms qty s =
      if ltb chunk_size qty
      then (s, error EphemeralError.room_limit)
      else if qty == 0
      then (s, error EphemeralError.invalid_room_quantity)
      else elim (get_next_available_chunk s) [
        | none ↦ (s, error EphemeralError.chunk_limit)
        | some chunk ↦
            let (s', ids) = create_empty qty 0 chunk s in
            (record s' { chunks = update s'.chunks chunk ids }, ok ids)
      ]

  -- The copies of the rooms from position i on, by their original ids, and the table of the
  -- replaced ids.
  pub create_copies : List ℕ → ℕ → ℕ → List (ℕ × ℕ) → Rooms → Rooms × List (ℕ × ℕ) × List (ℕ × ℕ)
  create_copies [] i chunk table s = (s, [], table)
  create_copies (room_id ∷ rest) i chunk table s =
      let template = if room_id == 0 then none else load_template room_id in
      let id = ephemeral_id chunk i in
      elim template [
        | none ↦ create_copies rest (suc i) chunk (insert room_id 0 table) s
        | some r ↦
            let s' = record s { original_ids = insert id room_id s.original_ids } in
            let (s'', copies, table') =
              create_copies rest (suc i) chunk (insert room_id id table)
                (add_room_to_memory (record r { room_id = id }) s') in
            (s'', (room_id, id) ∷ copies, table')
      ]

  pub relink : List ℕ → List (ℕ × ℕ) → Rooms → Rooms
  relink [] table s = s
  relink (id ∷ ids) table s =
      let (s', found) = load_room id s in
      relink ids table (elim found [
        | none ↦ s'
        | some r ↦ record s' {
          memory = put s'.memory id (record r { exits = replace_exits table r.exits });
        }
      ])

  -- The log line at the end reads the first id: with no room copied it panics.
  pub create_ephemeral_room_ids : List ℕ → Rooms → Option (Rooms × Result (List (ℕ × ℕ)))
  create_ephemeral_room_ids room_ids s =
      if length room_ids == 0
      then some (s, error EphemeralError.no_room_ids_provided)
      else if ltb chunk_size (length room_ids)
      then some (s, error EphemeralError.room_limit)
      else if has_repeat room_ids
      then some (s, error EphemeralError.non_unique_room_id)
      else elim (get_next_available_chunk s) [
        | none ↦ some (s, error EphemeralError.chunk_limit)
        | some chunk ↦
            let (s1, copies, table) = create_copies room_ids 0 chunk [] s in
            let ids = ids_of copies in
            let s2 = relink ids table s1 in
            if length ids == 0
            then none
            else some (record s2 { chunks = update s2.chunks chunk ids }, ok copies)
      ]

  pub chunk_of : ℕ → ℕ
  chunk_of id = (id - minimum) / chunk_size

  -- The first loop of `TryEphemeralCleanup`: whether a player is in the chunk.
  pub occupied : List ℕ → Rooms → Rooms × Bool
  occupied [] s = (s, false)
  occupied (id ∷ ids) s =
      let (s', found) = load_room id s in
      let (s'', later) = occupied ids s' in
      elim found [
        | none ↦ (s'', later)
        | some r ↦ if ltb 0 (length r.players) then (s', true) else (s'', later)
      ]

  pub unload : List ℕ → Rooms → Rooms
  unload [] s = s
  unload (id ∷ ids) s =
      let (s', found) = load_room id s in
      unload ids (elim found [
        | none ↦ s'
        | some r ↦
            remove_room_from_memory r (record s' { original_ids = erase r.room_id s'.original_ids })
      ])

  pub try_ephemeral_cleanup : ℕ → Rooms → Option (Rooms × List ℕ)
  try_ephemeral_cleanup id s =
      let chunk = chunk_of id in
      if ltb id minimum || leb chunks_limit chunk
      then none
      else let ids = s.chunks chunk in
        let (s1, busy) = occupied ids s in
        if busy
        then some (s1, [])
        else let s2 = unload ids s1 in some (record s2 { chunks = update s2.chunks chunk [] }, ids)

  pub first_used : ℕ → ℕ → Rooms → Option ℕ
  first_used zero i s = none
  first_used (suc n) i s = elim (s.chunks i) [ [] ↦ first_used n (suc i) s | x ∷ xs ↦ some x ]

  pub ephemeral_room_maintenance : Rooms → Option (Rooms × List ℕ)
  ephemeral_room_maintenance s =
      if length s.original_ids == 0 then some (s, []) else elim (first_used chunks_limit 0 s) [
        | none ↦ some (s, [])
        | some id ↦ try_ephemeral_cleanup id s
      ]

  pub get_original_room : ℕ → Rooms → ℕ
  get_original_room room_id s =
      if ltb room_id minimum
      then room_id
      else elim (lookup room_id s.original_ids) [ none ↦ 0 | some n ↦ n ]

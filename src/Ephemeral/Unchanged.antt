-- ===== src/Ephemeral/Unchanged.antt =====
-- internal/rooms/ephemeral.go: what leaves the chunks as they are, and the ids that a call takes.
use go_mud.Prelude.{
  ℕ, zero, suc, ◌+◌, ◌*◌, ◌<◌, ◌≤◌, ◌≡◌, ◌∙◌, refl, Option, none, List, [], ◌∷◌, ltb, ◌==◌, length,
  arith, if◌then◌else◌, Bool-cases, Option-cases, inl, inr,
}
use go_mud.Prelude.Predicates.{All}
use go_mud.Ephemeral.{
  Room, Rooms, add_room_to_memory, remove_room_from_memory, ids_of, ephemeral_id, load_room,
  create_empty, create_copies, relink, occupied, unload,
}

add_room-chunks : (r : Room) (s : Rooms) → (add_room_to_memory r s).chunks ≡ s.chunks
unfolding add_room_to_memory
add_room-chunks r s = elim (Option-cases (s.memory r.room_id)) [
  | inl e ↦ rw (e, add_room_to_memory) refl
  | inr (x, e) ↦ rw (e, add_room_to_memory) refl
]

remove_room-chunks : (r : Room) (s : Rooms) → (remove_room_from_memory r s).chunks ≡ s.chunks
unfolding remove_room_from_memory
remove_room-chunks r s = elim (Option-cases (s.memory r.room_id)) [
  | inl e ↦ rw (e, remove_room_from_memory) refl
  | inr (x, e) ↦ elim (Bool-cases (ltb 0 (length x.players))) [
    | inl f ↦ rw (e, f, remove_room_from_memory) refl
    | inr f ↦ rw (e, f, remove_room_from_memory) refl
  ]
]

module _ (minimum : ℕ) (load_template load_instance : ℕ → Option Room) where
  load_room-chunks :
      (id : ℕ) (s : Rooms)
      → (load_room minimum load_template load_instance id s).0.chunks ≡ s.chunks
  unfolding load_room
  load_room-chunks id s = elim (Option-cases (s.memory id)) [
    | inr (x, e) ↦ rw (e, load_room) refl
    | inl e ↦ elim (Option-cases (load_instance id)) [
      | inl f ↦ rw (e, f, load_room) refl
      | inr (x, f) ↦ rw (e, f, load_room) (add_room-chunks x s)
    ]
  ]

  abbrev pub InChunk : ℕ → ℕ → Type 0
  InChunk c id = (minimum + c * 1000 ≤ id) × (id < minimum + c * 1000 + 1000)

  pub create_empty-chunks :
      (n i c : ℕ) (s : Rooms)
      → i + n ≤ 1000
      → let (s', ids) = create_empty minimum load_template load_instance n i c s in
        (s'.chunks ≡ s.chunks) × All (InChunk c) ids
  unfolding create_empty ephemeral_id
  create_empty-chunks zero i c s h = (refl, tt)
  create_empty-chunks (suc n) i c s h =
      let (same, all) = create_empty-chunks n (suc i) c _ (omega arith) in
      (same ∙ add_room-chunks _ _, ((omega arith, omega arith), all))

  pub create_copies-chunks :
      (l : List ℕ) (i c : ℕ) (table : List (ℕ × ℕ)) (s : Rooms)
      → i + length l ≤ 1000
      → let (s', copies, table') =
          create_copies minimum load_template load_instance l i c table s in
        (s'.chunks ≡ s.chunks) × All (InChunk c) (ids_of copies)
  unfolding create_copies ephemeral_id
  create_copies-chunks [] i c table s h = (refl, tt)
  create_copies-chunks (x ∷ l) i c table s h =
      elim (Option-cases (if x == 0 then none else load_template x)) [
        | inl e ↦ rw (e, create_copies) (create_copies-chunks l (suc i) c _ s (omega arith))
        | inr (r, e) ↦
            let (same, all) = create_copies-chunks l (suc i) c _ _ (omega arith) in
            rw (e, create_copies) (same ∙ add_room-chunks _ _, ((omega arith, omega arith), all))
      ]

  pub relink-chunks :
      (ids : List ℕ) (table : List (ℕ × ℕ)) (s : Rooms)
      → (relink minimum load_template load_instance ids table s).chunks ≡ s.chunks
  unfolding relink
  relink-chunks [] table s = refl
  relink-chunks (id ∷ ids) table s =
      let loaded = load_room-chunks id s in
      let (s1, found) = load_room minimum load_template load_instance id s in
      elim (Option-cases found) [
        | inl e ↦ rw (e, relink) (relink-chunks ids table s1 ∙ loaded)
        | inr (r, e) ↦ rw (e, relink) (relink-chunks ids table _ ∙ loaded)
      ]

  pub occupied-chunks :
      (ids : List ℕ) (s : Rooms)
      → (occupied minimum load_template load_instance ids s).0.chunks ≡ s.chunks
  unfolding occupied
  occupied-chunks [] s = refl
  occupied-chunks (id ∷ ids) s =
      let loaded = load_room-chunks id s in
      let (s1, found) = load_room minimum load_template load_instance id s in
      elim (Option-cases found) [
        | inl e ↦ rw (e, occupied) (occupied-chunks ids s1 ∙ loaded)
        | inr (r, e) ↦ elim (Bool-cases (ltb 0 (length r.players))) [
          | inl f ↦ rw (e, f, occupied) loaded
          | inr f ↦ rw (e, f, occupied) (occupied-chunks ids s1 ∙ loaded)
        ]
      ]

  pub unload-chunks :
      (ids : List ℕ) (s : Rooms)
      → (unload minimum load_template load_instance ids s).chunks ≡ s.chunks
  unfolding unload
  unload-chunks [] s = refl
  unload-chunks (id ∷ ids) s =
      let loaded = load_room-chunks id s in
      let (s1, found) = load_room minimum load_template load_instance id s in
      elim (Option-cases found) [
        | inl e ↦ rw (e, unload) (unload-chunks ids s1 ∙ loaded)
        | inr (r, e) ↦ rw (e, unload) (unload-chunks ids _ ∙ remove_room-chunks r _ ∙ loaded)
      ]

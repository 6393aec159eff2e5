-- ===== src/Ephemeral/Chunks.antt =====
-- internal/rooms/ephemeral.go: the ids of a chunk are its own, and the chunk of an id is found back.
use go_mud.Prelude.{
  ℕ, ◌≤◌, ◌≡◌, ◌∙◌, ap, true, ◌||◌, Option, none, some, List, [], ltb, leb, ◌==◌, length, arith,
  if◌then◌else◌, update, Bool-cases, Option-cases, inl, inr,
}
use mathlib.Core.Path.{subst}
use go_mud.Prelude.Predicates.{All, All-map}
use go_mud.Ephemeral.{
  Room, Rooms, Result, chunks_limit, chunk_size, get_next_available_chunk, ids_of, has_repeat,
  is_ephemeral_room_id, create_empty, create_empty_ephemeral_rooms, create_copies, relink,
  create_ephemeral_room_ids, chunk_of, occupied, unload, try_ephemeral_cleanup, first_used,
  ephemeral_room_maintenance,
}
use go_mud.Ephemeral.Unchanged.{
  InChunk, create_empty-chunks, create_copies-chunks, relink-chunks, occupied-chunks, unload-chunks,
}

module _ (minimum : ℕ) (load_template load_instance : ℕ → Option Room) where
  abbrev pub IsAllotted : Rooms → Type 0
  IsAllotted s = (c : ℕ) → All (InChunk minimum load_template load_instance c) (s.chunks c)

  update-IsAllotted :
      (s s' : Rooms) (c : ℕ) (ids : List ℕ)
      → IsAllotted s
      → s'.chunks ≡ s.chunks
      → All (InChunk minimum load_template load_instance c) ids
      → IsAllotted (record s' { chunks = update s'.chunks c ids })
  update-IsAllotted s s' c ids v same all d = elim (Bool-cases (c == d)) [
    | inl e ↦
        let cd : c ≡ d = ground arith in
        rw e (subst (λ n. All (InChunk minimum load_template load_instance n) ids) cd all)
    | inr e ↦ rw (e, same) (v d)
  ]

  same-IsAllotted : (s s' : Rooms) → IsAllotted s → s'.chunks ≡ s.chunks → IsAllotted s'
  same-IsAllotted s s' v same c = rw same (v c)

  create_empty-IsAllotted :
      (qty : ℕ) (s : Rooms)
      → IsAllotted s
      → IsAllotted (create_empty_ephemeral_rooms minimum load_template load_instance qty s).0
  unfolding create_empty_ephemeral_rooms
  create_empty-IsAllotted qty s v = elim (Bool-cases (ltb chunk_size qty)) [
    | inl e ↦ rw (e, create_empty_ephemeral_rooms) v
    | inr e ↦ elim (Bool-cases (qty == 0)) [
      | inl f ↦ rw (e, f, create_empty_ephemeral_rooms) v
      | inr f ↦ elim (Option-cases (get_next_available_chunk s)) [
        | inl g ↦ rw (e, f, g, create_empty_ephemeral_rooms) v
        | inr (c, g) ↦
            let (same, all) =
              create_empty-chunks minimum load_template load_instance qty 0 c s (ground arith) in
            rw (e, f, g, create_empty_ephemeral_rooms)
              (update-IsAllotted s (create_empty minimum load_template load_instance qty 0 c s).0 c
                _ v same all)
      ]
    ]
  ]

  rooms_of : {A : Type 0} → Rooms → Option (Rooms × A) → Rooms
  rooms_of s none = s
  rooms_of s (some (s', a)) = s'

  create_copies-IsAllotted :
      (l : List ℕ) (s s' : Rooms) (r : Result (List (ℕ × ℕ)))
      → IsAllotted s
      → create_ephemeral_room_ids minimum load_template load_instance l s ≡ some (s', r)
      → IsAllotted s'
  unfolding create_ephemeral_room_ids rooms_of
  create_copies-IsAllotted l s s' r v h = elim (Bool-cases (length l == 0)) [
    | inl e ↦
        let g = rw (e, create_ephemeral_room_ids) at h in subst IsAllotted (ap (rooms_of s) g) v
    | inr e ↦ elim (Bool-cases (ltb chunk_size (length l))) [
      | inl f ↦
          let g = rw (e, f, create_ephemeral_room_ids) at h in
          subst IsAllotted (ap (rooms_of s) g) v
      | inr f ↦ elim (Bool-cases (has_repeat l)) [
        | inl k ↦
            let g = rw (e, f, k, create_ephemeral_room_ids) at h in
            subst IsAllotted (ap (rooms_of s) g) v
        | inr k ↦ elim (Option-cases (get_next_available_chunk s)) [
          | inl m ↦
              let g = rw (e, f, k, m, create_ephemeral_room_ids) at h in
              subst IsAllotted (ap (rooms_of s) g) v
          | inr (c, m) ↦ copied c (rw (e, f, k, m, create_ephemeral_room_ids) at h) (ground arith)
        ]
      ]
    ]
  ]
    where
      copied :
          (c : ℕ)
          → (let (s1, copies, table) =
                create_copies minimum load_template load_instance l 0 c [] s in
              let ids = ids_of copies in
              let s2 = relink minimum load_template load_instance ids table s1 in
              let out : Rooms × Result (List (ℕ × ℕ)) =
                (record s2 { chunks = update s2.chunks c ids }, Result.ok copies) in
              if length ids == 0 then none else some out)
            ≡ some (s', r)
          → length l ≤ 1000
          → IsAllotted s'
      copied c h few =
          let (s1, copies, table) = create_copies minimum load_template load_instance l 0 c [] s in
          let s2 = relink minimum load_template load_instance (ids_of copies) table s1 in
          let (same, all) =
            create_copies-chunks minimum load_template load_instance l 0 c [] s (omega arith) in
          elim (Bool-cases (length (ids_of copies) == 0)) [
            | inl e ↦ absurd (let g = rw e at h in cc)
            | inr e ↦
                let g = rw e at h in
                subst IsAllotted (ap (rooms_of s) g) (
                  update-IsAllotted s s2 c _ v
                    (relink-chunks minimum load_template load_instance (ids_of copies) table s1
                      ∙ same)
                    all)
          ]

  cleanup-IsAllotted :
      (id : ℕ) (s s' : Rooms) (ids : List ℕ)
      → IsAllotted s
      → try_ephemeral_cleanup minimum load_template load_instance id s ≡ some (s', ids)
      → IsAllotted s'
  unfolding try_ephemeral_cleanup rooms_of
  cleanup-IsAllotted id s s' ids v h =
      let c = chunk_of minimum load_template load_instance id in
      let (s1, busy) = occupied minimum load_template load_instance (s.chunks c) s in
      let same = occupied-chunks minimum load_template load_instance (s.chunks c) s in
      elim (Bool-cases (ltb id minimum || leb chunks_limit c)) [
        | inl e ↦ absurd (let g = rw (e, try_ephemeral_cleanup) at h in cc)
        | inr e ↦ elim (Bool-cases busy) [
          | inl f ↦
              let g = rw (e, f, try_ephemeral_cleanup) at h in
              subst IsAllotted (ap (rooms_of s) g) (same-IsAllotted s s1 v same)
          | inr f ↦
              let g = rw (e, f, try_ephemeral_cleanup) at h in
              subst IsAllotted (ap (rooms_of s) g) (
                update-IsAllotted s (unload minimum load_template load_instance (s.chunks c) s1) c
                  [] v (unload-chunks minimum load_template load_instance (s.chunks c) s1 ∙ same)
                  tt)
        ]
      ]

  maintenance-IsAllotted :
      (s s' : Rooms) (ids : List ℕ)
      → IsAllotted s
      → ephemeral_room_maintenance minimum load_template load_instance s ≡ some (s', ids)
      → IsAllotted s'
  unfolding ephemeral_room_maintenance rooms_of
  maintenance-IsAllotted s s' ids v h = elim (Bool-cases (length s.original_ids == 0)) [
    | inl e ↦
        let g = rw (e, ephemeral_room_maintenance) at h in subst IsAllotted (ap (rooms_of s) g) v
    | inr e ↦
        elim (Option-cases (first_used minimum load_template load_instance chunks_limit 0 s)) [
          | inl f ↦
              let g = rw (e, f, ephemeral_room_maintenance) at h in
              subst IsAllotted (ap (rooms_of s) g) v
          | inr (id, f) ↦
              cleanup-IsAllotted id s s' ids v (rw (e, f, ephemeral_room_maintenance) at h)
        ]
  ]

  -- What the calls that return reach from the start, where every chunk is empty.
  pub data Reach : Rooms → Type 0 where
    start : {s : Rooms} → ((c : ℕ) → s.chunks c ≡ []) → Reach s
    empty_rooms :
        {s : Rooms} (qty : ℕ)
        → Reach s
        → Reach (create_empty_ephemeral_rooms minimum load_template load_instance qty s).0
    copies :
        {s s' : Rooms} (l : List ℕ) (r : Result (List (ℕ × ℕ)))
        → create_ephemeral_room_ids minimum load_template load_instance l s ≡ some (s', r)
        → Reach s
        → Reach s'
    cleanup :
        {s s' : Rooms} (id : ℕ) (ids : List ℕ)
        → try_ephemeral_cleanup minimum load_template load_instance id s ≡ some (s', ids)
        → Reach s
        → Reach s'
    maintenance :
        {s s' : Rooms} (ids : List ℕ)
        → ephemeral_room_maintenance minimum load_template load_instance s ≡ some (s', ids)
        → Reach s
        → Reach s'

  Reach-IsAllotted : {s : Rooms} → Reach s → IsAllotted s
  Reach-IsAllotted (start e) c = rw (e c) tt
  Reach-IsAllotted (empty_rooms qty r) c = create_empty-IsAllotted qty _ (Reach-IsAllotted r) c
  Reach-IsAllotted (copies {s = s} {s' = s'} l res e r) c =
      create_copies-IsAllotted l s s' res (Reach-IsAllotted r) e c
  Reach-IsAllotted (cleanup {s = s} {s' = s'} id ids e r) c =
      cleanup-IsAllotted id s s' ids (Reach-IsAllotted r) e c
  Reach-IsAllotted (maintenance {s = s} {s' = s'} ids e r) c =
      maintenance-IsAllotted s s' ids (Reach-IsAllotted r) e c

  found_back :
      (c id : ℕ)
      → InChunk minimum load_template load_instance c id
      → (is_ephemeral_room_id minimum load_template load_instance id ≡ true)
        × (chunk_of minimum load_template load_instance id ≡ c)
  unfolding is_ephemeral_room_id chunk_of
  found_back c id h = (ground arith, omega arith)

  -- After any calls that return, each id of a chunk is an ephemeral id, and the chunk that the
  -- cleanup computes from it is the one it stands in: so no id stands in two chunks, and a cleanup
  -- of an id looks at the rooms that were made together with it.
  pub Reach-chunk_of :
      {s : Rooms} (c : ℕ)
      → Reach s
      → All
          (λ id.
            (is_ephemeral_room_id minimum load_template load_instance id ≡ true)
            × (chunk_of minimum load_template load_instance id ≡ c))
          (s.chunks c)
  Reach-chunk_of {s} c r =
      All-map (InChunk minimum load_template load_instance c) _ (s.chunks c) (found_back c)
        (Reach-IsAllotted r c)

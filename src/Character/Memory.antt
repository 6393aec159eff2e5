-- ===== src/Character/Memory.antt =====
-- internal/characters/character.go: the rooms that a character remembers, and the mobs that it has
-- charmed. The memory capacity, which `GetMemoryCapacity` computes, is at least 5.
use Prim.Native.Nat.{min}
use mathlib.Core.Path.{subst}
use mathlib.Core.List.{append_assoc, append-nil}
use go_mud.Prelude.{
  ℕ, suc, ◌+◌, ◌-◌, ◌*◌, ◌<◌, ◌≤◌, ◌≡◌, ◌∙◌, refl, ap, sym, Bool, List, [], ◌∷◌, ◌++◌, length,
  drop-drop, drop-append_le, length-append, length-drop, drop, leb, contains, remove_first,
  if◌then◌else◌, inl, inr, Bool-cases, arith,
}
use go_mud.Prelude.Int.{ℤ, ◌*ℤ◌, pos_part}

-- A product that is negative counts as 0.
unfoldable pub get_memory_capacity : ℤ → ℤ → ℕ
get_memory_capacity map_skill smarts = pos_part (map_skill *ℤ smarts) + 5

unfoldable pub remember_room : ℕ → ℕ → List ℕ → List ℕ
remember_room capacity room history =
    (if leb (capacity * 2) (length history)
      then drop (length history - (capacity - 1)) history
      else history)
    ++ room ∷ []

unfoldable pub remember_rooms : ℕ → List ℕ → List ℕ → List ℕ
remember_rooms capacity [] history = history
remember_rooms capacity (r ∷ rooms) history =
    remember_rooms capacity rooms (remember_room capacity r history)

-- What is remembered of the rooms visited: the last ones, at most twice the capacity, and all of them or
-- at least as many as the capacity.
pub record Recalls (capacity : ℕ) (visited history : List ℕ) : Type 0 where
  pub forgotten : ℕ
  pub recent : history ≡ drop forgotten visited
  pub counted : forgotten + length history ≡ length visited
  pub bounded : length history ≤ capacity * 2
  pub enough : min capacity (length visited) ≤ length history

remember_room-Recalls :
    (capacity room : ℕ) (visited history : List ℕ)
    → 0 < capacity
    → Recalls capacity visited history
    → Recalls capacity (visited ++ room ∷ []) (remember_room capacity room history)
unfolding remember_room
remember_room-Recalls capacity room visited history h r =
    let one = length-append {A = ℕ} visited (room ∷ []) in
    elim (Bool-cases (leb (capacity * 2) (length history))) [
      | inl e ↦
          let gone = length history - (capacity - 1) in
          let size : length (drop gone history ++ room ∷ []) ≡ suc (length history - gone) = omega (
            arith,
            length-append {A = ℕ} (drop gone history) (room ∷ []),
            length-drop gone history,
          ) in
          rw (e, remember_room)
            (record {
              forgotten = r.forgotten + gone;
              recent =
                  ap (λ (l : List ℕ). drop gone l ++ room ∷ []) r.recent
                  ∙ ap (λ (l : List ℕ). l ++ room ∷ []) (drop-drop r.forgotten gone visited)
                  ∙ sym (
                      drop-append_le (r.forgotten + gone) visited (room ∷ [])
                        (omega (arith, r.counted)));
              counted = omega (arith, r.counted, one, size);
              bounded = omega (arith, size);
              enough = ground (arith, size, one, r.counted);
            })
      | inr e ↦
          rw (e, remember_room)
            (record {
              forgotten = r.forgotten;
              recent =
                  ap (λ (l : List ℕ). l ++ room ∷ []) r.recent
                  ∙ sym (drop-append_le r.forgotten visited (room ∷ []) (omega (arith, r.counted)));
              counted = omega (arith, r.counted, one, length-append {A = ℕ} history (room ∷ []));
              bounded = ground (arith, length-append {A = ℕ} history (room ∷ []));
              enough = omega (arith, r.enough, one, length-append {A = ℕ} history (room ∷ []));
            })
    ]

onwards :
    (capacity : ℕ) (more visited history : List ℕ)
    → 0 < capacity
    → Recalls capacity visited history
    → Recalls capacity (visited ++ more) (remember_rooms capacity more history)
unfolding remember_rooms
onwards capacity [] visited history h r =
    subst (λ (l : List ℕ). Recalls capacity l history) (sym (append-nil visited)) r
onwards capacity (room ∷ more) visited history h r =
    subst
      (λ (l : List ℕ).
        Recalls capacity l (remember_rooms capacity more (remember_room capacity room history)))
      (append_assoc visited (room ∷ []) more)
      (onwards capacity more (visited ++ room ∷ []) (remember_room capacity room history) h
        (remember_room-Recalls capacity room visited history h r))

-- Of any rooms visited in turn, with a capacity above 0, a character remembers the last ones, in order: at
-- most twice the capacity, and all of them or at least as many as the capacity.
pub remember_rooms-Recalls :
    (capacity : ℕ) (rooms : List ℕ)
    → 0 < capacity
    → Recalls capacity rooms (remember_rooms capacity rooms [])
remember_rooms-Recalls capacity rooms h = onwards capacity rooms [] [] h (record {
  forgotten = 0;
  recent = refl;
  counted = omega arith;
  bounded = omega arith;
  enough = omega arith;
})

-- `TrackCharmed`: a mob that is not there is added, also when it is to be removed.
unfoldable pub track_charmed : ℕ → Bool → List ℕ → List ℕ
track_charmed mob add charmed =
    if contains mob charmed
    then if add then charmed else remove_first mob charmed
    else charmed ++ mob ∷ []

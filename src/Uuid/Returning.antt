-- ===== src/Uuid/Returning.antt =====
-- internal/uuid/uuid.go: a call for an id returns once the clock has moved on.
use go_mud.Prelude.{
  ℕ, ◌+◌, ◌<◌, ◌≡◌, refl, arith, some, List, [], ◌∷◌, ◌++◌, ltb, lt→ltb, leb, false, ◌==◌, inl, inr,
  Bool-cases,
}
use go_mud.Uuid.{Uuid, UuidGenerator, since_epoch, wait_past, next_stamp, new_uuid, uuid_of}

-- The wait ends at the first reading past `last`.
wait_past-returns :
    (last : ℕ) (earlier : List ℕ) (r : ℕ) (rest : List ℕ)
    → last < since_epoch r
    → (p : ℕ × List ℕ) × (wait_past last (earlier ++ r ∷ rest) ≡ some p)
unfolding wait_past
wait_past-returns last [] r rest h =
    ((since_epoch r, rest), rw (lt→ltb last (since_epoch r) h, wait_past) refl)
wait_past-returns last (e ∷ earlier) r rest h = elim (Bool-cases (ltb last (since_epoch e))) [
  | inl f ↦ ((since_epoch e, earlier ++ r ∷ rest), rw (f, wait_past) refl)
  | inr f ↦ let w = wait_past-returns last earlier r rest h in (w.0, rw (f, wait_past) w.1)
]

-- A stamp is given by the first reading, or by the wait for a later one.
next_stamp-returns :
    (g : UuidGenerator) (earlier : List ℕ) (r : ℕ) (rest : List ℕ)
    → g.last_timestamp < since_epoch r
    → (p : UuidGenerator × List ℕ) × (next_stamp g (earlier ++ r ∷ rest) ≡ some p)
unfolding next_stamp
next_stamp-returns g [] r rest h =
    ((record { last_timestamp = since_epoch r; sequence = 0 }, rest), rw (differs, next_stamp) refl)
  where
    differs : since_epoch r == g.last_timestamp ≡ false
    differs = ground arith
next_stamp-returns g (e ∷ earlier) r rest h =
    elim (Bool-cases (since_epoch e == g.last_timestamp)) [
      | inl f ↦ elim (Bool-cases (leb 256 (g.sequence + 1))) [
        | inl k ↦
            let w = wait_past-returns g.last_timestamp earlier r rest h in
            (
              (record { last_timestamp = (w.0).0; sequence = 0 }, (w.0).1),
              rw (f, next_stamp, k, w.1) refl,
            )
        | inr k ↦ (
          (record g { sequence = g.sequence + 1 }, earlier ++ r ∷ rest),
          rw (f, next_stamp, k) refl,
        )
      ]
      | inr f ↦ (
        (record { last_timestamp = since_epoch e; sequence = 0 }, earlier ++ r ∷ rest),
        rw (f, next_stamp) refl,
      )
    ]

-- A call for an id returns when some reading of the clock is past the generator's last timestamp,
-- whatever the readings before it are and however many ids the generator has given at that timestamp.
pub new_uuid-returns :
    (g : UuidGenerator) (id_type : ℕ) (earlier : List ℕ) (r : ℕ) (rest : List ℕ)
    → g.last_timestamp < since_epoch r
    → (u : Uuid) × (g' : UuidGenerator) × (left : List ℕ) × (new_uuid id_type g
          (earlier ++ r ∷ rest)
        ≡ some (u, g', left))
unfolding new_uuid
new_uuid-returns g id_type earlier r rest h =
    let s = next_stamp-returns g earlier r rest h in
    (uuid_of (s.0).0 id_type, (s.0).0, (s.0).1, rw (s.1, new_uuid) refl)

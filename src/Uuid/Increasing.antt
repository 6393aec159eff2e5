-- ===== src/Uuid/Increasing.antt =====
-- internal/uuid/uuid.go: the generator gives no id twice, and gives one once the clock has moved on.
use mathlib.Core.Path.{subst}
use go_mud.Prelude.{
  ℕ, ◌+◌, ◌*◌, ◌^◌, ◌<◌, ◌≤◌, ◌≡◌, ◌≢◌, ap, sym, arith, Option, none, some, List, [], ◌∷◌, ltb,
  ltb→lt, leb, ◌==◌, inl, inr, Bool-cases, Option-cases,
}
use go_mud.Prelude.Predicates.{All}
use go_mud.Uuid.{
  Uuid, UuidGenerator, timestamp, sequence_of, since_epoch, wait_past, next_stamp, uuid_of,
  new_uuid, new_uuids,
}
use go_mud.Uuid.Fields.{uuid_of-fields}

-- The clock does not run backwards, and is within 2 ^ 48 microseconds of the epoch.
abbrev pub Steady : ℕ → List ℕ → Type 0
Steady b [] = Unit
Steady b (r ∷ rs) = (b ≤ since_epoch r) × (since_epoch r < 2 ^ 48) × Steady (since_epoch r) rs

abbrev key : UuidGenerator → ℕ
key g = g.last_timestamp * 256 + g.sequence

-- A generator that the fields of an id can hold.
record IsReady (g : UuidGenerator) : Type 0 where
  time : g.last_timestamp < 2 ^ 48
  count : g.sequence < 256

-- What the next stamp is like.
record IsNext (g g' : UuidGenerator) (left : List ℕ) : Type 0 where
  later : key g < key g'
  ready : IsReady g'
  steady : Steady g'.last_timestamp left

-- Two equal results hold equal values.
same_value {ℓ} : {A : Type ℓ} (a b : A) → some a ≡ some b → a ≡ b
same_value a b e = ap (λ o. elim o [ none ↦ a | some x ↦ x ]) e

Steady-lower : (a b : ℕ) (rs : List ℕ) → a ≤ b → Steady b rs → Steady a rs
Steady-lower a b [] h s = tt
Steady-lower a b (r ∷ rs) h s = (omega (arith, s.0), s.1, s.2)

wait_past_lem :
    (last b : ℕ) (rs : List ℕ) (later : ℕ) (left : List ℕ)
    → Steady b rs
    → wait_past last rs ≡ some (later, left)
    → (last < later) × (later < 2 ^ 48) × Steady later left
unfolding wait_past
wait_past_lem last b [] later left s e = absurd (cc)
wait_past_lem last b (r ∷ rs) later left s e = elim (Bool-cases (ltb last (since_epoch r))) [
  | inl f ↦
      let o = rw (f, wait_past) at e in
      subst (λ (p : ℕ × List ℕ). (last < p.0) × (p.0 < 2 ^ 48) × Steady p.0 p.1)
        (same_value (since_epoch r, rs) (later, left) o) (ltb→lt last (since_epoch r) f, s.1, s.2)
  | inr f ↦ wait_past_lem last (since_epoch r) rs later left s.2 (rw (f, wait_past) at e)
]

moved :
    (g h g' : UuidGenerator) (rest left : List ℕ)
    → ◌≡◌ {A = Option (UuidGenerator × List ℕ)} (some (h, rest)) (some (g', left))
    → IsNext g h rest
    → IsNext g g' left
moved g h g' rest left o n =
    subst (λ (p : UuidGenerator × List ℕ). IsNext g p.0 p.1) (same_value (h, rest) (g', left) o) n

next_stamp_lem :
    (g g' : UuidGenerator) (rs left : List ℕ)
    → IsReady g
    → Steady g.last_timestamp rs
    → next_stamp g rs ≡ some (g', left)
    → IsNext g g' left
unfolding next_stamp
next_stamp_lem g g' [] left v s e = absurd (cc)
next_stamp_lem g g' (r ∷ rs) left v s e = elim (Bool-cases (since_epoch r == g.last_timestamp)) [
  | inl f ↦ elim (Bool-cases (leb 256 (g.sequence + 1))) [
    | inl h ↦ elim (Option-cases (wait_past g.last_timestamp rs)) [
      | inl w ↦ absurd (let o = rw (f, next_stamp, h, w) at e in cc)
      | inr ((later, rest), w) ↦
          let after = wait_past_lem g.last_timestamp (since_epoch r) rs later rest s.2 w in
          moved g (record { last_timestamp = later; sequence = 0 }) g' rest left
            (rw (f, next_stamp, h, w) at e)
            (record {
              later = omega (arith, after.0, v.count);
              ready = record { time = after.1; count = omega arith };
              steady = after.2;
            })
    ]
    | inr h ↦
        moved g (record g { sequence = g.sequence + 1 }) g' rs left (rw (f, next_stamp, h) at e)
          (record {
            later = omega arith;
            ready = record { time = v.time; count = ground arith };
            steady = Steady-lower g.last_timestamp (since_epoch r) rs s.0 s.2;
          })
  ]
  | inr f ↦
      moved g (record { last_timestamp = since_epoch r; sequence = 0 }) g' rs left
        (rw (f, next_stamp) at e)
        (record {
          later = ground (arith, s.0, v.count);
          ready = record { time = s.1; count = omega arith };
          steady = s.2;
        })
]

-- The place of an id in time.
abbrev stamp : Uuid → ℕ
stamp u = timestamp u * 256 + sequence_of u

stamp-uuid_of :
    (g : UuidGenerator) (id_type : ℕ)
    → IsReady g
    → id_type < 256
    → stamp (uuid_of g id_type) ≡ key g
stamp-uuid_of g id_type v h =
    let fields = uuid_of-fields g id_type v.count h in omega (arith, fields.0, fields.1, v.time)

abbrev Ascending : ℕ → List Uuid → Type 0
Ascending k [] = Unit
Ascending k (u ∷ us) = (k < stamp u) × Ascending (stamp u) us

-- No id stands twice.
abbrev pub Distinct : List Uuid → Type 0
Distinct [] = Unit
Distinct (u ∷ us) = All (λ w. u ≢ w) us × Distinct us

Ascending-not_in :
    (u : Uuid) (k : ℕ) (us : List Uuid) → stamp u ≤ k → Ascending k us → All (λ w. u ≢ w) us
Ascending-not_in u k [] h a = tt
Ascending-not_in u k (w ∷ us) h a = (
  (λ e. absurd (omega (arith, ap stamp e, a.0))),
  Ascending-not_in u (stamp w) us (omega (arith, a.0)) a.1,
)

Ascending-Distinct : (k : ℕ) (us : List Uuid) → Ascending k us → Distinct us
Ascending-Distinct k [] a = tt
Ascending-Distinct k (u ∷ us) a =
    (Ascending-not_in u (stamp u) us (omega arith) a.1, Ascending-Distinct (stamp u) us a.1)

new_uuids-Ascending :
    (types : List ℕ) (g : UuidGenerator) (readings : List ℕ) (us : List Uuid)
    → All (λ t. t < 256) types
    → IsReady g
    → Steady g.last_timestamp readings
    → new_uuids types g readings ≡ some us
    → Ascending (key g) us
unfolding new_uuids new_uuid
new_uuids-Ascending [] g readings us h v s e = subst (Ascending (key g)) (same_value [] us e) tt
new_uuids-Ascending (t ∷ types) g readings us h v s e =
    elim (Option-cases (next_stamp g readings)) [
      | inl f ↦ absurd (let o = rw (new_uuids, new_uuid, f) at e in cc)
      | inr ((g', left), f) ↦
          let n = next_stamp_lem g g' readings left v s f in
          elim (Option-cases (new_uuids types g' left)) [
            | inl k ↦ absurd (let o = rw (new_uuids, new_uuid, f, k) at e in cc)
            | inr (ws, k) ↦
                let rest = new_uuids-Ascending types g' left ws h.1 n.ready n.steady k in
                subst (Ascending (key g))
                  (same_value (uuid_of g' t ∷ ws) us (rw (new_uuids, new_uuid, f, k) at e))
                  (
                    omega (arith, n.later, stamp-uuid_of g' t n.ready h.0),
                    subst (λ (x : ℕ). Ascending x ws) (sym (stamp-uuid_of g' t n.ready h.0)) rest,
                  )
          ]
    ]

-- The ids that a generator gives from its start are all different, whatever their types, as long as
-- the clock does not run backwards and stays within 2 ^ 48 microseconds of the epoch.
pub new_uuids-Distinct :
    (types readings : List ℕ) (us : List Uuid)
    → All (λ t. t < 256) types
    → Steady 0 readings
    → new_uuids types (record { last_timestamp = 0; sequence = 0 }) readings ≡ some us
    → Distinct us
new_uuids-Distinct types readings us h s e =
    let start : UuidGenerator = record { last_timestamp = 0; sequence = 0 } in
    Ascending-Distinct 0 us (
      new_uuids-Ascending types start readings us h
        (record { time = omega arith; count = omega arith }) s e)

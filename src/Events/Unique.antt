-- ===== src/Events/Unique.antt =====
-- internal/events/events.go: the unique map holds exactly the ids of the unique events in the queue.
use Prim.Native.String.{String}
use text.Mathlib.Text.{◌==◌ as str_eq}
use text.Mathlib.TextEquality.{eq_iff}
use go_mud.Prelude.{
  ℕ, suc, zero, ◌+◌, ◌≡◌, ◌⊎◌, ◌∙◌, sym, ap, refl, false, Option, none, some, List, [], ◌∷◌, ◌++◌,
  arith, if◌then◌else◌, Bool-cases, Option-cases, inl, inr,
}
use go_mud.Prelude.Int.{ℤ}
use mathlib.Core.Path.{subst}
use go_mud.Events.Draining.{one_round}
use go_mud.Events.{
  Event, PrioritizedEvent, Requeue, Queues, ListenerReturn, less, pop_least, take_least, forget,
  handle, process_loop, process_events, requeue_all, requeue_loop, add_to_requeue, add_all,
  add_to_queue, re_add_to_queue, has_key, drop_key,
}

abbrev has_uid : String → Option String → ℕ
has_uid uid none = 0
has_uid uid (some u) = if str_eq u uid then 1 else 0

List-cases {ℓ} : {A : Type ℓ} (l : List A) → (l ≡ []) ⊎ ((a : A) × (r : List A) × (l ≡ a ∷ r))
List-cases [] = inl refl
List-cases (a ∷ r) = inr (a, r, refl)

-- How many entries of the queue are unique events with the id.
unfoldable pub uid_count : String → List PrioritizedEvent → ℕ
uid_count uid [] = 0
uid_count uid (x ∷ xs) = has_uid uid x.event.unique_id + uid_count uid xs

-- Each unique event is queued at most once, and the map knows which ones are.
unfoldable pub IsTracked : Queues → Type 0
IsTracked q =
    (uid : String) → uid_count uid q.global_queue ≡ (if has_key uid q.unique_map then 1 else 0)

has_key-drop_key :
    (k j : String) (l : List String)
    → has_key j (drop_key k l) ≡ (if str_eq k j then false else has_key j l)
unfolding has_key drop_key
has_key-drop_key k j [] = ground arith
has_key-drop_key k j (x ∷ xs) =
    ground (arith, has_key-drop_key k j xs, eq_iff x k, eq_iff x j, eq_iff k j)

uid_count-pop_least :
    (uid : String) (x : PrioritizedEvent) (l : List PrioritizedEvent)
    → let (m, r) = pop_least x l in uid_count uid (m ∷ r) ≡ uid_count uid (x ∷ l)
unfolding pop_least uid_count
uid_count-pop_least uid x [] = refl
uid_count-pop_least uid x (y ∷ ys) = elim (Bool-cases (less y x)) [
  | inl e ↦ rw e (omega (arith, uid_count-pop_least uid y ys))
  | inr e ↦ rw e (omega (arith, uid_count-pop_least uid x ys))
]

re_add_lem : (e : Event) (prio : ℤ) (q : Queues) → re_add_to_queue e prio q ≡ add_to_queue e prio q
unfolding re_add_to_queue add_to_queue
re_add_lem e prio q = refl

forget-counted :
    (m : PrioritizedEvent) (r : List PrioritizedEvent) (q : Queues)
    → ((uid : String) → uid_count uid (m ∷ r) ≡ (if has_key uid q.unique_map then 1 else 0))
    → IsTracked (forget m.event (record q { global_queue = r }))
unfolding IsTracked forget uid_count
forget-counted m r q v uid = elim (Option-cases m.event.unique_id) [
  | inl e ↦ rw (e, forget) (ground (arith, v uid))
  | inr (u, e) ↦
      rw (e, forget) (ground (arith, v uid, v u, eq_iff u uid, has_key-drop_key u uid q.unique_map))
]

take_least-IsTracked :
    (x : PrioritizedEvent) (xs : List PrioritizedEvent) (q : Queues)
    → q.global_queue ≡ x ∷ xs
    → IsTracked q
    → IsTracked (take_least x xs q).1
unfolding take_least
take_least-IsTracked x xs q e v =
    forget-counted _ _ q λ uid. uid_count-pop_least uid x xs ∙ tracked uid
  where
    tracked : (uid : String) → uid_count uid (x ∷ xs) ≡ (if has_key uid q.unique_map then 1 else 0)
    tracked uid = unfold IsTracked in rw e at (v uid)

pub add_to_queue-IsTracked :
    (e : Event) (prio : ℤ) (q : Queues) → IsTracked q → IsTracked (add_to_queue e prio q)
unfolding IsTracked add_to_queue uid_count has_key
add_to_queue-IsTracked e prio q v uid = elim (Option-cases e.unique_id) [
  | inl n ↦ rw (n, add_to_queue) (ground (arith, v uid))
  | inr (u, n) ↦ rw (n, add_to_queue) (ground (arith, v uid, v u, eq_iff u uid))
]

add_all-IsTracked : (l : List (Event × ℤ)) (q : Queues) → IsTracked q → IsTracked (add_all l q)
unfolding add_all
add_all-IsTracked [] q v = v
add_all-IsTracked ((e, p) ∷ l) q v = add_all-IsTracked l _ (add_to_queue-IsTracked e p q v)

requeue_loop-IsTracked :
    (l : List Requeue) (q : Queues) → IsTracked q → IsTracked (requeue_loop l q)
unfolding requeue_loop
requeue_loop-IsTracked [] q v = v
requeue_loop-IsTracked (r ∷ l) q v =
    requeue_loop-IsTracked l _ (rw re_add_lem (add_to_queue-IsTracked r.evt r.priority q v))

requeue_all-IsTracked : (q : Queues) → IsTracked q → IsTracked (requeue_all q)
unfolding requeue_all IsTracked
requeue_all-IsTracked q v = requeue_loop-IsTracked q.requeues q v

module _ {W : Type 0} (listen : W → Event → W × ListenerReturn × List (Event × ℤ)) where
  handle-IsTracked :
      (pe : PrioritizedEvent) (w : W) (q : Queues)
      → IsTracked q
      → IsTracked (handle listen pe w q).1
  unfolding handle add_to_requeue IsTracked
  handle-IsTracked pe w q v uid =
      let t = add_all-IsTracked (listen w pe.event).2 q v uid in ground (arith, t)

  queues_of : Queues → Option (W × Queues × List PrioritizedEvent) → Queues
  queues_of q none = q
  queues_of q (some (w, q', out)) = q'

  process_loop-IsTracked :
      (fuel : ℕ) (w : W) (q : Queues) (handled : List PrioritizedEvent) {w' : W} {q' : Queues}
      {out : List PrioritizedEvent}
      → IsTracked q
      → process_loop listen fuel w q handled ≡ some (w', q', out)
      → IsTracked q' × (q'.global_queue ≡ [])
  unfolding process_loop queues_of
  process_loop-IsTracked zero w q handled v h = absurd (cc)
  process_loop-IsTracked (suc fuel) w q handled v h = elim (List-cases q.global_queue) [
    | inl e ↦
        let g = rw (e, process_loop) at h in
        let same = ap (queues_of q) g in
        (subst IsTracked same v, ap (λ (o : Queues). o.global_queue) (sym same) ∙ e)
    | inr (x, xs, e) ↦
        let (pe, taken) = take_least x xs q in
        let (w1, q1) = handle listen pe w taken in
        process_loop-IsTracked fuel w1 q1 (handled ++ pe ∷ [])
          (handle-IsTracked pe w taken (take_least-IsTracked x xs q e v))
          (sym (one_round listen fuel w x xs handled q e) ∙ h)
  ]

  -- From a queue in which each unique event stands at most once and the unique map knows which ones
  -- are there, a `ProcessEvents` that returns leaves such a queue, whatever the listeners add, and
  -- the queue is empty, with no id marked: so no later event is dropped for one that is gone.
  pub process_events-IsTracked :
      (fuel : ℕ) (w : W) (q : Queues) {w' : W} {q' : Queues} {out : List PrioritizedEvent}
      → IsTracked q
      → process_events listen fuel w q ≡ some (w', q', out)
      → IsTracked q' × (q'.global_queue ≡ []) × ((uid : String) → has_key uid q'.unique_map ≡ false)
  unfolding process_events
  process_events-IsTracked fuel w q v h =
      let (t, e) = process_loop-IsTracked fuel w (requeue_all q) [] (requeue_all-IsTracked q v) h in
      (t, e, λ uid. unmarked uid _ t e)
    where
      unmarked :
          (uid : String) (q1 : Queues)
          → IsTracked q1
          → q1.global_queue ≡ []
          → has_key uid q1.unique_map ≡ false
      unmarked uid q1 t e =
          unfold IsTracked uid_count in let g = rw e at (t uid) in ground (arith, g)

-- ===== src/Events.antt =====
-- internal/events/events.go: the global event queue. An event of the interface type is what its
-- methods give, `Type()` and the id of a unique event, with a number for all else. The listeners are
-- a parameter: they change a world `W`, return whether the event is to be requeued, and list the
-- `AddToQueue` calls that they make. `container/heap` is its contract: a pop takes the least entry.
pub mod Popping
pub mod Draining
pub mod Unique
pub mod Listeners
mod Tests
use Prim.Native.String.{String}
use text.Mathlib.Text.{◌==◌ as str_eq}
use go_mud.Prelude.{
  ℕ, suc, zero, ◌+◌, Bool, true, false, Option, none, some, List, [], ◌∷◌, ◌++◌, ltb, if◌then◌else◌,
  length,
}
use go_mud.Prelude.Int.{ℤ, ◌==ℤ◌, ltb_ℤ}

pub data ListenerReturn : Type 0 where
  proceed cancel cancel_and_requeue : ListenerReturn

pub record Event : Type 0 where
  pub kind : String
  pub unique_id : Option String
  pub body : ℕ

pub record PrioritizedEvent : Type 0 where
  pub event : Event
  pub priority : ℤ
  pub order : ℕ

pub record Requeue : Type 0 where
  pub evt : Event
  pub priority : ℤ

pub record Queues : Type 0 where
  pub requeues : List Requeue
  pub global_queue : List PrioritizedEvent
  pub order_counter : ℕ
  pub unique_map : List String

-- `_, exists := uniqueMap[uid]` and `delete(uniqueMap, uid)`
pub has_key : String → List String → Bool
has_key k [] = false
has_key k (x ∷ xs) = if str_eq x k then true else has_key k xs

pub drop_key : String → List String → List String
drop_key k [] = []
drop_key k (x ∷ xs) = if str_eq x k then drop_key k xs else x ∷ drop_key k xs

pub less : PrioritizedEvent → PrioritizedEvent → Bool
less a b = if a.priority ==ℤ b.priority then ltb a.order b.order else ltb_ℤ a.priority b.priority

-- `heap.Pop`: the least of a nonempty queue, and the others.
pub pop_least : PrioritizedEvent → List PrioritizedEvent → PrioritizedEvent × List PrioritizedEvent
pop_least x [] = (x, [])
pop_least x (y ∷ ys) =
    let (m, r) = pop_least (if less y x then y else x) ys in (m, (if less y x then x else y) ∷ r)

-- The end of `AddToQueue`: the counter goes up, and the entry is pushed.
pub push : Event → ℤ → Queues → Queues
push e prio q = record q {
  order_counter = suc q.order_counter;
  global_queue =
      record { event = e; priority = prio; order = suc q.order_counter } ∷ q.global_queue;
}

pub add_to_queue : Event → ℤ → Queues → Queues
unfolding push
add_to_queue e prio q = elim e.unique_id [
  | none ↦ push e prio q
  | some uid ↦
      if has_key uid q.unique_map
      then q
      else push e prio (record q { unique_map = uid ∷ q.unique_map })
]

-- The same text as `AddToQueue`, without the lock.
pub re_add_to_queue : Event → ℤ → Queues → Queues
unfolding push
re_add_to_queue e prio q = elim e.unique_id [
  | none ↦ push e prio q
  | some uid ↦
      if has_key uid q.unique_map
      then q
      else push e prio (record q { unique_map = uid ∷ q.unique_map })
]

pub add_to_requeue : Event → ℤ → Queues → Queues
add_to_requeue e prio q = record q {
  requeues = q.requeues ++ record { evt = e; priority = prio } ∷ [];
}

pub add_all : List (Event × ℤ) → Queues → Queues
add_all [] q = q
add_all ((e, prio) ∷ l) q = add_all l (add_to_queue e prio q)

-- The first loop of `ProcessEvents`, and the reset of the slice.
pub requeue_loop : List Requeue → Queues → Queues
requeue_loop [] q = q
requeue_loop (r ∷ l) q = requeue_loop l (re_add_to_queue r.evt r.priority q)

pub requeue_all : Queues → Queues
unfolding requeue_loop
requeue_all q = record (requeue_loop q.requeues q) { requeues = [] }

-- `delete(uniqueMap, ...)` for a unique event.
pub forget : Event → Queues → Queues
forget e q = elim e.unique_id [
  | none ↦ q
  | some uid ↦ record q { unique_map = drop_key uid q.unique_map }
]

-- Taking the least entry from a queue with the given head and tail.
pub take_least : PrioritizedEvent → List PrioritizedEvent → Queues → PrioritizedEvent × Queues
take_least x xs q =
    let (pe, rest) = pop_least x xs in (pe, forget pe.event (record q { global_queue = rest }))

module _ {W : Type 0} (listen : W → Event → W × ListenerReturn × List (Event × ℤ)) where
  -- One round of the second loop on a nonempty queue: the event, the world and the queues after it.
  pub handle : PrioritizedEvent → W → Queues → W × Queues
  handle pe w q =
      let (w', result, added) = listen w pe.event in
      let q' = add_all added q in
      (w', elim result [ cancel_and_requeue ↦ add_to_requeue pe.event pe.priority q' | _ ↦ q' ])

  -- The second loop, with the entries handled so far; `none` when the fuel is used up.
  pub process_loop :
      ℕ → W → Queues → List PrioritizedEvent → Option (W × Queues × List PrioritizedEvent)
  process_loop zero w q handled = none
  process_loop (suc fuel) w q handled = elim q.global_queue [
    | [] ↦ some (w, q, handled)
    | x ∷ xs ↦
        let (pe, q') = take_least x xs q in
        let (w', q'') = handle pe w q' in process_loop fuel w' q'' (handled ++ pe ∷ [])
  ]

  pub process_events : ℕ → W → Queues → Option (W × Queues × List PrioritizedEvent)
  process_events fuel w q = process_loop fuel w (requeue_all q) []

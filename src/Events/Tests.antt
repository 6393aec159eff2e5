-- ===== src/Events/Tests.antt =====
-- Runs of internal/events/events.go, and the theorems at concrete queues.
use Prim.Native.String.{String}
use mathlib.Core.List.{Perm}
use go_mud.Prelude.{ℕ, suc, ◌<◌, ◌≡◌, refl, false, none, some, List, [], ◌∷◌, arith, length}
use go_mud.Prelude.Int.{ℤ, pos, negsuc}
use go_mud.Events.{
  Event, PrioritizedEvent, Queues, ListenerReturn, proceed, add_to_queue, process_events,
  requeue_all, requeue_loop, has_key, process_loop, handle, take_least, pop_least, forget, drop_key,
  add_all,
}
use go_mud.Events.Draining.{IsSorted, IsNewestFirst, process_events-IsSorted}
use go_mud.Events.Unique.{IsTracked, uid_count, add_to_queue-IsTracked, process_events-IsTracked}

abbrev message : ℕ → Event
message n = record { kind = "Message"; unique_id = none; body = n }

abbrev redraw : Event
redraw = record { kind = "RedrawPrompt"; unique_id = some "user-1"; body = 0 }

abbrev no_events : Queues
no_events = record { requeues = []; global_queue = []; order_counter = 0; unique_map = [] }

-- Two messages, a more urgent one, and a unique event twice.
abbrev five_calls : List (Event × ℤ)
five_calls =
    (message 1, pos 0)
    ∷ (message 2, pos 0)
    ∷ (message 3, negsuc 0)
    ∷ (redraw, pos 0)
    ∷ (redraw, pos 0)
    ∷ []

abbrev four_events : Queues
four_events = add_all five_calls no_events

abbrev listen : ℕ → Event → ℕ × ListenerReturn × List (Event × ℤ)
listen n e = (suc n, proceed, [])

four_events-length : length four_events.global_queue ≡ 4
unfolding add_all add_to_queue has_key
four_events-length = refl

few_events : length (requeue_all four_events).global_queue < 5
unfolding add_all add_to_queue has_key requeue_all requeue_loop
few_events = omega arith

process_events-IsSorted_example :
    (w' : ℕ) × (q' : Queues) × (handled : List PrioritizedEvent) × (process_events listen 5 0
        four_events
      ≡ some (w', q', handled))
    × (q'.global_queue ≡ [])
    × IsSorted handled
    × Perm handled (requeue_all four_events).global_queue
    × IsNewestFirst (requeue_all four_events).global_queue
process_events-IsSorted_example =
    process_events-IsSorted listen (λ w e. refl) 5 0 no_events five_calls refl few_events

abbrev one_event : Queues
one_event = add_to_queue redraw (pos 0) no_events

abbrev after_one : Queues
after_one = record { requeues = []; global_queue = []; order_counter = 1; unique_map = [] }

one_event-IsTracked : IsTracked one_event
unfolding IsTracked uid_count has_key
one_event-IsTracked = add_to_queue-IsTracked redraw (pos 0) no_events (λ uid. refl)

one_handled :
    process_events listen 2 0 one_event
    ≡ some (1, after_one, record { event = redraw; priority = pos 0; order = 1 } ∷ [])
unfolding process_events process_loop handle take_least pop_least forget drop_key add_all
    requeue_all requeue_loop add_to_queue has_key
one_handled = refl

process_events-IsTracked_example :
    IsTracked after_one
    × (after_one.global_queue ≡ [])
    × ((uid : String) → has_key uid after_one.unique_map ≡ false)
process_events-IsTracked_example =
    process_events-IsTracked listen 2 0 one_event one_event-IsTracked one_handled

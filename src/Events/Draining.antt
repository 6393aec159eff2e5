-- ===== src/Events/Draining.antt =====
-- internal/events/events.go, ProcessEvents: listeners that queue nothing see each entry once, in
-- the order of priority and of insertion.
use mathlib.Core.Path.{subst}
use mathlib.Core.List.{Perm, append_assoc, append-nil}
use mathlib.Core.List.Perm
use go_mud.Prelude.{
  ℕ, suc, zero, ◌<◌, ◌≡◌, ◌∙◌, sym, ap, refl, some, List, [], ◌∷◌, ◌++◌, length, arith, ◌≤◌, ◌⊎◌,
  inl, inr, Bool-cases, Option-cases,
}
use go_mud.Prelude.Int.{ℤ, pos, ◌+ℤ◌, ◌≤ℤ◌, ◌==ℤ◌}
use go_mud.Prelude.Predicates.{All, All-map}
use go_mud.Events.{
  Event, PrioritizedEvent, Queues, ListenerReturn, pop_least, take_least, forget, handle,
  process_loop, process_events, requeue_all, add_to_requeue, add_all, less, push, add_to_queue,
  re_add_to_queue, requeue_loop, Requeue, has_key,
}
use go_mud.Events.Popping.{
  NotLess, pop_least-All, pop_least-perm, length-pop_least, pop_least-keeps,
}

-- The first entry has a lower priority number, or the same one and was numbered no later.
abbrev pub IsDue : PrioritizedEvent → PrioritizedEvent → Type 0
IsDue x z = (x.priority +ℤ pos 1 ≤ℤ z.priority) ⊎ ((x.priority ≡ z.priority) × (x.order ≤ z.order))

NotLess-IsDue : (x z : PrioritizedEvent) → NotLess z x → IsDue x z
unfolding less ◌==ℤ◌ ◌+ℤ◌
NotLess-IsDue x z h = ground arith

-- Each entry is due no later than those after it.
abbrev pub IsSorted : List PrioritizedEvent → Type 0
IsSorted [] = Unit {0}
IsSorted (x ∷ xs) = All (IsDue x) xs × IsSorted xs

-- Each entry has a greater number than those after it: the last one that was pushed stands first.
abbrev pub IsNewestFirst : List PrioritizedEvent → Type 0
IsNewestFirst [] = Unit {0}
IsNewestFirst (x ∷ xs) = All (λ z. z.order < x.order) xs × IsNewestFirst xs

-- In the queue, where no number is above the counter.
abbrev IsNumbered : Queues → Type 0
IsNumbered q = All (λ z. z.order ≤ q.order_counter) q.global_queue × IsNewestFirst q.global_queue

push-IsNumbered : (e : Event) (prio : ℤ) (q : Queues) → IsNumbered q → IsNumbered (push e prio q)
unfolding push
push-IsNumbered e prio q h = (
  (omega arith, All-map _ _ q.global_queue (λ z k. omega (arith, k)) h.0),
  (All-map _ _ q.global_queue (λ z k. omega (arith, k)) h.0, h.1),
)

add_to_queue-IsNumbered :
    (e : Event) (prio : ℤ) (q : Queues) → IsNumbered q → IsNumbered (add_to_queue e prio q)
unfolding add_to_queue
add_to_queue-IsNumbered e prio q h = elim (Option-cases e.unique_id) [
  | inl f ↦ rw (f, add_to_queue) (push-IsNumbered e prio q h)
  | inr (uid, f) ↦ elim (Bool-cases (has_key uid q.unique_map)) [
    | inl g ↦ rw (f, g, add_to_queue) h
    | inr g ↦
        rw (f, g, add_to_queue)
          (push-IsNumbered e prio (record q { unique_map = uid ∷ q.unique_map }) h)
  ]
]

re_add_to_queue-eq :
    (e : Event) (prio : ℤ) (q : Queues) → re_add_to_queue e prio q ≡ add_to_queue e prio q
unfolding re_add_to_queue add_to_queue
re_add_to_queue-eq e prio q = refl

add_all-IsNumbered : (l : List (Event × ℤ)) (q : Queues) → IsNumbered q → IsNumbered (add_all l q)
unfolding add_all
add_all-IsNumbered [] q h = h
add_all-IsNumbered ((e, prio) ∷ l) q h =
    add_all-IsNumbered l (add_to_queue e prio q) (add_to_queue-IsNumbered e prio q h)

requeue_loop-IsNumbered :
    (l : List Requeue) (q : Queues) → IsNumbered q → IsNumbered (requeue_loop l q)
unfolding requeue_loop
requeue_loop-IsNumbered [] q h = h
requeue_loop-IsNumbered (r ∷ l) q h =
    requeue_loop-IsNumbered l (re_add_to_queue r.evt r.priority q)
      (rw (re_add_to_queue-eq r.evt r.priority q) (add_to_queue-IsNumbered r.evt r.priority q h))

forget-queue : (e : Event) (q : Queues) → (forget e q).global_queue ≡ q.global_queue
unfolding forget
forget-queue e q = ground arith

module _ {W : Type 0} (listen : W → Event → W × ListenerReturn × List (Event × ℤ)) where
  handle-queue :
      (pe : PrioritizedEvent) (w : W) (q : Queues)
      → (listen w pe.event).2 ≡ []
      → (handle listen pe w q).1.global_queue ≡ q.global_queue
  unfolding handle add_all add_to_requeue
  handle-queue pe w q quiet = ground arith

  after_round :
      (quiet : (w : W) (e : Event) → (listen w e).2 ≡ []) (w : W) (x : PrioritizedEvent)
      (xs : List PrioritizedEvent) (q : Queues)
      → let (pe, q') = take_least x xs q in
        (handle listen pe w q').1.global_queue ≡ (pop_least x xs).1
  after_round quiet w x xs q =
      let (pe, q') = take_least x xs q in handle-queue pe w q' (quiet w pe.event) ∙ taken
    where
      taken : (take_least x xs q).1.global_queue ≡ (pop_least x xs).1
      taken = unfold take_least in forget-queue _ _

  pub one_round :
      (fuel : ℕ) (w : W) (x : PrioritizedEvent) (xs handled : List PrioritizedEvent) (q : Queues)
      → q.global_queue ≡ x ∷ xs
      → let (pe, q') = take_least x xs q in
        let (w', q'') = handle listen pe w q' in
        process_loop listen (suc fuel) w q handled
        ≡ process_loop listen fuel w' q'' (handled ++ pe ∷ [])
  unfolding process_loop handle take_least
  one_round fuel w x xs handled q e = rw (e, process_loop)

  -- What the loop does to a queue, in front of what it has handled before.
  record Drained (fuel : ℕ) (w : W) (q : Queues) (handled : List PrioritizedEvent) : Type 1 where
    world : W
    queues : Queues
    out : List PrioritizedEvent
    returns : process_loop listen fuel w q handled ≡ some (world, queues, handled ++ out)
    emptied : queues.global_queue ≡ []
    sorted : IsSorted out
    same : Perm out q.global_queue
    keeps :
        (b : PrioritizedEvent) → All (λ z. NotLess z b) q.global_queue → All (λ z. NotLess z b) out

  -- One round in front of what the rest of the loop does.
  extend :
      (fuel : ℕ) (w w1 : W) (q q1 : Queues) (handled xs r : List PrioritizedEvent)
      (x m : PrioritizedEvent)
      → process_loop listen (suc fuel) w q handled
        ≡ process_loop listen fuel w1 q1 (handled ++ m ∷ [])
      → q.global_queue ≡ x ∷ xs
      → q1.global_queue ≡ r
      → All (λ z. NotLess z m) r
      → Perm (m ∷ r) (x ∷ xs)
      → ((b : PrioritizedEvent)
          → NotLess x b
          → All (λ z. NotLess z b) xs
          → NotLess m b × All (λ z. NotLess z b) r)
      → Drained fuel w1 q1 (handled ++ m ∷ [])
      → Drained (suc fuel) w q handled
  extend fuel w w1 q q1 handled xs r x m round e e1 least perm keep rest = record {
    world = rest.world;
    queues = rest.queues;
    out = m ∷ rest.out;
    returns =
        round
        ∙ rest.returns
        ∙ ap (λ h. some (rest.world, rest.queues, h)) (append_assoc handled (m ∷ []) rest.out);
    emptied = rest.emptied;
    sorted = (
      All-map _ _ rest.out (NotLess-IsDue m)
          (rest.keeps m (subst (All (λ z. NotLess z m)) (sym e1) least)),
      rest.sorted,
    );
    same =
        subst (Perm (m ∷ rest.out)) (sym e)
          (Perm.trans (Perm.cons m (subst (Perm rest.out) e1 rest.same)) perm);
    keeps = λ b a.
        let a' = subst (All (λ z. NotLess z b)) e a in
        let (first, others) = keep b a'.0 a'.1 in
        (first, rest.keeps b (subst (All (λ z. NotLess z b)) (sym e1) others));
  }

  drains :
      (quiet : (w : W) (e : Event) → (listen w e).2 ≡ []) (fuel : ℕ) (w : W) (q : Queues)
      (handled l : List PrioritizedEvent)
      → q.global_queue ≡ l
      → length l < fuel
      → Drained fuel w q handled
  unfolding take_least
  drains quiet zero w q handled l e h = absurd (omega arith)
  drains quiet (suc fuel) w q handled [] e h = record {
    world = w;
    queues = q;
    out = [];
    returns = unfold process_loop in rw (e, append-nil);
    emptied = e;
    sorted = tt;
    same = rw e Perm.nil;
    keeps = λ b a. tt;
  }
  drains quiet (suc fuel) w q handled (x ∷ xs) e h =
      let (pe, q') = take_least x xs q in
      let (w', q'') = handle listen pe w q' in
      let left = after_round quiet w x xs q in
      extend fuel w w' q q'' handled xs (pop_least x xs).1 x pe (one_round fuel w x xs handled q e)
        e left (pop_least-All x xs).1 (pop_least-perm x xs)
        (λ b. pop_least-keeps (λ z. NotLess z b) x xs)
        (drains quiet fuel w' q'' (handled ++ pe ∷ []) (pop_least x xs).1 left
          (omega (arith, length-pop_least x xs)))

  -- `ProcessEvents` with listeners that queue nothing themselves, after any events were added to an
  -- empty queue, ends by itself, with one round of fuel more than there are entries. It leaves the
  -- queue empty, and it has handled each entry that was queued or requeued, once, a lower priority
  -- number first and, within a priority, by the number that the entry got when it was pushed; and these
  -- numbers are greater the later the entry was pushed.
  pub process_events-IsSorted :
      (quiet : (w : W) (e : Event) → (listen w e).2 ≡ []) (fuel : ℕ) (w : W) (q : Queues)
      (l : List (Event × ℤ))
      → q.global_queue ≡ []
      → let queued = (requeue_all (add_all l q)).global_queue in
        length queued < fuel
        → (w' : W) × (q' : Queues) × (handled : List PrioritizedEvent) × (process_events listen fuel
              w
              (add_all l q)
            ≡ some (w', q', handled))
          × (q'.global_queue ≡ [])
          × IsSorted handled
          × Perm handled queued
          × IsNewestFirst queued
  unfolding process_events requeue_all
  process_events-IsSorted quiet fuel w q l empty h =
      let start : IsNumbered q = rw empty (tt, tt) in
      let queued = requeue_all (add_all l q) in
      let d = drains quiet fuel w queued [] queued.global_queue refl h in
      let numbered =
        requeue_loop-IsNumbered (add_all l q).requeues (add_all l q)
          (add_all-IsNumbered l q start) in
      (d.world, d.queues, d.out, d.returns, d.emptied, d.sorted, d.same, numbered.1)

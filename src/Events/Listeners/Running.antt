-- ===== src/Events/Listeners/Running.antt =====
-- internal/events/listeners.go, DoListeners: the run of the listeners of one event.
use Prim.Native.String.{String}
use go_mud.Prelude.{
  ℕ, ◌≡◌, ◌⊎◌, refl, Bool, true, false, Option, none, List, [], ◌∷◌, ◌++◌, ◌==◌, arith,
  if◌then◌else◌, Bool-cases, inl, inr, length,
}
use go_mud.Prelude.Assoc.{lookup, string_eq}
use go_mud.Events.{ListenerReturn, proceed, cancel, cancel_and_requeue}
use go_mud.Events.Listeners.{ListenerWrapper, Registry, wrappers, run, finish, do_listeners}

abbrev pub listeners : String → Registry → List ListenerWrapper
listeners t r = wrappers (lookup t r.event_listeners)

abbrev pub Flagged : Registry → Type 0
Flagged r = r.has_wildcard_listener ≡ false → listeners "*" r ≡ []

Return-cases : (r : ListenerReturn) → (r ≡ proceed) ⊎ (r ≡ cancel) ⊎ (r ≡ cancel_and_requeue)
Return-cases proceed = inl refl
Return-cases cancel = inr (inl refl)
Return-cases cancel_and_requeue = inr (inr refl)

abbrev wild : Registry → Option (List ListenerWrapper)
wild r = if r.has_wildcard_listener then lookup "*" r.event_listeners else none

wild-listeners : (r : Registry) → Flagged r → wrappers (wild r) ≡ listeners "*" r
wild-listeners r v = elim (Bool-cases r.has_wildcard_listener) [
  | inl e ↦ rw e refl
  | inr e ↦ rw (e, v e) refl
]

none_listed : (l : List (String × List ListenerWrapper)) → (length l == 0) ≡ true → l ≡ []
none_listed [] h = refl
none_listed (x ∷ l) h = absurd (ground arith)

module _ {W : Type 0} (call : ℕ → String → W → W × ListenerReturn) where
  -- The rest of the listeners, after a result.
  resume : List ListenerWrapper → String → W → ListenerReturn → W × ListenerReturn
  resume ys t w proceed = run call ys t w
  resume ys t w cancel = (w, cancel)
  resume ys t w cancel_and_requeue = (w, cancel_and_requeue)

  run_step :
      (x : ListenerWrapper) (xs : List ListenerWrapper) (t : String) (w : W)
      → run call (x ∷ xs) t w ≡ resume xs t (call x.id t w).0 (call x.id t w).1
  unfolding run resume
  run_step x xs t w = elim (Return-cases ((call x.id t w).1)) [
    | inl e ↦ rw (e, run, resume) refl
    | inr (inl e) ↦ rw (e, run, resume) refl
    | inr (inr e) ↦ rw (e, run, resume) refl
  ]

  run-append :
      (xs ys : List ListenerWrapper) (t : String) (w : W)
      → run call (xs ++ ys) t w ≡ resume ys t (run call xs t w).0 (run call xs t w).1
  unfolding resume
  run-append [] ys t w = unfold run in refl
  run-append (x ∷ xs) ys t w = elim (Return-cases ((call x.id t w).1)) [
    | inl e ↦
        rw (run_step x xs t w, run_step x (xs ++ ys) t w, e) (run-append xs ys t (call x.id t w).0)
    | inr (inl e) ↦ rw (run_step x xs t w, run_step x (xs ++ ys) t w, e) refl
    | inr (inr e) ↦ rw (run_step x xs t w, run_step x (xs ++ ys) t w, e) refl
  ]

  -- What a dispatch does to the registry: nothing, or it counts an event without listeners.
  pub after_dispatch :
      (t : String) (r : Registry) (w : W)
      → ((do_listeners call t r w).0 ≡ r)
        ⊎ ((b : Bool) × ((do_listeners call t r w).0 ≡ finish t b r))
  unfolding do_listeners
  after_dispatch t r w =
      let p = run call (wrappers (wild r)) t w in
      let q = run call (wrappers (lookup t r.event_listeners)) t p.0 in
      elim (Bool-cases (length r.event_listeners == 0)) [
        | inl e ↦ rw (e, do_listeners) (inl refl)
        | inr e ↦ elim (Return-cases p.1) [
          | inr (inl f) ↦ rw (e, f, do_listeners) (inl refl)
          | inr (inr f) ↦ rw (e, f, do_listeners) (inl refl)
          | inl f ↦ elim (Return-cases q.1) [
            | inl g ↦ rw (e, f, g, do_listeners) (inr (_, refl))
            | inr (inl g) ↦ rw (e, f, g, do_listeners) (inl refl)
            | inr (inr g) ↦ rw (e, f, g, do_listeners) (inl refl)
          ]
        ]
      ]

  dispatched :
      (t : String) (r : Registry) (w : W)
      → (length r.event_listeners == 0) ≡ false
      → let p = run call (wrappers (wild r)) t w in
        ((do_listeners call t r w).1 ≡ (resume (listeners t r) t p.0 p.1).0)
        × ((do_listeners call t r w).2 ≡ (resume (listeners t r) t p.0 p.1).1)
  unfolding do_listeners resume
  dispatched t r w e =
      let p = run call (wrappers (wild r)) t w in
      let q = run call (wrappers (lookup t r.event_listeners)) t p.0 in
      elim (Return-cases p.1) [
        | inr (inl f) ↦ rw (e, f, do_listeners) (refl, refl)
        | inr (inr f) ↦ rw (e, f, do_listeners) (refl, refl)
        | inl f ↦ elim (Return-cases q.1) [
          | inl g ↦ rw (e, f, g, do_listeners) (refl, refl)
          | inr (inl g) ↦ rw (e, f, g, do_listeners) (refl, refl)
          | inr (inr g) ↦ rw (e, f, g, do_listeners) (refl, refl)
        ]
      ]

  pub do_listeners-run :
      (t : String) (r : Registry) (w : W)
      → Flagged r
      → let out = run call (listeners "*" r ++ listeners t r) t w in
        ((do_listeners call t r w).1 ≡ out.0) × ((do_listeners call t r w).2 ≡ out.1)
  do_listeners-run t r w v = elim (Bool-cases (length r.event_listeners == 0)) [
    | inl e ↦
        let none_there = none_listed r.event_listeners e in
        unfold do_listeners lookup run in rw (e, none_there, do_listeners) (refl, refl)
    | inr e ↦
        let d = dispatched t r w e in
        let same = run-append (listeners "*" r) (listeners t r) t w in
        rw same (rw (wild-listeners r v) at d)
  ]

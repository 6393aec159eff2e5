-- ===== src/Events/Listeners/Dispatch.antt =====
-- internal/events/listeners.go: which listeners an event reaches, after any calls.
use Prim.Native.String.{String}
use text.Mathlib.TextEquality.{eq_iff}
use go_mud.Prelude.{
  ℕ, suc, ◌≡◌, ◌≢◌, sym, refl, Bool, true, false, Option, List, [], ◌∷◌, ◌++◌, ltb, arith,
  Bool-cases, inl, inr, length,
}
use mathlib.Core.Path.{subst}
use go_mud.Events.Listeners.Ordered.{IsOrdered, place-IsOrdered, drop-IsOrdered}
use go_mud.Prelude.Assoc.{lookup, insert, string_eq, lookup-insert}
use go_mud.Events.{ListenerReturn}
use go_mud.Events.Listeners.{
  QueueFlag, ListenerWrapper, Registry, type_of, wrappers, clear_listeners, place, is_last,
  register_listener, has_listener, drop_listener, unregister_listener, run, finish, do_listeners,
}
use go_mud.Events.Listeners.Running.{listeners, Flagged, after_dispatch, do_listeners-run}

-- The registries that the calls reach from the start of the program.
pub data Reach : Registry → Type 1 where
  start : Reach (record {
    listener_ct = 0;
    event_listeners = [];
    has_wildcard_listener = false;
    events_without_listeners = [];
  })
  register :
      {r : Registry} (e : Option String) (flag : QueueFlag)
      → Reach r
      → Reach (register_listener e flag r).0
  unregister :
      {r : Registry} (e : Option String) (id : ℕ) → Reach r → Reach (unregister_listener e id r).0
  clear : {r : Registry} → Reach r → Reach (clear_listeners r)
  dispatch :
      {r : Registry} {W : Type 0} (call : ℕ → String → W → W × ListenerReturn) (t : String) (w : W)
      → Reach r
      → Reach (do_listeners call t r w).0

empty : (l : List ListenerWrapper) → ltb 0 (length l) ≡ false → l ≡ []
empty [] h = refl
empty (x ∷ l) h = absurd (ground arith)

found : (id : ℕ) (l : List ListenerWrapper) → has_listener id l ≡ true → l ≢ []
unfolding has_listener
found id [] h = absurd (cc)
found id (x ∷ l) h = λ e. absurd (cc)

register-Flagged :
    (e : Option String) (flag : QueueFlag) (r : Registry)
    → Flagged r
    → Flagged (register_listener e flag r).0
unfolding register_listener
register-Flagged e flag r v h = ground (
  arith,
  v,
  h,
  eq_iff (type_of e) "*",
  lookup-insert (type_of e) "*"
      (place flag (record { id = suc r.listener_ct; is_final = is_last flag })
        (wrappers (lookup (type_of e) r.event_listeners)))
      r.event_listeners,
)

unregister-Flagged :
    (e : Option String) (id : ℕ) (r : Registry) → Flagged r → Flagged (unregister_listener e id r).0
unfolding unregister_listener
unregister-Flagged e id r v h =
    elim (Bool-cases (has_listener id (wrappers (lookup (type_of e) r.event_listeners)))) [
      | inl f ↦
          let g = rw (f, unregister_listener) at h in
          rw (f, unregister_listener)
            (ground (
              arith,
              v g,
              eq_iff (type_of e) "*",
              found id (wrappers (lookup (type_of e) r.event_listeners)) f,
              lookup-insert (type_of e) "*"
                  (drop_listener id (wrappers (lookup (type_of e) r.event_listeners)))
                  r.event_listeners,
            ))
      | inr f ↦ elim (Bool-cases (string_eq.beq (type_of e) "*")) [
        | inl k ↦
            let g = rw (f, k, unregister_listener) at h in
            let star : type_of e ≡ "*" = (eq_iff (type_of e) "*").0 k in
            rw (f, k, unregister_listener) (empty _ (rw star at g))
        | inr k ↦
            let g = rw (f, k, unregister_listener) at h in rw (f, k, unregister_listener) (v g)
      ]
    ]

finish-listeners :
    (u t : String) (found : Bool) (r : Registry) → listeners u (finish t found r) ≡ listeners u r
unfolding finish
finish-listeners u t true r = refl
finish-listeners u t false r = refl

finish-Flagged : (t : String) (found : Bool) (r : Registry) → Flagged r → Flagged (finish t found r)
unfolding finish
finish-Flagged t true r v = v
finish-Flagged t false r v = v

Reach-Flagged : {r : Registry} → Reach r → Flagged r
unfolding clear_listeners
Reach-Flagged start = λ h. unfold lookup in refl
Reach-Flagged (register e flag c) = register-Flagged e flag _ (Reach-Flagged c)
Reach-Flagged (unregister e id c) = unregister-Flagged e id _ (Reach-Flagged c)
Reach-Flagged (clear c) = λ h. unfold lookup in refl
Reach-Flagged (dispatch {r = r} call t w c) = elim (after_dispatch call t r w) [
  | inl e ↦ subst Flagged (sym e) (Reach-Flagged c)
  | inr (b, e) ↦ subst Flagged (sym e) (finish-Flagged t b r (Reach-Flagged c))
]

abbrev EachOrdered : Registry → Type 0
EachOrdered r = (t : String) → IsOrdered (listeners t r)

no_listeners : IsOrdered []
no_listeners = record { early = []; final = []; joined = refl; none_final = tt; all_final = tt }

insert-EachOrdered :
    (k u : String) (l : List ListenerWrapper) (m : List (String × List ListenerWrapper))
    → IsOrdered l
    → IsOrdered (wrappers (lookup u m))
    → IsOrdered (wrappers (lookup u (insert k l m)))
insert-EachOrdered k u l m v w = elim (Bool-cases (string_eq.beq k u)) [
  | inl e ↦ rw (lookup-insert k u l m, e) v
  | inr e ↦ rw (lookup-insert k u l m, e) w
]

unregister-EachOrdered :
    (e : Option String) (id : ℕ) (r : Registry)
    → EachOrdered r
    → EachOrdered (unregister_listener e id r).0
unfolding unregister_listener
unregister-EachOrdered e id r v t =
    elim (Bool-cases (has_listener id (wrappers (lookup (type_of e) r.event_listeners)))) [
      | inl f ↦
          rw (f, unregister_listener)
            (insert-EachOrdered (type_of e) t _ _ (drop-IsOrdered id _ (v (type_of e))) (v t))
      | inr f ↦ elim (Bool-cases (string_eq.beq (type_of e) "*")) [
        | inl g ↦ rw (f, g, unregister_listener) (v t)
        | inr g ↦ rw (f, g, unregister_listener) (v t)
      ]
    ]

Reach-EachOrdered : {r : Registry} → Reach r → EachOrdered r
unfolding clear_listeners register_listener
Reach-EachOrdered start t = unfold lookup in no_listeners
Reach-EachOrdered (register {r = r} e flag c) t =
    let v = Reach-EachOrdered c in
    insert-EachOrdered (type_of e) t _ _
      (place-IsOrdered flag (suc r.listener_ct) _ (v (type_of e))) (v t)
Reach-EachOrdered (unregister e id c) t = unregister-EachOrdered e id _ (Reach-EachOrdered c) t
Reach-EachOrdered (clear c) t = unfold lookup in no_listeners
Reach-EachOrdered (dispatch {r = r} call u w c) t = elim (after_dispatch call u r w) [
  | inl e ↦ rw e (Reach-EachOrdered c t)
  | inr (b, e) ↦ rw (e, finish-listeners t u b r) (Reach-EachOrdered c t)
]

-- After any registrations, removals, clearings and dispatches, an event goes to the listeners under
-- `*` and then to those of its type, in their order, until one does not answer Continue, whatever
-- the flag for wildcard listeners says; and in both lists the final listeners stand last.
pub Reach-do_listeners :
    {r : Registry} {W : Type 0} (call : ℕ → String → W → W × ListenerReturn) (t : String) (w : W)
    → Reach r
    → let out = run call (listeners "*" r ++ listeners t r) t w in
      ((do_listeners call t r w).1 ≡ out.0)
      × ((do_listeners call t r w).2 ≡ out.1)
      × IsOrdered (listeners "*" r)
      × IsOrdered (listeners t r)
Reach-do_listeners call t w c =
    let (world, result) = do_listeners-run call t _ w (Reach-Flagged c) in
    (world, result, Reach-EachOrdered c "*", Reach-EachOrdered c t)

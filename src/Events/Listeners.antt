-- ===== src/Events/Listeners.antt =====
-- internal/events/listeners.go: the registry of the listeners and the dispatch of an event. The
-- code of the listeners is a parameter, named by the id of the registration: it changes a world `W`
-- and returns whether the next listener sees the event. A type is a text; `none` is the nil event,
-- whose listeners stand under `*`.
pub mod Ordered
pub mod Running
pub mod Dispatch
mod Tests
use Prim.Native.String.{String}
use go_mud.Prelude.{
  ℕ, zero, suc, ◌+◌, Bool, true, false, ◌||◌, not, Option, none, some, List, [], ◌∷◌, ◌++◌, ltb,
  ◌==◌, length, take, drop, get_elem?, if◌then◌else◌,
}
use go_mud.Prelude.Assoc.{lookup, insert, string_eq}
use go_mud.Events.{ListenerReturn, proceed, cancel, cancel_and_requeue}

-- A call without a flag is `no_flag`.
pub data QueueFlag : Type 0 where
  no_flag first last : QueueFlag

pub record ListenerWrapper : Type 0 where
  pub id : ℕ
  pub is_final : Bool

pub record Registry : Type 0 where
  pub listener_ct : ℕ
  pub event_listeners : List (String × List ListenerWrapper)
  pub has_wildcard_listener : Bool
  pub events_without_listeners : List (String × ℕ)

abbrev pub type_of : Option String → String
type_of none = "*"
type_of (some t) = t

abbrev pub wrappers : Option (List ListenerWrapper) → List ListenerWrapper
wrappers none = []
wrappers (some l) = l

-- A Go map gives 0 where the key is missing.
abbrev pub count_of : Option ℕ → ℕ
count_of none = 0
count_of (some n) = n

abbrev pub is_some : Option (List ListenerWrapper) → Bool
is_some none = false
is_some (some l) = true

pub clear_listeners : Registry → Registry
clear_listeners r = record r { event_listeners = [] }

-- The loop down from the end: behind the last listener that is not final.
pub insert_position : List ListenerWrapper → ℕ → ℕ
insert_position l zero = 0
insert_position l (suc idx) = elim (get_elem? l idx) [
  | none ↦ insert_position l idx
  | some w ↦ if not w.is_final then suc idx else insert_position l idx
]

pub place : QueueFlag → ListenerWrapper → List ListenerWrapper → List ListenerWrapper
place first w l = w ∷ l
place last w l = l ++ w ∷ []
place no_flag w l = let p = insert_position l (length l) in take p l ++ w ∷ drop p l

abbrev pub is_last : QueueFlag → Bool
is_last last = true
is_last _ = false

pub register_listener : Option String → QueueFlag → Registry → Registry × ℕ
register_listener empty_event flag r =
    let id = suc r.listener_ct in
    let t = type_of empty_event in
    let details : ListenerWrapper = record { id = id; is_final = is_last flag } in
    let old = wrappers (lookup t r.event_listeners) in
    (
      record r {
        listener_ct = id;
        event_listeners = insert t (place flag details old) r.event_listeners;
        has_wildcard_listener = if string_eq.beq t "*" then true else r.has_wildcard_listener;
      },
      id,
    )

pub has_listener : ℕ → List ListenerWrapper → Bool
has_listener id [] = false
has_listener id (w ∷ l) = if w.id == id then true else has_listener id l

-- `append(vals[:idx], vals[idx+1:]...)` at the first one with the id.
pub drop_listener : ℕ → List ListenerWrapper → List ListenerWrapper
drop_listener id [] = []
drop_listener id (w ∷ l) = if w.id == id then l else w ∷ drop_listener id l

pub unregister_listener : Option String → ℕ → Registry → Registry × Bool
unregister_listener empty_event id r =
    let t = type_of empty_event in
    let vals = wrappers (lookup t r.event_listeners) in
    if has_listener id vals
    then (record r { event_listeners = insert t (drop_listener id vals) r.event_listeners }, true)
    else if string_eq.beq t "*"
    then (record r { has_wildcard_listener = ltb 0 (length vals) }, false)
    else (r, false)

-- The end of `DoListeners`, where each listener has let the event pass.
pub finish : String → Bool → Registry → Registry
finish t found r = if found then r else record r {
  events_without_listeners =
      insert t (count_of (lookup t r.events_without_listeners) + 1) r.events_without_listeners;
}

module _ {W : Type 0} (call : ℕ → String → W → W × ListenerReturn) where
  -- The loop over the listeners of one type.
  pub run : List ListenerWrapper → String → W → W × ListenerReturn
  run [] t w = (w, proceed)
  run (x ∷ l) t w =
      let (w', result) = call x.id t w in elim result [ proceed ↦ run l t w' | other ↦ (w', other) ]

  pub do_listeners : String → Registry → W → Registry × W × ListenerReturn
  do_listeners t r w =
      if length r.event_listeners == 0
      then (r, w, proceed)
      else let wild = if r.has_wildcard_listener then lookup "*" r.event_listeners else none in
        let mine = lookup t r.event_listeners in
        let (w1, r1) = run (wrappers wild) t w in
        elim r1 [
          | proceed ↦
              let (w2, r2) = run (wrappers mine) t w1 in
              elim r2 [
                | proceed ↦ (finish t (is_some wild || is_some mine) r, w2, proceed)
                | other ↦ (r, w2, other)
              ]
          | other ↦ (r, w1, other)
        ]

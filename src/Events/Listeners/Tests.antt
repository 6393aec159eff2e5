-- ===== src/Events/Listeners/Tests.antt =====
-- Runs of internal/events/listeners.go, and the theorems at concrete registries.
use Prim.Native.String.{String}
use go_mud.Prelude.{ℕ, suc, ◌≡◌, refl, true, false, none, some, [], ◌∷◌, ◌++◌}
use go_mud.Prelude.Assoc.{lookup, insert}
use go_mud.Events.{ListenerReturn, proceed}
use go_mud.Events.Listeners.{
  no_flag, first, last, ListenerWrapper, Registry, register_listener, insert_position, place,
  do_listeners, run,
}
use go_mud.Events.Listeners.Ordered.{IsOrdered}
use go_mud.Events.Listeners.Dispatch.{Reach, start, register, Reach-do_listeners}
use go_mud.Events.Listeners.Running.{listeners}

abbrev nothing : Registry
nothing = record {
  listener_ct = 0;
  event_listeners = [];
  has_wildcard_listener = false;
  events_without_listeners = [];
}

-- A final listener, a usual one, one that wants to be first, and a wildcard.
abbrev four_listeners : Registry
four_listeners =
    (register_listener none no_flag
      (register_listener (some "Message") first
        (register_listener (some "Message") no_flag
          (register_listener (some "Message") last nothing).0).0).0).0

abbrev wrapper : ℕ → ListenerWrapper
wrapper n = record { id = n; is_final = false }

abbrev final_one : ListenerWrapper
final_one = record { id = 1; is_final = true }

four_listeners-order : listeners "Message" four_listeners ≡ wrapper 3 ∷ wrapper 2 ∷ final_one ∷ []
unfolding register_listener place insert_position lookup insert
four_listeners-order = refl

abbrev count_calls : ℕ → String → ℕ → ℕ × ListenerReturn
count_calls id t n = (suc n, proceed)

four_listeners-Reach : Reach four_listeners
four_listeners-Reach = register none no_flag (
    register (some "Message") first
      (register (some "Message") no_flag (register (some "Message") last start)))

Reach-do_listeners_example :
    let out =
      run count_calls
        (listeners "*" four_listeners ++ listeners "Message" four_listeners)
        "Message"
        0 in
    ((do_listeners count_calls "Message" four_listeners 0).1 ≡ out.0)
    × ((do_listeners count_calls "Message" four_listeners 0).2 ≡ out.1)
    × IsOrdered (listeners "*" four_listeners)
    × IsOrdered (listeners "Message" four_listeners)
Reach-do_listeners_example = Reach-do_listeners count_calls "Message" 0 four_listeners-Reach

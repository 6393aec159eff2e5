-- ===== src/BadInput/Tests.antt =====
-- Unknown commands at concrete texts.
use go_mud.Prelude.{ℕ, ◌≡◌, refl, List, [], ◌∷◌}
use go_mud.Prelude.Bytes.{bytes_eq}
use go_mud.Prelude.Assoc.{lookup, insert}
use go_mud.BadInput.{track_bad_command, get_bad_commands, add_commands, add_counts, command_text}
use go_mud.BadInput.Counting.{
  Call, track, clear, run_calls, counted, tracked_times, run_calls-tracked_times,
}

abbrev a : List ℕ
a = b'a' ∷ []

abbrev ab : List ℕ
ab = b'a' ∷ b' ' ∷ b'b' ∷ []

abbrev calls : List Call
calls = track a ab ∷ clear ∷ track a ab ∷ track ab a ∷ track a ab ∷ []

run_calls-tracked_times_example : counted a ab (run_calls calls []) ≡ tracked_times a ab calls 0
run_calls-tracked_times_example = run_calls-tracked_times calls a ab

-- "a" with "b a" and "a b" with "a" have one text, so the counts of one are lost.
lost_count :
    get_bad_commands (track_bad_command ab a (track_bad_command a (b'b' ∷ b' ' ∷ b'a' ∷ []) []))
    ≡ (b'a' ∷ b' ' ∷ b'b' ∷ b' ' ∷ b'a' ∷ [], 1) ∷ []
unfolding get_bad_commands track_bad_command add_commands add_counts command_text lookup insert
lost_count = refl

-- ===== src/BadInput/Counting.antt =====
-- internal/badinputtracker/badinputtracker.go: the counts are those of the calls.
use go_mud.Prelude.{
  ℕ, ◌+◌, ◌≡◌, ◌∙◌, ap, refl, ◌&&◌, List, [], ◌∷◌, if◌then◌else◌, inl, inr, Bool-cases,
}
use go_mud.Prelude.Bytes.{eq_bytes, eq_bytes_iff, bytes_eq}
use go_mud.Prelude.Assoc.{lookup, lookup-insert}
use go_mud.BadInput.{BadCommands, or_empty, or_zero, track_bad_command, cleared}

pub data Call : Type 0 where
  track : List ℕ → List ℕ → Call
  clear : Call

pub run_calls : List Call → BadCommands → BadCommands
run_calls [] bad = bad
run_calls (track cmd rest ∷ calls) bad = run_calls calls (track_bad_command cmd rest bad)
run_calls (clear ∷ calls) bad = run_calls calls cleared

-- What the map holds for a command.
pub counted : List ℕ → List ℕ → BadCommands → ℕ
counted cmd rest bad = or_zero (lookup rest (or_empty (lookup cmd bad)))

-- How often the calls track a command since the last clearing, after `n` times before.
pub tracked_times : List ℕ → List ℕ → List Call → ℕ → ℕ
tracked_times cmd rest [] n = n
tracked_times cmd rest (track c r ∷ calls) n =
    tracked_times cmd rest calls (if eq_bytes c cmd && eq_bytes r rest then n + 1 else n)
tracked_times cmd rest (clear ∷ calls) n = tracked_times cmd rest calls 0

counted-track_bad_command :
    (cmd rest c r : List ℕ) (bad : BadCommands)
    → counted cmd rest (track_bad_command c r bad) ≡ (
        if eq_bytes c cmd && eq_bytes r rest
        then counted cmd rest bad + 1
        else counted cmd rest bad)
unfolding counted track_bad_command
counted-track_bad_command cmd rest c r bad = elim (Bool-cases (eq_bytes c cmd)) [
  | inl e ↦ elim (Bool-cases (eq_bytes r rest)) [
    | inl g ↦
        rw
          (
            lookup-insert c cmd,
            e,
            lookup-insert r rest,
            g,
            (eq_bytes_iff c cmd).0 e,
            (eq_bytes_iff r rest).0 g,
          )
          refl
    | inr g ↦ rw (lookup-insert c cmd, e, lookup-insert r rest, g, (eq_bytes_iff c cmd).0 e) refl
  ]
  | inr e ↦ rw (lookup-insert c cmd, e) refl
]

onwards :
    (calls : List Call) (cmd rest : List ℕ) (bad : BadCommands)
    → counted cmd rest (run_calls calls bad) ≡ tracked_times cmd rest calls (counted cmd rest bad)
unfolding run_calls tracked_times counted lookup
onwards [] cmd rest bad = refl
onwards (track c r ∷ calls) cmd rest bad =
    onwards calls cmd rest (track_bad_command c r bad)
    ∙ ap (tracked_times cmd rest calls) (counted-track_bad_command cmd rest c r bad)
onwards (clear ∷ calls) cmd rest bad = onwards calls cmd rest cleared

-- After any calls on an empty map the count of a command is how often it was tracked since the last
-- clearing.
pub run_calls-tracked_times :
    (calls : List Call) (cmd rest : List ℕ)
    → counted cmd rest (run_calls calls []) ≡ tracked_times cmd rest calls 0
unfolding counted lookup
run_calls-tracked_times calls cmd rest = onwards calls cmd rest []

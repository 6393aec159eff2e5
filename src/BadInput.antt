-- ===== src/BadInput.antt =====
-- internal/badinputtracker/badinputtracker.go: how often each unknown command was typed. Texts are
-- bytes, and a map is a list of its entries.
pub mod Counting
mod Tests
use go_mud.Prelude.{ℕ, ◌+◌, Option, none, some, List, [], ◌∷◌, ◌++◌}
use go_mud.Prelude.Bytes.{bytes_eq}
use go_mud.Prelude.Assoc.{lookup, insert}

abbrev pub Counts : Type 0
Counts = List (List ℕ × ℕ)

-- `badCommands`
abbrev pub BadCommands : Type 0
BadCommands = List (List ℕ × Counts)

abbrev pub or_empty : Option Counts → Counts
or_empty none = []
or_empty (some counts) = counts

abbrev pub or_zero : Option ℕ → ℕ
or_zero none = 0
or_zero (some n) = n

unfoldable pub track_bad_command : List ℕ → List ℕ → BadCommands → BadCommands
track_bad_command cmd rest bad =
    let counts = or_empty (lookup cmd bad) in
    insert cmd (insert rest (or_zero (lookup rest counts) + 1) counts) bad

-- The key of a command in the result.
unfoldable pub command_text : List ℕ → List ℕ → List ℕ
command_text cmd rest = cmd ++ b' ' ∷ rest

unfoldable pub add_counts : List ℕ → Counts → Counts → Counts
add_counts cmd [] ret = ret
add_counts cmd ((rest, n) ∷ counts) ret =
    add_counts cmd counts (insert (command_text cmd rest) n ret)

unfoldable pub add_commands : BadCommands → Counts → Counts
add_commands [] ret = ret
add_commands ((cmd, counts) ∷ bad) ret = add_commands bad (add_counts cmd counts ret)

unfoldable pub get_bad_commands : BadCommands → Counts
get_bad_commands bad = add_commands bad []

abbrev pub cleared : BadCommands
cleared = []

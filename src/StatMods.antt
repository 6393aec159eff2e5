-- ===== src/StatMods.antt =====
-- internal/statmods/statmods.go: modifiers of stats by name. A nil map and an empty one read alike.
use Prim.Native.String.{String}
use go_mud.Prelude.{none, some, List, [], ◌∷◌}
use go_mud.Prelude.Int.{ℤ, pos, ◌+ℤ◌}
use go_mud.Prelude.Assoc.{lookup, insert, string_eq}

abbrev pub StatMods : Type 0
StatMods = List (String × ℤ)

-- The loop over the names asked for.
get_from : StatMods → List String → ℤ → ℤ
get_from s [] ret = ret
get_from s (sn ∷ names) ret =
    get_from s names (elim (lookup sn s) [ some mod_amt ↦ ret +ℤ mod_amt | none ↦ ret ])

pub get : StatMods → List String → ℤ
unfolding get_from
get [] names = pos 0
get (m ∷ s) names = get_from (m ∷ s) names (pos 0)

-- The map after `Add`. On a nil map the code writes to a map that it then drops: see `add_nil`.
pub add : StatMods → String → ℤ → StatMods
add s name val = elim (lookup name s) [
  | some old ↦ insert name (old +ℤ val) s
  | none ↦ insert name val s
]

-- ===== src/Matching/Picking.antt =====
-- internal/util/util.go: which of the items `FindMatchIn` returns.
use go_mud.Prelude.{
  ℕ, ◌-◌, ◌<◌, ◌≡◌, Bool, false, ◌&&◌, List, [], ◌∷◌, ◌++◌, ◌==◌, ◌⊎◌, if◌then◌else◌,
}
use go_mud.Prelude.Decimal.{atoi}
use go_mud.Prelude.Predicates.{All}
use go_mud.Prelude.Bytes.{eq_bytes, starts_with, to_lower, trim_space}
use go_mud.Matching.{occurs}

-- Of the items that pass a test the one with `k` of them before it, or the empty text.
pub pick : ℕ → (List ℕ → Bool) → List (List ℕ) → List ℕ
pick k test [] = []
pick k test (i ∷ items) =
    let later = pick (if test i then k - 1 else k) test items in
    if test i && k == 0 then i else later

-- The three ways in which an item can fit a name, with capital letters as small ones.
pub equals : List ℕ → List ℕ → Bool
equals name item = eq_bytes (to_lower item) (to_lower name)

pub begins : List ℕ → List ℕ → Bool
begins name item = starts_with (to_lower name) (to_lower item)

pub includes : List ℕ → List ℕ → Bool
includes name item = occurs (to_lower name) (to_lower item)

-- No byte is the sign of a number.
abbrev pub NoSign : List ℕ → Type 0
NoSign = All (λ b. (b == b'#') ≡ false)

-- What a search asks for: the text, without blanks around it and in lower case, is the name alone, and
-- the number is 1, or it is the name, `#` and digits, and the number is what these read, but 1 when
-- they read 0.
abbrev pub Asks : List ℕ → List ℕ → ℕ → Type 0
Asks input name number =
    let text = trim_space (to_lower input) in
    NoSign name
    × (((text ≡ name) × (number ≡ 1))
        ⊎ ((digits : List ℕ) × (text ≡ name ++ b'#' ∷ digits)
            × (((0 < atoi digits) × (number ≡ atoi digits)) ⊎ ((atoi digits ≡ 0) × (number ≡ 1)))))

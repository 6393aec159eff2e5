-- ===== src/Matching.antt =====
-- internal/util/util.go: how a name that a user types finds one of several things. Texts are bytes, of
-- ASCII where `strings.ToLower` matters.
pub mod Picking
mod Tests
use go_mud.Prelude.{
  ℕ, zero, suc, ◌+◌, ◌-◌, Bool, true, false, ◌&&◌, ◌||◌, Option, none, some, List, [], ◌∷◌, ltb,
  ◌==◌, if◌then◌else◌,
}
use go_mud.Prelude.Bytes.{eq_bytes, starts_with, to_lower, trim_space, is_empty}
use go_mud.Prelude.Decimal.{atoi}

-- What stands before and after the first `#`.
unfoldable pub cut : List ℕ → Option (List ℕ × List ℕ)
cut [] = none
cut (b ∷ bs) =
    if b == b'#'
    then some ([], bs)
    else elim (cut bs) [ none ↦ none | some (before, after) ↦ some (b ∷ before, after) ]

-- A number that is negative or no number counts as 1, as 0 does.
unfoldable pub get_match_number : List ℕ → List ℕ × ℕ
get_match_number input =
    let text = trim_space (to_lower input) in
    elim (cut text) [
      | none ↦ (text, 1)
      | some (before, after) ↦ (before, if ltb (atoi after) 1 then 1 else atoi after)
    ]

-- `strings.Contains` of the second text
unfoldable pub occurs : List ℕ → List ℕ → Bool
occurs text [] = is_empty text
occurs text (b ∷ bs) = starts_with text (b ∷ bs) || occurs text bs

-- Whether there is a partial match and a full one.
unfoldable pub string_match : List ℕ → List ℕ → Bool → Bool × Bool
string_match search_for search_in allow_contains =
    let for_text = to_lower search_for in
    let in_text = to_lower search_in in
    if allow_contains && occurs for_text in_text
    then (true, eq_bytes in_text for_text)
    else if starts_with for_text in_text
    then (true, eq_bytes in_text for_text)
    else (false, false)

-- The first loop of `FindMatchIn`: the counts so far, and the matches.
unfoldable pub match_loop : List ℕ → ℕ → List (List ℕ) → ℕ → ℕ → List ℕ → List ℕ → List ℕ × List ℕ
match_loop name number [] match_ct close_ct match close = (match, close)
match_loop name number (i ∷ items) match_ct close_ct match close =
    let found = string_match name i false in
    let close_ct' = if found.0 then close_ct + 1 else close_ct in
    let close' = if found.0 && close_ct' == number then i else close in
    let match_ct' = if found.1 then match_ct + 1 else match_ct in
    let later = match_loop name number items match_ct' close_ct' match close' in
    if found.1 && match_ct' == number then (i, close') else later

-- The second loop, over the items that contain the name.
unfoldable pub contains_loop : List ℕ → ℕ → List (List ℕ) → ℕ → List ℕ → List ℕ
contains_loop name number [] close_ct close = close
contains_loop name number (i ∷ items) close_ct close =
    let found = (string_match name i true).0 in
    let close_ct' = if found then close_ct + 1 else close_ct in
    let later = contains_loop name number items close_ct' close in
    if found && close_ct' == number then i else later

-- The match and the close match; an empty text is none.
unfoldable pub find_match_in : List ℕ → List (List ℕ) → List ℕ × List ℕ
find_match_in search_name items =
    if is_empty search_name
    then ([], [])
    else let search = get_match_number search_name in
      let found = match_loop search.0 search.1 items 0 0 [] [] in
      (
        found.0,
        if is_empty found.1 then contains_loop search.0 search.1 items 0 found.1 else found.1,
      )

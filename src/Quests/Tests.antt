-- ===== src/Quests/Tests.antt =====
-- Quest progress at concrete tokens.
use go_mud.Prelude.{
  ℕ, suc, ◌≤◌, ◌≡◌, refl, arith, none, some, List, [], ◌∷◌, length, if◌then◌else◌, ◌==◌,
}
use go_mud.Prelude.Bytes.{split}
use go_mud.Prelude.Decimal.{atoi, scan_digits}
use go_mud.Quests.{
  Quest, Quests, Progress, start_step, end_step, token_to_parts, parts_to_token, of_token_parts,
}
use go_mud.Quests.Tokens.{token_to_parts-parts_to_token}
use go_mud.Quests.Forward.{IsTidy, IsProper}
use go_mud.Quests.Counted.{granted, granted_bound}

abbrev middle : List ℕ
middle = b'k' ∷ b'e' ∷ b'y' ∷ []

abbrev errand : Quest
errand = record { steps = start_step ∷ middle ∷ end_step ∷ [] }

abbrev quests : Quests
quests id = if 5 == id then some errand else none

abbrev no_progress : Progress
no_progress id = none

-- "5-start", "5-end" and "5-key"
abbrev five_start : List ℕ
five_start = b'5' ∷ b'-' ∷ start_step

abbrev five_end : List ℕ
five_end = b'5' ∷ b'-' ∷ end_step

abbrev five_key : List ℕ
five_key = b'5' ∷ b'-' ∷ middle

token_to_parts-parts_to_token_example : token_to_parts (parts_to_token 5 middle) ≡ (5, middle)
token_to_parts-parts_to_token_example =
    token_to_parts-parts_to_token 5 middle (omega arith) (refl, (refl, (refl, tt)))

errand-IsProper : IsProper errand
errand-IsProper = record {
  once = ((refl, (refl, tt)), ((refl, tt), (tt, tt)));
  named = (refl, (refl, (refl, tt)));
}

no_progress-IsTidy : IsTidy no_progress
no_progress-IsTidy = record { plain = λ id step e. absurd (cc) }

granted_bound_example :
    granted quests 5 (five_start ∷ five_end ∷ five_key ∷ []) no_progress ≤ suc (length errand.steps)
granted_bound_example =
    granted_bound quests 5 errand refl errand-IsProper (five_start ∷ five_end ∷ five_key ∷ [])
      no_progress no_progress-IsTidy refl

key_parts : token_to_parts five_key ≡ (5, middle)
unfolding token_to_parts of_token_parts atoi split scan_digits
key_parts = refl

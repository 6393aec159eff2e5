-- ===== src/Quests/Tokens.antt =====
-- internal/quests/quests.go: a token that is put together comes apart again.
use go_mud.Prelude.{ℕ, ◌+◌, ◌^◌, ◌<◌, ◌≡◌, refl, List, [], ◌∷◌, inl, inr, Bool-cases, ◌==◌, arith}
use go_mud.Prelude.Predicates.{All}
use go_mud.Prelude.Bytes.{split, onto_first, NoDash, split-last, split-part}
use go_mud.Prelude.Decimal.{atoi, print, atoi-print, All-print, print-append}
use go_mud.Quests.{start_step, of_token_parts, token_to_parts, parts_to_token}

digit-NoDash : (d : ℕ) → d < 10 → NoDash (48 + d)
digit-NoDash d h = ground arith

-- The number and the step of a token are those that it is made of, for a number below 2 ^ 63 and a step
-- without a dash.
pub token_to_parts-parts_to_token :
    (id : ℕ) (step : List ℕ)
    → id < 2 ^ 63
    → All NoDash step
    → token_to_parts (parts_to_token id step) ≡ (id, step)
unfolding token_to_parts parts_to_token of_token_parts
token_to_parts-parts_to_token id step h plain =
    rw
      (
        print-append id (b'-' ∷ step),
        split-part (print id []) step (All-print NoDash digit-NoDash id [] tt),
        split-last step plain,
        of_token_parts,
        atoi-print id h,
      )
      refl

onto_first-NoDash :
    (b : ℕ) (ps : List (List ℕ))
    → NoDash b
    → All (All NoDash) ps
    → All (All NoDash) (onto_first b ps)
onto_first-NoDash b [] h k = ((h, tt), tt)
onto_first-NoDash b (p ∷ ps) h k = ((h, k.0), k.1)

split-NoDash : (bs : List ℕ) → All (All NoDash) (split bs)
unfolding split
split-NoDash [] = (tt, tt)
split-NoDash (b ∷ bs) = elim (Bool-cases (b == b'-')) [
  | inl e ↦ rw e (tt, split-NoDash bs)
  | inr e ↦ rw e (onto_first-NoDash b (split bs) e (split-NoDash bs))
]

start_step-NoDash : All NoDash start_step
start_step-NoDash = (refl, (refl, (refl, (refl, (refl, tt)))))

of_token_parts-NoDash :
    (ps : List (List ℕ)) → All (All NoDash) ps → All NoDash (of_token_parts ps).1
unfolding of_token_parts
of_token_parts-NoDash [] h = start_step-NoDash
of_token_parts-NoDash (id ∷ []) h = start_step-NoDash
of_token_parts-NoDash (id ∷ step ∷ more) h = (h.1).0

pub token_to_parts-NoDash : (token : List ℕ) → All NoDash (token_to_parts token).1
unfolding token_to_parts
token_to_parts-NoDash token = of_token_parts-NoDash (split token) (split-NoDash token)

atoi_bound : (text : List ℕ) → atoi text < 2 ^ 63
unfolding atoi
atoi_bound text = ground arith

of_token_parts_bound : (ps : List (List ℕ)) → (of_token_parts ps).0 < 2 ^ 63
unfolding of_token_parts
of_token_parts_bound [] = omega arith
of_token_parts_bound (id ∷ []) = atoi_bound id
of_token_parts_bound (id ∷ step ∷ more) = atoi_bound id

pub token_to_parts_bound : (token : List ℕ) → (token_to_parts token).0 < 2 ^ 63
unfolding token_to_parts
token_to_parts_bound token = of_token_parts_bound (split token)

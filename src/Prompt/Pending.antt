-- ===== src/Prompt/Pending.antt =====
-- internal/prompt/prompt.go: the question that is asked is the one that is next.
use go_mud.Prelude.{
  ℕ, ◌-◌, ◌≡◌, refl, true, false, none, some, List, [], ◌∷◌, ◌++◌, length, length-append, inl, inr,
  Bool-cases, if◌then◌else◌, arith,
}
use go_mud.Prelude.Predicates.{All}
use go_mud.Prelude.Bytes.{is_empty}
use go_mud.Prompt.{
  Question, Prompt, question_at, named_options, new_question, ask, any_pending, get_next_question,
}

any_pending-append :
    (qs rs : List Question)
    → any_pending (qs ++ rs) ≡ (if any_pending qs then true else any_pending rs)
unfolding any_pending
any_pending-append [] rs = refl
any_pending-append (q ∷ qs) rs = ground (arith, any_pending-append qs rs)

next_is_last :
    (qs : List Question) (q : Question)
    → any_pending qs ≡ false
    → q.done ≡ false
    → (if any_pending (qs ++ q ∷ []) then some (length (qs ++ q ∷ []) - 1) else none)
      ≡ some (length qs)
unfolding any_pending
next_is_last qs q h d =
    ground (arith, any_pending-append qs (q ∷ []), length-append {A = Question} qs (q ∷ []))

named_options-named : (os : List (List ℕ)) → All (λ o. is_empty o ≡ false) (named_options os)
unfolding named_options
named_options-named [] = tt
named_options-named (o ∷ os) = elim (Bool-cases (is_empty o)) [
  | inl e ↦ rw e (named_options-named os)
  | inr e ↦ rw e (e, named_options-named os)
]

-- In a prompt whose questions are all done, a question with a text that was not asked before goes to the
-- end, with none of its options empty, and is the next question.
ask-get_next_question :
    (text : List ℕ) (options : List (List ℕ)) (default : List ℕ) (p : Prompt)
    → is_empty text ≡ false
    → any_pending p.questions ≡ false
    → question_at text p.questions 0 ≡ none
    → (get_next_question (ask text options default p).0 ≡ some (ask text options default p).1)
      × ((ask text options default p).1 ≡ length p.questions)
      × All (λ o. is_empty o ≡ false) (new_question text options default).options
unfolding get_next_question ask new_question any_pending
ask-get_next_question text options default p named all_done fresh = (
  rw (named, fresh, ask)
      (next_is_last p.questions
        (new_question (if is_empty text then b'?' ∷ [] else text) options default) all_done refl),
  rw (named, fresh, ask) refl,
  named_options-named options,
)

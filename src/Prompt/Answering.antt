-- ===== src/Prompt/Answering.antt =====
-- internal/prompt/prompt.go: an answer picks the option that it is closest to.
use go_mud.Prelude.{
  ℕ, ◌≤◌, ◌<◌, ◌≡◌, ◌≢◌, ◌⊎◌, inl, inr, refl, ap, sym, ◌∙◌, true, false, Option, none, some, List,
  [], ◌∷◌, length, ltb, ltb→lt, lt→ltb, arith, zero, suc, ◌==◌, take, Bool-cases, Option-cases,
}
use go_mud.Prelude.Predicates.{All, All-map}
use go_mud.Prelude.Bytes.{eq_bytes, eq_bytes_iff, to_lower, trim_space, is_empty}
use go_mud.Prompt.{Question, shared, closest, settle, choose, answer}

-- One of the options.
abbrev pub In : List ℕ → List (List ℕ) → Type 0
In o [] = ⊥
In o (p ∷ ps) = (p ≡ o) ⊎ In o ps

shared-le : (a b : List ℕ) → shared a b ≤ length b
shared-le [] b = omega arith
shared-le (x ∷ a) [] = omega arith
shared-le (x ∷ a) (y ∷ b) = ground (arith, shared-le a b)

shared_self : (a : List ℕ) → shared a a ≡ length a
shared_self [] = refl
shared_self (x ∷ a) = ground (arith, shared_self a)

-- What an option shares with an answer, in lower case.
abbrev pub near : List ℕ → List ℕ → ℕ
near test o = shared (to_lower o) test

-- No option is closer than `o`.
abbrev pub Closest : List ℕ → List ℕ → List (List ℕ) → Type 0
Closest test o = All (λ p. near test p ≤ near test o)

exact-Closest :
    (test o : List ℕ) (os : List (List ℕ)) → near test o ≡ length test → Closest test o os
exact-Closest test o [] h = tt
exact-Closest test o (p ∷ os) h =
    (omega (arith, shared-le (to_lower p) test), exact-Closest test o os h)

some_eq : (a b : List ℕ) → some a ≡ some b → a ≡ b
some_eq a b e = ap (λ o. elim o [ none ↦ a | some x ↦ x ]) e

-- The candidate so far, and what it shares.
record IsSoFar (test : List ℕ) (best : Option (List ℕ)) (len : ℕ) : Type 0 where
  shares : (b : List ℕ) → best ≡ some b → near test b ≡ len
  low : len ≤ length test

closer-IsSoFar : (test p : List ℕ) → IsSoFar test (some p) (near test p)
closer-IsSoFar test p = record {
  shares = λ b e. ap (near test) (sym (some_eq p b e));
  low = shared-le (to_lower p) test;
}

-- The option that is found is one of those, or the candidate, and none is closer.
record IsFound (test : List ℕ) (best : Option (List ℕ)) (len : ℕ) (os : List (List ℕ)) (o : List ℕ)
    : Type 0 where
  there : In o os ⊎ (best ≡ some o)
  nearest : Closest test o os
  least : len ≤ near test o

later_or_candidate :
    (p o : List ℕ) (os : List (List ℕ)) (best : Option (List ℕ))
    → In o os ⊎ (some p ≡ some o)
    → In o (p ∷ os) ⊎ (best ≡ some o)
later_or_candidate p o os best (inl i) = inl (inr i)
later_or_candidate p o os best (inr e) = inl (inl (some_eq p o e))

later_or_best :
    (p o : List ℕ) (os : List (List ℕ)) (best : Option (List ℕ))
    → In o os ⊎ (best ≡ some o)
    → In o (p ∷ os) ⊎ (best ≡ some o)
later_or_best p o os best (inl i) = inl (inr i)
later_or_best p o os best (inr e) = inr e

closest-IsFound :
    (test : List ℕ) (best : Option (List ℕ)) (len : ℕ) (os : List (List ℕ)) (o : List ℕ)
    → IsSoFar test best len
    → closest test best len os ≡ some o
    → IsFound test best len os o
unfolding closest
closest-IsFound test best len [] o c e = record {
  there = inr e;
  nearest = tt;
  least = omega (arith, c.shares o e);
}
closest-IsFound test best len (p ∷ os) o c e = elim (Bool-cases (eq_bytes (to_lower p) test)) [
  | inl g ↦
      let same = some_eq p o (rw (g, closest) at e) in
      let full : near test o ≡ length test =
        ap (near test) (sym same)
        ∙ ap (λ t. shared t test) ((eq_bytes_iff (to_lower p) test).0 g)
        ∙ shared_self test in
      record {
        there = inl (inl same);
        nearest = exact-Closest test o (p ∷ os) full;
        least = omega (arith, full, c.low);
      }
  | inr g ↦ elim (Bool-cases (ltb len (near test p))) [
    | inl k ↦
        let r =
          closest-IsFound test (some p) (near test p) os o (closer-IsSoFar test p)
            (rw (g, closest, k) at e) in
        record {
          there = later_or_candidate p o os best r.there;
          nearest = (r.least, r.nearest);
          least = omega (arith, r.least, ltb→lt len (near test p) k);
        }
    | inr k ↦
        let r = closest-IsFound test best len os o c (rw (g, closest, k) at e) in
        record {
          there = later_or_best p o os best r.there;
          nearest = (ground (arith, r.least), r.nearest);
          least = r.least;
        }
  ]
]

closest-some :
    (test b : List ℕ) (len : ℕ) (os : List (List ℕ)) → closest test (some b) len os ≢ none
unfolding closest
closest-some test b len [] e = cc
closest-some test b len (p ∷ os) e = elim (Bool-cases (eq_bytes (to_lower p) test)) [
  | inl g ↦ let o = rw (g, closest) at e in cc
  | inr g ↦ elim (Bool-cases (ltb len (near test p))) [
    | inl k ↦ closest-some test p (near test p) os (rw (g, closest, k) at e)
    | inr k ↦ closest-some test b len os (rw (g, closest, k) at e)
  ]
]

-- Where none is found no option shares more than the start.
closest-none :
    (test : List ℕ) (len : ℕ) (os : List (List ℕ))
    → closest test none len os ≡ none
    → All (λ p. near test p ≤ len) os
unfolding closest
closest-none test len [] e = tt
closest-none test len (p ∷ os) e = elim (Bool-cases (eq_bytes (to_lower p) test)) [
  | inl g ↦ absurd (let o = rw (g, closest) at e in cc)
  | inr g ↦ elim (Bool-cases (ltb len (near test p))) [
    | inl k ↦ absurd (closest-some test p (near test p) os (rw (g, closest, k) at e))
    | inr k ↦ (ground arith, closest-none test len os (rw (g, closest, k) at e))
  ]
]

among_them : (os : List (List ℕ)) (o : List ℕ) → In o os ⊎ (none ≡ some o) → In o os
among_them os o (inl i) = i
among_them os o (inr e) = absurd (cc)

In-named :
    (o : List ℕ) (os : List (List ℕ))
    → In o os
    → All (λ p. is_empty p ≡ false) os
    → is_empty o ≡ false
In-named o [] i named = absurd i
In-named o (p ∷ os) (inl e) named = ap is_empty (sym e) ∙ named.0
In-named o (p ∷ os) (inr i) named = In-named o os i named.1

-- Two texts begin with the same `k` bytes.
abbrev pub Alike : ℕ → List ℕ → List ℕ → Type 0
Alike k a b = (k ≤ length a) × (k ≤ length b) × (take k a ≡ take k b)

shared-Alike : (a b : List ℕ) (k : ℕ) → k ≤ shared a b → Alike k a b
shared-Alike a b zero h = (omega arith, omega arith, refl)
shared-Alike [] b (suc k) h = absurd (omega arith)
shared-Alike (x ∷ a) [] (suc k) h = absurd (omega arith)
shared-Alike (x ∷ a) (y ∷ b) (suc k) h = elim (Bool-cases (x == y)) [
  | inl e ↦
      let (la, lb, same) = shared-Alike a b k (omega (arith, rw e at h)) in
      (omega arith, omega arith, let first : x ≡ y = ground arith in cc)
  | inr e ↦ absurd (omega (arith, rw e at h))
]

tails : (x y : ℕ) (a b : List ℕ) → ◌≡◌ {A = List ℕ} (x ∷ a) (y ∷ b) → a ≡ b
tails x y a b h = cc

Alike-shared : (a b : List ℕ) (k : ℕ) → Alike k a b → k ≤ shared a b
Alike-shared a b zero h = omega arith
Alike-shared [] b (suc k) h = absurd (omega (arith, h.0))
Alike-shared (x ∷ a) [] (suc k) h = absurd (omega (arith, h.1))
Alike-shared (x ∷ a) (y ∷ b) (suc k) h =
    let same : x ≡ y = let e = h.2 in cc in
    let rest = Alike-shared a b k (omega (arith, h.0), omega (arith, h.1), tails x y _ _ h.2) in
    ground (arith, same, rest)

-- An option starts, in lower case, with the first `k` bytes of the answer, and neither is shorter.
abbrev pub Starts : ℕ → List ℕ → List ℕ → Type 0
Starts k test o = Alike k (to_lower o) test

-- Whatever an option has in common with the answer at the start, `o` has too.
abbrev pub Nearest : List ℕ → List ℕ → List (List ℕ) → Type 0
Nearest test o = All (λ p. (k : ℕ) → Starts k test p → Starts k test o)

Closest-Nearest : (test o : List ℕ) (os : List (List ℕ)) → Closest test o os → Nearest test o os
Closest-Nearest test o os = All-map _ _ os (λ p h k s.
    shared-Alike (to_lower o) test k (omega (arith, h, Alike-shared (to_lower p) test k s)))

none-Starts :
    (test : List ℕ) (os : List (List ℕ))
    → All (λ p. near test p ≤ 0) os
    → All (λ p. (k : ℕ) → Starts k test p → k ≡ 0) os
none-Starts test os =
    All-map _ _ os (λ p h k s. omega (arith, h, Alike-shared (to_lower p) test k s))

-- Where a question has at least two options, none of them empty, and the answer is not blank: either the
-- response becomes an option, which begins with any first bytes of the answer that some option begins
-- with, and the question is done; or no option begins with even one byte of the answer, and the question
-- stays as it was. Capital letters count as small ones.
pub answer-Nearest :
    (input : List ℕ) (q : Question)
    → 1 < length q.options
    → is_empty (trim_space input) ≡ false
    → All (λ o. is_empty o ≡ false) q.options
    → let test = to_lower (trim_space input) in
      ((o : List ℕ) × (answer input q ≡ record q { response = o; done = true })
        × In o q.options
        × Nearest test o q.options)
      ⊎ ((answer input q ≡ q) × All (λ p. (k : ℕ) → Starts k test p → k ≡ 0) q.options)
unfolding answer choose settle
answer-Nearest input q many full named =
    let test = to_lower (trim_space input) in
    elim (Option-cases (closest test none 0 q.options)) [
      | inl e ↦ inr (
        rw (full, answer, choose, lt→ltb 1 (length q.options) many, e) refl,
        none-Starts test q.options (closest-none test 0 q.options e),
      )
      | inr (o, e) ↦
          let r =
            closest-IsFound test none 0 q.options o
              (record { shares = λ b k. absurd (cc); low = omega arith }) e in
          let there = among_them q.options o r.there in
          inl (
            o,
            rw
                (
                  full,
                  answer,
                  choose,
                  lt→ltb 1 (length q.options) many,
                  e,
                  settle,
                  In-named o q.options there named,
                )
                refl,
            there,
            Closest-Nearest test o q.options r.nearest,
          )
    ]

-- ===== src/Events/Popping.antt =====
-- internal/events/events.go: the order in which entries are taken from the queue.
use mathlib.Core.List.{Perm}
use mathlib.Core.List.Perm
use go_mud.Prelude.{
  ◌≡◌, refl, Bool, true, false, List, [], ◌∷◌, if◌then◌else◌, length, arith, Bool-cases, inl, inr,
}
use go_mud.Prelude.Int.{◌==ℤ◌}
use go_mud.Prelude.Predicates.{All}
use go_mud.Events.{PrioritizedEvent, less, pop_least}

-- The first entry is not to be taken before the second.
abbrev pub NotLess : PrioritizedEvent → PrioritizedEvent → Type 0
NotLess a b = less a b ≡ false

less_trans : (a b c : PrioritizedEvent) → NotLess b a → NotLess c b → NotLess c a
unfolding less ◌==ℤ◌
less_trans a b c p q = ground arith

less_irrefl : (a : PrioritizedEvent) → NotLess a a
unfolding less ◌==ℤ◌
less_irrefl a = ground arith

less_asym : (a b : PrioritizedEvent) → less a b ≡ true → NotLess b a
unfolding less ◌==ℤ◌
less_asym a b p = ground arith

-- What is not below the lesser of two is below neither.
smaller_first : (x y m : PrioritizedEvent) → NotLess (if less y x then y else x) m → NotLess x m
smaller_first x y m p = elim (Bool-cases (less y x)) [
  | inl e ↦ less_trans m y x (rw e at p) (less_asym y x e)
  | inr e ↦ rw e at p
]

smaller_second :
    (x y m : PrioritizedEvent)
    → NotLess (if less y x then y else x) m
    → NotLess (if less y x then x else y) m
smaller_second x y m p = elim (Bool-cases (less y x)) [
  | inl e ↦ rw e (less_trans m y x (rw e at p) (less_asym y x e))
  | inr e ↦ rw e (less_trans m x y (rw e at p) e)
]

-- `heap.Pop` takes an entry that no other precedes, and keeps the others.
pub pop_least-All :
    (x : PrioritizedEvent) (l : List PrioritizedEvent)
    → let (m, r) = pop_least x l in NotLess x m × All (λ z. NotLess z m) r
unfolding pop_least
pop_least-All x [] = (less_irrefl x, tt)
pop_least-All x (y ∷ ys) =
    let (p, q) = pop_least-All (if less y x then y else x) ys in
    (smaller_first x y _ p, (smaller_second x y _ p, q))

pub pop_least-perm :
    (x : PrioritizedEvent) (l : List PrioritizedEvent)
    → Perm ((pop_least x l).0 ∷ (pop_least x l).1) (x ∷ l)
unfolding pop_least
pop_least-perm x [] = Perm.refl _
pop_least-perm x (y ∷ ys) = elim (Bool-cases (less y x)) [
  | inl e ↦ rw e (Perm.trans (Perm.swap _ _ _) (Perm.cons x (pop_least-perm y ys)))
  | inr e ↦ rw e (
      Perm.trans (Perm.swap _ _ _)
        (Perm.trans (Perm.cons y (pop_least-perm x ys)) (Perm.swap _ _ _)))
]

pub length-pop_least :
    (x : PrioritizedEvent) (l : List PrioritizedEvent) → length (pop_least x l).1 ≡ length l
unfolding pop_least
length-pop_least x [] = refl
length-pop_least x (y ∷ ys) = ground (arith, length-pop_least (if less y x then y else x) ys)

-- A predicate on every entry stays true of the entry that is taken and of the others.
pub pop_least-keeps {κ} :
    (P : PrioritizedEvent → Type κ) (x : PrioritizedEvent) (l : List PrioritizedEvent)
    → P x
    → All P l
    → let (m, r) = pop_least x l in P m × All P r
unfolding pop_least
pop_least-keeps P x [] p q = (p, tt)
pop_least-keeps P x (y ∷ ys) p q =
    let (a, b) = pop_least-keeps P (if less y x then y else x) ys (either (less y x) q.0 p) q.1 in
    (a, (either (less y x) p q.0, b))
  where
    either : {a b : PrioritizedEvent} (c : Bool) → P a → P b → P (if c then a else b)
    either true pa pb = pa
    either false pa pb = pb

-- ===== src/Cooldowns/Waiting.antt =====
-- internal/characters/cooldowns.go: how long a cooldown lasts.
use Prim.Native.String.{String}
use text.Mathlib.Text.{◌==◌ as str_eq}
use text.Mathlib.TextEquality.{eq_iff}
use go_mud.Prelude.{
  ℕ, zero, suc, ◌≡◌, ◌∙◌, ap, refl, true, false, some, ltb, arith, Bool-cases, Option-cases, inl,
  inr,
}
use go_mud.Prelude.Int.{ℤ, pos, ◌-ℤ◌, ltb_ℤ}
use go_mud.Cooldowns.{Cooldowns, round_tick, prune, set_rounds, rounds_of, try}

-- The rounds that pass.
pub ticks : ℕ → Cooldowns → Cooldowns
ticks zero cd = cd
ticks (suc k) cd = ticks k (round_tick cd)

module _ (add_period : String → ℕ → ℕ) where
  left_after :
      (k : ℕ) (cd : Cooldowns) (tag : String) (n : ℤ)
      → cd tag ≡ some n
      → ticks k cd tag ≡ some (n -ℤ pos k)
  unfolding ticks round_tick ◌-ℤ◌
  left_after zero cd tag n h = ground arith
  left_after (suc k) cd tag n h = ground (arith, left_after k (round_tick cd) tag (n -ℤ pos 1))

  try_succeeds :
      (tag period : String) (cd : Cooldowns)
      → ltb_ℤ (rounds_of add_period period) (pos 1) ≡ false
      → (try add_period tag period cd).1 ≡ true
      → (try add_period tag period cd).0 tag ≡ some (rounds_of add_period period)
  unfolding try set_rounds
  try_succeeds tag period cd long ok =
      let same : str_eq tag tag ≡ true = (eq_iff tag tag).1 refl in
      elim (Option-cases (prune cd tag)) [
        | inl f ↦ rw (long, f, try, set_rounds, same) refl
        | inr (v, f) ↦ elim (Bool-cases (ltb_ℤ (pos 0) v)) [
          | inl g ↦ absurd (let o = rw (long, f, g, try) at ok in cc)
          | inr g ↦ rw (long, f, g, try, set_rounds, same) refl
        ]
      ]

  -- After a try that succeeded with a period of n + 1 rounds, and k ticks, a try with any period of at
  -- least one round fails as long as k is at most n, and succeeds from then on.
  pub try-ticks :
      (tag period other : String) (cd : Cooldowns) (k n : ℕ)
      → rounds_of add_period period ≡ pos (suc n)
      → ltb_ℤ (rounds_of add_period other) (pos 1) ≡ false
      → (try add_period tag period cd).1 ≡ true
      → (try add_period tag other (ticks k (try add_period tag period cd).0)).1 ≡ ltb n k
  unfolding try prune ◌-ℤ◌
  try-ticks tag period other cd k n e long ok =
      let left = left_after k (try add_period tag period cd).0 tag (pos (suc n)) (kept e) in
      elim (Bool-cases (ltb n k)) [
        | inl f ↦ rw (long, left, try, prune) (ground arith)
        | inr f ↦ rw (long, left, try, prune) (ground arith)
      ]
    where
      kept :
          rounds_of add_period period ≡ pos (suc n)
          → (try add_period tag period cd).0 tag ≡ some (pos (suc n))
      kept e = try_succeeds tag period cd (rw e (ground arith)) ok ∙ ap (λ (v : ℤ). some v) e

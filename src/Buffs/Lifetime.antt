-- ===== src/Buffs/Lifetime.antt =====
-- internal/buffs/buffs.go, Trigger: how often a buff triggers, and when it expires.
use native.Mathlib.Numerals.{add-one}
use native.Mathlib.Nat.{div-add-mod, mod-lt, mod-eq_of_lt, mod-add-mod}
use go_mud.Prelude.{
  sym, ℕ, suc, zero, ◌+◌, ◌*◌, ◌/◌, ◌%◌, ◌≤◌, ◌<◌, ◌≡◌, ◌≢◌, arith, ◌==◌, if◌then◌else◌,
}
use go_mud.Buffs.{Buff, expired, triggers_left_unlimited}
use go_mud.Buffs.Rounds.{trigger_buff}

-- The buff after the given number of rounds, and how often it triggered in them.
pub rounds : ℕ → ℕ → Buff → Buff × ℕ
rounds interval zero b = (b, 0)
rounds interval (suc k) b =
    let (b', n) = rounds interval k b in
    let (b'', hit) = trigger_buff interval b' in (b'', if hit then n + 1 else n)

div_next : (k r : ℕ) → 0 < r → (k + 1) % r ≡ 0 → (k + 1) / r ≡ k / r + 1
div_next k r p h = grind (arith, div-add-mod (k + 1) r, div-add-mod k r, mod-lt k p)

div_same : (k r : ℕ) → 0 < r → (k + 1) % r ≢ 0 → (k + 1) / r ≡ k / r
div_same k r p h =
    grind (arith, div-add-mod (k + 1) r, div-add-mod k r, mod-lt k p, mod-lt (k + 1) p)

div_below : (k r c : ℕ) → 0 < r → k < c * r → k / r < c
div_below k r c p h = grind (arith, div-add-mod k r)

-- One more round.
round_step :
    (r c k : ℕ) (t : Buff) (n : ℕ)
    → 0 < r
    → c < triggers_left_unlimited
    → suc k ≤ c * r
    → (t.round_counter ≡ k) × (t.triggers_left + k / r ≡ c) × (n ≡ k / r)
    → let (t', hit) = trigger_buff r t in
      (t'.round_counter ≡ suc k)
      × (t'.triggers_left + suc k / r ≡ c)
      × ((if hit then n + 1 else n) ≡ suc k / r)
unfolding trigger_buff
round_step r c k t n p u h s =
    rw (← add-one k) (ground (arith, div_next k r p, div_same k r p, div_below k r c p))

rounds_state :
    (r c k : ℕ) (b : Buff)
    → 0 < r
    → c < triggers_left_unlimited
    → b.round_counter ≡ 0
    → b.triggers_left ≡ c
    → k ≤ c * r
    → let (t, n) = rounds r k b in
      (t.round_counter ≡ k) × (t.triggers_left + k / r ≡ c) × (n ≡ k / r)
unfolding rounds
rounds_state r c zero b p u z l h = omega arith
rounds_state r c (suc k) b p u z l h =
    round_step r c k (rounds r k b).0 (rounds r k b).1 p u (omega arith)
      (rounds_state r c k b p u z l (omega arith))

-- A whole number of intervals.
div_whole : (c r : ℕ) → 0 < r → (c * r) / r ≡ c
div_whole c r p = grind (arith, div-add-mod (c * r) r, mod-lt (c * r) p)

-- A buff whose round counter is 0, with c triggers left, c below the 1000000000 that stand for
-- unlimited ones, and an interval of r rounds, r above 0, has triggered k / r times after k rounds,
-- for each k up to c * r, and it is expired after exactly c * r rounds and not before.
pub rounds-expired :
    (r c k : ℕ) (b : Buff)
    → 0 < r
    → c < triggers_left_unlimited
    → b.round_counter ≡ 0
    → b.triggers_left ≡ c
    → k ≤ c * r
    → let (t, n) = rounds r k b in (n ≡ k / r) × (expired t ≡ (k == c * r))
unfolding expired
rounds-expired r c k b p u z l h =
    let (counted, left, n) = rounds_state r c k b p u z l h in
    (n, ground (arith, left, div_below k r c p, div_whole c r p))

mod_step : (m r : ℕ) → m < r → (m + 1) % r ≡ (if m + 1 == r then 0 else m + 1)
mod_step m r h = grind (arith, mod-eq_of_lt)

mod_next : (k r : ℕ) → 0 < r → (k + 1) % r ≡ (k % r + 1) % r
mod_next k r p = sym (mod-add-mod k r 1)

permanent_step :
    (r k : ℕ) (t : Buff) (n : ℕ)
    → 0 < r
    → (n ≡ k / r) × (t.triggers_left ≡ triggers_left_unlimited) × (t.round_counter ≡ k % r)
    → let (t', hit) = trigger_buff r t in
      ((if hit then n + 1 else n) ≡ suc k / r)
      × (t'.triggers_left ≡ triggers_left_unlimited)
      × (t'.round_counter ≡ suc k % r)
unfolding trigger_buff
permanent_step r k t n p s =
    rw (← add-one k) (
      ground
        (arith, mod_step (k % r) r, mod_next k r p, mod-lt k p, div_next k r p, div_same k r p))

-- A permanent buff with an interval of r rounds triggers k / r times in k rounds, for every k, and
-- never uses up a trigger; its round counter stays below r.
rounds_permanent :
    (r k : ℕ) (b : Buff)
    → 0 < r
    → b.round_counter ≡ 0
    → b.triggers_left ≡ triggers_left_unlimited
    → let (t, n) = rounds r k b in
      (n ≡ k / r) × (t.triggers_left ≡ triggers_left_unlimited) × (t.round_counter ≡ k % r)
unfolding rounds
rounds_permanent r zero b p z l = omega arith
rounds_permanent r (suc k) b p z l =
    permanent_step r k (rounds r k b).0 (rounds r k b).1 p (rounds_permanent r k b p z l)

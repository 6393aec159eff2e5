-- ===== src/Shop/Restocking.antt =====
-- internal/characters/shop.go, Restock: the loop over the periods that have passed ends, and how far
-- it moves the quantity.
use Prim.Native.String.{String}
use text.Mathlib.Text.{◌==◌ as str_eq}
use go_mud.Prelude.{
  ℕ, suc, zero, ◌+◌, ◌<◌, ◌≡◌, ◌⊎◌, refl, Bool, true, false, ◌||◌, some, leb, ◌==◌, arith,
  if◌then◌else◌, Bool-cases, inl, inr,
}
use go_mud.Prelude.Int.{ℤ, pos, ◌+ℤ◌, ◌-ℤ◌, ◌≤ℤ◌, ◌==ℤ◌}
use go_mud.Shop.{ShopItem, stock_temporary, stock_unlimited, adjust, restock_loop, restock_changed}

-- From q towards the maximum: up to it, or down to 0 for a temporary item, or not at all.
abbrev pub InRange : ℤ → ℤ → ℤ → Type 0
InRange max q r =
    ((q ≤ℤ r) × (r ≤ℤ max))
    ⊎ ((max ≡ stock_temporary) × (pos 0 ≤ℤ r) × (r ≤ℤ q))
    ⊎ ((max +ℤ pos 1 ≤ℤ q) × (r ≡ q))

adjust-InRange : (max q : ℤ) → pos 0 ≤ℤ q → InRange max q (adjust max q)
unfolding adjust ◌+ℤ◌ ◌-ℤ◌ ◌==ℤ◌
adjust-InRange max q h = ground arith

adjust-nonneg : (max q : ℤ) → pos 0 ≤ℤ q → pos 0 ≤ℤ adjust max q
unfolding adjust ◌+ℤ◌ ◌-ℤ◌ ◌==ℤ◌
adjust-nonneg max q h = ground arith

InRange-compose : (max q r s : ℤ) → InRange max q r → InRange max r s → InRange max q s
unfolding ◌+ℤ◌
InRange-compose max q r s h k = ground arith

module _ (add_period : String → ℕ → ℕ) (now : ℕ) (default_rate : String) where
  -- The rate that is used for an item.
  abbrev pub rate_of : ShopItem → String
  rate_of x = if str_eq x.restock_rate "" then default_rate else x.restock_rate

  -- The rate adds at least one round to any round.
  abbrev pub Grows : String → Type 0
  Grows rate = (r : ℕ) → r < add_period rate r

  loop_ends :
      (fuel : ℕ) (rate : String) (max : ℤ) (rnd : ℕ) (q : ℤ) (b : Bool)
      → Grows rate
      → 0 < fuel
      → now + 1 < rnd + fuel
      → pos 0 ≤ℤ q
      → (r : ℤ) × (c : Bool) × (restock_loop add_period now default_rate fuel rate max rnd q b
          ≡ some (r, c))
        × (pos 0 ≤ℤ r)
        × ((r ≡ q) ⊎ InRange max q r)
  unfolding restock_loop
  loop_ends zero rate max rnd q b grows some_fuel h n = absurd (omega arith)
  loop_ends (suc fuel) rate max rnd q b grows some_fuel h n = elim (Bool-cases (leb rnd now)) [
    | inr e ↦ rw (e, restock_loop) (q, b, refl, n, inl refl)
    | inl e ↦ elim (Bool-cases (max ==ℤ stock_unlimited || q ==ℤ max)) [
      | inl f ↦ rw (e, f, restock_loop) (q, true, refl, n, inl refl)
      | inr f ↦
          rw (e, f, restock_loop)
            (let (r, c, returns, m, range) =
                loop_ends fuel rate max (add_period rate rnd) (adjust max q) true grows
                  (ground arith) (ground (arith, grows rnd)) (adjust-nonneg max q n) in
              (r, c, returns, m, inr (joined r range)))
    ]
  ]
    where
      joined : (r : ℤ) → (r ≡ adjust max q) ⊎ InRange max (adjust max q) r → InRange max q r
      joined r (inl e) = rw e (adjust-InRange max q n)
      joined r (inr k) = InRange-compose max q (adjust max q) r (adjust-InRange max q n) k

  pub changed_ends :
      (fuel : ℕ) (x : ShopItem)
      → Grows (rate_of x)
      → now + 1 < fuel
      → pos 0 ≤ℤ x.quantity
      → (y : ShopItem) × (b : Bool) × (restock_changed add_period now default_rate fuel x
          ≡ some (y, b))
        × (pos 0 ≤ℤ y.quantity)
        × (y.quantity_max ≡ x.quantity_max)
        × (y.item_id ≡ x.item_id)
        × ((y.quantity ≡ x.quantity) ⊎ InRange x.quantity_max x.quantity y.quantity)
  unfolding restock_changed
  changed_ends fuel x grows enough n = elim (Bool-cases (x.last_restock_round == 0)) [
    | inl e ↦ rw (e, restock_changed) (_, _, refl, ground arith, refl, refl, ground arith)
    | inr e ↦
        let rate = rate_of x in
        let (r, c, returns, m, range) =
          loop_ends fuel rate x.quantity_max (add_period rate x.last_restock_round) x.quantity false
            grows (omega arith) (omega arith) n in
        rw (e, restock_changed, returns) (_, _, refl, m, refl, refl, range)
  ]

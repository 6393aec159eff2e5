-- ===== src/Shop/Endless.antt =====
-- internal/characters/shop.go, Restock: the loop over the periods does not end where a period adds no
-- round and the quantity can never reach the maximum.
use Prim.Native.String.{String}
use go_mud.Prelude.{
  ℕ, suc, zero, ◌≤◌, ◌<◌, ◌≡◌, ◌⊎◌, refl, true, false, ◌||◌, Bool, none, List, ◌∷◌, leb, ◌==◌,
  arith,
}
use go_mud.Prelude.Int.{ℤ, pos, ◌+ℤ◌, ◌-ℤ◌, ◌≤ℤ◌, ◌==ℤ◌}
use go_mud.Shop.{
  ShopItem, stock_temporary, stock_unlimited, adjust, restock_loop, restock_changed, restock_item,
  restock_all, restock,
}
use go_mud.Shop.Restocking.{rate_of}

-- The quantity never reaches the maximum: the item is temporary, or there is more of it than that.
abbrev pub NeverFull : ℤ → ℤ → Type 0
NeverFull max q = ((max ≡ stock_temporary) × (pos 0 ≤ℤ q)) ⊎ ((pos 1 ≤ℤ max) × (max +ℤ pos 1 ≤ℤ q))

NeverFull-adjust : (max q : ℤ) → NeverFull max q → NeverFull max (adjust max q)
unfolding adjust ◌+ℤ◌ ◌-ℤ◌ ◌==ℤ◌
NeverFull-adjust max q h = ground arith

not_full : (max q : ℤ) → NeverFull max q → (max ==ℤ stock_unlimited || q ==ℤ max) ≡ false
unfolding ◌+ℤ◌ ◌==ℤ◌
not_full max q h = ground arith

module _ (add_period : String → ℕ → ℕ) (now : ℕ) (default_rate : String) where
  loop_endless :
      (fuel : ℕ) (rate : String) (max : ℤ) (rnd : ℕ) (q : ℤ) (b : Bool)
      → add_period rate rnd ≡ rnd
      → rnd ≤ now
      → NeverFull max q
      → restock_loop add_period now default_rate fuel rate max rnd q b ≡ none
  unfolding restock_loop
  loop_endless zero rate max rnd q b stalled due h = refl
  loop_endless (suc fuel) rate max rnd q b stalled due h =
      let come : leb rnd now ≡ true = ground arith in
      rw (come, not_full max q h, stalled, restock_loop)
        (loop_endless fuel rate max rnd (adjust max q) true stalled due (NeverFull-adjust max q h))

  -- Where the rate of the first item, the default rate if it has none, adds no round to the round of
  -- its last restocking, which is above 0 and not later than now, and the item is temporary with a
  -- quantity that is not negative, or has a maximum above 0 and more than that, `Restock` never ends:
  -- no fuel is enough.
  pub restock_endless :
      (fuel : ℕ) (x : ShopItem) (s : List ShopItem)
      → add_period (rate_of add_period now default_rate x) x.last_restock_round
        ≡ x.last_restock_round
      → 0 < x.last_restock_round
      → x.last_restock_round ≤ now
      → NeverFull x.quantity_max x.quantity
      → restock add_period now default_rate fuel (x ∷ s) ≡ none
  unfolding restock restock_all restock_item restock_changed
  restock_endless fuel x s stalled old due h =
      let known : (x.last_restock_round == 0) ≡ false = ground arith in
      let endless =
        loop_endless fuel (rate_of add_period now default_rate x) x.quantity_max
          x.last_restock_round x.quantity false stalled due h in
      rw
        (
          not_full x.quantity_max x.quantity h,
          known,
          stalled,
          endless,
          restock,
          restock_all,
          restock_item,
          restock_changed,
        )
        refl

-- ===== src/Shop/Pruned.antt =====
-- internal/characters/shop.go, Restock of the whole shop.
use Prim.Native.String.{String}
use go_mud.Prelude.{ℕ, ◌<◌, ◌≡◌, ◌⊎◌, true, false, ◌&&◌, ◌||◌, List, [], ◌∷◌}
use go_mud.Prelude.Int.{pos, ◌≤ℤ◌, ◌==ℤ◌}
use go_mud.Shop.{ShopItem, stock_temporary, stock_unlimited}
use go_mud.Shop.Restocking.{InRange, rate_of}

-- An item that is unlimited, or has a quantity that is not negative and is not a sold out temporary.
abbrev pub IsStocked : ShopItem → Type 0
IsStocked x =
    ((x.quantity_max ==ℤ stock_unlimited) ≡ true)
    ⊎ ((pos 0 ≤ℤ x.quantity)
        × ((x.quantity_max ==ℤ stock_temporary && x.quantity ==ℤ pos 0) ≡ false))

-- An item before and after.
abbrev pub Moved : ShopItem → ShopItem → Type 0
Moved x y =
    (y.quantity_max ≡ x.quantity_max)
    × (y.item_id ≡ x.item_id)
    × ((y.quantity ≡ x.quantity) ⊎ InRange x.quantity_max x.quantity y.quantity)

-- The items in their order; only temporary ones go.
pub data Restocked : List ShopItem → List ShopItem → Type 0 where
  done : Restocked [] []
  kept :
      {s r : List ShopItem} {x y : ShopItem} → Moved x y → Restocked s r → Restocked (x ∷ s) (y ∷ r)
  gone :
      {s r : List ShopItem} {x : ShopItem}
      → x.quantity_max ≡ stock_temporary
      → Restocked s r
      → Restocked (x ∷ s) r

module _ (add_period : String → ℕ → ℕ) (now : ℕ) (default_rate : String) where
  -- The rate of the item, if `Restock` comes to use it, adds at least one round to any round.
  abbrev pub Paced : ShopItem → Type 0
  Paced x =
      ((x.quantity_max ==ℤ stock_unlimited || x.quantity ==ℤ x.quantity_max) ≡ true)
      ⊎ ((r : ℕ) → r < add_period (rate_of add_period now default_rate x) r)

-- ===== src/Shop/Tests.antt =====
-- Runs of internal/characters/shop.go, and the theorems at concrete shops.
use Prim.Native.String.{String}
use text.Mathlib.Text.{◌==◌ as str_eq}
use go_mud.Prelude.{
  none, if◌then◌else◌, ℕ, ◌+◌, ◌≡◌, refl, true, false, some, [], ◌∷◌, arith, inl, inr,
}
use go_mud.Prelude.Int.{pos, ◌+ℤ◌, ◌-ℤ◌, ◌==ℤ◌}
use go_mud.Prelude.Predicates.{All}
use go_mud.Shop.{
  ShopItem, stock_unlimited, stock_temporary, available, adjust, prune_marked, restock_loop,
  restock_changed, restock_item, restock_all, restock, stock_item, matches, destock,
}
use go_mud.Shop.Pruned.{IsStocked}
use go_mud.Shop.Endless.{restock_endless}
use go_mud.Shop.Selling.{first_match, destock-IsStocked}

abbrev ware : ShopItem
ware = record {
  mob_id = 0;
  item_id = 10;
  buff_id = 0;
  pet_type = "";
  quantity = pos 1;
  quantity_max = pos 5;
  price = pos 20;
  trade_item_id = 0;
  restock_rate = "";
  last_restock_round = 100;
}

abbrev leftover : ShopItem
leftover = record ware { item_id = 20; quantity_max = stock_temporary }

abbrev endless : ShopItem
endless = record ware { item_id = 30; quantity = pos 0; quantity_max = stock_unlimited }

-- No period adds nothing, and every other one is ten rounds.
abbrev ten_rounds : String → ℕ → ℕ
ten_rounds rate r = if str_eq rate "" then r else r + 10

-- At round 120 two periods have passed: the ware goes from 1 to 3, the leftover goes, and the flag
-- is false, although two items were restocked.
restocked_shop :
    restock ten_rounds 120 "10 rounds" 200 (ware ∷ leftover ∷ endless ∷ [])
    ≡ some (record ware { quantity = pos 3; last_restock_round = 120 } ∷ endless ∷ [], false)
unfolding restock restock_all restock_item restock_changed restock_loop adjust prune_marked ◌==ℤ◌
    ◌+ℤ◌ ◌-ℤ◌
restocked_shop = refl

destock-IsStocked_example :
    ((destock leftover (ware ∷ leftover ∷ [])).1 ≡ true)
    × All IsStocked (destock leftover (ware ∷ leftover ∷ [])).0
    × ((id : ℕ) → All IsStocked (stock_item ten_rounds 120 "10 rounds" id (ware ∷ leftover ∷ [])).0)
unfolding ◌==ℤ◌ first_match matches available
destock-IsStocked_example =
    destock-IsStocked ten_rounds 120 "10 rounds" leftover leftover (ware ∷ leftover ∷ [])
      (inr (omega arith, refl), (inr (omega arith, refl), tt)) refl refl

abbrev stalled : ShopItem
stalled = record leftover { restock_rate = "1 minute" }

-- With fewer than 1440 rounds in a day a minute adds none.
abbrev short_days : String → ℕ → ℕ
short_days rate r = if str_eq rate "1 minute" then r else r + 10

restock_endless_example : restock short_days 120 "10 rounds" 200 (stalled ∷ ware ∷ []) ≡ none
restock_endless_example =
    restock_endless short_days 120 "10 rounds" 200 stalled (ware ∷ []) refl (omega arith)
      (omega arith) (inl (refl, omega arith))

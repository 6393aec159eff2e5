-- ===== src/Shop.antt =====
-- internal/characters/shop.go: the stock of a shop. The round of a call, the default rate of the
-- configuration and `gametime.GetDate(round).AddPeriod(rate)` are parameters. Ids are numbers, and
-- quantities are integers: -1 is the maximum of a temporary item, 0 that of an unlimited one.
pub mod Restocking
pub mod Pruned
pub mod Selling
pub mod Endless
mod Tests
use Prim.Native.String.{String}
use text.Mathlib.Text.{◌==◌ as str_eq}
use go_mud.Prelude.{
  ℕ, zero, suc, ◌+◌, Bool, true, false, ◌&&◌, ◌||◌, Option, none, some, List, [], ◌∷◌, ◌++◌, leb,
  ◌==◌, if◌then◌else◌,
}
use go_mud.Prelude.Int.{ℤ, pos, negsuc, ◌+ℤ◌, ◌-ℤ◌, ltb_ℤ, ◌==ℤ◌}

abbrev pub stock_temporary : ℤ
stock_temporary = negsuc 0

abbrev pub stock_unlimited : ℤ
stock_unlimited = pos 0

pub record ShopItem : Type 0 where
  pub mob_id : ℕ
  pub item_id : ℕ
  pub buff_id : ℕ
  pub pet_type : String
  pub quantity : ℤ
  pub quantity_max : ℤ
  pub price : ℤ
  pub trade_item_id : ℕ
  pub restock_rate : String
  pub last_restock_round : ℕ

pub available : ShopItem → Bool
available si = ltb_ℤ (pos 0) si.quantity || si.quantity_max ==ℤ stock_unlimited

pub get_instock : List ShopItem → List ShopItem
unfolding available
get_instock [] = []
get_instock (x ∷ s) = if available x then x ∷ get_instock s else get_instock s

-- One round of `for roundNow >= restockRnd` past its two breaks: the quantity.
pub adjust : ℤ → ℤ → ℤ
adjust max q =
    if ltb_ℤ q max
    then q +ℤ pos 1
    else if max ==ℤ stock_temporary && ltb_ℤ (pos 0) q
    then q -ℤ pos 1
    else q

-- `for i := len(prune)-1; ...; s = append(s[:i], s[i+1:]...)` takes away the marked ones.
pub prune_marked : List (ShopItem × Bool) → List ShopItem
prune_marked [] = []
prune_marked ((x, mark) ∷ s) = if mark then prune_marked s else x ∷ prune_marked s

module _ (add_period : String → ℕ → ℕ) (now : ℕ) (default_rate : String) where
  -- The loop: the quantity after it and whether it ran; `none` when the fuel is used up.
  pub restock_loop : ℕ → String → ℤ → ℕ → ℤ → Bool → Option (ℤ × Bool)
  restock_loop zero rate max rnd q restocked = none
  restock_loop (suc fuel) rate max rnd q restocked = elim (leb rnd now) [
    | false ↦ some (q, restocked)
    | true ↦ elim (max ==ℤ stock_unlimited || q ==ℤ max) [
      | true ↦ some (q, true)
      | false ↦ restock_loop fuel rate max (add_period rate rnd) (adjust max q) true
    ]
  ]

  -- The body of the outer loop past its two `continue`s: the item, and whether it was restocked.
  pub restock_changed : ℕ → ShopItem → Option (ShopItem × Bool)
  restock_changed fuel x =
      let rate = if str_eq x.restock_rate "" then default_rate else x.restock_rate in
      let first =
        some (if ltb_ℤ x.quantity x.quantity_max then x.quantity_max else x.quantity, true) in
      let result =
        if x.last_restock_round == 0
        then first
        else restock_loop fuel rate x.quantity_max (add_period rate x.last_restock_round) x.quantity
            false in
      elim result [
        | none ↦ none
        | some (q, restocked) ↦ some (
          record x {
            quantity = q;
            last_restock_round = if restocked then now else x.last_restock_round;
          },
          restocked,
        )
      ]

  -- One item of the outer loop: the item, whether it was restocked, and whether it is pruned.
  pub restock_item : ℕ → ShopItem → Option (ShopItem × Bool × Bool)
  restock_item fuel x =
      if x.quantity_max ==ℤ stock_unlimited || x.quantity ==ℤ x.quantity_max
      then some (x, false, false)
      else elim (restock_changed fuel x) [
        | none ↦ none
        | some (y, restocked) ↦
            some (y, restocked, y.quantity_max ==ℤ stock_temporary && y.quantity ==ℤ pos 0)
      ]

  -- The outer loop, with the flag of the item before: the marked items and the last flag.
  pub restock_all : ℕ → List ShopItem → Bool → Option (List (ShopItem × Bool) × Bool)
  restock_all fuel [] restocked = some ([], restocked)
  restock_all fuel (x ∷ s) restocked = elim (restock_item fuel x) [
    | none ↦ none
    | some (y, changed, mark) ↦ elim (restock_all fuel s changed) [
      | none ↦ none
      | some (marked, last) ↦ some ((y, mark) ∷ marked, last)
    ]
  ]

  pub restock : ℕ → List ShopItem → Option (List ShopItem × Bool)
  restock fuel s = elim (restock_all fuel s false) [
    | none ↦ none
    | some (marked, last) ↦ some (prune_marked marked, last)
  ]

  pub stock_item : ℕ → List ShopItem → List ShopItem × Bool
  stock_item id [] = (
    record {
      mob_id = 0;
      item_id = id;
      buff_id = 0;
      pet_type = "";
      quantity = pos 1;
      quantity_max = stock_temporary;
      price = pos 0;
      trade_item_id = 0;
      restock_rate = "";
      last_restock_round = now;
    }
        ∷ [],
    true,
  )
  stock_item id (x ∷ s) =
      if x.item_id == id
      then (record x { quantity = x.quantity +ℤ pos 1 } ∷ s, true)
      else (x ∷ (stock_item id s).0, true)

-- The `continue`s of `Destock`.
pub matches : ShopItem → ShopItem → Bool
matches x si = x.item_id == si.item_id && x.mob_id == si.mob_id && x.buff_id == si.buff_id

-- One less of the item in front, which goes when it was the last of a temporary one.
pub take_one : ShopItem → List ShopItem → List ShopItem
take_one x s =
    let q = x.quantity -ℤ pos 1 in
    if q ==ℤ pos 0 && x.quantity_max ==ℤ stock_temporary then s else record x { quantity = q } ∷ s

pub destock : ShopItem → List ShopItem → List ShopItem × Bool
destock si [] = ([], false)
destock si (x ∷ s) =
    let (rest, found) = destock si s in
    if matches x si
    then if x.quantity_max ==ℤ stock_unlimited then (x ∷ s, true) else (take_one x s, true)
    else (x ∷ rest, found)

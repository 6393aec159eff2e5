-- ===== src/Shop/Selling.antt =====
-- internal/characters/shop.go: what the flag of Restock says, and the stock when items come and go.
use Prim.Native.String.{String}
use go_mud.Prelude.{
  ℕ, ◌≡◌, ◌≢◌, refl, Bool, true, false, ◌&&◌, Option, none, some, List, [], ◌∷◌, ◌++◌, ◌==◌, arith,
  if◌then◌else◌, Bool-cases, Option-cases, inl, inr,
}
use go_mud.Prelude.Int.{pos, ◌+ℤ◌, ◌-ℤ◌, ◌==ℤ◌}
use go_mud.Prelude.Predicates.{All}
use go_mud.Shop.{
  ShopItem, stock_temporary, stock_unlimited, available, restock_item, restock_all, restock,
  stock_item, matches, destock, take_one,
}
use go_mud.Shop.Pruned.{IsStocked}

module _ (add_period : String → ℕ → ℕ) (now : ℕ) (default_rate : String) where
  last_flag :
      (fuel : ℕ) (s : List ShopItem) (x : ShopItem) (b last : Bool)
      (marked : List (ShopItem × Bool))
      → (x.quantity_max ==ℤ stock_unlimited) ≡ true
      → restock_all add_period now default_rate fuel (s ++ x ∷ []) b ≡ some (marked, last)
      → last ≡ false
  unfolding restock_all restock_item
  last_flag fuel [] x b last marked unlimited h =
      let g = rw (unlimited, restock_item, restock_all) at h in cc
  last_flag fuel (y ∷ s) x b last marked unlimited h =
      elim (Option-cases (restock_item add_period now default_rate fuel y)) [
        | inl e ↦ absurd (let g = rw (e, restock_all) at h in cc)
        | inr ((z, changed, mark), e) ↦
            elim (Option-cases
              (restock_all add_period now default_rate fuel (s ++ x ∷ []) changed)) [
                | inl f ↦ absurd (let g = rw (e, f, restock_all) at h in cc)
                | inr ((rest, flag), f) ↦
                    let g = rw (e, f, restock_all) at h in
                    let k = last_flag fuel s x changed flag rest unlimited f in cc
              ]
      ]

  -- `Restock` of a shop whose last item is unlimited never returns true, whatever it restocks.
  restock-unlimited_last :
      (fuel : ℕ) (s : List ShopItem) (x : ShopItem) (r : List ShopItem)
      → (x.quantity_max ==ℤ stock_unlimited) ≡ true
      → restock add_period now default_rate fuel (s ++ x ∷ []) ≢ some (r, true)
  unfolding restock
  restock-unlimited_last fuel s x r unlimited h =
      elim (Option-cases (restock_all add_period now default_rate fuel (s ++ x ∷ []) false)) [
        | inl e ↦ absurd (let g = rw (e, restock) at h in cc)
        | inr ((marked, flag), e) ↦
            let g = rw (e, restock) at h in
            let k = last_flag fuel s x false flag marked unlimited e in absurd (cc)
      ]

  more : (x : ShopItem) → IsStocked x → IsStocked (record x { quantity = x.quantity +ℤ pos 1 })
  unfolding ◌+ℤ◌ ◌==ℤ◌
  more x h = ground arith

  stock_item-IsStocked :
      (id : ℕ) (s : List ShopItem)
      → All IsStocked s
      → All IsStocked (stock_item add_period now default_rate id s).0
  unfolding stock_item ◌==ℤ◌
  stock_item-IsStocked id [] v = (inr (ground arith, ground arith), tt)
  stock_item-IsStocked id (x ∷ s) v = elim (Bool-cases (x.item_id == id)) [
    | inl e ↦ rw (e, stock_item) (more x v.0, v.1)
    | inr e ↦ rw (e, stock_item) (v.0, stock_item-IsStocked id s v.1)
  ]

  -- The item that a sale takes.
  unfoldable pub first_match : ShopItem → List ShopItem → Option ShopItem
  first_match si [] = none
  first_match si (x ∷ s) = if matches x si then some x else first_match si s

  take_one-IsStocked :
      (x : ShopItem) (s : List ShopItem)
      → (x.quantity_max ==ℤ stock_unlimited) ≡ false
      → available x ≡ true
      → IsStocked x
      → All IsStocked s
      → All IsStocked (take_one x s)
  unfolding take_one available ◌-ℤ◌ ◌==ℤ◌
  take_one-IsStocked x s e a v w =
      elim (Bool-cases (x.quantity -ℤ pos 1 ==ℤ pos 0 && x.quantity_max ==ℤ stock_temporary)) [
        | inl f ↦ rw (f, take_one) w
        | inr f ↦ rw (f, take_one) (inr (ground arith, ground arith), w)
      ]

  -- A sale of an item that is available succeeds, and then, as before it, no quantity of a limited
  -- item is negative and no temporary item is sold out. The same holds after stocking any item.
  pub destock-IsStocked :
      (si x : ShopItem) (s : List ShopItem)
      → All IsStocked s
      → first_match si s ≡ some x
      → available x ≡ true
      → ((destock si s).1 ≡ true)
        × All IsStocked (destock si s).0
        × ((id : ℕ) → All IsStocked (stock_item add_period now default_rate id s).0)
  unfolding destock first_match
  destock-IsStocked si x [] v e a = absurd (cc)
  destock-IsStocked si x (y ∷ s) v e a = elim (Bool-cases (matches y si)) [
    | inr f ↦
        let (found, kept, stocked) = destock-IsStocked si x s v.1 (rw (f, first_match) at e) a in
        rw (f, destock) (found, (v.0, kept), λ id. stock_item-IsStocked id (y ∷ s) v)
    | inl f ↦
        let g = rw (f, first_match) at e in
        let b : available y ≡ true = cc in
        elim (Bool-cases (y.quantity_max ==ℤ stock_unlimited)) [
          | inl u ↦ rw (f, u, destock) (refl, v, λ id. stock_item-IsStocked id (y ∷ s) v)
          | inr u ↦
              rw (f, u, destock)
                (refl, take_one-IsStocked y s u b v.0 v.1, λ id. stock_item-IsStocked id (y ∷ s) v)
        ]
  ]

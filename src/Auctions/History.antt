-- ===== src/Auctions/History.antt =====
-- modules/auctions/auctions.go: the history of the auctions, and the slice that a caller gets.
use go_mud.Prelude.{
  ℕ, suc, zero, ◌+◌, ◌-◌, ◌<◌, ◌≤◌, ◌≡◌, ◌↔◌, ◌∙◌, sym, ap, refl, true, none, some, List, [], ◌∷◌,
  ◌++◌, ltb, arith, if◌then◌else◌, Bool-cases, inl, inr, length, drop, take, length-append,
}
use go_mud.Prelude.Int.{pos}
use go_mud.Auctions.{PastAuctionItem, AuctionManager, shrink, get_auction_history}

pub shrink_lem : (max : ℕ) (l : List PastAuctionItem) → shrink max l ≡ drop (length l - max) l
unfolding shrink
shrink_lem max [] = ground arith
shrink_lem max (x ∷ xs) = elim (Bool-cases (ltb max (length (x ∷ xs)))) [
  | inl e ↦ rw (e, shrink) (shrink_lem max xs ∙ sym (step _ (ground arith)))
  | inr e ↦ rw (e, shrink) (sym (none_dropped _ (ground arith)))
]
  where
    step : (k : ℕ) → k ≡ suc (length xs - max) → drop k (x ∷ xs) ≡ drop (length xs - max) xs
    step k h = rw h refl

    none_dropped : (k : ℕ) → k ≡ 0 → drop k (x ∷ xs) ≡ x ∷ xs
    none_dropped k h = rw h refl

pub shrink-append :
    (max : ℕ) (l : List PastAuctionItem) (x : PastAuctionItem)
    → shrink max (shrink max l ++ x ∷ []) ≡ shrink max (l ++ x ∷ [])
unfolding shrink
shrink-append max [] x = refl
shrink-append max (y ∷ l) x = elim (Bool-cases (ltb max (length (y ∷ l)))) [
  | inl e ↦
      let longer : ltb max (length (y ∷ l ++ x ∷ [])) ≡ true =
        ground (arith, length-append {0} l (x ∷ [])) in
      rw (e, shrink, longer) (shrink-append max l x)
  | inr e ↦ rw (e, shrink) refl
]

take_all : (l : List PastAuctionItem) (k : ℕ) → length l ≤ k → take k l ≡ l
take_all [] zero h = refl
take_all [] (suc k) h = refl
take_all (x ∷ xs) zero h = absurd (omega arith)
take_all (x ∷ xs) (suc k) h = ap (λ r. x ∷ r) (take_all xs k (omega arith))

no_drop : (l : List PastAuctionItem) (k : ℕ) → k ≡ 0 → drop k l ≡ l
no_drop l k h = rw h refl

window :
    (l : List PastAuctionItem) (t : ℕ)
    → t ≡ length l
    → take (t - (length l - t)) (drop (length l - t) l) ≡ l
window l t h = rw (no_drop l (length l - t) (omega arith)) (take_all l _ (omega arith))

-- `GetAuctionHistory` of a positive number panics exactly when that number is below half of the
-- history: then the slice ends before it begins. It gives the last entries that were asked for, as
-- it means to, when all of the history is asked for, or more.
pub get_auction_history_panics :
    {Item : Type 0} (k : ℕ) (am : AuctionManager Item)
    → ((get_auction_history (pos (suc k)) am ≡ none) ↔ (suc k + suc k < length am.past_auctions))
      × (length am.past_auctions ≤ suc k
          → get_auction_history (pos (suc k)) am ≡ some am.past_auctions)
unfolding get_auction_history
get_auction_history_panics k am = (
  ground arith,
  λ h. ground (
    arith,
    window am.past_auctions
        (if ltb (length am.past_auctions) (suc k) then length am.past_auctions else suc k),
  ),
)

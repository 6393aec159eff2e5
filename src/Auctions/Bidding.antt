-- ===== src/Auctions/Bidding.antt =====
-- modules/auctions/auctions.go: what holds after any calls of the auction manager.
use Prim.Native.String.{String}
use go_mud.Prelude.{
  ℕ, suc, zero, ◌-◌, ◌≡◌, ◌||◌, ◌⊎◌, ◌≢◌, ◌∙◌, sym, ap, refl, Bool, false, Option, none, some, List,
  [], ◌∷◌, ◌++◌, ◌==◌, arith, if◌then◌else◌, Bool-cases, Option-cases, inl, inr, length, drop,
}
use go_mud.Prelude.Int.{ℤ, pos, ◌+ℤ◌, ◌≤ℤ◌, ltb_ℤ}
use mathlib.Core.List.{append-nil}
use go_mud.Auctions.{
  AuctionItem, PastAuctionItem, AuctionManager, shrink, start_auction, bid, past_item, end_auction,
}
use go_mud.Prelude.Predicates.{All, All-append}
use go_mud.Auctions.History.{shrink_lem, shrink-append}

abbrev pub IsOffered : {Item : Type 0} → AuctionItem Item → Type 0
IsOffered a =
    ((a.highest_bid_user_id ≡ 0) × (a.highest_bid ≡ pos 0))
    ⊎ ((a.highest_bid_user_id ≢ 0) × (pos 1 ≤ℤ a.highest_bid) × (a.minimum_bid ≤ℤ a.highest_bid))

abbrev pub IsSound : {Item : Type 0} → Option (AuctionItem Item) → Type 0
IsSound none = Unit {0}
IsSound (some a) = IsOffered a

-- What the sold items of the history are, and that it holds the last of them.
pub record IsValid {Item : Type 0} (am : AuctionManager Item) (sold : List PastAuctionItem)
    : Type 0 where
  pub sound : IsSound am.active_auction
  pub history : am.past_auctions ≡ shrink am.max_history_items sold
  pub paid : All (λ p. pos 1 ≤ℤ p.winning_bid) sold

named :
    (name_of : ℕ → Option String) (nobody : name_of 0 ≡ none) (u : ℕ) (name : String)
    → name_of u ≡ some name
    → u ≢ 0
named name_of nobody zero name h = absurd (cc)
named name_of nobody (suc u) name h = λ e. omega arith

module _ {Item : Type 0} (name_of : ℕ → Option String) (nobody : name_of 0 ≡ none) where
  accepted :
      (n : ℤ) (a : AuctionItem Item)
      → IsOffered a
      → (ltb_ℤ n a.minimum_bid || ltb_ℤ n (a.highest_bid +ℤ pos 1)) ≡ false
      → (pos 1 ≤ℤ n) × (a.minimum_bid ≤ℤ n)
  unfolding ◌+ℤ◌
  accepted n a v h = ground arith

  bid-IsSound :
      (u : ℕ) (n : ℤ) (am : AuctionManager Item)
      → IsSound am.active_auction
      → IsSound (bid name_of u n am).0.active_auction
  unfolding bid ◌+ℤ◌
  bid-IsSound u n am v = elim (Option-cases am.active_auction) [
    | inl e ↦ rw (e, bid) v
    | inr (a, e) ↦ elim (Bool-cases (a.highest_bid_user_id == u)) [
      | inl f ↦ rw (e, f, bid) v
      | inr f ↦ elim (Bool-cases (ltb_ℤ n a.minimum_bid || ltb_ℤ n (a.highest_bid +ℤ pos 1))) [
        | inl g ↦ rw (e, f, g, bid) v
        | inr g ↦ elim (Option-cases (name_of u)) [
          | inl k ↦ rw (e, f, g, k, bid) v
          | inr (name, k) ↦
              rw (e, f, g, k, bid)
                (let (x, y) = accepted n a (rw e at v) g in
                  inr (named name_of nobody u name k, x, y))
        ]
      ]
    ]
  ]

  start_auction-IsValid :
      (now : ℕ) (item : Item) (u : ℕ) (minimum : ℤ) (seconds : ℕ) (anon : Bool)
      (am : AuctionManager Item) (sold : List PastAuctionItem)
      → IsValid am sold
      → IsValid (start_auction name_of now item u minimum seconds anon am).0 sold
  unfolding start_auction
  start_auction-IsValid now item u minimum seconds anon am sold v =
      elim (Option-cases am.active_auction) [
        | inr (a, e) ↦ rw (e, start_auction) v
        | inl e ↦ elim (Option-cases (name_of u)) [
          | inl f ↦ rw (e, f, start_auction) v
          | inr (name, f) ↦
              rw (e, f, start_auction)
                (record { sound = inl (refl, refl); history = v.history; paid = v.paid })
        ]
      ]

  bid-history :
      (u : ℕ) (n : ℤ) (am : AuctionManager Item)
      → (bid name_of u n am).0.past_auctions ≡ am.past_auctions
  unfolding bid
  bid-history u n am = ground arith

  bid-max :
      (u : ℕ) (n : ℤ) (am : AuctionManager Item)
      → (bid name_of u n am).0.max_history_items ≡ am.max_history_items
  unfolding bid
  bid-max u n am = ground arith

  bid-IsValid :
      (u : ℕ) (n : ℤ) (am : AuctionManager Item) (sold : List PastAuctionItem)
      → IsValid am sold
      → IsValid (bid name_of u n am).0 sold
  bid-IsValid u n am sold v = record {
    sound = bid-IsSound u n am v.sound;
    history = bid-history u n am ∙ v.history ∙ ap (λ k. shrink k sold) (sym (bid-max u n am));
    paid = v.paid;
  }

module _ {Item : Type 0} (name_complex : Item → String) where
  -- What the end of the auction sells: nothing where nobody has bid.
  pub sale : AuctionManager Item → List PastAuctionItem
  sale am = elim am.active_auction [
    | none ↦ []
    | some a ↦ if a.highest_bid_user_id == 0 then [] else past_item name_complex a ∷ []
  ]

  -- The calls of the manager from its start, with all the items sold so far. Each call has the users
  -- that are online at its time; user 0 is never one of them.
  pub data Reach (max : ℕ) : AuctionManager Item → List PastAuctionItem → Type 0 where
    start :
        Reach max (record { active_auction = none; max_history_items = max; past_auctions = [] }) []
    open_auction :
        {am : AuctionManager Item} {sold : List PastAuctionItem} (name_of : ℕ → Option String)
        (now : ℕ) (item : Item) (u : ℕ) (minimum : ℤ) (seconds : ℕ) (anon : Bool)
        → name_of 0 ≡ none
        → Reach max am sold
        → Reach max (start_auction name_of now item u minimum seconds anon am).0 sold
    offer :
        {am : AuctionManager Item} {sold : List PastAuctionItem} (name_of : ℕ → Option String)
        (u : ℕ) (n : ℤ)
        → name_of 0 ≡ none
        → Reach max am sold
        → Reach max (bid name_of u n am).0 sold
    close :
        {am : AuctionManager Item} {sold : List PastAuctionItem}
        → Reach max am sold
        → Reach max (end_auction name_complex am) (sold ++ sale am)

  was_paid :
      (a : AuctionItem Item)
      → IsOffered a
      → (a.highest_bid_user_id == 0) ≡ false
      → pos 1 ≤ℤ a.highest_bid
  was_paid a v h = ground arith

  end_auction-IsValid :
      (am : AuctionManager Item) (sold : List PastAuctionItem)
      → IsValid am sold
      → IsValid (end_auction name_complex am) (sold ++ sale am)
  unfolding end_auction past_item sale
  end_auction-IsValid am sold v = elim (Option-cases am.active_auction) [
    | inl e ↦ rw (e, end_auction, sale, append-nil) v
    | inr (a, e) ↦ elim (Bool-cases (a.highest_bid_user_id == 0)) [
      | inl f ↦
          rw (e, f, end_auction, sale, append-nil)
            (record { sound = tt; history = v.history; paid = v.paid })
      | inr f ↦
          rw (e, f, end_auction, sale)
            (record {
              sound = tt;
              history = rw v.history (shrink-append am.max_history_items sold _);
              paid = All-append _ sold _ v.paid (was_paid a (rw e at v.sound) f, tt);
            })
    ]
  ]

  Reach-IsValid :
      {max : ℕ} {am : AuctionManager Item} {sold : List PastAuctionItem}
      → Reach max am sold
      → IsValid am sold
  unfolding shrink
  Reach-IsValid start = record { sound = tt; history = refl; paid = tt }
  Reach-IsValid (open_auction name_of now item u m s anon nobody r) =
      start_auction-IsValid name_of nobody now item u m s anon _ _ (Reach-IsValid r)
  Reach-IsValid (offer name_of u n nobody r) = bid-IsValid name_of nobody u n _ _ (Reach-IsValid r)
  Reach-IsValid (close r) = end_auction-IsValid _ _ (Reach-IsValid r)

  -- After any calls of the manager, with any users online at each of them but never a user 0: the bid of the running auction is 0
  -- as long as nobody has bid, and else a real user's bid, positive and not below the minimum.
  -- The history holds the last `max` items that were ever sold, in their order, and each was sold
  -- for at least one piece of gold.
  pub Reach-history :
      {max : ℕ} {am : AuctionManager Item} {sold : List PastAuctionItem}
      → Reach max am sold
      → IsSound am.active_auction
        × (am.past_auctions ≡ drop (length sold - am.max_history_items) sold)
        × All (λ p. pos 1 ≤ℤ p.winning_bid) sold
  Reach-history r = let v = Reach-IsValid r in (v.sound, v.history ∙ shrink_lem _ _, v.paid)

-- A bid that is accepted is above the bid before it and not below the minimum, comes from another
-- user than that bid and from one that is online, and changes nothing else of the auction. A bid
-- that is refused changes nothing.
bid-raises :
    {Item : Type 0} (name_of : ℕ → Option String) (u : ℕ) (n : ℤ) (a : AuctionItem Item)
    (am : AuctionManager Item)
    → am.active_auction ≡ some a
    → let (am', refused) = bid name_of u n am in
      (((name : String) × (refused ≡ none)
          × (name_of u ≡ some name)
          × (a.highest_bid +ℤ pos 1 ≤ℤ n)
          × (a.minimum_bid ≤ℤ n)
          × (a.highest_bid_user_id ≢ u)
          × (am'.active_auction
              ≡ some (record a {
                highest_bid = n;
                highest_bid_user_id = u;
                highest_bidder_name = name;
              })))
        ⊎ ((refused ≢ none) × (am'.active_auction ≡ some a)))
      × (am'.past_auctions ≡ am.past_auctions)
      × (am'.max_history_items ≡ am.max_history_items)
unfolding bid
bid-raises name_of u n a am e = elim (Bool-cases (a.highest_bid_user_id == u)) [
  | inl f ↦ rw (e, f, bid) (inr (λ h. absurd (cc), e), refl, refl)
  | inr f ↦ elim (Bool-cases (ltb_ℤ n a.minimum_bid || ltb_ℤ n (a.highest_bid +ℤ pos 1))) [
    | inl g ↦ rw (e, f, g, bid) (inr (λ h. absurd (cc), e), refl, refl)
    | inr g ↦ elim (Option-cases (name_of u)) [
      | inl k ↦ rw (e, f, g, k, bid) (inr (λ h. absurd (cc), e), refl, refl)
      | inr (name, k) ↦
          rw (e, f, g, k, bid)
            (inl (name, refl, refl, ground arith, ground arith, ground arith, refl), refl, refl)
    ]
  ]
]

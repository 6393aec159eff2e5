-- ===== src/Auctions.antt =====
-- modules/auctions/auctions.go: the auction manager. The users that are online are a parameter, by
-- their name, and so are the time of a call and the name that the `items` package gives an item.
-- A zero time is 0. Gold is an integer, as bids come from the players.
pub mod Bidding
pub mod History
mod Tests
use Prim.Native.String.{String}
use go_mud.Prelude.{
  ℕ, suc, zero, ◌+◌, ◌-◌, Bool, true, false, ◌||◌, Option, none, some, List, [], ◌∷◌, ◌++◌, ltb,
  leb, ◌==◌, length, take, drop, if◌then◌else◌,
}
use go_mud.Prelude.Int.{ℤ, pos, negsuc, ◌+ℤ◌, ltb_ℤ}

pub record AuctionItem (Item : Type 0) : Type 0 where
  pub item_data : Item
  pub seller_user_id : ℕ
  pub seller_name : String
  pub anonymous : Bool
  pub end_time : ℕ
  pub minimum_bid : ℤ
  pub highest_bid : ℤ
  pub highest_bid_user_id : ℕ
  pub highest_bidder_name : String
  pub last_update : ℕ

pub record PastAuctionItem : Type 0 where
  pub item_name : String
  pub winning_bid : ℤ
  pub anonymous : Bool
  pub seller_name : String
  pub buyer_name : String
  pub end_time : ℕ

pub record AuctionManager (Item : Type 0) : Type 0 where
  pub active_auction : Option (AuctionItem Item)
  pub max_history_items : ℕ
  pub past_auctions : List PastAuctionItem

pub data BidError : Type 0 where
  no_auction already_highest : BidError
  below_minimum : ℤ → BidError
  user_not_found : BidError

-- `for len(l) > max { l = l[1:] }`, on the list that is left.
pub shrink : ℕ → List PastAuctionItem → List PastAuctionItem
shrink max [] = []
shrink max (x ∷ xs) = elim (ltb max (length (x ∷ xs))) [ true ↦ shrink max xs | false ↦ x ∷ xs ]

module _ {Item : Type 0} where
  -- The time is compared with `After`.
  pub is_ended : ℕ → AuctionItem Item → Bool
  is_ended now a = ltb a.end_time now

  pub start_auction :
      (ℕ → Option String)
      → ℕ
      → Item
      → ℕ
      → ℤ
      → ℕ
      → Bool
      → AuctionManager Item
      → AuctionManager Item × Bool
  start_auction name_of now item user_id minimum_bid duration_seconds anon am =
      elim am.active_auction [
        | some a ↦ (am, false)
        | none ↦ elim (name_of user_id) [
          | none ↦ (am, false)
          | some name ↦ (
            record am {
              active_auction = some (record {
                item_data = item;
                seller_user_id = user_id;
                seller_name = name;
                anonymous = anon;
                end_time = now + duration_seconds;
                minimum_bid = minimum_bid;
                highest_bid = pos 0;
                highest_bid_user_id = 0;
                highest_bidder_name = "";
                last_update = 0;
              });
            },
            true,
          )
        ]
      ]

  pub bid :
      (ℕ → Option String) → ℕ → ℤ → AuctionManager Item → AuctionManager Item × Option BidError
  bid name_of user_id amount am = elim am.active_auction [
    | none ↦ (am, some BidError.no_auction)
    | some a ↦
        if a.highest_bid_user_id == user_id
        then (am, some BidError.already_highest)
        else if ltb_ℤ amount a.minimum_bid || ltb_ℤ amount (a.highest_bid +ℤ pos 1)
        then (
          am,
          some (
              BidError.below_minimum
                (if ltb_ℤ (pos 0) a.highest_bid then a.highest_bid +ℤ pos 1 else a.minimum_bid)),
        )
        else elim (name_of user_id) [
          | none ↦ (am, some BidError.user_not_found)
          | some name ↦ (
            record am {
              active_auction = some (record a {
                highest_bid = amount;
                highest_bid_user_id = user_id;
                highest_bidder_name = name;
              });
            },
            none,
          )
        ]
  ]

  pub past_item : (Item → String) → AuctionItem Item → PastAuctionItem
  past_item name_complex a = record {
    item_name = name_complex a.item_data;
    winning_bid = a.highest_bid;
    anonymous = a.anonymous;
    seller_name = a.seller_name;
    buyer_name = a.highest_bidder_name;
    end_time = a.end_time;
  }

  pub end_auction : (Item → String) → AuctionManager Item → AuctionManager Item
  unfolding past_item
  end_auction name_complex am = elim am.active_auction [
    | none ↦ am
    | some a ↦ record am {
      active_auction = none;
      past_auctions =
          if a.highest_bid_user_id == 0
          then am.past_auctions
          else shrink am.max_history_items (am.past_auctions ++ past_item name_complex a ∷ []);
    }
  ]

  -- `l[low:high]` panics (`none`) where high is below low.
  pub get_auction_history : ℤ → AuctionManager Item → Option (List PastAuctionItem)
  get_auction_history total_items am =
      let n = length am.past_auctions in
      elim total_items [
        | negsuc k ↦ some am.past_auctions
        | pos k ↦
            let total = if ltb n k then n else k in
            if k == 0
            then some am.past_auctions
            else if ltb total (n - total)
            then none
            else some (take (total - (n - total)) (drop (n - total) am.past_auctions))
      ]

-- ===== src/Auctions/Tests.antt =====
-- Runs of modules/auctions/auctions.go, and the theorems at concrete auctions.
use Prim.Native.String.{String}
use go_mud.Prelude.{
  ℕ, zero, suc, ◌-◌, ◌<◌, ◌≤◌, ◌≡◌, ◌↔◌, refl, false, Option, none, some, List, [], ◌∷◌, ◌++◌, drop,
  length,
}
use go_mud.Prelude.Int.{pos, ◌+ℤ◌, ◌≤ℤ◌}
use go_mud.Prelude.Predicates.{All}
use go_mud.Auctions.{
  AuctionItem, PastAuctionItem, AuctionManager, shrink, start_auction, bid, end_auction,
  get_auction_history,
}
use go_mud.Auctions.Bidding.{Reach, start, open_auction, offer, close, IsSound, Reach-history, sale}
use go_mud.Auctions.History.{get_auction_history_panics}

abbrev names : ℕ → Option String
names zero = none
names (suc n) = some "player"

abbrev item_name : ℕ → String
item_name n = "a sword"

abbrev idle : AuctionManager ℕ
idle = record { active_auction = none; max_history_items = 2; past_auctions = [] }

abbrev offered : AuctionManager ℕ
offered = (start_auction names 100 7 1 (pos 10) 60 false idle).0

abbrev bought : AuctionManager ℕ
bought = (bid names 2 (pos 12) offered).0

abbrev sold_once : AuctionManager ℕ
sold_once = end_auction item_name bought

abbrev sword_sold : PastAuctionItem
sword_sold = record {
  item_name = "a sword";
  winning_bid = pos 12;
  anonymous = false;
  seller_name = "player";
  buyer_name = "player";
  end_time = 160;
}

sold_once-past : sold_once.past_auctions ≡ sword_sold ∷ []
unfolding start_auction bid end_auction shrink ◌+ℤ◌
sold_once-past = refl

low_bid : (bid names 3 (pos 12) bought).0 ≡ bought
unfolding start_auction bid ◌+ℤ◌
low_bid = refl

abbrev all_sold : List PastAuctionItem
all_sold = [] ++ sale item_name bought

sold_once-Reach : Reach item_name 2 sold_once all_sold
sold_once-Reach =
    close (offer names 2 (pos 12) refl (open_auction names 100 7 1 (pos 10) 60 false refl start))

Reach-history_example :
    IsSound sold_once.active_auction
    × (sold_once.past_auctions ≡ drop (length all_sold - sold_once.max_history_items) all_sold)
    × All (λ p. pos 1 ≤ℤ p.winning_bid) all_sold
Reach-history_example = Reach-history item_name sold_once-Reach

abbrev long_history : AuctionManager ℕ
long_history = record idle { past_auctions = sword_sold ∷ sword_sold ∷ sword_sold ∷ [] }

get_auction_history_panics_example :
    ((get_auction_history (pos 1) long_history ≡ none) ↔ (2 < length long_history.past_auctions))
    × (length long_history.past_auctions ≤ 1
        → get_auction_history (pos 1) long_history ≡ some long_history.past_auctions)
get_auction_history_panics_example = get_auction_history_panics 0 long_history

abbrev running : AuctionItem ℕ
running = record {
  item_data = 7;
  seller_user_id = 1;
  seller_name = "player";
  anonymous = false;
  end_time = 160;
  minimum_bid = pos 10;
  highest_bid = pos 12;
  highest_bid_user_id = 2;
  highest_bidder_name = "player";
  last_update = 0;
}

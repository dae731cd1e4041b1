-- ===== src/Portfolio/Tests.antt =====
-- The portfolio's theorems at concrete rows.
use household_back.Base.{All}
use household_back.Portfolio.Books.Sales.{Sold, Bought, sell_shares-quantity, buy_shares-quantity}
use household_back.Portfolio.Schema.{PortfolioBuyRequest}
use household_back.Portfolio.Service.{owned_item, buy_shares}
use household_back.Base.{
  pos, take, ℕ, ◌+◌, ◌≤◌, ◌≡◌, refl, ◌↔◌, Option, none, some, List, [], ◌∷◌, map,
}
use household_back.Core.{bad_request, ok, err}
use household_back.Model.{PortfolioTransaction, Db}
use household_back.Samples.{jan, shares, first_buy, first_sale, household_db}
use household_back.Portfolio.Schema.{PortfolioSellRequest, validate_sell}
use household_back.Portfolio.Replay.{recalc_item, realize, recompute_realized_pnl, Running}
use household_back.Portfolio.Replay.Quantities.{bought, sold, recompute_realized_pnl_iff}
use household_back.Portfolio.Replay.Rows.{forget, recompute_realized_pnl_stable}
use household_back.Portfolio.Service.{sell_shares}
use household_back.Portfolio.Response.{PortfolioResponse}
use household_back.Portfolio.Books.{Books}
use household_back.Portfolio.Books.Steps.{sell_step, PortfolioRun, stopped, stepped}
use household_back.Portfolio.Books.Runs.{run-Books}

recompute_realized_pnl_iff_example :
    ((done : List PortfolioTransaction × Running) × (recompute_realized_pnl
          (first_buy ∷ first_sale ∷ [])
        ≡ ok done)
      × (done.1.qty + sold (first_buy ∷ first_sale ∷ []) ≡ bought (first_buy ∷ first_sale ∷ [])))
    ↔ ((n : ℕ)
        → sold (take n (first_buy ∷ first_sale ∷ []))
          ≤ bought (take n (first_buy ∷ first_sale ∷ [])))
recompute_realized_pnl_iff_example = recompute_realized_pnl_iff (first_buy ∷ first_sale ∷ [])

-- one share of four sold at 15.00, each bought at 10.00
abbrev realized_sale : PortfolioTransaction
realized_sale = record first_sale {
  realized_pnl = some (pos 500);
  realized_cost_basis = some (pos 1000);
}

abbrev replayed : List PortfolioTransaction × Running
replayed = (
  first_buy ∷ realized_sale ∷ [],
  record {
    qty = 30000;
    cost = record { coefficient = pos 3000000000000000000000000000; scale = 26 };
  },
)

replay_test : recompute_realized_pnl (first_buy ∷ first_sale ∷ []) ≡ ok replayed
unfolding recompute_realized_pnl realize
replay_test = refl

recompute_realized_pnl_stable_example :
    (map forget replayed.0 ≡ map forget (first_buy ∷ first_sale ∷ []))
    × (recompute_realized_pnl replayed.0 ≡ ok replayed)
recompute_realized_pnl_stable_example =
    recompute_realized_pnl_stable (first_buy ∷ first_sale ∷ []) replayed replay_test

-- A sale of more than is held is refused, also when a later purchase would cover it.
oversold_test : recompute_realized_pnl (first_sale ∷ first_buy ∷ []) ≡ err bad_request
unfolding recompute_realized_pnl
oversold_test = refl

abbrev sell_one : PortfolioSellRequest
sell_one = record {
  quantity = pos 10000;
  sell_price = pos 1500;
  fee = pos 0;
  tx_date = some (jan 6);
  memo = none;
}

abbrev sold_db : Db
sold_db = record household_db {
  items = record shares { quantity = 30000 } ∷ [];
  portfolio_transactions = first_buy ∷ realized_sale ∷ [];
}

sell_reply : Option PortfolioResponse
unfolding sell_shares
sell_reply = elim (sell_shares 42 42 (jan 9) 7 31 sell_one household_db) [
  | ok (reply, db) ↦ reply
  | err e ↦ none
]

sell_test : sell_shares 42 42 (jan 9) 7 31 sell_one household_db ≡ ok (sell_reply, sold_db)
unfolding sell_shares sell_reply recalc_item realize
sell_test = refl

household_db-Books : Books household_db
unfolding bought sold
household_db-Books = ((tt, tt), (refl, tt))

sell_run : PortfolioRun household_db sold_db
unfolding validate_sell
sell_run =
    stepped household_db sold_db sold_db
      (sell_step 42 42 (jan 9) 7 31 sell_one sell_reply (refl, tt) refl sell_test) (stopped sold_db)

run-Books_example : Books sold_db
run-Books_example = run-Books household_db sold_db sell_run household_db-Books

owned_test : owned_item 7 31 household_db ≡ ok shares
unfolding owned_item
owned_test = refl

sell_shares-quantity_example : All (Sold shares 10000) sold_db.items
sell_shares-quantity_example =
    sell_shares-quantity 42 42 (jan 9) 7 31 sell_one household_db shares (sell_reply, sold_db)
      owned_test sell_test household_db-Books

abbrev buy_one : PortfolioBuyRequest
buy_one = record {
  quantity = pos 10000;
  price = pos 2000;
  fee = pos 0;
  tx_date = some (jan 6);
  memo = none;
}

abbrev bought_db : Db
bought_db = record household_db {
  items = record shares { quantity = 50000; avg_price = pos 1200 } ∷ [];
  portfolio_transactions =
      first_buy
      ∷ record first_buy {
        id = 42;
        frst_reg_dt = 42;
        quantity = 10000;
        price = 2000;
        tx_date = jan 6;
      }
      ∷ [];
}

buy_test :
    (reply : PortfolioResponse) × (buy_shares 42 42 (jan 9) 7 31 buy_one household_db
      ≡ ok (reply, bought_db))
unfolding buy_shares recalc_item
buy_test = (_, refl)

buy_shares-quantity_example : All (Bought shares 10000) bought_db.items
buy_shares-quantity_example =
    buy_shares-quantity 42 42 (jan 9) 7 31 buy_one household_db shares (buy_test.0, bought_db)
      owned_test buy_test.1 household_db-Books

-- ===== src/Snapshot/Holdings.antt =====
-- What an account held on a day, rebuilt from its trades (portfolio/repository.py), and its value at
-- the prices of a month (market_price/repository.py and service.py). `le` is the order of text in
-- PostgreSQL, a parameter.
use text.Mathlib.Text.{◌==◌ as ◌===◌}
use household_back.Base.{
  ℤ, pos, pos_part, ◌+ℤ◌, ◌-ℤ◌, ◌*ℤ◌, neg_ℤ, ltb_ℤ, leb_ℤ, select, find, any, sum_by, elem, dedup,
  ◌==◌, if◌then◌else◌, is_some, or_else, or_option, ◌==?◌, ℕ, ◌+◌, ◌-◌, ◌*◌, ◌^◌, String, Bool,
  ◌&&◌, Option, none, some, List, [], ◌∷◌, ◌++◌, map,
}
use household_back.Core.{
  Date, date_eqb, date_leb, month_first, Decimal, magnitude, with_sign, round_half_even, integer,
  decimal_zero, mul_decimal, div_decimal, percentage,
}
use household_back.Model.{
  Account, PortfolioItem, PortfolioTransaction, MarketPriceHistory, Market, krx_kospi, krx_kosdaq,
  nasdaq, nyse, other_market, is_active, is_investment, Db,
}
use household_back.Portfolio.Repository.{is_buy, trade_sums_for_account}
use household_back.Transaction.Sums.{sum_for_account}
use household_back.Transaction.Ledger.{cash_flow}
use household_back.Account.Balance.{BalanceSummary, micro, calc_cash_balance, trade_cash}

-- `x.quantize(Decimal("0.01"))`, which rounds half to even, in units of 0.01
unfoldable pub quantize_even : Decimal → ℤ
unfolding round_half_even
quantize_even x =
    with_sign x.coefficient
      (round_half_even (magnitude x.coefficient * 10 ^ (2 - x.scale)) (x.scale - 2))

-- one dict of `asof_holdings_by_account`; its name, which no reader uses, is left out
pub record Holding : Type 0 where
  pub item_id : ℕ
  pub code : String
  pub market : Market
  pub quantity : ℕ
  pub avg_cost : ℤ
  pub cost : ℤ

abbrev pub market_text : Market → String
market_text krx_kospi = "KRX_KOSPI"
market_text krx_kosdaq = "KRX_KOSDAQ"
market_text nasdaq = "NASDAQ"
market_text nyse = "NYSE"
market_text other_market = "OTHER"

abbrev pub market_eqb : Market → Market → Bool
market_eqb a b = market_text a === market_text b

unfoldable pub signed_quantity : PortfolioTransaction → ℤ
unfolding neg_ℤ
signed_quantity t = if is_buy t.pt_type then pos t.quantity else neg_ℤ (pos t.quantity)

abbrev pub bought_quantity : PortfolioTransaction → ℤ
bought_quantity t = if is_buy t.pt_type then pos t.quantity else pos 0

-- quantity times price plus fee, in units of 0.000001
abbrev pub bought_amount : PortfolioTransaction → ℤ
bought_amount t = if is_buy t.pt_type then pos (t.quantity * t.price + t.fee * 10000) else pos 0

-- the WHERE of the query
abbrev pub held_until : ℕ → Date → PortfolioTransaction → Bool
held_until account_id as_of t =
    t.account_id == account_id
    && (is_active t.data_stat_cd && (date_leb t.tx_date as_of && is_some t.portfolio_item_id))

-- `portfolio_item_id` of the rows that pass
abbrev pub traded_items : List PortfolioTransaction → List ℕ
traded_items [] = []
traded_items (t ∷ ts) = elim t.portfolio_item_id [
  | none ↦ traded_items ts
  | some i ↦ i ∷ traded_items ts
]

module _ (le : String → String → Bool) where
  abbrev larger_text : String → String → String
  larger_text a b = if le a b then b else a

  abbrev larger_market : Market → Market → Market
  larger_market a b = if le (market_text a) (market_text b) then b else a

  -- MAX over the rows of one group, from its first row
  abbrev max_code : String → List PortfolioTransaction → String
  max_code best [] = best
  max_code best (t ∷ ts) = max_code (larger_text best t.code) ts

  abbrev max_market : Market → List PortfolioTransaction → Market
  max_market best [] = best
  max_market best (t ∷ ts) = max_market (larger_market best t.market) ts

  -- one row of the result, with the average cost `ba / bq` as a Decimal
  unfoldable pub holding_of :
      ℕ → PortfolioTransaction → List PortfolioTransaction → ℤ → ℤ → ℤ → Holding
  unfolding quantize_even div_decimal mul_decimal
  holding_of item_id first others qty bq ba =
      let avg =
        if ltb_ℤ (pos 0) bq then div_decimal (integer ba 6) (integer bq 4) else decimal_zero in
      record {
        item_id = item_id;
        code = max_code first.code others;
        market = max_market first.market others;
        quantity = pos_part qty;
        avg_cost = quantize_even avg;
        cost = quantize_even (mul_decimal (integer qty 4) avg);
      }

  -- the group of one item: nothing when its quantity is 0 or less
  unfoldable pub group_holding : ℕ → List PortfolioTransaction → List Holding
  unfolding holding_of signed_quantity
  group_holding item_id [] = []
  group_holding item_id (t ∷ ts) =
      let qty = sum_by signed_quantity (t ∷ ts) in
      if leb_ℤ qty (pos 0)
      then []
      else holding_of item_id t ts qty (sum_by bought_quantity (t ∷ ts))
          (sum_by bought_amount (t ∷ ts))
        ∷ []

  abbrev pub group_holdings : List ℕ → List PortfolioTransaction → List Holding
  group_holdings [] rows = []
  group_holdings (i ∷ ids) rows =
      group_holding i (select (λ (t : PortfolioTransaction). t.portfolio_item_id ==? i) rows)
      ++ group_holdings ids rows

  -- `PortfolioTransactionRepository.asof_holdings_by_account`
  unfoldable pub asof_holdings_by_account : ℕ → Date → Db → List Holding
  unfolding group_holding
  asof_holdings_by_account account_id as_of db =
      let rows = select (held_until account_id as_of) db.portfolio_transactions in
      group_holdings (dedup (traded_items rows)) rows

-- the key of a price: code and market
abbrev pub PriceKey : Type 0
PriceKey = String × Market

abbrev pub key_eqb : PriceKey → PriceKey → Bool
key_eqb a b = (a.0 === b.0) && market_eqb a.1 b.1

abbrev pub key_in : PriceKey → List PriceKey → Bool
key_in k keys = any (key_eqb k) keys

-- `MarketPriceHistoryRepository.find_prices_for_month`: the rows of the dict, in their order
unfoldable pub find_prices_for_month : List PriceKey → Date → Db → List (PriceKey × ℤ)
find_prices_for_month pairs month db =
    map (λ (p : MarketPriceHistory). ((p.code, p.market), p.price))
      (select
        (λ (p : MarketPriceHistory).
          key_in (p.code, p.market) pairs
          && (date_eqb p.price_date month && is_active p.data_stat_cd))
        db.market_prices)

-- `prices.get(key)`: a later row of the same key has replaced an earlier one
abbrev pub price_of : PriceKey → List (PriceKey × ℤ) → Option ℤ
price_of key [] = none
price_of key ((k, px) ∷ prices) =
    or_option (price_of key prices) (if key_eqb k key then some px else none)

-- `_key`: the item's present code and market, or those of its trades when it has no row
abbrev pub key_from : Option PortfolioItem → Holding → PriceKey
key_from none h = (h.code, h.market)
key_from (some i) h = (i.code, i.market)

abbrev pub price_key : List PortfolioItem → Holding → PriceKey
price_key items h = key_from (find (λ (i : PortfolioItem). i.id == h.item_id) items) h

-- `{"current_price", "valuation"}`, the valuation in units of 0.000001
pub record Valued : Type 0 where
  pub current_price : ℤ
  pub valuation : ℤ

unfoldable pub valued_at : Option ℤ → Holding → Valued
unfolding ◌*ℤ◌
valued_at (some px) h = record { current_price = px; valuation = pos h.quantity *ℤ px }
valued_at none h = record { current_price = h.avg_cost; valuation = micro h.cost }

-- the loop that fills the dict
abbrev pub valued_rows : List PortfolioItem → List (PriceKey × ℤ) → List Holding → List (ℕ × Valued)
valued_rows items prices [] = []
valued_rows items prices (h ∷ hs) =
    (h.item_id, valued_at (price_of (price_key items h) prices) h) ∷ valued_rows items prices hs

-- `value_holdings_at_month`
unfoldable pub value_holdings_at_month : List Holding → Date → Db → List (ℕ × Valued)
unfolding find_prices_for_month valued_at
value_holdings_at_month holdings month db =
    let ids = map (λ (h : Holding). h.item_id) holdings in
    let items = select (λ (i : PortfolioItem). elem i.id ids) db.items in
    valued_rows items (find_prices_for_month (map (price_key items) holdings) month db) holdings

abbrev pub nothing_valued : Valued
nothing_valued = record { current_price = pos 0; valuation = pos 0 }

-- `valued[item_id]`, of the last row of that item; a missing key would raise, and is 0 here
abbrev pub find_valued : ℕ → List (ℕ × Valued) → Option Valued
find_valued item_id [] = none
find_valued item_id ((i, v) ∷ rows) =
    or_option (find_valued item_id rows) (if i == item_id then some v else none)

abbrev pub valued_of : ℕ → List (ℕ × Valued) → Valued
valued_of item_id rows = or_else (find_valued item_id rows) nothing_valued

-- the summary from the two totals of the holdings
unfoldable pub asof_summary : ℤ → ℤ → ℤ → BalanceSummary
unfolding percentage ◌+ℤ◌ ◌-ℤ◌
asof_summary cash cost worth =
    let profit_loss = worth -ℤ cost in
    record {
      balance = cash +ℤ worth;
      cash = some cash;
      portfolio_cost = some cost;
      portfolio_valuation = some worth;
      portfolio_profit_loss = some profit_loss;
      portfolio_profit_loss_rate = some (percentage (integer profit_loss 6) (integer cost 6));
    }

module _ (le : String → String → Bool) where
  -- `_calc_investment_balance` on a day
  unfoldable pub investment_balance_on : Account → Date → Db → BalanceSummary
  unfolding cash_flow sum_for_account trade_cash trade_sums_for_account asof_holdings_by_account
      value_holdings_at_month asof_summary
  investment_balance_on account as_of db =
      let cash =
        trade_cash
          (micro (cash_flow account.start_balance (sum_for_account account.id (some as_of) db)))
          (trade_sums_for_account account.id (some as_of) db) in
      let holdings = asof_holdings_by_account le account.id as_of db in
      let valued = value_holdings_at_month holdings (month_first as_of) db in
      asof_summary cash (sum_by (λ (h : Holding). micro h.cost) holdings)
        (sum_by (λ (h : Holding). (valued_of h.item_id valued).valuation) holdings)

  -- `_calc_balance` on a day
  unfoldable pub balance_on : Account → Date → Db → BalanceSummary
  unfolding investment_balance_on calc_cash_balance
  balance_on account as_of db =
      if is_investment account.account_type
      then investment_balance_on account as_of db
      else calc_cash_balance account (some as_of) db

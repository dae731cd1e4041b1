-- ===== src/Account/Balance.antt =====
-- account/service.py: the balances of accounts, one at a time and in a batch. Amounts of a summary
-- are in units of 0.000001, the scale of a quantity times a price.
pub mod Trades
pub mod Agreement
use household_back.Base.{
  ℤ, pos, ◌+ℤ◌, ◌-ℤ◌, ◌*ℤ◌, sum_by, if◌then◌else◌, or_else, ℕ, ◌+◌, ◌-◌, ◌*◌, refl, Option, none,
  some, List, [], ◌∷◌, arith,
}
use household_back.Core.{Date, Decimal, integer, percentage, ◌>>=◌, ◌>>◌}
use household_back.Model.{Account, PortfolioItem, valuation, is_investment, Db}
use household_back.Transaction.Sums.{
  Sums, sum_for_account, sum_for_accounts, lookup_sums, zero_sums,
}
use household_back.Transaction.Ledger.{cash_flow}
use household_back.Portfolio.Repository.{
  TradeSums, trade_sums_for_account, trade_sums_for_accounts, trades_of, find_items_by_account,
  find_items_by_accounts, items_of,
}

pub record BalanceSummary : Type 0 where
  pub balance : ℤ
  pub cash : Option ℤ
  pub portfolio_cost : Option ℤ
  pub portfolio_valuation : Option ℤ
  pub portfolio_profit_loss : Option ℤ
  pub portfolio_profit_loss_rate : Option Decimal

-- an amount of 0.01 in units of 0.000001
unfoldable pub micro : ℤ → ℤ
unfolding ◌*ℤ◌
micro a = a *ℤ pos 10000

abbrev pub plain_summary : ℤ → BalanceSummary
plain_summary balance = record {
  balance = balance;
  cash = none;
  portfolio_cost = none;
  portfolio_valuation = none;
  portfolio_profit_loss = none;
  portfolio_profit_loss_rate = none;
}

-- `_summarize_holdings`
unfoldable pub cost_of : List PortfolioItem → ℤ
unfolding ◌*ℤ◌
cost_of items = sum_by (λ (i : PortfolioItem). pos i.quantity *ℤ i.avg_price) items

unfoldable pub valuation_of : List PortfolioItem → ℤ
unfolding ◌*ℤ◌
valuation_of items = sum_by (λ (i : PortfolioItem). pos i.quantity *ℤ i.current_price) items

-- the summary of an investment account, from its cash and its holdings
unfoldable pub investment_summary : ℤ → List PortfolioItem → BalanceSummary
unfolding cost_of valuation_of percentage ◌+ℤ◌ ◌-ℤ◌
investment_summary cash items =
    let cost = cost_of items in
    let valuation = valuation_of items in
    let profit_loss = valuation -ℤ cost in
    record {
      balance = cash +ℤ valuation;
      cash = some cash;
      portfolio_cost = some cost;
      portfolio_valuation = some valuation;
      portfolio_profit_loss = some profit_loss;
      portfolio_profit_loss_rate = some (percentage (integer profit_loss 6) (integer cost 6));
    }

-- `_calc_cash_balance`
unfoldable pub calc_cash_balance : Account → Option Date → Db → BalanceSummary
unfolding cash_flow sum_for_account
calc_cash_balance account as_of db =
    plain_summary (micro (cash_flow account.start_balance (sum_for_account account.id as_of db)))

-- `cash - pt_sums["buy"] + pt_sums["sell"]`
unfoldable pub trade_cash : ℤ → TradeSums → ℤ
unfolding ◌+ℤ◌ ◌-ℤ◌
trade_cash cash s = cash -ℤ s.buy +ℤ s.sell

-- `_calc_investment_balance`, for the present balance (`as_of` is None)
unfoldable pub calc_investment_balance : Account → Db → BalanceSummary
unfolding cash_flow sum_for_account trade_cash trade_sums_for_account investment_summary
    find_items_by_account
calc_investment_balance account db =
    investment_summary
      (trade_cash (micro (cash_flow account.start_balance (sum_for_account account.id none db)))
        (trade_sums_for_account account.id none db))
      (find_items_by_account account.id db)

-- `_calc_balance`, for the present balance
unfoldable pub calc_balance : Account → Db → BalanceSummary
unfolding calc_cash_balance calc_investment_balance
calc_balance account db =
    if is_investment account.account_type
    then calc_investment_balance account db
    else calc_cash_balance account none db

abbrev pub ids_of : List Account → List ℕ
ids_of [] = []
ids_of (a ∷ accounts) = a.id ∷ ids_of accounts

abbrev pub investment_ids : List Account → List ℕ
investment_ids [] = []
investment_ids (a ∷ accounts) =
    let rest = investment_ids accounts in if is_investment a.account_type then a.id ∷ rest else rest

pub record BalanceSources : Type 0 where
  pub tx_sums : List (ℕ × Sums)
  pub pt_sums : List (ℕ × TradeSums)
  pub items_map : List (ℕ × List PortfolioItem)

-- `_load_balance_sources`
unfoldable pub load_balance_sources : List Account → Db → BalanceSources
unfolding sum_for_accounts trade_sums_for_accounts find_items_by_accounts
load_balance_sources accounts db = record {
  tx_sums = sum_for_accounts (ids_of accounts) db;
  pt_sums = trade_sums_for_accounts (investment_ids accounts) db;
  items_map = find_items_by_accounts (investment_ids accounts) db;
}

-- the balance from the parts that the batch holds for one account
unfoldable pub assemble_balance : Account → Sums → TradeSums → List PortfolioItem → BalanceSummary
unfolding cash_flow trade_cash investment_summary
assemble_balance account sums trades items =
    let cash = micro (cash_flow account.start_balance sums) in
    if is_investment account.account_type
    then investment_summary (trade_cash cash trades) items
    else plain_summary cash

-- `_build_balance`. The sums of a listed account are there; `tx_sums[account.id]` of another account
-- would raise, and is 0 here.
unfoldable pub build_balance : Account → BalanceSources → BalanceSummary
unfolding assemble_balance
build_balance account sources =
    assemble_balance account (or_else (lookup_sums account.id sources.tx_sums) zero_sums)
      (trades_of account.id sources.pt_sums) (items_of account.id sources.items_map)

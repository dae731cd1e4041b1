-- ===== src/Samples.antt =====
-- Concrete rows for the tests and examples.
use household_back.Base.{pos, ℕ, false, none, some, [], ◌∷◌}
use household_back.Core.{Date}
use household_back.Model.{
  Account, Transaction, PortfolioItem, PortfolioTransaction, active, living, savings, investment,
  expense, income, transfer, buy_tx, sell_tx, nasdaq, Db, empty_db,
}

abbrev pub jan : ℕ → Date
jan d = record { year = 2026; month = 1; day = d }

abbrev pub living_account : Account
living_account = record {
  id = 1;
  frst_reg_dt = 1;
  data_stat_cd = active;
  household_id = 7;
  name = "wallet";
  account_type = living;
  start_balance = pos 10000;
  color = none;
  icon = none;
  sort_order = pos 1;
  is_archived = false;
}

abbrev pub savings_account : Account
savings_account = record living_account {
  id = 2;
  name = "savings";
  account_type = savings;
  start_balance = pos 0;
}

abbrev pub broker_account : Account
broker_account = record living_account { id = 3; name = "broker"; account_type = investment }

abbrev pub salary : Transaction
salary = record {
  id = 21;
  frst_reg_dt = 21;
  data_stat_cd = active;
  household_id = 7;
  tx_type = income;
  amount = pos 5000;
  tx_date = jan 2;
  account_id = 1;
  to_account_id = none;
  category_id = none;
  paid_by_user_id = none;
  fixed_expense_id = none;
  memo = none;
  valuation_direction = none;
}

abbrev pub lunch : Transaction
lunch = record salary {
  id = 22;
  frst_reg_dt = 22;
  tx_type = expense;
  amount = pos 1200;
  tx_date = jan 3;
}

abbrev pub to_savings : Transaction
to_savings = record salary {
  id = 23;
  frst_reg_dt = 23;
  tx_type = transfer;
  amount = pos 3000;
  tx_date = jan 3;
  to_account_id = some 2;
}

abbrev pub shares : PortfolioItem
shares = record {
  id = 31;
  frst_reg_dt = 31;
  data_stat_cd = active;
  household_id = 7;
  account_id = 3;
  name = "shares";
  code = "S";
  market = nasdaq;
  quantity = 40000;
  avg_price = pos 1000;
  current_price = pos 1500;
  is_archived = false;
}

abbrev pub first_buy : PortfolioTransaction
first_buy = record {
  id = 41;
  frst_reg_dt = 41;
  data_stat_cd = active;
  household_id = 7;
  account_id = 3;
  portfolio_item_id = some 31;
  name = "shares";
  code = "S";
  market = nasdaq;
  pt_type = buy_tx;
  quantity = 40000;
  price = 1000;
  fee = 0;
  tx_date = jan 5;
  memo = none;
  realized_pnl = none;
  realized_cost_basis = none;
}

abbrev pub first_sale : PortfolioTransaction
first_sale = record first_buy {
  id = 42;
  frst_reg_dt = 42;
  pt_type = sell_tx;
  quantity = 10000;
  price = 1500;
  tx_date = jan 6;
}

abbrev pub household_db : Db
household_db = record empty_db {
  accounts = living_account ∷ savings_account ∷ broker_account ∷ [];
  transactions = salary ∷ lunch ∷ to_savings ∷ [];
  items = shares ∷ [];
  portfolio_transactions = first_buy ∷ [];
}

-- ===== src/Portfolio/Response.antt =====
-- portfolio/service.py: the responses of a holding and of a trade. Products of a quantity and a price
-- are exact, in units of 0.000001; rates are Decimals.
use household_back.Base.{
  ℤ, ◌==◌, if◌then◌else◌, or_else, ℕ, ◌*◌, String, Bool, Option, none, some, List, [], ◌∷◌,
}
use household_back.Core.{Date, Decimal, sub_decimal, mul_decimal, percentage}
use household_back.Model.{Account, PortfolioItem, PortfolioTransaction, PortfolioTxType, Market}
use household_back.Portfolio.Repository.{settlement_amount}
use household_back.Portfolio.Replay.{money_decimal, quantity_decimal}

-- the name of the account, or "(삭제됨)"
abbrev pub name_of : ℕ → List Account → Option String
name_of account_id [] = none
name_of account_id (a ∷ accounts) =
    if a.id == account_id then some a.name else name_of account_id accounts

abbrev deleted_name : String
deleted_name = "(삭제됨)"

pub record PortfolioResponse : Type 0 where
  pub id : ℕ
  pub account_id : ℕ
  pub account_name : String
  pub name : String
  pub code : String
  pub market : Market
  pub quantity : ℕ
  pub avg_price : Decimal
  pub current_price : ℤ
  pub cost : Decimal
  pub valuation : Decimal
  pub profit_loss : Decimal
  pub profit_loss_rate : Decimal
  pub is_archived : Bool

-- `_build_response`. `avg` is the object's average price: the column's value, or what a replay in
-- the same session has just assigned.
unfoldable pub item_response : PortfolioItem → Decimal → List Account → PortfolioResponse
unfolding mul_decimal sub_decimal percentage
item_response item avg accounts =
    let cost = mul_decimal (quantity_decimal item.quantity) avg in
    let valuation =
      mul_decimal (quantity_decimal item.quantity) (money_decimal item.current_price) in
    let profit_loss = sub_decimal valuation cost in
    record {
      id = item.id;
      account_id = item.account_id;
      account_name = or_else (name_of item.account_id accounts) deleted_name;
      name = item.name;
      code = item.code;
      market = item.market;
      quantity = item.quantity;
      avg_price = avg;
      current_price = item.current_price;
      cost = cost;
      valuation = valuation;
      profit_loss = profit_loss;
      profit_loss_rate = percentage profit_loss cost;
      is_archived = item.is_archived;
    }

pub record PortfolioTxResponse : Type 0 where
  pub id : ℕ
  pub account_id : ℕ
  pub account_name : String
  pub name : String
  pub code : String
  pub market : Market
  pub pt_type : PortfolioTxType
  pub quantity : ℕ
  pub price : ℕ
  pub total : ℕ
  pub fee : ℕ
  pub settlement : ℤ
  pub tx_date : Date
  pub memo : Option String
  pub realized_pnl : Option ℤ

-- `_build_tx_response`, with `_settlement_amount`, whose cases are those of the SQL expression
unfoldable pub tx_response : PortfolioTransaction → List Account → PortfolioTxResponse
unfolding settlement_amount
tx_response tx accounts = record {
  id = tx.id;
  account_id = tx.account_id;
  account_name = or_else (name_of tx.account_id accounts) deleted_name;
  name = tx.name;
  code = tx.code;
  market = tx.market;
  pt_type = tx.pt_type;
  quantity = tx.quantity;
  price = tx.price;
  total = tx.quantity * tx.price;
  fee = tx.fee;
  settlement = settlement_amount tx;
  tx_date = tx.tx_date;
  memo = tx.memo;
  realized_pnl = tx.realized_pnl;
}

-- ===== src/Model/Entities.antt =====
-- The ORM classes: app/core/model.py and the model.py of each domain. An id (a UUID) and a time
-- stamp are numbers; `last_mdfcn_dt`, which no query reads, is left out. Amounts of money are integers of 0.01, the scale of Numeric(15, 2).
use household_back.Base.{ℕ, String, Bool, Option, ℤ}
use household_back.Core.{Date}
use household_back.Model.Enums.{
  DataStatus, AccountType, TxType, ValuationDirection, CategoryKind, PortfolioTxType, Market,
  HouseholdRole,
}

pub record Account : Type 0 where
  pub id : ℕ
  pub frst_reg_dt : ℕ
  pub data_stat_cd : DataStatus
  pub household_id : ℕ
  pub name : String
  pub account_type : AccountType
  pub start_balance : ℤ
  pub color : Option String
  pub icon : Option String
  pub sort_order : ℤ
  pub is_archived : Bool

pub record Category : Type 0 where
  pub id : ℕ
  pub frst_reg_dt : ℕ
  pub data_stat_cd : DataStatus
  pub household_id : ℕ
  pub kind : CategoryKind
  pub name : String
  pub color : Option String
  pub icon : Option String
  pub sort_order : ℤ
  pub is_archived : Bool

pub record FixedExpense : Type 0 where
  pub id : ℕ
  pub frst_reg_dt : ℕ
  pub data_stat_cd : DataStatus
  pub household_id : ℕ
  pub name : String
  pub day_of_month : ℤ
  pub category_id : Option ℕ
  pub color : Option String
  pub icon : Option String
  pub sort_order : ℤ
  pub is_archived : Bool

pub record Transaction : Type 0 where
  pub id : ℕ
  pub frst_reg_dt : ℕ
  pub data_stat_cd : DataStatus
  pub household_id : ℕ
  pub tx_type : TxType
  pub amount : ℤ
  pub tx_date : Date
  pub account_id : ℕ
  pub to_account_id : Option ℕ
  pub category_id : Option ℕ
  pub paid_by_user_id : Option ℕ
  pub fixed_expense_id : Option ℕ
  pub memo : Option String
  pub valuation_direction : Option ValuationDirection

-- `quantity` counts 0.0001 of a share, as Numeric(15, 4). `avg_price` is the column's value.
pub record PortfolioItem : Type 0 where
  pub id : ℕ
  pub frst_reg_dt : ℕ
  pub data_stat_cd : DataStatus
  pub household_id : ℕ
  pub account_id : ℕ
  pub name : String
  pub code : String
  pub market : Market
  pub quantity : ℕ
  pub avg_price : ℤ
  pub current_price : ℤ
  pub is_archived : Bool

-- Requests admit only positive quantities and prices and fees of 0 or more.
pub record PortfolioTransaction : Type 0 where
  pub id : ℕ
  pub frst_reg_dt : ℕ
  pub data_stat_cd : DataStatus
  pub household_id : ℕ
  pub account_id : ℕ
  pub portfolio_item_id : Option ℕ
  pub name : String
  pub code : String
  pub market : Market
  pub pt_type : PortfolioTxType
  pub quantity : ℕ
  pub price : ℕ
  pub fee : ℕ
  pub tx_date : Date
  pub memo : Option String
  pub realized_pnl : Option ℤ
  pub realized_cost_basis : Option ℤ

pub record PortfolioValueHistory : Type 0 where
  pub id : ℕ
  pub frst_reg_dt : ℕ
  pub data_stat_cd : DataStatus
  pub household_id : ℕ
  pub account_id : ℕ
  pub portfolio_item_id : ℕ
  pub snapshot_date : Date
  pub quantity : ℕ
  pub avg_price : ℤ
  pub current_price : ℤ
  pub cost : ℤ
  pub valuation : ℤ

pub record AccountSnapshot : Type 0 where
  pub id : ℕ
  pub frst_reg_dt : ℕ
  pub data_stat_cd : DataStatus
  pub account_id : ℕ
  pub snapshot_date : Date
  pub balance : ℤ
  pub monthly_income : ℤ
  pub monthly_expense : ℤ
  pub monthly_fixed_expense : ℤ

-- `market` is a text column, written only with the values of `Market`.
pub record MarketPriceHistory : Type 0 where
  pub id : ℕ
  pub frst_reg_dt : ℕ
  pub data_stat_cd : DataStatus
  pub code : String
  pub market : Market
  pub price_date : Date
  pub price : ℤ

pub record Household : Type 0 where
  pub id : ℕ
  pub frst_reg_dt : ℕ
  pub data_stat_cd : DataStatus
  pub name : String
  pub description : Option String
  pub owner_id : ℕ
  pub currency : String
  pub started_at : Date

pub record HouseholdMember : Type 0 where
  pub id : ℕ
  pub frst_reg_dt : ℕ
  pub data_stat_cd : DataStatus
  pub household_id : ℕ
  pub user_id : ℕ
  pub role : HouseholdRole
  pub joined_at : ℕ

pub record User : Type 0 where
  pub id : ℕ
  pub frst_reg_dt : ℕ
  pub data_stat_cd : DataStatus
  pub email : String
  pub name : String
  pub password_hash : String
  pub language : String

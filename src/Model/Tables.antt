-- ===== src/Model/Tables.antt =====
-- The database: its tables as lists of rows, in the order of insertion.
use household_back.Base.{List, []}
use household_back.Model.Entities.{
  Account, Category, FixedExpense, Transaction, PortfolioItem, PortfolioTransaction,
  PortfolioValueHistory, AccountSnapshot, MarketPriceHistory, Household, HouseholdMember, User,
}

pub record Db : Type 0 where
  pub accounts : List Account
  pub categories : List Category
  pub fixed_expenses : List FixedExpense
  pub transactions : List Transaction
  pub items : List PortfolioItem
  pub portfolio_transactions : List PortfolioTransaction
  pub value_histories : List PortfolioValueHistory
  pub account_snapshots : List AccountSnapshot
  pub market_prices : List MarketPriceHistory
  pub households : List Household
  pub household_members : List HouseholdMember
  pub users : List User

abbrev pub empty_db : Db
empty_db = record {
  accounts = [];
  categories = [];
  fixed_expenses = [];
  transactions = [];
  items = [];
  portfolio_transactions = [];
  value_histories = [];
  account_snapshots = [];
  market_prices = [];
  households = [];
  household_members = [];
  users = [];
}

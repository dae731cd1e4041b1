-- ===== src/Transaction/Response.antt =====
-- transaction/service.py: a row with the names of what it refers to.
use household_back.Base.{ℤ, find, ◌==◌, ℕ, String, Option, none, some, List, [], ◌∷◌, ◌++◌}
use household_back.Core.{Date}
use household_back.Model.{
  Account, Category, FixedExpense, Transaction, TxType, ValuationDirection, Db,
}
use household_back.Finders.{find_accounts, find_categories, find_fixed_expenses, opt_list}

pub record TransactionResponse : Type 0 where
  pub id : ℕ
  pub household_id : ℕ
  pub tx_type : TxType
  pub amount : ℤ
  pub tx_date : Date
  pub account_id : ℕ
  pub account_name : Option String
  pub to_account_id : Option ℕ
  pub to_account_name : Option String
  pub category_id : Option ℕ
  pub category_name : Option String
  pub category_color : Option String
  pub category_icon : Option String
  pub paid_by_user_id : Option ℕ
  pub fixed_expense_id : Option ℕ
  pub fixed_expense_name : Option String
  pub valuation_direction : Option ValuationDirection
  pub memo : Option String

-- `account_map.get(id)` where the map is built from a list of accounts
unfoldable pub account_by_id : Option ℕ → List Account → Option Account
account_by_id none accounts = none
account_by_id (some i) accounts = find (λ (a : Account). a.id == i) accounts

unfoldable pub category_by_id : Option ℕ → List Category → Option Category
category_by_id none categories = none
category_by_id (some i) categories = find (λ (c : Category). c.id == i) categories

unfoldable pub fixed_by_id : Option ℕ → List FixedExpense → Option FixedExpense
fixed_by_id none fixed = none
fixed_by_id (some i) fixed = find (λ (f : FixedExpense). f.id == i) fixed

abbrev pub then_some {ℓ κ} : {A : Type ℓ} {B : Type κ} → Option A → (A → B) → Option B
then_some none f = none
then_some (some a) f = some (f a)

abbrev pub then_option {ℓ κ} : {A : Type ℓ} {B : Type κ} → Option A → (A → Option B) → Option B
then_option none f = none
then_option (some a) f = f a

-- `_build_response`
unfoldable pub build_response :
    Transaction → List Account → List Category → List FixedExpense → TransactionResponse
unfolding account_by_id category_by_id fixed_by_id
build_response tx accounts categories fixed_expenses =
    let category = category_by_id tx.category_id categories in
    record {
      id = tx.id;
      household_id = tx.household_id;
      tx_type = tx.tx_type;
      amount = tx.amount;
      tx_date = tx.tx_date;
      account_id = tx.account_id;
      account_name = then_some (account_by_id (some tx.account_id) accounts) (λ a. a.name);
      to_account_id = tx.to_account_id;
      to_account_name = then_some (account_by_id tx.to_account_id accounts) (λ a. a.name);
      category_id = tx.category_id;
      category_name = then_some category (λ c. c.name);
      category_color = then_option category (λ c. c.color);
      category_icon = then_option category (λ c. c.icon);
      paid_by_user_id = tx.paid_by_user_id;
      fixed_expense_id = tx.fixed_expense_id;
      fixed_expense_name = then_some (fixed_by_id tx.fixed_expense_id fixed_expenses) (λ f. f.name);
      valuation_direction = tx.valuation_direction;
      memo = tx.memo;
    }

-- `_single_response`
unfoldable pub single_response : Transaction → Db → TransactionResponse
unfolding build_response find_accounts find_categories find_fixed_expenses
single_response tx db =
    build_response tx (find_accounts (tx.account_id ∷ opt_list tx.to_account_id) db)
      (find_categories (opt_list tx.category_id) db)
      (find_fixed_expenses (opt_list tx.fixed_expense_id) db)

-- `_load_ledger_maps`: the rows' ids, then one query for each table
abbrev row_accounts : List Transaction → List ℕ
row_accounts [] = []
row_accounts (r ∷ rs) = r.account_id ∷ (opt_list r.to_account_id ++ row_accounts rs)

abbrev row_categories : List Transaction → List ℕ
row_categories [] = []
row_categories (r ∷ rs) = opt_list r.category_id ++ row_categories rs

abbrev row_fixed : List Transaction → List ℕ
row_fixed [] = []
row_fixed (r ∷ rs) = opt_list r.fixed_expense_id ++ row_fixed rs

unfoldable pub load_ledger_maps :
    List Transaction → Db → List Account × List Category × List FixedExpense
unfolding find_accounts find_categories find_fixed_expenses
load_ledger_maps rows db = (
  find_accounts (row_accounts rows) db,
  find_categories (row_categories rows) db,
  find_fixed_expenses (row_fixed rows) db,
)

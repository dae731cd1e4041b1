-- ===== src/Transaction/Schema.antt =====
-- transaction/schema.py: the requests and the validators that run before the service sees them.
use household_back.Base.{
  ℤ, pos, leb_ℤ, if◌then◌else◌, is_some, ◌==?◌, ℕ, String, Bool, false, not, Option, none, some,
}
use household_back.Core.{Date, bad_request, Result, ◌>>◌, raise_if}
use household_back.Model.{TxType, ValuationDirection, is_transfer, is_valuation, is_fixed_expense}

pub record TransactionCreateRequest : Type 0 where
  pub tx_type : TxType
  pub amount : ℤ
  pub tx_date : Date
  pub account_id : ℕ
  pub to_account_id : Option ℕ
  pub category_id : Option ℕ
  pub paid_by_user_id : Option ℕ
  pub fixed_expense_id : Option ℕ
  pub memo : Option String
  pub valuation_direction : Option ValuationDirection

-- The branch on TRANSFER.
unfoldable pub validate_counterpart : TransactionCreateRequest → Result (Unit {0})
validate_counterpart req =
    if is_transfer req.tx_type
    then (do
      raise_if (not (is_some req.to_account_id)) bad_request
      raise_if (req.to_account_id ==? req.account_id) bad_request
      raise_if (is_some req.category_id) bad_request
      raise_if (is_some req.fixed_expense_id) bad_request)
    else raise_if (is_some req.to_account_id) bad_request

-- The branch on FIXED_EXPENSE.
unfoldable pub validate_fixed_mapping : TransactionCreateRequest → Result (Unit {0})
validate_fixed_mapping req =
    if is_fixed_expense req.tx_type
    then raise_if (not (is_some req.fixed_expense_id)) bad_request
    else raise_if (is_some req.fixed_expense_id) bad_request

-- The branch on VALUATION.
unfoldable pub validate_direction : TransactionCreateRequest → Result (Unit {0})
validate_direction req =
    if is_valuation req.tx_type
    then (do
      raise_if (not (is_some req.valuation_direction)) bad_request
      raise_if (is_some req.category_id) bad_request)
    else raise_if (is_some req.valuation_direction) bad_request

-- `TransactionCreateRequest._validate`
unfoldable pub validate_create : TransactionCreateRequest → Result (Unit {0})
unfolding validate_counterpart validate_fixed_mapping validate_direction
validate_create req = do
  raise_if (leb_ℤ req.amount (pos 0)) bad_request
  validate_counterpart req
  validate_fixed_mapping req
  validate_direction req

pub record TransactionUpdateRequest : Type 0 where
  pub tx_type : Option TxType
  pub amount : Option ℤ
  pub tx_date : Option Date
  pub account_id : Option ℕ
  pub to_account_id : Option ℕ
  pub category_id : Option ℕ
  pub paid_by_user_id : Option ℕ
  pub fixed_expense_id : Option ℕ
  pub memo : Option String
  pub valuation_direction : Option ValuationDirection

abbrev not_positive : Option ℤ → Bool
not_positive none = false
not_positive (some a) = leb_ℤ a (pos 0)

abbrev same_account : Option ℕ → Option ℕ → Bool
same_account (some a) b = b ==? a
same_account none b = false

-- `TransactionUpdateRequest._validate`
unfoldable pub validate_update : TransactionUpdateRequest → Result (Unit {0})
validate_update req = do
  raise_if (not_positive req.amount) bad_request
  raise_if (same_account req.account_id req.to_account_id) bad_request

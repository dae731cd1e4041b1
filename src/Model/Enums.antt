-- ===== src/Model/Enums.antt =====
-- The enumerations stored in the tables: data_status.py and the enum.py of each domain.
use household_back.Base.{Bool, true, false, Option, none, some}

pub data DataStatus : Type 0 where
  active deleted : DataStatus

pub data AccountType : Type 0 where
  living savings investment real_estate pension commodity savings_asset other : AccountType

pub data TxType : Type 0 where
  expense income transfer fixed_expense valuation : TxType

pub data ValuationDirection : Type 0 where
  increase decrease : ValuationDirection

pub data CategoryKind : Type 0 where
  expense_kind income_kind : CategoryKind

pub data PortfolioTxType : Type 0 where
  buy_tx sell_tx : PortfolioTxType

pub data Market : Type 0 where
  krx_kospi krx_kosdaq nasdaq nyse other_market : Market

-- `status == DataStatus.ACTIVE`
abbrev pub is_active : DataStatus → Bool
is_active active = true
is_active deleted = false

-- `account_type == AccountType.INVESTMENT`
abbrev pub is_investment : AccountType → Bool
is_investment investment = true
is_investment _ = false

-- `account_type in MANUAL_ASSET_ACCOUNT_TYPES`
unfoldable pub is_manual_asset : AccountType → Bool
is_manual_asset real_estate = true
is_manual_asset pension = true
is_manual_asset commodity = true
is_manual_asset savings_asset = true
is_manual_asset _ = false

abbrev pub is_transfer : TxType → Bool
is_transfer transfer = true
is_transfer _ = false

abbrev pub is_valuation : TxType → Bool
is_valuation valuation = true
is_valuation _ = false

abbrev pub is_fixed_expense : TxType → Bool
is_fixed_expense fixed_expense = true
is_fixed_expense _ = false

-- `tx_type in (INCOME, EXPENSE, FIXED_EXPENSE)`
abbrev pub is_income_or_spending : TxType → Bool
is_income_or_spending income = true
is_income_or_spending expense = true
is_income_or_spending fixed_expense = true
is_income_or_spending _ = false

abbrev pub tx_type_eqb : TxType → TxType → Bool
tx_type_eqb expense expense = true
tx_type_eqb income income = true
tx_type_eqb transfer transfer = true
tx_type_eqb fixed_expense fixed_expense = true
tx_type_eqb valuation valuation = true
tx_type_eqb _ _ = false

-- equality of the nullable direction column, as GROUP BY compares it
abbrev pub direction_eqb : Option ValuationDirection → Option ValuationDirection → Bool
direction_eqb none none = true
direction_eqb (some increase) (some increase) = true
direction_eqb (some decrease) (some decrease) = true
direction_eqb _ _ = false

-- `direction == ValuationDirection.INCREASE`
abbrev pub is_increase : Option ValuationDirection → Bool
is_increase (some increase) = true
is_increase _ = false

-- household/enum.py
pub data HouseholdRole : Type 0 where
  owner_role member_role : HouseholdRole

abbrev pub is_owner_role : HouseholdRole → Bool
is_owner_role owner_role = true
is_owner_role member_role = false

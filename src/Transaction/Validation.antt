-- ===== src/Transaction/Validation.antt =====
-- transaction/service.py: the checks of foreign keys, and the rules that a stored transaction obeys.
use household_back.Base.{
  length, any, dedup, ◌==◌, if◌then◌else◌, is_some, ◌==?◌, ℕ, Bool, true, false, not, ◌||◌, Option,
  none, some, List, [], ◌∷◌,
}
use household_back.Core.{bad_request, not_found, Result, ok, err, ◌>>◌, raise_if}
use household_back.Model.{
  Account, Category, Transaction, TxType, expense, income, transfer, fixed_expense, valuation,
  CategoryKind, expense_kind, income_kind, is_active, is_manual_asset, is_transfer, Db,
}
use household_back.Finders.{find_accounts, find_categories, find_fixed}

abbrev kind_eqb : CategoryKind → CategoryKind → Bool
kind_eqb expense_kind expense_kind = true
kind_eqb income_kind income_kind = true
kind_eqb _ _ = false

-- `_category_kind_matches`
unfoldable pub category_kind_matches : TxType → CategoryKind → Bool
category_kind_matches expense kind = kind_eqb kind expense_kind
category_kind_matches fixed_expense kind = kind_eqb kind expense_kind
category_kind_matches income kind = kind_eqb kind income_kind
category_kind_matches _ kind = true

-- `_validate_fixed_belongs`
unfoldable pub validate_fixed_belongs : ℕ → Option ℕ → Db → Result (Unit {0})
validate_fixed_belongs household_id none db = ok tt
validate_fixed_belongs household_id (some fixed_id) db = elim (find_fixed fixed_id db) [
  | none ↦ err not_found
  | some fixed ↦ raise_if (not (fixed.household_id == household_id)) not_found
]

-- an account or category of another household, or a deleted one
abbrev pub foreign_account : ℕ → Account → Bool
foreign_account household_id a =
    not (a.household_id == household_id) || not (is_active a.data_stat_cd)

abbrev pub foreign_category : ℕ → Category → Bool
foreign_category household_id c =
    not (c.household_id == household_id) || not (is_active c.data_stat_cd)

-- The rule of manual-asset accounts: adjustments go to them alone, spending and income never.
unfoldable pub breaks_manual_rule : Option TxType → Account → Bool
unfolding is_manual_asset
breaks_manual_rule none a = false
breaks_manual_rule (some valuation) a = not (is_manual_asset a.account_type)
breaks_manual_rule (some transfer) a = false
breaks_manual_rule (some _) a = is_manual_asset a.account_type

-- the block on `account_ids`; each loop raises at the first account that fails its test
unfoldable pub check_accounts : ℕ → List ℕ → Option TxType → Db → Result (Unit {0})
unfolding find_accounts breaks_manual_rule
check_accounts household_id account_ids tx_type db =
    let accounts = find_accounts account_ids db in
    do
      raise_if (not (length accounts == length (dedup account_ids))) not_found
      raise_if (any (foreign_account household_id) accounts) not_found
      raise_if (any (breaks_manual_rule tx_type) accounts) bad_request

abbrev kind_mismatch : Option TxType → Category → Bool
kind_mismatch none c = false
kind_mismatch (some t) c = not (category_kind_matches t c.kind)

unfoldable pub check_each_category : ℕ → Option TxType → List Category → Result (Unit {0})
unfolding category_kind_matches
check_each_category household_id tx_type [] = ok tt
check_each_category household_id tx_type (c ∷ cs) = do
  raise_if (foreign_category household_id c) not_found
  raise_if (kind_mismatch tx_type c) bad_request
  check_each_category household_id tx_type cs

-- the block on `category_ids`
unfoldable pub check_categories : ℕ → List ℕ → Option TxType → Db → Result (Unit {0})
unfolding find_categories check_each_category
check_categories household_id category_ids tx_type db =
    let categories = find_categories category_ids db in
    do
      raise_if (not (length categories == length (dedup category_ids))) not_found
      check_each_category household_id tx_type categories

-- `_validate_fk_belong_to_household`; on an empty list of ids each block does nothing
unfoldable pub validate_fk_belong_to_household :
    ℕ → List ℕ → List ℕ → Option TxType → Db → Result (Unit {0})
unfolding check_accounts check_categories
validate_fk_belong_to_household household_id account_ids category_ids tx_type db = do
  check_accounts household_id account_ids tx_type db
  check_categories household_id category_ids tx_type db

-- `_normalize_to_account`
unfoldable pub normalize_to_account : Transaction → Transaction
normalize_to_account tx = record tx {
  to_account_id = if is_transfer tx.tx_type then tx.to_account_id else none;
}

-- `_validate_transfer_consistency`
unfoldable pub validate_transfer_consistency : Transaction → Result (Unit {0})
validate_transfer_consistency tx =
    if is_transfer tx.tx_type
    then raise_if (not (is_some tx.to_account_id) || tx.to_account_id ==? tx.account_id) bad_request
    else ok tt

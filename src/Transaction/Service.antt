-- ===== src/Transaction/Service.antt =====
-- transaction/service.py: create, update, delete, detail and the list. The proofs are in
-- the modules below.
pub mod Consistency
pub mod Isolation
pub mod Effects
pub mod RoundTrip
use household_back.Base.{
  length, take, last?, update_where, ltb, ◌==◌, if◌then◌else◌, or_else, or_option, ℕ, ◌+◌, refl,
  Bool, not, Option, none, some, List, [], ◌∷◌, ◌++◌, map, arith,
}
use household_back.Core.{not_found, Result, ok, err, ◌>>=◌, ◌>>◌, raise_if, Handler}
use household_back.Model.{
  Account, Category, FixedExpense, Transaction, active, deleted, is_active, is_transfer,
  is_valuation, Db,
}
use household_back.Finders.{opt_list}
use household_back.Transaction.Schema.{TransactionCreateRequest, TransactionUpdateRequest}
use household_back.Transaction.Repository.{
  TransactionFilter, TxCursor, find_transaction, cursor_of, list_by_cursor, count_transactions,
}
use household_back.Transaction.Validation.{
  validate_fixed_belongs, validate_fk_belong_to_household, normalize_to_account,
  validate_transfer_consistency,
}
use household_back.Transaction.Response.{
  TransactionResponse, build_response, single_response, load_ledger_maps,
}

-- `TransactionRepository.save` of a new row
abbrev pub save_transaction : Transaction → Db → Db
save_transaction tx db = record db { transactions = db.transactions ++ tx ∷ [] }

-- the UPDATE that `flush` issues for a changed row
abbrev pub put_transaction : Transaction → Db → Db
put_transaction tx db = record db {
  transactions = update_where (λ (t : Transaction). t.id == tx.id) (λ _. tx) db.transactions;
}

-- The row that `create_transaction` builds; `id` and `now` come from uuid4 and the clock.
unfoldable pub new_transaction : ℕ → ℕ → ℕ → ℕ → TransactionCreateRequest → Transaction
new_transaction id now household_id user_id req = record {
  id = id;
  frst_reg_dt = now;
  data_stat_cd = active;
  household_id = household_id;
  tx_type = req.tx_type;
  amount = req.amount;
  tx_date = req.tx_date;
  account_id = req.account_id;
  to_account_id = if is_transfer req.tx_type then req.to_account_id else none;
  category_id = req.category_id;
  paid_by_user_id = some (or_else req.paid_by_user_id user_id);
  fixed_expense_id = req.fixed_expense_id;
  memo = req.memo;
  valuation_direction = if is_valuation req.tx_type then req.valuation_direction else none;
}

unfoldable pub create_transaction :
    ℕ → ℕ → ℕ → ℕ → TransactionCreateRequest → Handler Db TransactionResponse
unfolding validate_fk_belong_to_household validate_fixed_belongs new_transaction single_response
create_transaction id now household_id user_id req db = do
  validate_fk_belong_to_household household_id (req.account_id ∷ opt_list req.to_account_id)
      (opt_list req.category_id) (some req.tx_type) db
  validate_fixed_belongs household_id req.fixed_expense_id db
  let tx = new_transaction id now household_id user_id req
  let db' = save_transaction tx db
  ok (single_response tx db', db')

-- `find_by_id`, then the check of the owner
unfoldable pub owned_transaction : ℕ → ℕ → Db → Result Transaction
unfolding find_transaction
owned_transaction household_id tx_id db = elim (find_transaction tx_id db) [
  | none ↦ err not_found
  | some tx ↦ if tx.household_id == household_id then ok tx else err not_found
]

-- `_validate_update_fks`
unfoldable pub validate_update_fks :
    ℕ → Transaction → TransactionUpdateRequest → Db → Result (Unit {0})
unfolding validate_fk_belong_to_household validate_fixed_belongs
validate_update_fks household_id tx req db = do
  validate_fk_belong_to_household household_id
      (or_else req.account_id tx.account_id
        ∷ opt_list (or_option req.to_account_id tx.to_account_id))
      (opt_list (or_option req.category_id tx.category_id)) (some (or_else req.tx_type tx.tx_type))
      db
  validate_fixed_belongs household_id (or_option req.fixed_expense_id tx.fixed_expense_id) db

-- `_apply_partial_update`
unfoldable pub apply_partial_update : Transaction → TransactionUpdateRequest → Transaction
apply_partial_update tx req = record tx {
  tx_type = or_else req.tx_type tx.tx_type;
  amount = or_else req.amount tx.amount;
  tx_date = or_else req.tx_date tx.tx_date;
  account_id = or_else req.account_id tx.account_id;
  to_account_id = or_option req.to_account_id tx.to_account_id;
  category_id = or_option req.category_id tx.category_id;
  paid_by_user_id = or_option req.paid_by_user_id tx.paid_by_user_id;
  fixed_expense_id = or_option req.fixed_expense_id tx.fixed_expense_id;
  memo = or_option req.memo tx.memo;
  valuation_direction = or_option req.valuation_direction tx.valuation_direction;
}

unfoldable pub update_transaction :
    ℕ → ℕ → TransactionUpdateRequest → Handler Db TransactionResponse
unfolding owned_transaction validate_update_fks apply_partial_update normalize_to_account
    validate_transfer_consistency single_response
update_transaction household_id tx_id req db = do
  tx ← owned_transaction household_id tx_id db
  validate_update_fks household_id tx req db
  let tx' = normalize_to_account (apply_partial_update tx req)
  validate_transfer_consistency tx'
  let db' = put_transaction tx' db
  ok (single_response tx' db', db')

unfoldable pub delete_transaction : ℕ → ℕ → Handler Db (Unit {0})
unfolding owned_transaction
delete_transaction household_id tx_id db = do
  tx ← owned_transaction household_id tx_id db
  ok (tt, put_transaction (record tx { data_stat_cd = deleted }) db)

-- `find_by_id` returns only active rows, so the last test of the source is one more guard
unfoldable pub get_transaction_detail : ℕ → ℕ → Db → Result TransactionResponse
unfolding owned_transaction single_response
get_transaction_detail household_id tx_id db = do
  tx ← owned_transaction household_id tx_id db
  raise_if (not (is_active tx.data_stat_cd)) not_found
  ok (single_response tx db)

pub record TransactionPage (A : Type 0) : Type 0 where
  pub items : List A
  pub next_cursor : Option TxCursor
  pub has_next : Bool
  pub total_count : ℕ

abbrev responses :
    List Transaction → List Account → List Category → List FixedExpense → List TransactionResponse
responses rows accounts categories fixed =
    map (λ r. build_response r accounts categories fixed) rows

abbrev pub opt_cursor : Option Transaction → Option TxCursor
opt_cursor none = none
opt_cursor (some t) = some (cursor_of t)

abbrev pub last_cursor : List Transaction → Option TxCursor
last_cursor rows = opt_cursor (last? rows)

unfoldable pub list_transactions :
    ℕ → TransactionFilter → Option TxCursor → ℕ → Db → TransactionPage TransactionResponse
unfolding list_by_cursor count_transactions load_ledger_maps build_response
list_transactions household_id f cursor limit db =
    let rows = list_by_cursor household_id f cursor limit db in
    let has_next = ltb limit (length rows) in
    let items_rows = take limit rows in
    let maps = load_ledger_maps items_rows db in
    record {
      items = responses items_rows maps.0 maps.1 maps.2;
      next_cursor = if has_next then last_cursor items_rows else none;
      has_next = has_next;
      total_count = count_transactions household_id f db;
    }

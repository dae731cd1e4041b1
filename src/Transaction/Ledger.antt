-- ===== src/Transaction/Ledger.antt =====
-- transaction/service.py: the ledger of one account, with a running balance on each row.
-- The proofs are in the modules below.
pub mod Balance
pub mod Running
pub mod Pages
use household_back.Base.{
  ℤ, ◌+ℤ◌, ◌-ℤ◌, neg_ℤ, length, take, ltb, ◌==◌, if◌then◌else◌, ◌==?◌, ℕ, ◌+◌, ◌-◌, refl, Bool,
  ◌&&◌, Option, none, some, List, [], ◌∷◌, arith,
}
use household_back.Core.{Date, last_day, not_found, Result, ok, err, ◌>>=◌, ◌>>◌}
use household_back.Model.{
  Account, Category, FixedExpense, Transaction, TxType, income, valuation, ValuationDirection,
  is_transfer, is_increase, Db,
}
use household_back.Finders.{find_account}
use household_back.Transaction.Repository.{
  TransactionFilter, TxCursor, month_filter, account_filter, list_by_cursor, count_transactions,
}
use household_back.Transaction.Sums.{Sums, sum_for_account}
use household_back.Transaction.Response.{TransactionResponse, build_response, load_ledger_maps}
use household_back.Transaction.Service.{last_cursor}

-- the last two lines of `_signed_amount`, and its branch on VALUATION
abbrev pub signed_by_type : TxType → Option ValuationDirection → ℤ → ℤ
signed_by_type income direction amount = amount
signed_by_type valuation direction amount = if is_increase direction then amount else neg_ℤ amount
signed_by_type _ direction amount = neg_ℤ amount

-- `_signed_amount`
unfoldable pub signed_amount : ℕ → Transaction → ℤ
signed_amount account_id tx =
    if is_transfer tx.tx_type && tx.to_account_id ==? account_id
    then tx.amount
    else signed_by_type tx.tx_type tx.valuation_direction tx.amount

pub record AccountLedgerItem : Type 0 where
  pub response : TransactionResponse
  pub signed : ℤ
  pub balance_after : ℤ

-- `_build_ledger_items`: the items, and the balance to carry to the next page
unfoldable pub build_ledger_items :
    List Transaction
    → ℕ
    → List Account
    → List Category
    → List FixedExpense
    → ℤ
    → List AccountLedgerItem × ℤ
unfolding signed_amount build_response
build_ledger_items [] account_id accounts categories fixed running = ([], running)
build_ledger_items (r ∷ rows) account_id accounts categories fixed running =
    let signed = signed_amount account_id r in
    let (items, end_balance) =
      build_ledger_items rows account_id accounts categories fixed (running -ℤ signed) in
    (
      record {
        response = build_response r accounts categories fixed;
        signed = signed;
        balance_after = running;
      }
          ∷ items,
      end_balance,
    )

-- the sum in `_ledger_start_balance`, which is also account/service.py's `_cash_flow`
unfoldable pub cash_flow : ℤ → Sums → ℤ
cash_flow start_balance s =
    start_balance +ℤ s.income_sum -ℤ s.expense_sum -ℤ s.transfer_out +ℤ s.transfer_in
    +ℤ s.valuation_net

-- `_ledger_start_balance`
unfoldable pub ledger_start_balance : Account → Option ℤ → Option Date → Db → ℤ
unfolding cash_flow
ledger_start_balance account (some carry) to_date db = carry
ledger_start_balance account none to_date db =
    cash_flow account.start_balance (sum_for_account account.id to_date db)

-- `_ledger_filter`, on the year and month of the request
unfoldable pub ledger_filter : ℕ → Option (ℕ × ℕ) → TransactionFilter × Option Date
unfolding month_filter
ledger_filter account_id none = (account_filter account_id, none)
ledger_filter account_id (some (year, month)) =
    (month_filter (some account_id) year month, some (last_day year month))

-- The ledger's cursor: a row, and the balance carried from the page before.
pub record LedgerCursor : Type 0 where
  pub row : TxCursor
  pub carry : ℤ

pub record AccountLedgerPage : Type 0 where
  pub items : List AccountLedgerItem
  pub next_cursor : Option LedgerCursor
  pub has_next : Bool
  pub total_count : ℕ

abbrev pub cursor_row : Option LedgerCursor → Option TxCursor
cursor_row none = none
cursor_row (some c) = some c.row

abbrev pub cursor_carry : Option LedgerCursor → Option ℤ
cursor_carry none = none
cursor_carry (some c) = some c.carry

abbrev pub with_carry : Option TxCursor → ℤ → Option LedgerCursor
with_carry none carry = none
with_carry (some c) carry = some (record { row = c; carry = carry })

-- the page that is built of the rows of the query and of the start balance
unfoldable pub page_of : Account → List Transaction → ℤ → ℕ → ℕ → Db → AccountLedgerPage
unfolding load_ledger_maps build_ledger_items
page_of account rows start_balance limit total db =
    let has_next = ltb limit (length rows) in
    let items_rows = take limit rows in
    let maps = load_ledger_maps items_rows db in
    let (items, running) =
      build_ledger_items items_rows account.id maps.0 maps.1 maps.2 start_balance in
    record {
      items = items;
      next_cursor = if has_next then with_carry (last_cursor items_rows) running else none;
      has_next = has_next;
      total_count = total;
    }

-- the body of `list_account_ledger` once the account is found
unfoldable pub ledger_page :
    ℕ → Account → Option (ℕ × ℕ) → Option LedgerCursor → ℕ → Db → AccountLedgerPage
unfolding ledger_filter list_by_cursor count_transactions ledger_start_balance page_of
ledger_page household_id account month cursor limit db =
    let (f, balance_to_date) = ledger_filter account.id month in
    page_of account (list_by_cursor household_id f (cursor_row cursor) limit db)
      (ledger_start_balance account (cursor_carry cursor) balance_to_date db) limit
      (count_transactions household_id f db) db

unfoldable pub list_account_ledger :
    ℕ → ℕ → Option LedgerCursor → ℕ → Option (ℕ × ℕ) → Db → Result AccountLedgerPage
unfolding ledger_page find_account
list_account_ledger household_id account_id cursor limit month db =
    elim (find_account account_id db) [
      | none ↦ err not_found
      | some account ↦
          if account.household_id == household_id
          then ok (ledger_page household_id account month cursor limit db)
          else err not_found
    ]

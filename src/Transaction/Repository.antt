-- ===== src/Transaction/Repository.antt =====
-- transaction/repository.py: filters, cursor paging, and the soft deletes of the account cascade.
use household_back.Base.{
  take, select, find, any, update_where, count, order_by, ltb, ◌==◌, if◌then◌else◌, is_some, ◌==?◌,
  ℕ, suc, Bool, true, not, ◌&&◌, ◌||◌, Option, none, some, List,
}
use household_back.Core.{Date, date_ltb, date_eqb, date_leb, first_day, last_day}
use household_back.Model.{
  Account, Transaction, deleted, TxType, is_active, is_transfer, is_income_or_spending, tx_type_eqb,
  Db,
}

pub record TransactionFilter : Type 0 where
  pub tx_type : Option TxType
  pub account_id : Option ℕ
  pub category_id : Option ℕ
  pub from_date : Option Date
  pub to_date : Option Date

-- `TransactionFilter(account_id=…, year=…, month=…)`
unfoldable pub month_filter : Option ℕ → ℕ → ℕ → TransactionFilter
month_filter account_id year month = record {
  tx_type = none;
  account_id = account_id;
  category_id = none;
  from_date = some (first_day year month);
  to_date = some (last_day year month);
}

abbrev pub account_filter : ℕ → TransactionFilter
account_filter account_id = record {
  tx_type = none;
  account_id = some account_id;
  category_id = none;
  from_date = none;
  to_date = none;
}

-- `TransactionRepository.find_by_id`
unfoldable pub find_transaction : ℕ → Db → Option Transaction
find_transaction tx_id db =
    find (λ (t : Transaction). t.id == tx_id && is_active t.data_stat_cd) db.transactions

-- a row that the account takes part in
abbrev pub involves : ℕ → Transaction → Bool
involves account_id t = t.account_id == account_id || t.to_account_id ==? account_id

abbrev type_matches : Option TxType → Transaction → Bool
type_matches none t = true
type_matches (some k) t = tx_type_eqb t.tx_type k

abbrev account_matches : Option ℕ → Transaction → Bool
account_matches none t = true
account_matches (some a) t = involves a t

abbrev category_matches : Option ℕ → Transaction → Bool
category_matches none t = true
category_matches (some c) t = t.category_id ==? c

abbrev from_matches : Option Date → Transaction → Bool
from_matches none t = true
from_matches (some d) t = date_leb d t.tx_date

abbrev pub to_matches : Option Date → Transaction → Bool
to_matches none t = true
to_matches (some d) t = date_leb t.tx_date d

-- `TransactionRepository._build_conditions`
unfoldable pub conditions : ℕ → TransactionFilter → Transaction → Bool
conditions household_id f t =
    t.household_id == household_id
    && (is_active t.data_stat_cd
        && (type_matches f.tx_type t
            && (account_matches f.account_id t
                && (category_matches f.category_id t
                    && (from_matches f.from_date t && to_matches f.to_date t)))))

-- The sort key, which is also what a cursor carries.
pub record TxCursor : Type 0 where
  pub tx_date : Date
  pub frst_reg_dt : ℕ
  pub id : ℕ

abbrev pub cursor_of : Transaction → TxCursor
cursor_of t = record { tx_date = t.tx_date; frst_reg_dt = t.frst_reg_dt; id = t.id }

-- `_cursor_after`: the row comes after the cursor in the descending order.
unfoldable pub cursor_after : TxCursor → Transaction → Bool
cursor_after c t =
    date_ltb t.tx_date c.tx_date
    || (date_eqb t.tx_date c.tx_date
        && (ltb t.frst_reg_dt c.frst_reg_dt || (t.frst_reg_dt == c.frst_reg_dt && ltb t.id c.id)))

abbrev pub cursor_matches : Option TxCursor → Transaction → Bool
cursor_matches none t = true
cursor_matches (some c) t = cursor_after c t

-- ORDER BY tx_date DESC, frst_reg_dt DESC, id DESC
abbrev pub tx_desc : Transaction → Transaction → Bool
tx_desc x y = not (cursor_after (cursor_of y) x)

-- `TransactionRepository.list_by_cursor`
unfoldable pub list_by_cursor : ℕ → TransactionFilter → Option TxCursor → ℕ → Db → List Transaction
unfolding conditions cursor_after
list_by_cursor household_id f cursor limit db = take (suc limit) (
    order_by tx_desc
      (select (λ t. conditions household_id f t && cursor_matches cursor t) db.transactions))

-- `TransactionRepository.count`
unfoldable pub count_transactions : ℕ → TransactionFilter → Db → ℕ
unfolding conditions
count_transactions household_id f db = count (conditions household_id f) db.transactions

abbrev pub delete_tx : Transaction → Transaction
delete_tx t = record t { data_stat_cd = deleted }

-- the WHERE of `soft_delete_solo_by_account_id`
unfoldable pub is_solo_of : ℕ → Transaction → Bool
is_solo_of account_id t =
    t.account_id == account_id
    && (not (is_some t.to_account_id)
        && (is_income_or_spending t.tx_type && is_active t.data_stat_cd))

-- `soft_delete_solo_by_account_id`
unfoldable pub soft_delete_solo : ℕ → Db → Db
unfolding is_solo_of
soft_delete_solo account_id db = record db {
  transactions = update_where (is_solo_of account_id) delete_tx db.transactions;
}

-- the CASE that picks the other account of a transfer
abbrev pub counterparty : ℕ → Transaction → Option ℕ
counterparty account_id t =
    if t.account_id == account_id then t.to_account_id else some t.account_id

-- `exists().where(dead.id == counterparty, dead.data_stat_cd == DELETED)`
abbrev pub is_dead : List Account → Option ℕ → Bool
is_dead accounts peer =
    any (λ (a : Account). peer ==? a.id && not (is_active a.data_stat_cd)) accounts

-- the WHERE of `soft_delete_transfers_with_dead_counterparty`
unfoldable pub is_orphan_transfer : ℕ → List Account → Transaction → Bool
is_orphan_transfer account_id accounts t =
    is_active t.data_stat_cd
    && (is_transfer t.tx_type
        && (involves account_id t && is_dead accounts (counterparty account_id t)))

-- `soft_delete_transfers_with_dead_counterparty`
unfoldable pub soft_delete_orphan_transfers : ℕ → Db → Db
unfolding is_orphan_transfer
soft_delete_orphan_transfers account_id db = record db {
  transactions = update_where (is_orphan_transfer account_id db.accounts) delete_tx db.transactions;
}

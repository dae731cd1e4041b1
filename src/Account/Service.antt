-- ===== src/Account/Service.antt =====
-- account/service.py: create, update, delete, detail and the two lists. `id` and `now` stand for uuid4
-- and the clock.
pub mod Lists
pub mod Cascade
pub mod Closing
use household_back.Base.{
  pos, ◌+ℤ◌, length, take, last?, update_where, ltb, ◌==◌, if◌then◌else◌, or_else, or_option, ℕ,
  ◌+◌, ◌-◌, String, refl, Bool, false, not, ◌&&◌, Option, none, some, List, [], ◌∷◌, ◌++◌, map,
  arith,
}
use household_back.Core.{
  decimal_zero, not_found, account_has_dependents, Result, ok, err, ◌>>=◌, ◌>>◌, raise_if, Handler,
  strip,
}
use household_back.Model.{
  Account, AccountSnapshot, active, deleted, AccountType, real_estate, pension, commodity,
  savings_asset, is_active, is_investment, is_manual_asset, Db,
}
use household_back.Finders.{find_account}
use household_back.Account.Schema.{AccountCreateRequest, AccountUpdateRequest}
use household_back.Account.Repository.{
  AccountFilter, AccountCursor, account_cursor, search_accounts, list_accounts_by_cursor,
  count_accounts, max_sort_order,
}
use household_back.Account.Balance.{
  BalanceSummary, micro, plain_summary, calc_balance, load_balance_sources, build_balance,
}
use household_back.Transaction.Repository.{soft_delete_solo, soft_delete_orphan_transfers}
use household_back.Portfolio.Repository.{
  count_items_by_account, soft_delete_trades, soft_delete_value_histories,
}

pub record AccountResponse : Type 0 where
  pub account : Account
  pub is_manual : Bool
  pub summary : BalanceSummary

-- `_build_response`: the account's own fields, and those of the summary
unfoldable pub account_response : Account → BalanceSummary → AccountResponse
unfolding is_manual_asset
account_response account summary = record {
  account = account;
  is_manual = is_manual_asset account.account_type;
  summary = summary;
}

-- MANUAL_ASSET_DEFAULT_META
unfoldable pub default_meta : AccountType → Option (String × String)
default_meta real_estate = some ("#8B5CF6", "building-estate")
default_meta pension = some ("#EC4899", "pig-money")
default_meta commodity = some ("#F59E0B", "coin")
default_meta savings_asset = some ("#10B981", "wallet")
default_meta _ = none

-- `text or default`: None and the empty text are replaced
abbrev or_default : Option String → String → Option String
or_default none d = some d
or_default (some String.[]) d = some d
or_default (some s) d = some s

abbrev with_default :
    Option (String × String) → Option String × Option String → Option String × Option String
with_default none meta = meta
with_default (some (color, icon)) meta = (or_default meta.0 color, or_default meta.1 icon)

unfoldable pub new_account : ℕ → ℕ → ℕ → AccountCreateRequest → Db → Account
unfolding max_sort_order default_meta strip ◌+ℤ◌
new_account id now household_id req db =
    let meta = with_default (default_meta req.account_type) (req.color, req.icon) in
    record {
      id = id;
      frst_reg_dt = now;
      data_stat_cd = active;
      household_id = household_id;
      name = strip req.name;
      account_type = req.account_type;
      start_balance = req.start_balance;
      color = meta.0;
      icon = meta.1;
      sort_order = or_else req.sort_order (max_sort_order household_id db +ℤ pos 1);
      is_archived = false;
    }

-- the summary of an account that has no rows yet
unfoldable pub opening_summary : Account → BalanceSummary
opening_summary account =
    let balance = micro account.start_balance in
    if is_investment account.account_type
    then record {
      balance = balance;
      cash = some balance;
      portfolio_cost = some (pos 0);
      portfolio_valuation = some (pos 0);
      portfolio_profit_loss = some (pos 0);
      portfolio_profit_loss_rate = some decimal_zero;
    }
    else plain_summary balance

unfoldable pub create_account : ℕ → ℕ → ℕ → AccountCreateRequest → Handler Db AccountResponse
unfolding new_account account_response opening_summary
create_account id now household_id req db =
    let account = new_account id now household_id req db in
    ok (
      account_response account (opening_summary account),
      record db { accounts = db.accounts ++ account ∷ [] },
    )

-- `find_by_id`, then the check of the owner
unfoldable pub owned_account : ℕ → ℕ → Db → Result Account
unfolding find_account
owned_account household_id account_id db = elim (find_account account_id db) [
  | none ↦ err not_found
  | some account ↦ if account.household_id == household_id then ok account else err not_found
]

unfoldable pub edit_account : Account → AccountUpdateRequest → Account
unfolding strip
edit_account account req = record account {
  name = elim req.name [ none ↦ account.name | some name ↦ strip name ];
  account_type = or_else req.account_type account.account_type;
  start_balance = or_else req.start_balance account.start_balance;
  color = or_option req.color account.color;
  icon = or_option req.icon account.icon;
  sort_order = or_else req.sort_order account.sort_order;
  is_archived = or_else req.is_archived account.is_archived;
}

abbrev pub put_account : Account → Db → Db
put_account account db = record db {
  accounts = update_where (λ (a : Account). a.id == account.id) (λ _. account) db.accounts;
}

unfoldable pub update_account : ℕ → ℕ → AccountUpdateRequest → Handler Db AccountResponse
unfolding owned_account edit_account calc_balance account_response
update_account household_id account_id req db = do
  account ← owned_account household_id account_id db
  let account' = edit_account account req
  let db' = put_account account' db
  ok (account_response account' (calc_balance account' db'), db')

-- `AccountSnapshotRepository.soft_delete_by_account_id`
unfoldable pub soft_delete_snapshots : ℕ → Db → Db
soft_delete_snapshots account_id db = record db {
  account_snapshots =
      update_where (λ (s : AccountSnapshot). s.account_id == account_id && is_active s.data_stat_cd)
        (λ s. record s { data_stat_cd = deleted }) db.account_snapshots;
}

-- the soft deletes that precede the account's own
unfoldable pub delete_children : ℕ → Db → Db
unfolding soft_delete_solo soft_delete_orphan_transfers soft_delete_trades
    soft_delete_value_histories soft_delete_snapshots
delete_children account_id db = soft_delete_snapshots account_id (
    soft_delete_value_histories account_id (
      soft_delete_trades account_id
        (soft_delete_orphan_transfers account_id (soft_delete_solo account_id db))))

unfoldable pub delete_account : ℕ → ℕ → Handler Db (Unit {0})
unfolding owned_account count_items_by_account delete_children
delete_account household_id account_id db = do
  account ← owned_account household_id account_id db
  raise_if (ltb 0 (count_items_by_account account_id db)) account_has_dependents
  ok (tt, put_account (record account { data_stat_cd = deleted }) (delete_children account_id db))

-- `find_by_id` returns only active rows, so the last test of the source is one more guard
unfoldable pub get_account_detail : ℕ → ℕ → Db → Result AccountResponse
unfolding owned_account calc_balance account_response
get_account_detail household_id account_id db = do
  account ← owned_account household_id account_id db
  raise_if (not (is_active account.data_stat_cd)) not_found
  ok (account_response account (calc_balance account db))

pub record AccountPage : Type 0 where
  pub items : List AccountResponse
  pub next_cursor : Option AccountCursor
  pub has_next : Bool
  pub total_count : ℕ

-- the batch of responses of both lists
unfoldable pub batch_responses : List Account → Db → List AccountResponse
unfolding load_balance_sources build_balance account_response
batch_responses rows db =
    let sources = load_balance_sources rows db in
    map (λ a. account_response a (build_balance a sources)) rows

abbrev last_account : Option Account → Option AccountCursor
last_account none = none
last_account (some a) = some (account_cursor a)

module _ (ilike : String → String → Bool) where
  unfoldable pub list_accounts : ℕ → AccountFilter → Db → List AccountResponse
  unfolding search_accounts batch_responses
  list_accounts household_id f db = batch_responses (search_accounts ilike household_id f db) db

  unfoldable pub list_accounts_cursor :
      ℕ → AccountFilter → Option AccountCursor → ℕ → Db → AccountPage
  unfolding list_accounts_by_cursor batch_responses count_accounts
  list_accounts_cursor household_id f cursor limit db =
      let rows = list_accounts_by_cursor ilike household_id f cursor limit db in
      let has_next = ltb limit (length rows) in
      record {
        items = batch_responses (take limit rows) db;
        next_cursor = if has_next then last_account (last? (take limit rows)) else none;
        has_next = has_next;
        total_count = count_accounts ilike household_id f db;
      }

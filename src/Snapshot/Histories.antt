-- ===== src/Snapshot/Histories.antt =====
-- The queries on snapshots (account_snapshot/repository.py), and the monthly record of holdings in
-- portfolio/snapshot_service.py.
use household_back.Base.{
  ℤ, ltb_ℤ, eqb_ℤ, select, any, order_by, leb, ◌==◌, if◌then◌else◌, ℕ, String, Bool, not, ◌&&◌,
  ◌||◌, Option, none, some, List, [], ◌∷◌, ◌++◌, map,
}
use household_back.Core.{Date, date_ltb, date_eqb, integer, quantize_cents}
use household_back.Model.{
  Account, PortfolioValueHistory, AccountSnapshot, active, is_active, is_investment, Db,
}
use household_back.Snapshot.Holdings.{
  Holding, Valued, asof_holdings_by_account, value_holdings_at_month, valued_of,
}

-- `uuid4` and the clock for the new rows of one month
pub record Fresh : Type 0 where
  pub snapshot_id : ℕ → ℕ
  pub history_id : ℕ → ℕ → ℕ
  pub now : ℕ

abbrev account_asc : Account → Account → Bool
account_asc x y =
    ltb_ℤ x.sort_order y.sort_order
    || (eqb_ℤ x.sort_order y.sort_order && leb x.frst_reg_dt y.frst_reg_dt)

abbrev pub active_in : ℕ → Account → Bool
active_in household_id a = a.household_id == household_id && is_active a.data_stat_cd

-- `AccountRepository.find_active_by_household_id`
unfoldable pub find_active_accounts : ℕ → Db → List Account
find_active_accounts household_id db =
    order_by account_asc (select (active_in household_id) db.accounts)

-- `Account.household_id == household_id` of the row that a snapshot joins
abbrev pub belongs : ℕ → ℕ → List Account → Bool
belongs household_id account_id accounts =
    any (λ (a : Account). account_id == a.id && a.household_id == household_id) accounts

abbrev pub is_of_month : ℕ → Date → List Account → AccountSnapshot → Bool
is_of_month household_id month accounts s =
    date_eqb s.snapshot_date month
    && (is_active s.data_stat_cd && belongs household_id s.account_id accounts)

-- `AccountSnapshotRepository.has_active_for_month`
unfoldable pub has_active_for_month : ℕ → Date → Db → Bool
has_active_for_month household_id month db =
    any (is_of_month household_id month db.accounts) db.account_snapshots

abbrev earlier : Date → Date → Date
earlier a b = if date_ltb b a then b else a

-- MIN over the rows
abbrev oldest : List AccountSnapshot → Option Date
oldest [] = none
oldest (s ∷ ss) =
    some (elim (oldest ss) [ none ↦ s.snapshot_date | some d ↦ earlier s.snapshot_date d ])

-- `oldest_active_month`
unfoldable pub oldest_active_month : ℕ → Db → Option Date
oldest_active_month household_id db = oldest (
    select
      (λ (s : AccountSnapshot).
        is_active s.data_stat_cd && belongs household_id s.account_id db.accounts)
      db.account_snapshots)

-- `delete_for_household_month` of the account snapshots
unfoldable pub delete_snapshots : ℕ → Date → Db → Db
delete_snapshots household_id month db = record db {
  account_snapshots =
      select
        (λ (s : AccountSnapshot).
          not (belongs household_id s.account_id db.accounts && date_eqb s.snapshot_date month))
        db.account_snapshots;
}

-- `delete_for_household_month` of the value histories
unfoldable pub delete_histories : ℕ → Date → Db → Db
delete_histories household_id month db = record db {
  value_histories =
      select
        (λ (h : PortfolioValueHistory).
          not (h.household_id == household_id && date_eqb h.snapshot_date month))
        db.value_histories;
}

-- an amount of 0.000001 as its column stores it, rounded half away from 0
unfoldable pub in_cents : ℤ → ℤ
unfolding quantize_cents
in_cents amount = quantize_cents (integer amount 6)

abbrev new_history : Fresh → ℕ → ℕ → Date → List (ℕ × Valued) → Holding → PortfolioValueHistory
new_history fresh household_id account_id month valued h = record {
  id = fresh.history_id account_id h.item_id;
  frst_reg_dt = fresh.now;
  data_stat_cd = active;
  household_id = household_id;
  account_id = account_id;
  portfolio_item_id = h.item_id;
  snapshot_date = month;
  quantity = h.quantity;
  avg_price = h.avg_cost;
  current_price = (valued_of h.item_id valued).current_price;
  cost = h.cost;
  valuation = in_cents (valued_of h.item_id valued).valuation;
}

abbrev pub all_holdings : List (ℕ × List Holding) → List Holding
all_holdings [] = []
all_holdings ((a, hs) ∷ rows) = hs ++ all_holdings rows

abbrev new_histories :
    Fresh → ℕ → Date → List (ℕ × Valued) → List (ℕ × List Holding) → List PortfolioValueHistory
new_histories fresh household_id month valued [] = []
new_histories fresh household_id month valued ((a, hs) ∷ rows) =
    map (new_history fresh household_id a month valued) hs
    ++ new_histories fresh household_id month valued rows

module _ (le : String → String → Bool) where
  -- `per_account`
  unfoldable pub holdings_of : List Account → Date → Db → List (ℕ × List Holding)
  unfolding asof_holdings_by_account
  holdings_of [] as_of db = []
  holdings_of (a ∷ accounts) as_of db =
      (a.id, asof_holdings_by_account le a.id as_of db) ∷ holdings_of accounts as_of db

  -- `snapshot_household_portfolio`; no caller reads the list that it returns
  unfoldable pub snapshot_household_portfolio : Fresh → ℕ → Date → Date → Bool → Db → Db
  unfolding delete_histories find_active_accounts value_holdings_at_month holdings_of in_cents
  snapshot_household_portfolio fresh household_id month as_of replace db =
      let db = if replace then delete_histories household_id month db else db in
      let accounts =
        select (λ (a : Account). is_investment a.account_type && not a.is_archived)
          (find_active_accounts household_id db) in
      let rows = holdings_of accounts as_of db in
      let valued = value_holdings_at_month (all_holdings rows) month db in
      record db {
        value_histories = db.value_histories ++ new_histories fresh household_id month valued rows;
      }

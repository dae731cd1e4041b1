-- ===== src/Snapshot/Service.antt =====
-- app/domain/account_snapshot: repository.py, and the making of snapshots in service.py, with
-- portfolio/snapshot_service.py. The prices that the routes collect before are rows already here.
use household_back.Base.{
  ℤ, pos, negsuc, ◌+ℤ◌, neg_ℤ, select, find, any, sum_by, ◌==◌, if◌then◌else◌, or_else, ℕ, zero,
  suc, ◌+◌, String, Bool, true, false, not, ◌&&◌, ◌||◌, Option, none, some, List, [], ◌∷◌, ◌++◌,
  map,
}
use household_back.Core.{Date, date_ltb, date_eqb, last_day, shift_months, ok, Handler}
use household_back.Model.{Account, AccountSnapshot, Household, active, Db}
use household_back.Household.Repository.{find_all_active}
use household_back.Account.Report.{MonthSums, sum_by_account_for_month}
use household_back.Snapshot.Holdings.{balance_on}
use household_back.Snapshot.Histories.{
  Fresh, find_active_accounts, has_active_for_month, oldest_active_month, delete_snapshots,
  in_cents, snapshot_household_portfolio,
}

-- a row of `snapshots` in memory: its balance, in units of 0.000001, is not rounded yet
pub record SnapshotRow : Type 0 where
  pub account_id : ℕ
  pub snapshot_date : Date
  pub balance : ℤ
  pub monthly : MonthSums

-- the row as the table stores it
abbrev pub stored_row : Fresh → SnapshotRow → AccountSnapshot
stored_row fresh r = record {
  id = fresh.snapshot_id r.account_id;
  frst_reg_dt = fresh.now;
  data_stat_cd = active;
  account_id = r.account_id;
  snapshot_date = r.snapshot_date;
  balance = in_cents r.balance;
  monthly_income = r.monthly.income_sum;
  monthly_expense = r.monthly.expense_sum;
  monthly_fixed_expense = r.monthly.fixed_expense_sum;
}

pub record SnapshotMonthBalance : Type 0 where
  pub account_id : ℕ
  pub account_name : String
  pub balance : ℤ
  pub monthly : MonthSums

pub record SnapshotMonth : Type 0 where
  pub snapshot_date : Date
  pub total_balance : ℤ
  pub total_income : ℤ
  pub total_expense : ℤ
  pub total_fixed_expense : ℤ
  pub accounts : List SnapshotMonthBalance

-- `a.name if a else "(삭제됨)"`
abbrev name_or_deleted : Option Account → String
name_or_deleted none = "(삭제됨)"
name_or_deleted (some a) = a.name

abbrev pub month_balance : List Account → SnapshotRow → SnapshotMonthBalance
month_balance accounts r = record {
  account_id = r.account_id;
  account_name = name_or_deleted (find (λ (a : Account). a.id == r.account_id) accounts);
  balance = r.balance;
  monthly = r.monthly;
}

-- `_build_month`
unfoldable pub build_month : Date → List SnapshotRow → List Account → SnapshotMonth
unfolding ◌+ℤ◌
build_month month rows accounts = record {
  snapshot_date = month;
  total_balance = sum_by (λ (r : SnapshotRow). r.balance) rows;
  total_income = sum_by (λ (r : SnapshotRow). r.monthly.income_sum) rows;
  total_expense = sum_by (λ (r : SnapshotRow). r.monthly.expense_sum) rows;
  total_fixed_expense = sum_by (λ (r : SnapshotRow). r.monthly.fixed_expense_sum) rows;
  accounts = map (month_balance accounts) rows;
}

-- `a for a in … if not a.is_archived`
abbrev pub open_accounts : ℕ → Db → List Account
open_accounts household_id db =
    select (λ (a : Account). not a.is_archived) (find_active_accounts household_id db)

abbrev pub delete_if : Bool → ℕ → Date → Db → Db
delete_if replace household_id month db =
    if replace then delete_snapshots household_id month db else db

abbrev pub save_all : Fresh → List SnapshotRow → Db → Db
save_all fresh rows db = record db {
  account_snapshots = db.account_snapshots ++ map (stored_row fresh) rows;
}

module _ (le : String → String → Bool) where
  unfoldable pub snapshot_row : Date → Db → Account → SnapshotRow
  unfolding balance_on sum_by_account_for_month
  snapshot_row month db a = record {
    account_id = a.id;
    snapshot_date = month;
    balance = (balance_on le a (last_day month.year month.month) db).balance;
    monthly = sum_by_account_for_month a.id month.year month.month db;
  }

  -- what follows the DELETE of `_build_and_save_snapshot`, from the accounts that are not archived
  unfoldable pub snapshot_accounts :
      Fresh → ℕ → Date → Bool → Db → List Account → SnapshotMonth × Db
  unfolding snapshot_row snapshot_household_portfolio build_month last_day in_cents
  snapshot_accounts fresh household_id month replace db [] = (
    build_month month [] [],
    if replace
        then snapshot_household_portfolio le fresh household_id month
            (last_day month.year month.month) true db
        else db,
  )
  snapshot_accounts fresh household_id month replace db (a ∷ accounts) =
      let rows = map (snapshot_row month db) (a ∷ accounts) in
      (
        build_month month rows (a ∷ accounts),
        snapshot_household_portfolio le fresh household_id month (last_day month.year month.month)
            replace (save_all fresh rows db),
      )

  -- `_build_and_save_snapshot`
  unfoldable pub build_and_save_snapshot : Fresh → ℕ → Date → Bool → Db → SnapshotMonth × Db
  unfolding delete_snapshots find_active_accounts snapshot_accounts
  build_and_save_snapshot fresh household_id month replace db =
      let left = delete_if replace household_id month db in
      snapshot_accounts fresh household_id month replace left (open_accounts household_id left)

  -- `create_target_month_snapshot`, after it has collected the prices
  unfoldable pub create_target_month_snapshot : Fresh → ℕ → Date → Handler Db SnapshotMonth
  unfolding has_active_for_month build_and_save_snapshot
  create_target_month_snapshot fresh household_id target db = ok (
      build_and_save_snapshot fresh household_id target
        (has_active_for_month household_id target db) db)

abbrev pub has_accounts : SnapshotMonth → Bool
has_accounts m = elim m.accounts [ [] ↦ false | _ ∷ _ ↦ true ]

abbrev pub month_in : Date → List Date → Bool
month_in d months = any (date_eqb d) months

-- `[_shift_months(target_date, -i) for i in range(SNAPSHOT_CATCHUP_MONTHS)]`
unfoldable pub months_back : Date → ℕ → ℕ → List Date
unfolding shift_months neg_ℤ
months_back target i zero = []
months_back target i (suc n) = shift_months target (neg_ℤ (pos i)) ∷ months_back target (suc i) n

-- `SNAPSHOT_CATCHUP_MONTHS`
abbrev pub snapshot_catchup_months : ℕ
snapshot_catchup_months = 12

unfoldable pub upsert_months : Date → List Date
unfolding shift_months
upsert_months target = target ∷ shift_months target (negsuc 0) ∷ []

-- the two tests that `continue` with the next month
abbrev pub is_skipped : Date → ℕ → Date → Date → Db → Bool
is_skipped target household_id catchup_floor month db =
    date_ltb month catchup_floor
    || (has_active_for_month household_id month db && not (month_in month (upsert_months target)))

module _ (le : String → String → Bool) (fresh : ℕ → Date → Fresh) (target : Date) where
  -- The body of the inner loop: the number of snapshots that it counts, and the database.
  unfoldable pub snapshot_step : ℕ → Date → Date → Db → ℕ × Db
  unfolding has_active_for_month build_and_save_snapshot upsert_months
  snapshot_step household_id catchup_floor month db =
      let exists = has_active_for_month household_id month db in
      if is_skipped target household_id catchup_floor month db
      then (0, db)
      else let made =
          build_and_save_snapshot le (fresh household_id month) household_id month exists db in
        (if has_accounts made.0 then 1 else 0, made.1)

  unfoldable pub snapshot_months : ℕ → Date → List Date → Db → ℕ × Db
  unfolding snapshot_step
  snapshot_months household_id catchup_floor [] db = (0, db)
  snapshot_months household_id catchup_floor (month ∷ months) db =
      let first = snapshot_step household_id catchup_floor month db in
      let later = snapshot_months household_id catchup_floor months first.1 in
      (first.0 + later.0, later.1)

  unfoldable pub snapshot_households : List Household → Db → ℕ × Db
  unfolding snapshot_months oldest_active_month months_back
  snapshot_households [] db = (0, db)
  snapshot_households (h ∷ hs) db =
      let first =
        snapshot_months h.id (or_else (oldest_active_month h.id db) target)
          (months_back target 0 snapshot_catchup_months) db in
      let later = snapshot_households hs first.1 in (first.0 + later.0, later.1)

  -- `create_monthly_snapshots_for_all`, after it has collected the prices
  unfoldable pub create_monthly_snapshots_for_all : Handler Db ℕ
  unfolding snapshot_households find_all_active
  create_monthly_snapshots_for_all db = ok (snapshot_households (find_all_active db) db)

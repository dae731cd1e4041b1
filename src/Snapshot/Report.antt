-- ===== src/Snapshot/Report.antt =====
-- account_snapshot/service.py: the yearly report, which reads the stored snapshots.
use household_back.Base.{
  negsuc, select, order_by, dedup, if◌then◌else◌, ℕ, Bool, ◌&&◌, Option, none, some, List, [], ◌∷◌,
  ◌++◌, map,
}
use household_back.Core.{Date, date_eqb, date_leb, month_first, shift_months}
use household_back.Model.{AccountSnapshot, is_active, Db}
use household_back.Finders.{find_accounts}
use household_back.Account.Balance.{micro}
use household_back.Snapshot.Histories.{belongs, has_active_for_month}
use household_back.Snapshot.Service.{SnapshotRow, SnapshotMonth, build_month}

-- `resolve_snapshot_range`
unfoldable pub resolve_snapshot_range : Option Date → Option Date → Date → Date × Date
unfolding shift_months
resolve_snapshot_range from_date to_date today =
    let to_resolved : Date = elim to_date [
      | none ↦ shift_months (month_first today) (negsuc 0)
      | some d ↦ month_first d
    ] in
    (
      elim from_date [ none ↦ shift_months to_resolved (negsuc 10) | some d ↦ month_first d ],
      to_resolved,
    )

abbrev snapshot_asc : AccountSnapshot → AccountSnapshot → Bool
snapshot_asc x y = date_leb x.snapshot_date y.snapshot_date

-- `AccountSnapshotRepository.find_by_household_and_range`
unfoldable pub find_by_household_and_range : ℕ → Date → Date → Db → List AccountSnapshot
find_by_household_and_range household_id from_date to_date db = order_by snapshot_asc (
    select
      (λ (s : AccountSnapshot).
        belongs household_id s.account_id db.accounts
        && (is_active s.data_stat_cd
            && (date_leb from_date s.snapshot_date && date_leb s.snapshot_date to_date)))
      db.account_snapshots)

-- a stored row as `_build_month` reads it
abbrev pub read_row : AccountSnapshot → SnapshotRow
read_row s = record {
  account_id = s.account_id;
  snapshot_date = s.snapshot_date;
  balance = micro s.balance;
  monthly = record {
    income_sum = s.monthly_income;
    expense_sum = s.monthly_expense;
    fixed_expense_sum = s.monthly_fixed_expense;
  };
}

-- `months_grouped.setdefault(s.snapshot_date, []).append(s)`
abbrev pub add_to_month :
    AccountSnapshot → List (Date × List AccountSnapshot) → List (Date × List AccountSnapshot)
add_to_month s [] = (s.snapshot_date, s ∷ []) ∷ []
add_to_month s ((d, rows) ∷ months) =
    if date_eqb d s.snapshot_date
    then (d, rows ++ s ∷ []) ∷ months
    else (d, rows) ∷ add_to_month s months

abbrev pub group_months :
    List AccountSnapshot → List (Date × List AccountSnapshot) → List (Date × List AccountSnapshot)
group_months [] months = months
group_months (s ∷ ss) months = group_months ss (add_to_month s months)

abbrev month_asc : Date × List AccountSnapshot → Date × List AccountSnapshot → Bool
month_asc x y = date_leb x.0 y.0

pub record SnapshotYearlyResponse : Type 0 where
  pub months : List SnapshotMonth
  pub target_month_saved : Bool
  pub target_month_date : Date

-- `get_yearly_snapshots`
unfoldable pub get_yearly_snapshots :
    ℕ → Option Date → Option Date → Date → Db → SnapshotYearlyResponse
unfolding resolve_snapshot_range find_by_household_and_range find_accounts build_month
    has_active_for_month shift_months
get_yearly_snapshots household_id from_date to_date today db =
    let target_month = shift_months (month_first today) (negsuc 0) in
    let range = resolve_snapshot_range from_date to_date today in
    let rows = find_by_household_and_range household_id range.0 range.1 db in
    let accounts = find_accounts (dedup (map (λ (s : AccountSnapshot). s.account_id) rows)) db in
    record {
      months =
          map (λ (m : Date × List AccountSnapshot). build_month m.0 (map read_row m.1) accounts)
            (order_by month_asc (group_months rows []));
      target_month_saved = has_active_for_month household_id target_month db;
      target_month_date = target_month;
    }

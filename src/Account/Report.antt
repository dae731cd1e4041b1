-- ===== src/Account/Report.antt =====
-- account/service.py: the monthly report of one account, with the snapshots that it reads
-- (account_snapshot/repository.py) and the sums of the running month (transaction/repository.py).
pub mod Months
use household_back.Base.{
  ℤ, pos, negsuc, ◌+ℤ◌, select, any, order_by, group_sum, ◌==◌, if◌then◌else◌, or_else, ℕ, ◌+◌,
  String, refl, Bool, not, ◌&&◌, Option, List, [], ◌∷◌, ◌++◌, map, arith,
}
use household_back.Core.{
  Date, date_eqb, date_leb, month_first, month_of, shift_months, not_found, Result, ok, raise_if,
  ◌>>=◌, ◌>>◌,
}
use household_back.Model.{
  Transaction, AccountSnapshot, AccountType, TxType, expense, income, fixed_expense, is_active,
  is_income_or_spending, tx_type_eqb, Db,
}
use household_back.Account.Balance.{calc_balance, micro}
use household_back.Account.Service.{owned_account}

-- `_report_range`
unfoldable pub report_range : Option Date → Option Date → Date → Date × Date
unfolding shift_months
report_range from_date to_date this_month_first =
    let to_resolved = or_else to_date this_month_first in
    (or_else from_date (shift_months to_resolved (negsuc 10)), to_resolved)

abbrev snapshot_asc : AccountSnapshot → AccountSnapshot → Bool
snapshot_asc x y = date_leb x.snapshot_date y.snapshot_date

-- `AccountSnapshotRepository.find_by_account_and_range`
unfoldable pub find_snapshots : ℕ → Date → Date → Db → List AccountSnapshot
find_snapshots account_id from_date to_date db = order_by snapshot_asc (
    select
      (λ (s : AccountSnapshot).
        s.account_id == account_id
        && (is_active s.data_stat_cd
            && (date_leb from_date s.snapshot_date && date_leb s.snapshot_date to_date)))
      db.account_snapshots)

-- the dict of three sums
pub record MonthSums : Type 0 where
  pub income_sum : ℤ
  pub expense_sum : ℤ
  pub fixed_expense_sum : ℤ

abbrev pub zero_month : MonthSums
zero_month = record { income_sum = pos 0; expense_sum = pos 0; fixed_expense_sum = pos 0 }

-- `sums[key_map[tx_type]] += total`; the WHERE leaves only the three types
abbrev pub add_month : TxType → ℤ → MonthSums → MonthSums
add_month income total s = record s { income_sum = s.income_sum +ℤ total }
add_month expense total s = record s { expense_sum = s.expense_sum +ℤ total }
add_month fixed_expense total s = record s { fixed_expense_sum = s.fixed_expense_sum +ℤ total }
add_month _ total s = s

unfoldable pub add_months : List (TxType × ℤ) → MonthSums → MonthSums
add_months [] s = s
add_months ((kind, total) ∷ rows) s = add_months rows (add_month kind total s)

-- the WHERE of `sum_by_account_for_month`
abbrev pub in_month : ℕ → ℕ → ℕ → Transaction → Bool
in_month account_id year month t =
    t.account_id == account_id
    && (is_active t.data_stat_cd
        && (is_income_or_spending t.tx_type && month_of year month t.tx_date))

-- `TransactionRepository.sum_by_account_for_month`
unfoldable pub sum_by_account_for_month : ℕ → ℕ → ℕ → Db → MonthSums
unfolding add_months
sum_by_account_for_month account_id year month db =
    add_months
      (group_sum tx_type_eqb (λ (t : Transaction). t.tx_type) (λ (t : Transaction). t.amount)
        (select (in_month account_id year month) db.transactions))
      zero_month

-- Amounts of a flow are in units of 0.01, its balance in units of 0.000001.
pub record AccountMonthlyFlow : Type 0 where
  pub month_date : Date
  pub income_flow : ℤ
  pub expense_flow : ℤ
  pub fixed_expense_flow : ℤ
  pub balance : ℤ

-- `_snapshot_to_flow`
unfoldable pub snapshot_to_flow : AccountSnapshot → AccountMonthlyFlow
snapshot_to_flow s = record {
  month_date = s.snapshot_date;
  income_flow = s.monthly_income;
  expense_flow = s.monthly_expense;
  fixed_expense_flow = s.monthly_fixed_expense;
  balance = micro s.balance;
}

-- `_current_month_flow`
unfoldable pub current_month_flow : ℕ → Date → ℤ → Db → AccountMonthlyFlow
unfolding sum_by_account_for_month
current_month_flow account_id today balance db =
    let m = sum_by_account_for_month account_id today.year today.month db in
    record {
      month_date = month_first today;
      income_flow = m.income_sum;
      expense_flow = m.expense_sum;
      fixed_expense_flow = m.fixed_expense_sum;
      balance = balance;
    }

pub record AccountReportResponse : Type 0 where
  pub account_id : ℕ
  pub account_name : String
  pub account_type : AccountType
  pub balance : ℤ
  pub monthly_flows : List AccountMonthlyFlow

-- the condition on which the running month is added
abbrev pub needs_current : Date → Date → List AccountSnapshot → Bool
needs_current to_date this_month_first snaps =
    date_leb this_month_first to_date
    && not (any (λ (s : AccountSnapshot). date_eqb s.snapshot_date this_month_first) snaps)

-- `today` is the date in Seoul. The test of the status is one more guard, as in the detail.
unfoldable pub get_account_report :
    ℕ → ℕ → Option Date → Option Date → Date → Db → Result AccountReportResponse
unfolding owned_account report_range find_snapshots snapshot_to_flow calc_balance current_month_flow
get_account_report household_id account_id from_date to_date today db = do
  account ← owned_account household_id account_id db
  raise_if (not (is_active account.data_stat_cd)) not_found
  let range = report_range from_date to_date (month_first today)
  let snaps = find_snapshots account_id range.0 range.1 db
  let summary = calc_balance account db
  ok (record {
    account_id = account.id;
    account_name = account.name;
    account_type = account.account_type;
    balance = summary.balance;
    monthly_flows =
        map snapshot_to_flow snaps
        ++ (if needs_current range.1 (month_first today) snaps
            then current_month_flow account_id today summary.balance db ∷ []
            else []);
  })

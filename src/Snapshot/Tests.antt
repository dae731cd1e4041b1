-- ===== src/Snapshot/Tests.antt =====
-- Snapshots of concrete accounts.
use mathlib.Core.Path.{subst}
use household_back.Base.{
  pos, ◌+ℤ◌, All, if◌then◌else◌, ℕ, suc, ◌+◌, ◌*◌, ◌≤◌, String, ◌≡◌, refl, sym, Bool, true, false,
  none, some, [], ◌∷◌, arith,
}
use household_back.Core.{Date, ok}
use household_back.Model.{Account, AccountSnapshot, Household, active, nasdaq, Db}
use household_back.Paging.{Distinct}
use household_back.Samples.{jan, broker_account, household_db}
use household_back.Account.Balance.{micro, BalanceSummary}
use household_back.Snapshot.Holdings.{
  Holding, asof_holdings_by_account, investment_balance_on, balance_on,
}
use household_back.Snapshot.Histories.{holdings_of, all_holdings, Fresh, has_active_for_month}
use household_back.Snapshot.Report.{get_yearly_snapshots}
use household_back.Account.Report.{zero_month}
use household_back.Snapshot.Service.{
  upsert_months, snapshot_households, create_monthly_snapshots_for_all,
}
use household_back.Snapshot.Months.{active_at, IsSingle}
use household_back.Snapshot.Single.{create_monthly_snapshots_for_all-IsSingle}
use household_back.Snapshot.Prices.{item_of}
use household_back.Snapshot.Valuation.{balance_from, investment_balance_on-value_holdings_at_month}
use household_back.Snapshot.Apart.{rows_of}
use household_back.Snapshot.Kept.{create_monthly_snapshots_for_all_past}

abbrev any_order : String → String → Bool
any_order a b = true

abbrev fresh_ids : ℕ → Date → Fresh
fresh_ids household_id month = record {
  snapshot_id = λ account_id. account_id + month.month * 100;
  history_id = λ account_id item_id. item_id + month.month * 100;
  now = 90;
}

abbrev december : Date
december = record { year = 2025; month = 12; day = 1 }

abbrev february : Date
february = record { year = 2026; month = 2; day = 1 }

abbrev old_snapshot : AccountSnapshot
old_snapshot = record {
  id = 61;
  frst_reg_dt = 61;
  data_stat_cd = active;
  account_id = 1;
  snapshot_date = december;
  balance = pos 9000;
  monthly_income = pos 0;
  monthly_expense = pos 0;
  monthly_fixed_expense = pos 0;
}

abbrev home : Household
home = record {
  id = 7;
  frst_reg_dt = 7;
  data_stat_cd = active;
  name = "home";
  description = none;
  owner_id = 5;
  currency = "KRW";
  started_at = december;
}

-- shares bought on January 5 at 10.00, and worth 12.00 in January
abbrev priced_db : Db
priced_db = record household_db {
  households = home ∷ [];
  account_snapshots = old_snapshot ∷ [];
  market_prices =
      record {
        id = 71;
        frst_reg_dt = 71;
        data_stat_cd = active;
        code = "S";
        market = nasdaq;
        price_date = jan 1;
        price = pos 1200;
      }
      ∷ [];
}

abbrev january_balance : BalanceSummary
unfolding balance_on
january_balance = balance_on any_order broker_account (jan 31) priced_db

balance_test :
    (january_balance.cash ≡ some (pos 60000000)) × (january_balance.balance ≡ pos 108000000)
unfolding january_balance balance_on micro
balance_test = (refl, refl)

abbrev held : Holding
held = record {
  item_id = 31;
  code = "S";
  market = nasdaq;
  quantity = 40000;
  avg_cost = pos 1000;
  cost = pos 4000;
}

held_test :
    all_holdings (holdings_of any_order (broker_account ∷ []) (jan 31) priced_db) ≡ held ∷ []
unfolding holdings_of asof_holdings_by_account ◌+ℤ◌
held_test = refl

abbrev monthly_run : ℕ × Db
unfolding snapshot_households
monthly_run = snapshot_households any_order fresh_ids february (home ∷ []) priced_db

-- December is kept, January and February are made
run_test : monthly_run.0 ≡ 2
unfolding monthly_run snapshot_households
run_test = refl

run_is_ok : create_monthly_snapshots_for_all any_order fresh_ids february priced_db ≡ ok monthly_run
unfolding create_monthly_snapshots_for_all monthly_run
run_is_ok = refl

at_most : (b : Bool) → (if b then suc 0 else 0) ≤ 1
at_most true = omega arith
at_most false = omega arith

priced_db-IsSingle : IsSingle priced_db
priced_db-IsSingle = (
  ((refl, (refl, tt)), ((refl, tt), (tt, tt))),
  λ account_id month. at_most (active_at account_id month old_snapshot),
)

create_monthly_snapshots_for_all-IsSingle_example : IsSingle monthly_run.1
create_monthly_snapshots_for_all-IsSingle_example =
    create_monthly_snapshots_for_all-IsSingle any_order fresh_ids february priced_db monthly_run
      priced_db-IsSingle run_is_ok

create_monthly_snapshots_for_all_past_example :
    rows_of 7 december monthly_run.1 ≡ rows_of 7 december priced_db
unfolding has_active_for_month upsert_months
create_monthly_snapshots_for_all_past_example =
    create_monthly_snapshots_for_all_past any_order fresh_ids february 7 december priced_db
      monthly_run priced_db-IsSingle.0 refl refl run_is_ok

investment_balance_on-value_holdings_at_month_example :
    All
      (λ (a : Account).
        (investment_balance_on any_order a (jan 31) priced_db).balance
        ≡ balance_from any_order (jan 31) priced_db (broker_account ∷ []) a)
      (broker_account ∷ [])
investment_balance_on-value_holdings_at_month_example =
    investment_balance_on-value_holdings_at_month any_order (jan 31) priced_db (broker_account ∷ [])
      (subst (λ hs. Distinct item_of hs) (sym held_test) (tt, tt))

-- the December snapshot is in the report of the year before February 2026
report_test :
    get_yearly_snapshots 7 none none (record { year = 2026; month = 2; day = 9 }) priced_db
    ≡ record {
      months =
          record {
            snapshot_date = december;
            total_balance = pos 90000000;
            total_income = pos 0;
            total_expense = pos 0;
            total_fixed_expense = pos 0;
            accounts =
                record {
                  account_id = 1;
                  account_name = "wallet";
                  balance = pos 90000000;
                  monthly = zero_month;
                }
                ∷ [];
          }
          ∷ [];
      target_month_saved = false;
      target_month_date = jan 1;
    }
unfolding get_yearly_snapshots micro
report_test = refl

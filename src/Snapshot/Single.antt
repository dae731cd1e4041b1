-- ===== src/Snapshot/Single.antt =====
-- app/domain/account_snapshot/service.py: the number of snapshots that an account has for a month.
use mathlib.Core.Path.{subst}
use household_back.Base.{
  if◌then◌else◌, Bool-cases, or_else, ℕ, String, ◌≡◌, refl, inl, inr, Bool, true, false, List, [],
  ◌∷◌, map, arith,
}
use household_back.Core.{Date, last_day, ok, ok-injective}
use household_back.Model.{Account, Household, Db}
use household_back.Household.Repository.{find_all_active}
use household_back.Snapshot.Histories.{
  Fresh, has_active_for_month, oldest_active_month, delete_snapshots, delete_histories,
  snapshot_household_portfolio,
}
use household_back.Snapshot.Service.{
  open_accounts, delete_if, save_all, snapshot_row, snapshot_accounts, is_skipped,
  build_and_save_snapshot, months_back, snapshot_catchup_months, snapshot_step, snapshot_months,
  snapshot_households, create_monthly_snapshots_for_all,
}
use household_back.Snapshot.Months.{IsSingle, left_count_le, save_all-IsSingle}

-- The portfolio part touches neither accounts nor snapshots.
snapshot_household_portfolio-IsSingle :
    (le : String → String → Bool) (fresh : Fresh) (household_id : ℕ) (month as_of : Date)
    (replace : Bool) (db : Db)
    → IsSingle db
    → IsSingle (snapshot_household_portfolio le fresh household_id month as_of replace db)
unfolding snapshot_household_portfolio delete_histories
snapshot_household_portfolio-IsSingle le fresh household_id month as_of true db h = h
snapshot_household_portfolio-IsSingle le fresh household_id month as_of false db h = h

delete_if-IsSingle :
    (replace : Bool) (household_id : ℕ) (month : Date) (db : Db)
    → IsSingle db
    → IsSingle (delete_if replace household_id month db)
unfolding delete_snapshots
delete_if-IsSingle true household_id month db h = (
  h.0,
  λ account_id m.
      omega (arith, left_count_le household_id month db account_id m true, h.1 account_id m),
)
delete_if-IsSingle false household_id month db h = h

module _ (le : String → String → Bool) (fresh : Fresh) (household_id : ℕ) (month : Date) (db : Db)
    (h : IsSingle db) where
  abbrev exists : Bool
  exists = has_active_for_month household_id month db

  abbrev base : Db
  base = delete_if exists household_id month db

  emptied-IsSingle :
      (replace : Bool)
      → IsSingle (
          if replace
          then snapshot_household_portfolio le fresh household_id month
              (last_day month.year month.month)
              true
              base
          else base)
  emptied-IsSingle true =
      snapshot_household_portfolio-IsSingle le fresh household_id month _ true base
        (delete_if-IsSingle exists household_id month db h)
  emptied-IsSingle false = delete_if-IsSingle exists household_id month db h

  snapshot_accounts-IsSingle :
      (accounts : List Account)
      → open_accounts household_id base ≡ accounts
      → IsSingle (snapshot_accounts le fresh household_id month exists base accounts).1
  unfolding snapshot_accounts
  snapshot_accounts-IsSingle [] e = emptied-IsSingle exists
  snapshot_accounts-IsSingle (a ∷ accounts) e =
      snapshot_household_portfolio-IsSingle le fresh household_id month
        (last_day month.year month.month) exists
        (save_all fresh (map (snapshot_row le month base) (a ∷ accounts)) base)
        (subst (λ l. IsSingle (save_all fresh (map (snapshot_row le month base) l) base)) e
          (save_all-IsSingle le fresh household_id month db h))

  pub build_and_save_snapshot-IsSingle :
      IsSingle
        (build_and_save_snapshot le fresh household_id month
          (has_active_for_month household_id month db)
          db).1
  unfolding build_and_save_snapshot
  build_and_save_snapshot-IsSingle =
      snapshot_accounts-IsSingle (open_accounts household_id base) refl

module _ (le : String → String → Bool) (fresh : ℕ → Date → Fresh) (target : Date) where
  snapshot_step-IsSingle :
      (household_id : ℕ) (catchup_floor month : Date) (db : Db)
      → IsSingle db
      → IsSingle (snapshot_step le fresh target household_id catchup_floor month db).1
  unfolding snapshot_step
  snapshot_step-IsSingle household_id catchup_floor month db h =
      elim (Bool-cases (is_skipped target household_id catchup_floor month db)) [
        | inl e ↦ rw e h
        | inr e ↦
            rw e (
              build_and_save_snapshot-IsSingle le (fresh household_id month) household_id month db
                h)
      ]

  snapshot_months-IsSingle :
      (household_id : ℕ) (catchup_floor : Date) (months : List Date) (db : Db)
      → IsSingle db
      → IsSingle (snapshot_months le fresh target household_id catchup_floor months db).1
  unfolding snapshot_months
  snapshot_months-IsSingle household_id catchup_floor [] db h = h
  snapshot_months-IsSingle household_id catchup_floor (month ∷ months) db h =
      snapshot_months-IsSingle household_id catchup_floor months _
        (snapshot_step-IsSingle household_id catchup_floor month db h)

  snapshot_households-IsSingle :
      (households : List Household) (db : Db)
      → IsSingle db
      → IsSingle (snapshot_households le fresh target households db).1
  unfolding snapshot_households
  snapshot_households-IsSingle [] db h = h
  snapshot_households-IsSingle (x ∷ xs) db h = snapshot_households-IsSingle xs _ (
      snapshot_months-IsSingle x.id (or_else (oldest_active_month x.id db) target)
        (months_back target 0 snapshot_catchup_months) db h)

  -- The monthly run keeps that accounts have primary keys and that no account has two active
  -- snapshots for one month, whichever months it makes, makes again or skips.
  pub create_monthly_snapshots_for_all-IsSingle :
      (db : Db) (done : ℕ × Db)
      → IsSingle db
      → create_monthly_snapshots_for_all le fresh target db ≡ ok done
      → IsSingle done.1
  unfolding create_monthly_snapshots_for_all
  create_monthly_snapshots_for_all-IsSingle db done h e =
      subst (λ r. IsSingle r.1) (ok-injective e)
        (snapshot_households-IsSingle (find_all_active db) db h)

-- ===== src/Snapshot/Kept.antt =====
-- app/domain/account_snapshot/service.py: the monthly run and the months that it skips.
use mathlib.Core.Path.{subst}
use household_back.Base.{
  All, any, ◌==◌, ==_iff, Bool-cases, or_else, ℕ, String, ◌≡◌, refl, sym, ap, ◌∙◌, inl, inr, Bool,
  true, false, not, ◌&&◌, ◌||◌, List, [], ◌∷◌, map, arith,
}
use household_back.Core.{Date, date_eqb, last_day, ok, ok-injective}
use household_back.Model.{Account, AccountSnapshot, Household, is_active, Db}
use household_back.Paging.{Distinct}
use household_back.Household.Repository.{find_all_active}
use household_back.Snapshot.Histories.{
  Fresh, belongs, is_of_month, has_active_for_month, oldest_active_month, delete_histories,
  snapshot_household_portfolio,
}
use household_back.Snapshot.Service.{
  open_accounts, delete_if, save_all, snapshot_row, snapshot_accounts, build_and_save_snapshot,
  month_in, months_back, snapshot_catchup_months, upsert_months, is_skipped, snapshot_step,
  snapshot_months, snapshot_households, create_monthly_snapshots_for_all,
}
use household_back.Snapshot.Months.{open_accounts-belongs, delete_if-accounts}
use household_back.Snapshot.Apart.{
  rows_of, any-select, date_eqb-eq, IsKept, IsKept-trans, delete_if-IsKept, save_all-IsKept,
}

snapshot_household_portfolio-IsKept :
    (household_id : ℕ) (month : Date) (le : String → String → Bool) (fresh : Fresh) (maker : ℕ)
    (made as_of : Date) (replace : Bool) (db : Db)
    → IsKept household_id month db
        (snapshot_household_portfolio le fresh maker made as_of replace db)
unfolding snapshot_household_portfolio delete_histories
snapshot_household_portfolio-IsKept household_id month le fresh maker made as_of true db =
    (refl, refl)
snapshot_household_portfolio-IsKept household_id month le fresh maker made as_of false db =
    (refl, refl)

module _ (household_id : ℕ) (month : Date) (le : String → String → Bool) where
  snapshot_accounts-IsKept :
      (fresh : Fresh) (maker : ℕ) (made : Date) (replace : Bool) (db : Db) (accounts : List Account)
      → Distinct (λ (a : Account). a.id) db.accounts
      → (maker == household_id && date_eqb made month) ≡ false
      → All (λ (a : Account). belongs maker a.id db.accounts ≡ true) accounts
      → IsKept household_id month db (snapshot_accounts le fresh maker made replace db accounts).1
  unfolding snapshot_accounts
  snapshot_accounts-IsKept fresh maker made true db [] d apart h =
      snapshot_household_portfolio-IsKept household_id month le fresh maker made
        (last_day made.year made.month) true db
  snapshot_accounts-IsKept fresh maker made false db [] d apart h = (refl, refl)
  snapshot_accounts-IsKept fresh maker made replace db (a ∷ accounts) d apart h =
      let saved = save_all fresh (map (snapshot_row le made db) (a ∷ accounts)) db in
      IsKept-trans household_id month db saved
        (snapshot_household_portfolio le fresh maker made (last_day made.year made.month) replace
          saved)
        (save_all-IsKept household_id month maker made db d apart le fresh db (a ∷ accounts) h)
        (snapshot_household_portfolio-IsKept household_id month le fresh maker made
          (last_day made.year made.month) replace saved)

  build_and_save_snapshot-IsKept :
      (fresh : Fresh) (maker : ℕ) (made : Date) (replace : Bool) (db : Db)
      → Distinct (λ (a : Account). a.id) db.accounts
      → (maker == household_id && date_eqb made month) ≡ false
      → IsKept household_id month db (build_and_save_snapshot le fresh maker made replace db).1
  unfolding build_and_save_snapshot
  build_and_save_snapshot-IsKept fresh maker made replace db d apart =
      let left = delete_if replace maker made db in
      IsKept-trans household_id month db left
        (snapshot_accounts le fresh maker made replace left (open_accounts maker left)).1
        (delete_if-IsKept household_id month maker made db d apart replace)
        (snapshot_accounts-IsKept fresh maker made replace left (open_accounts maker left)
          (subst (λ accounts. Distinct (λ (a : Account). a.id) accounts)
            (sym (delete_if-accounts replace maker made db)) d)
          apart (open_accounts-belongs maker left))

-- A month of the household that is over: it has snapshots, and the run does not make it again.
abbrev pub IsPast : Date → ℕ → Date → Db → Type 0
IsPast target household_id month db =
    Distinct (λ (a : Account). a.id) db.accounts
    × ((has_active_for_month household_id month db ≡ true)
        × (month_in month (upsert_months target) ≡ false))

IsPast-IsKept :
    (target : Date) (household_id : ℕ) (month : Date) (db db' : Db)
    → IsPast target household_id month db
    → IsKept household_id month db db'
    → IsPast target household_id month db'
unfolding has_active_for_month
IsPast-IsKept target household_id month db db' h k = (
  subst (λ accounts. Distinct (λ (a : Account). a.id) accounts) (sym k.0) h.0,
  (
    any_rows db' ∙ (ap (any (λ s. is_active s.data_stat_cd)) k.1 ∙ (sym (any_rows db) ∙ h.1.0)),
    h.1.1,
  ),
)
  where
    any_rows :
        (at : Db)
        → any (is_of_month household_id month at.accounts) at.account_snapshots
          ≡ any (λ (s : AccountSnapshot). is_active s.data_stat_cd) (rows_of household_id month at)
    any_rows at =
        any-select (λ (s : AccountSnapshot). date_eqb s.snapshot_date month)
          (λ s. is_active s.data_stat_cd) (λ s. belongs household_id s.account_id at.accounts)
          at.account_snapshots

module _ (le : String → String → Bool) (fresh : ℕ → Date → Fresh) (target : Date) (household_id : ℕ)
    (month : Date) where
  skipped :
      (maker : ℕ) (catchup_floor made : Date) (db : Db)
      → IsPast target household_id month db
      → (maker == household_id && date_eqb made month) ≡ true
      → is_skipped target maker catchup_floor made db ≡ true
  skipped maker catchup_floor made db h same =
      let p = both_of _ _ same in
      subst (λ k. is_skipped target k catchup_floor made db ≡ true)
        (sym ((==_iff maker household_id).0 p.0))
        (subst (λ m. is_skipped target household_id catchup_floor m db ≡ true)
          (sym (date_eqb-eq made month p.1)) (rw (h.1.0, h.1.1) (or_true _)))
    where
      both_of : (x y : Bool) → (x && y) ≡ true → (x ≡ true) × (y ≡ true)
      both_of true true h = (refl, refl)
      both_of true false h = cc
      both_of false y h = cc

      or_true : (x : Bool) → (x || (true && not false)) ≡ true
      or_true x = ground arith

  snapshot_step-IsKept :
      (maker : ℕ) (catchup_floor made : Date) (db : Db)
      → IsPast target household_id month db
      → IsKept household_id month db (snapshot_step le fresh target maker catchup_floor made db).1
  unfolding snapshot_step
  snapshot_step-IsKept maker catchup_floor made db h =
      elim (Bool-cases (maker == household_id && date_eqb made month)) [
        | inl same ↦ rw (skipped maker catchup_floor made db h same) (refl, refl)
        | inr apart ↦ elim (Bool-cases (is_skipped target maker catchup_floor made db)) [
          | inl e ↦ rw e (refl, refl)
          | inr e ↦ rw e (
              build_and_save_snapshot-IsKept household_id month le (fresh maker made) maker made
                (has_active_for_month maker made db) db h.0 apart)
        ]
      ]

  snapshot_months-IsKept :
      (maker : ℕ) (catchup_floor : Date) (months : List Date) (db : Db)
      → IsPast target household_id month db
      → IsKept household_id month db
          (snapshot_months le fresh target maker catchup_floor months db).1
  unfolding snapshot_months
  snapshot_months-IsKept maker catchup_floor [] db h = (refl, refl)
  snapshot_months-IsKept maker catchup_floor (made ∷ months) db h =
      let next = (snapshot_step le fresh target maker catchup_floor made db).1 in
      let k = snapshot_step-IsKept maker catchup_floor made db h in
      IsKept-trans household_id month db next
        (snapshot_months le fresh target maker catchup_floor months next).1 k
        (snapshot_months-IsKept maker catchup_floor months next
          (IsPast-IsKept target household_id month db next h k))

  snapshot_households-IsKept :
      (households : List Household) (db : Db)
      → IsPast target household_id month db
      → IsKept household_id month db (snapshot_households le fresh target households db).1
  unfolding snapshot_households
  snapshot_households-IsKept [] db h = (refl, refl)
  snapshot_households-IsKept (x ∷ xs) db h =
      let next =
        (snapshot_months le fresh target x.id (or_else (oldest_active_month x.id db) target)
          (months_back target 0 snapshot_catchup_months) db).1 in
      let k =
        snapshot_months-IsKept x.id (or_else (oldest_active_month x.id db) target)
          (months_back target 0 snapshot_catchup_months) db h in
      IsKept-trans household_id month db next (snapshot_households le fresh target xs next).1 k
        (snapshot_households-IsKept xs next (IsPast-IsKept target household_id month db next h k))

  -- With primary keys of accounts, if a household has an active snapshot for a month that is not
  -- one of the two that the monthly run makes again, the run leaves its snapshots for that month
  -- unchanged.
  pub create_monthly_snapshots_for_all_past :
      (db : Db) (done : ℕ × Db)
      → Distinct (λ (a : Account). a.id) db.accounts
      → has_active_for_month household_id month db ≡ true
      → month_in month (upsert_months target) ≡ false
      → create_monthly_snapshots_for_all le fresh target db ≡ ok done
      → rows_of household_id month done.1 ≡ rows_of household_id month db
  unfolding create_monthly_snapshots_for_all
  create_monthly_snapshots_for_all_past db done d exists past e =
      subst (λ r. rows_of household_id month r.1 ≡ rows_of household_id month db) (ok-injective e)
        (snapshot_households-IsKept (find_all_active db) db (d, (exists, past))).1

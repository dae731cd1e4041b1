-- ===== src/Snapshot/Months.antt =====
-- app/domain/account_snapshot/service.py: the snapshots of one month before and after it is made.
use mathlib.Core.Path.{subst}
use household_back.Base.{
  All, count, ◌==◌, ==_iff, Bool-cases, ℕ, ◌+◌, ◌≤◌, String, ◌≡◌, refl, sym, ◌⊎◌, inl, inr, Bool,
  true, false, ◌&&◌, List, [], ◌∷◌, map, arith,
}
use household_back.Core.{Date, date_eqb}
use household_back.Model.{Account, AccountSnapshot, is_active, Db}
use household_back.Paging.{
  Distinct, All-select, All-map, All-order_by, Distinct-select, Distinct-order_by,
}
use household_back.Snapshot.Histories.{
  Fresh, active_in, find_active_accounts, belongs, is_of_month, has_active_for_month,
  delete_snapshots,
}
use household_back.Snapshot.Service.{stored_row, open_accounts, delete_if, save_all, snapshot_row}
use household_back.Snapshot.Scans.{
  count-++, count-select_le, count-select_none, count-any, select-All, any_own, date_eqb_trans,
}

-- an active snapshot of the account for the month
abbrev pub active_at : ℕ → Date → AccountSnapshot → Bool
active_at account_id month s =
    s.account_id == account_id && (date_eqb s.snapshot_date month && is_active s.data_stat_cd)

-- Accounts have primary keys, and no account has two active snapshots for one month.
abbrev pub IsSingle : Db → Type 0
IsSingle db =
    Distinct (λ (a : Account). a.id) db.accounts
    × ((account_id : ℕ) (month : Date)
        → count (active_at account_id month) db.account_snapshots ≤ 1)

belongs_own :
    (household_id : ℕ) (accounts : List Account)
    → All
        (λ (a : Account).
          active_in household_id a ≡ true → belongs household_id a.id accounts ≡ true)
        accounts
belongs_own household_id accounts =
    any_own (λ a b. a.id == b.id && b.household_id == household_id)
      (λ a. active_in household_id a ≡ true) own accounts
  where
    own :
        (a : Account)
        → active_in household_id a ≡ true
        → (a.id == a.id && a.household_id == household_id) ≡ true
    own a h = ground arith

pub open_accounts-belongs :
    (household_id : ℕ) (db : Db)
    → All
        (λ (a : Account). belongs household_id a.id db.accounts ≡ true)
        (open_accounts household_id db)
unfolding find_active_accounts
open_accounts-belongs household_id db =
    All-select _ _ _
      (All-order_by _ _ _ (select-All _ _ db.accounts (belongs_own household_id db.accounts)))

open_accounts-Distinct :
    (household_id : ℕ) (db : Db)
    → Distinct (λ (a : Account). a.id) db.accounts
    → Distinct (λ (a : Account). a.id) (open_accounts household_id db)
unfolding find_active_accounts
open_accounts-Distinct household_id db h =
    Distinct-select _ _ _ (Distinct-order_by _ _ _ (Distinct-select _ _ _ h))

same_apart : (a b c : ℕ) → (a == b) ≡ true → (a == c) ≡ false → (b == c) ≡ false
same_apart a b c h k = ground arith

both_true : (x y : Bool) → (x && (y && true)) ≡ true → (x ≡ true) × (y ≡ true)
both_true true true h = (refl, refl)
both_true true false h = cc
both_true false y h = cc

-- What one month adds.
module _ (le : String → String → Bool) (fresh : Fresh) (made : Date) (db : Db) (account_id : ℕ)
    (month : Date) where
  abbrev new_rows : List Account → List AccountSnapshot
  new_rows accounts = map (stored_row fresh) (map (snapshot_row le made db) accounts)

  abbrev new_count : List Account → ℕ
  new_count accounts = count (active_at account_id month) (new_rows accounts)

  abbrev new_hit : Account → Bool
  new_hit a = active_at account_id month (stored_row fresh (snapshot_row le made db a))

  new_count_none :
      (accounts : List Account)
      → All (λ (a : Account). (account_id == a.id) ≡ false) accounts
      → new_count accounts ≡ 0
  unfolding snapshot_row
  new_count_none [] h = refl
  new_count_none (a ∷ accounts) h = ground (arith, h.0, new_count_none accounts h.1)

  new_count_le :
      (accounts : List Account) → Distinct (λ (a : Account). a.id) accounts → new_count accounts ≤ 1
  unfolding snapshot_row
  new_count_le [] h = omega arith
  new_count_le (a ∷ accounts) h = elim (Bool-cases (new_hit a)) [
    | inl e ↦ rw e (
        omega (
          arith,
          new_count_none accounts (
              All-map _ _ (λ b differs. same_apart a.id account_id b.id (both_true _ _ e).0 differs)
                accounts h.0),
        ))
    | inr e ↦ rw e (new_count_le accounts h.1)
  ]

  new_count_cases :
      (household_id : ℕ) (accounts : List Account)
      → All (λ (a : Account). belongs household_id a.id db.accounts ≡ true) accounts
      → (new_count accounts ≡ 0)
        ⊎ ((date_eqb made month ≡ true) × (belongs household_id account_id db.accounts ≡ true))
  unfolding snapshot_row
  new_count_cases household_id [] h = inl refl
  new_count_cases household_id (a ∷ accounts) h = elim (Bool-cases (new_hit a)) [
    | inl e ↦ inr (
      (both_true _ _ e).1,
      subst (λ k. belongs household_id k db.accounts ≡ true)
          ((==_iff a.id account_id).0 (both_true _ _ e).0) h.0,
    )
    | inr e ↦ rw e (new_count_cases household_id accounts h.1)
  ]

-- A hit at the month that is made is a row that the test and the DELETE of that month see.
seen :
    (household_id account_id : ℕ) (made month : Date) (accounts : List Account)
    (s : AccountSnapshot)
    → date_eqb made month ≡ true
    → belongs household_id account_id accounts ≡ true
    → active_at account_id month s ≡ true
    → (date_eqb s.snapshot_date made ≡ true)
      × ((is_active s.data_stat_cd ≡ true) × (belongs household_id s.account_id accounts ≡ true))
seen household_id account_id made month accounts s same here hit =
    let p = parts _ _ _ hit in
    (
      date_eqb_trans made month s.snapshot_date same p.1.0,
      (
        p.1.1,
        subst (λ k. belongs household_id k accounts ≡ true)
            (sym ((==_iff s.account_id account_id).0 p.0)) here,
      ),
    )
  where
    parts : (x y z : Bool) → (x && (y && z)) ≡ true → (x ≡ true) × ((y ≡ true) × (z ≡ true))
    parts true true true h = (refl, (refl, refl))
    parts true true false h = cc
    parts true false z h = cc
    parts false y z h = cc

-- What is left of the month before the new rows are added.
module _ (household_id : ℕ) (made : Date) (db : Db) (account_id : ℕ) (month : Date) where
  abbrev left_count : Bool → ℕ
  left_count replace =
      count (active_at account_id month) (delete_if replace household_id made db).account_snapshots

  pub left_count_le :
      (replace : Bool)
      → left_count replace ≤ count (active_at account_id month) db.account_snapshots
  unfolding delete_snapshots
  left_count_le true = count-select_le (active_at account_id month) _ db.account_snapshots
  left_count_le false = omega arith

  left_count_none :
      (replace : Bool)
      → has_active_for_month household_id made db ≡ replace
      → date_eqb made month ≡ true
      → belongs household_id account_id db.accounts ≡ true
      → left_count replace ≡ 0
  unfolding delete_snapshots has_active_for_month
  left_count_none true e same here =
      count-select_none (active_at account_id month) _ db.account_snapshots (λ s hit.
        let p = seen household_id account_id made month db.accounts s same here hit in
        rw (p.0, p.1.1) refl)
  left_count_none false e same here =
      count-any (active_at account_id month) (is_of_month household_id made db.accounts)
        db.account_snapshots
        (λ s hit.
          let p = seen household_id account_id made month db.accounts s same here hit in
          rw (p.0, p.1.0, p.1.1) refl)
        e

pub delete_if-accounts :
    (replace : Bool) (household_id : ℕ) (month : Date) (db : Db)
    → (delete_if replace household_id month db).accounts ≡ db.accounts
unfolding delete_snapshots
delete_if-accounts true household_id month db = refl
delete_if-accounts false household_id month db = refl

one_left :
    (old left added : ℕ)
    → left ≤ old
    → old ≤ 1
    → added ≤ 1
    → (added ≡ 0) ⊎ (left ≡ 0)
    → left + added ≤ 1
one_left old left added h k l (inl e) = omega arith
one_left old left added h k l (inr e) = omega arith

-- The month with its new rows.
pub save_all-IsSingle :
    (le : String → String → Bool) (fresh : Fresh) (household_id : ℕ) (made : Date) (db : Db)
    → IsSingle db
    → IsSingle (
        let base = delete_if (has_active_for_month household_id made db) household_id made db in
        save_all fresh (map (snapshot_row le made base) (open_accounts household_id base)) base)
save_all-IsSingle le fresh household_id made db h = (
  subst (λ accounts. Distinct (λ (a : Account). a.id) accounts) (sym kept) h.0,
  λ account_id month.
      let base = delete_if (has_active_for_month household_id made db) household_id made db in
      let opens = open_accounts household_id base in
      let exists = has_active_for_month household_id made db in
      rw
        (count-++ (active_at account_id month) base.account_snapshots
          (map (stored_row fresh) (map (snapshot_row le made base) opens)))
        (one_left (count (active_at account_id month) db.account_snapshots)
          (left_count household_id made db account_id month exists)
          (new_count le fresh made base account_id month opens)
          (left_count_le household_id made db account_id month exists) (h.1 account_id month)
          (new_count_le le fresh made base account_id month opens (
            open_accounts-Distinct household_id base
              (subst (λ accounts. Distinct (λ (a : Account). a.id) accounts) (sym kept) h.0)))
          (elim (new_count_cases le fresh made base account_id month household_id opens
            (open_accounts-belongs household_id base)) [
              | inl e ↦ inl e
              | inr (same, here) ↦ inr (
                  left_count_none household_id made db account_id month exists refl same
                    (subst (λ accounts. belongs household_id account_id accounts ≡ true) kept here))
            ])),
)
  where
    kept :
        (delete_if (has_active_for_month household_id made db) household_id made db).accounts
        ≡ db.accounts
    kept = delete_if-accounts (has_active_for_month household_id made db) household_id made db

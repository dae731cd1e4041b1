-- ===== src/Household/Closed.antt =====
-- household/service.py: the rows of a closed household, and the rows of all others.
use household_back.Base.{
  All, select, update_where, ◌==◌, if◌then◌else◌, ℕ, ◌≡◌, refl, ap, ◌∙◌, Bool, true, false, not,
  ◌&&◌, List, [], ◌∷◌, arith,
}
use household_back.Model.{
  Account, Category, FixedExpense, Transaction, PortfolioItem, PortfolioTransaction,
  PortfolioValueHistory, Household, HouseholdMember, DataStatus, is_active, Db,
}
use household_back.Keys.{All-every, All-update_cases}

-- no active row of the household
abbrev pub Dead : {Row : Type 0} → (Row → ℕ) → (Row → DataStatus) → ℕ → Row → Type 0
Dead household_of status_of household_id r =
    (household_of r == household_id) ≡ true → is_active (status_of r) ≡ false

abbrev pub outside : {Row : Type 0} → (Row → ℕ) → ℕ → Row → Bool
outside household_of household_id r = not (household_of r == household_id)

-- One UPDATE of the cascade.
module _ {Row : Type 0} (household_of : Row → ℕ) (status_of : Row → DataStatus) (mark : Row → Row)
    (household_id : ℕ) where
  abbrev marked : List Row → List Row
  marked rows =
      update_where (λ r. household_of r == household_id && is_active (status_of r)) mark rows

  pub rows-Dead :
      (rows : List Row)
      → ((r : Row) → is_active (status_of (mark r)) ≡ false)
      → All (Dead household_of status_of household_id) (marked rows)
  rows-Dead rows off = All-update_cases (Dead household_of status_of household_id) _ mark rows (
      All-every _ rows (λ r.
        ((λ _ _. off r), λ missed here. left_over (household_of r == household_id) _ here missed)))
    where
      left_over : (a b : Bool) → a ≡ true → (a && b) ≡ false → b ≡ false
      left_over a b h k = ground arith

  pub rows_outside :
      (rows : List Row)
      → ((r : Row) → household_of (mark r) ≡ household_of r)
      → select (outside household_of household_id) (marked rows)
        ≡ select (outside household_of household_id) rows
  rows_outside [] same = refl
  rows_outside (r ∷ rows) same =
      by_test (rows_outside rows same) (household_of r == household_id && is_active (status_of r))
        refl
    where
      inside : (a b : Bool) → (a && b) ≡ true → not a ≡ false
      inside a b h = ground arith

      skipped :
          (x : Row) (xs ys : List Row)
          → outside household_of household_id x ≡ false
          → outside household_of household_id r ≡ false
          → select (outside household_of household_id) xs
            ≡ select (outside household_of household_id) ys
          → select (outside household_of household_id) (x ∷ xs)
            ≡ select (outside household_of household_id) (r ∷ ys)
      skipped x xs ys e k t = rw (e, k) t

      by_test :
          select (outside household_of household_id) (marked rows)
            ≡ select (outside household_of household_id) rows
          → (b : Bool) → (household_of r == household_id && is_active (status_of r)) ≡ b
          → select (outside household_of household_id) ((if b then mark r else r) ∷ marked rows)
            ≡ select (outside household_of household_id) (r ∷ rows)
      by_test t true e =
          let k = inside (household_of r == household_id) _ e in
          skipped (mark r) (marked rows) rows (ap (λ n. not (n == household_id)) (same r) ∙ k) k t
      by_test t false e = ap (λ l. if outside household_of household_id r then r ∷ l else l) t

-- What a deleted household has left: no active row in any table.
pub record IsClosed (household_id : ℕ) (db : Db) : Type 0 where
  pub accounts :
      All (Dead (λ (r : Account). r.household_id) (λ r. r.data_stat_cd) household_id) db.accounts
  pub categories :
      All (Dead (λ (r : Category). r.household_id) (λ r. r.data_stat_cd) household_id) db.categories
  pub transactions :
      All
        (Dead (λ (r : Transaction). r.household_id) (λ r. r.data_stat_cd) household_id)
        db.transactions
  pub items :
      All (Dead (λ (r : PortfolioItem). r.household_id) (λ r. r.data_stat_cd) household_id) db.items
  pub trades :
      All
        (Dead (λ (r : PortfolioTransaction). r.household_id) (λ r. r.data_stat_cd) household_id)
        db.portfolio_transactions
  pub histories :
      All
        (Dead (λ (r : PortfolioValueHistory). r.household_id) (λ r. r.data_stat_cd) household_id)
        db.value_histories
  pub fixed :
      All
        (Dead (λ (r : FixedExpense). r.household_id) (λ r. r.data_stat_cd) household_id)
        db.fixed_expenses
  pub members :
      All
        (Dead (λ (r : HouseholdMember). r.household_id) (λ r. r.data_stat_cd) household_id)
        db.household_members
  pub households :
      All (Dead (λ (r : Household). r.id) (λ r. r.data_stat_cd) household_id) db.households

-- The rows of all other households, in two databases.
pub record SameOutside (household_id : ℕ) (d db : Db) : Type 0 where
  pub accounts :
      select (outside (λ (r : Account). r.household_id) household_id) d.accounts
      ≡ select (outside (λ (r : Account). r.household_id) household_id) db.accounts
  pub categories :
      select (outside (λ (r : Category). r.household_id) household_id) d.categories
      ≡ select (outside (λ (r : Category). r.household_id) household_id) db.categories
  pub transactions :
      select (outside (λ (r : Transaction). r.household_id) household_id) d.transactions
      ≡ select (outside (λ (r : Transaction). r.household_id) household_id) db.transactions
  pub items :
      select (outside (λ (r : PortfolioItem). r.household_id) household_id) d.items
      ≡ select (outside (λ (r : PortfolioItem). r.household_id) household_id) db.items
  pub trades :
      select
        (outside (λ (r : PortfolioTransaction). r.household_id) household_id)
        d.portfolio_transactions
      ≡ select
          (outside (λ (r : PortfolioTransaction). r.household_id) household_id)
          db.portfolio_transactions
  pub histories :
      select
        (outside (λ (r : PortfolioValueHistory). r.household_id) household_id)
        d.value_histories
      ≡ select
          (outside (λ (r : PortfolioValueHistory). r.household_id) household_id)
          db.value_histories
  pub fixed :
      select (outside (λ (r : FixedExpense). r.household_id) household_id) d.fixed_expenses
      ≡ select (outside (λ (r : FixedExpense). r.household_id) household_id) db.fixed_expenses
  pub members :
      select (outside (λ (r : HouseholdMember). r.household_id) household_id) d.household_members
      ≡ select (outside (λ (r : HouseholdMember). r.household_id) household_id) db.household_members
  pub households :
      select (outside (λ (r : Household). r.id) household_id) d.households
      ≡ select (outside (λ (r : Household). r.id) household_id) db.households

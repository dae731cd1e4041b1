-- ===== src/Finders.antt =====
-- The lookups by id of the account, category and fixed-expense repositories
-- (app/domain/*/repository.py). `find_by_ids` has no status filter, so soft-deleted rows are found.
use household_back.Base.{select, find, elem, ◌==◌, ℕ, ◌&&◌, Option, none, some, List, [], ◌∷◌}
use household_back.Model.{Account, Category, FixedExpense, is_active, Db}

-- `AccountRepository.find_by_id`
unfoldable pub find_account : ℕ → Db → Option Account
find_account account_id db =
    find (λ (a : Account). a.id == account_id && is_active a.data_stat_cd) db.accounts

-- `AccountRepository.find_by_ids`
unfoldable pub find_accounts : List ℕ → Db → List Account
find_accounts ids db = select (λ (a : Account). elem a.id ids) db.accounts

-- `CategoryRepository.find_by_ids`
unfoldable pub find_categories : List ℕ → Db → List Category
find_categories ids db = select (λ (c : Category). elem c.id ids) db.categories

-- `FixedRepository.find_by_id`
unfoldable pub find_fixed : ℕ → Db → Option FixedExpense
find_fixed fixed_id db =
    find (λ (f : FixedExpense). f.id == fixed_id && is_active f.data_stat_cd) db.fixed_expenses

-- `FixedRepository.find_by_ids`
unfoldable pub find_fixed_expenses : List ℕ → Db → List FixedExpense
find_fixed_expenses ids db = select (λ (f : FixedExpense). elem f.id ids) db.fixed_expenses

-- the list of a nullable id
abbrev pub opt_list : Option ℕ → List ℕ
opt_list none = []
opt_list (some a) = a ∷ []

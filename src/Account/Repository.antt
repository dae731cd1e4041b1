-- ===== src/Account/Repository.antt =====
-- account/repository.py: the searches and their order. `ilike` is PostgreSQL's case-insensitive
-- pattern match, a parameter: it takes the term and the name.
use household_back.Base.{
  ℤ, pos, ltb_ℤ, eqb_ℤ, take, select, count, order_by, ltb, leb, ◌==◌, if◌then◌else◌, or_else, ℕ,
  suc, String, Bool, true, false, not, ◌&&◌, ◌||◌, Option, none, some, List, [], ◌∷◌,
}
use household_back.Core.{strip}
use household_back.Model.{
  Account, AccountType, living, savings, investment, real_estate, pension, commodity, savings_asset,
  other, is_active, Db,
}

pub record AccountFilter : Type 0 where
  pub search_term : Option String
  pub account_type : Option AccountType
  pub is_archived : Option Bool

abbrev pub no_filter : AccountFilter
no_filter = record { search_term = none; account_type = none; is_archived = none }

abbrev account_type_eqb : AccountType → AccountType → Bool
account_type_eqb living living = true
account_type_eqb savings savings = true
account_type_eqb investment investment = true
account_type_eqb real_estate real_estate = true
account_type_eqb pension pension = true
account_type_eqb commodity commodity = true
account_type_eqb savings_asset savings_asset = true
account_type_eqb other other = true
account_type_eqb _ _ = false

abbrev bool_eqb : Bool → Bool → Bool
bool_eqb true b = b
bool_eqb false b = not b

-- the sort key of the list, which is also what a cursor carries
pub record AccountCursor : Type 0 where
  pub frst_reg_dt : ℕ
  pub id : ℕ

abbrev pub account_cursor : Account → AccountCursor
account_cursor a = record { frst_reg_dt = a.frst_reg_dt; id = a.id }

-- `_cursor_after`
unfoldable pub account_after : AccountCursor → Account → Bool
account_after c a =
    ltb a.frst_reg_dt c.frst_reg_dt || (a.frst_reg_dt == c.frst_reg_dt && ltb a.id c.id)

abbrev pub account_cursor_matches : Option AccountCursor → Account → Bool
unfolding account_after
account_cursor_matches none a = true
account_cursor_matches (some c) a = account_after c a

-- ORDER BY sort_order, frst_reg_dt
abbrev account_asc : Account → Account → Bool
account_asc x y =
    ltb_ℤ x.sort_order y.sort_order
    || (eqb_ℤ x.sort_order y.sort_order && leb x.frst_reg_dt y.frst_reg_dt)

-- ORDER BY frst_reg_dt DESC, id DESC
abbrev pub account_desc : Account → Account → Bool
account_desc x y = not (account_after (account_cursor y) x)

module _ (ilike : String → String → Bool) where
  -- an empty term is no condition
  abbrev term_matches : Option String → Account → Bool
  term_matches none a = true
  term_matches (some String.[]) a = true
  term_matches (some term) a = ilike (strip term) a.name

  abbrev account_type_matches : Option AccountType → Account → Bool
  account_type_matches none a = true
  account_type_matches (some k) a = account_type_eqb a.account_type k

  abbrev archived_matches : Option Bool → Account → Bool
  archived_matches none a = true
  archived_matches (some b) a = bool_eqb a.is_archived b

  -- `_build_search_conditions`
  unfoldable pub search_conditions : ℕ → AccountFilter → Account → Bool
  search_conditions household_id f a =
      a.household_id == household_id
      && (is_active a.data_stat_cd
          && (term_matches f.search_term a
              && (account_type_matches f.account_type a && archived_matches f.is_archived a)))

  -- `search_by_household_id`
  unfoldable pub search_accounts : ℕ → AccountFilter → Db → List Account
  unfolding search_conditions
  search_accounts household_id f db =
      order_by account_asc (select (search_conditions household_id f) db.accounts)

  -- `list_by_cursor`
  unfoldable pub list_accounts_by_cursor :
      ℕ → AccountFilter → Option AccountCursor → ℕ → Db → List Account
  unfolding search_conditions account_after
  list_accounts_by_cursor household_id f cursor limit db = take (suc limit) (
      order_by account_desc (
        select (λ a. search_conditions household_id f a && account_cursor_matches cursor a)
          db.accounts))

  -- `count_search`
  unfoldable pub count_accounts : ℕ → AccountFilter → Db → ℕ
  unfolding search_conditions
  count_accounts household_id f db = count (search_conditions household_id f) db.accounts

abbrev max_ℤ : ℤ → ℤ → ℤ
max_ℤ a b = if ltb_ℤ a b then b else a

-- MAX over the rows that pass
abbrev max_of : (Account → Bool) → List Account → Option ℤ
max_of p [] = none
max_of p (a ∷ accounts) =
    let rest = max_of p accounts in
    if p a then some (elim rest [ none ↦ a.sort_order | some m ↦ max_ℤ a.sort_order m ]) else rest

-- `max_sort_order`; the source reads a maximum of 0 as no value, which is 0 too
unfoldable pub max_sort_order : ℕ → Db → ℤ
max_sort_order household_id db =
    or_else
      (max_of (λ (a : Account). a.household_id == household_id && is_active a.data_stat_cd)
        db.accounts)
      (pos 0)

-- ===== src/Fixed/Service.antt =====
-- app/domain/fixed: schema.py, repository.py and service.py, and the monthly sum of
-- transaction/repository.py. `id` and `now` stand for uuid4 and the clock, `ilike` for PostgreSQL's
-- pattern match.
use household_back.Base.{
  ℤ, pos, ◌+ℤ◌, select, update_where, order_by, group_sum, ◌==◌, if◌then◌else◌, is_some, or_else,
  or_option, ℕ, String, Bool, true, false, not, ◌&&◌, ◌||◌, Option, none, some, List, [], ◌∷◌, ◌++◌,
  map,
}
use household_back.Core.{
  month_of, not_found, Result, err, ok, raise_if, ◌>>=◌, ◌>>◌, Handler, strip,
}
use household_back.Model.{
  Category, FixedExpense, Transaction, active, deleted, TxType, expense, fixed_expense, is_active,
  Db,
}
use household_back.Finders.{find_categories, find_fixed, opt_list}
use household_back.Transaction.Response.{category_by_id}
use household_back.Listing.{RowCursor, Page, by_sort_order, term_passes, flag_passes, cursor_page}
use household_back.Fixed.Schema.{
  FixedFilter, FixedCreateRequest, FixedUpdateRequest, fixed_columns, max_fixed_order,
}

pub record FixedResponse : Type 0 where
  pub id : ℕ
  pub household_id : ℕ
  pub name : String
  pub day_of_month : ℤ
  pub category_id : Option ℕ
  pub category_name : Option String
  pub category_color : Option String
  pub category_icon : Option String
  pub color : Option String
  pub icon : Option String
  pub sort_order : ℤ
  pub is_archived : Bool

abbrev label_name : Option Category → Option String
label_name none = none
label_name (some c) = some c.name

abbrev label_color : Option Category → Option String
label_color none = none
label_color (some c) = c.color

abbrev label_icon : Option Category → Option String
label_icon none = none
label_icon (some c) = c.icon

-- `_build_response`, with the categories that the map is built from
unfoldable pub fixed_response : List Category → FixedExpense → FixedResponse
unfolding category_by_id
fixed_response categories f =
    let category = category_by_id f.category_id categories in
    record {
      id = f.id;
      household_id = f.household_id;
      name = f.name;
      day_of_month = f.day_of_month;
      category_id = f.category_id;
      category_name = label_name category;
      category_color = label_color category;
      category_icon = label_icon category;
      color = f.color;
      icon = f.icon;
      sort_order = f.sort_order;
      is_archived = f.is_archived;
    }

-- the category ids of a list of rows
abbrev pub category_ids : List FixedExpense → List ℕ
category_ids [] = []
category_ids (f ∷ rows) = opt_list f.category_id ++ category_ids rows

-- the rows with the one query for all their categories
unfoldable pub fixed_responses : Db → List FixedExpense → List FixedResponse
unfolding find_categories fixed_response
fixed_responses db rows = map (fixed_response (find_categories (category_ids rows) db)) rows

-- one row with its own category
unfoldable pub one_fixed_response : Db → FixedExpense → FixedResponse
unfolding find_categories fixed_response
one_fixed_response db f = fixed_response (find_categories (opt_list f.category_id) db) f

module _ (ilike : String → String → Bool) where
  -- `_build_search_conditions`
  unfoldable pub fixed_conditions : ℕ → FixedFilter → FixedExpense → Bool
  unfolding strip
  fixed_conditions household_id f x =
      x.household_id == household_id
      && (is_active x.data_stat_cd
          && (term_passes ilike strip f.search_term x.name
              && flag_passes f.is_archived x.is_archived))

  unfoldable pub list_fixed_expenses : ℕ → FixedFilter → Db → List FixedResponse
  unfolding fixed_conditions fixed_responses
  list_fixed_expenses household_id f db = fixed_responses db (
      order_by (by_sort_order fixed_columns)
        (select (fixed_conditions household_id f) db.fixed_expenses))

  unfoldable pub list_fixed_expenses_cursor :
      ℕ → FixedFilter → ℕ → Db → Option RowCursor → Page FixedResponse
  unfolding fixed_conditions fixed_responses cursor_page
  list_fixed_expenses_cursor household_id f limit db cursor =
      cursor_page fixed_columns (fixed_responses db) (fixed_conditions household_id f) cursor limit
        db.fixed_expenses

abbrev first_of : List Category → Result Category
first_of [] = err not_found
first_of (c ∷ rest) = ok c

-- `_validate_category`
unfoldable pub validate_category : ℕ → ℕ → Db → Result (Unit {0})
unfolding find_categories
validate_category household_id category_id db = do
  c ← first_of (find_categories (category_id ∷ []) db)
  raise_if (not (c.household_id == household_id) || not (is_active c.data_stat_cd)) not_found

abbrev pub validate_given : ℕ → Option ℕ → Db → Result (Unit {0})
unfolding validate_category
validate_given household_id none db = ok tt
validate_given household_id (some category_id) db = validate_category household_id category_id db

unfoldable pub new_fixed : ℕ → ℕ → ℕ → FixedCreateRequest → Db → FixedExpense
unfolding max_fixed_order strip ◌+ℤ◌
new_fixed id now household_id req db = record {
  id = id;
  frst_reg_dt = now;
  data_stat_cd = active;
  household_id = household_id;
  name = strip req.name;
  day_of_month = req.day_of_month;
  category_id = req.category_id;
  color = req.color;
  icon = req.icon;
  sort_order = or_else req.sort_order (max_fixed_order household_id db +ℤ pos 1);
  is_archived = false;
}

unfoldable pub create_fixed_expense : ℕ → ℕ → ℕ → FixedCreateRequest → Handler Db FixedResponse
unfolding validate_given new_fixed one_fixed_response
create_fixed_expense id now household_id req db = do
  validate_given household_id req.category_id db
  let f = new_fixed id now household_id req db
  ok (one_fixed_response db f, record db { fixed_expenses = db.fixed_expenses ++ f ∷ [] })

-- the checks after `find_by_id`
abbrev pub fixed_of : ℕ → Option FixedExpense → Result FixedExpense
fixed_of household_id none = err not_found
fixed_of household_id (some f) =
    if not (f.household_id == household_id) then err not_found else ok f

unfoldable pub owned_fixed : ℕ → ℕ → Db → Result FixedExpense
unfolding find_fixed
owned_fixed household_id fixed_id db = fixed_of household_id (find_fixed fixed_id db)

unfoldable pub edit_fixed : FixedUpdateRequest → FixedExpense → FixedExpense
unfolding strip
edit_fixed req f = record f {
  name = elim req.name [ none ↦ f.name | some name ↦ strip name ];
  day_of_month = or_else req.day_of_month f.day_of_month;
  category_id = or_option req.category_id f.category_id;
  color = or_option req.color f.color;
  icon = or_option req.icon f.icon;
  sort_order = or_else req.sort_order f.sort_order;
  is_archived = or_else req.is_archived f.is_archived;
}

abbrev pub put_fixed : FixedExpense → Db → Db
put_fixed f db = record db {
  fixed_expenses = update_where (λ (x : FixedExpense). x.id == f.id) (λ _. f) db.fixed_expenses;
}

unfoldable pub update_fixed_expense : ℕ → ℕ → FixedUpdateRequest → Handler Db FixedResponse
unfolding owned_fixed validate_given edit_fixed one_fixed_response
update_fixed_expense household_id fixed_id req db = do
  f ← owned_fixed household_id fixed_id db
  validate_given household_id req.category_id db
  ok (one_fixed_response db (edit_fixed req f), put_fixed (edit_fixed req f) db)

unfoldable pub delete_fixed_expense : ℕ → ℕ → Handler Db (Unit {0})
unfolding owned_fixed
delete_fixed_expense household_id fixed_id db = do
  f ← owned_fixed household_id fixed_id db
  ok (tt, put_fixed (record f { data_stat_cd = deleted }) db)

-- `find_by_id` returns only active rows, so the test of the status is one more guard
unfoldable pub get_fixed_detail : ℕ → ℕ → Db → Result FixedResponse
unfolding owned_fixed one_fixed_response
get_fixed_detail household_id fixed_id db = do
  f ← owned_fixed household_id fixed_id db
  raise_if (not (is_active f.data_stat_cd)) not_found
  ok (one_fixed_response db f)

abbrev is_spending : TxType → Bool
is_spending expense = true
is_spending fixed_expense = true
is_spending _ = false

-- the WHERE of `sum_by_fixed_for_month`
abbrev pub fixed_in_month : ℕ → ℕ → ℕ → Transaction → Bool
fixed_in_month household_id year month t =
    t.household_id == household_id
    && (month_of year month t.tx_date
        && (is_some t.fixed_expense_id && (is_spending t.tx_type && is_active t.data_stat_cd)))

-- the id of a row that has one
abbrev pub fixed_key : Transaction → ℕ
fixed_key t = or_else t.fixed_expense_id 0

-- `TransactionRepository.sum_by_fixed_for_month`
unfoldable pub sum_by_fixed_for_month : ℕ → ℕ → ℕ → Db → List (ℕ × ℤ)
sum_by_fixed_for_month household_id year month db =
    group_sum ◌==◌ fixed_key (λ (t : Transaction). t.amount)
      (select (fixed_in_month household_id year month) db.transactions)

-- `FixedMonthlyUsage` rows; the month is the request's own
unfoldable pub get_monthly_summary : ℕ → ℕ → ℕ → Db → (ℕ × ℕ) × List (ℕ × ℤ)
unfolding sum_by_fixed_for_month
get_monthly_summary household_id year month db =
    ((year, month), sum_by_fixed_for_month household_id year month db)

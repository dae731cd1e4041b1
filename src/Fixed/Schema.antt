-- ===== src/Fixed/Schema.antt =====
-- fixed/schema.py: the requests with their validators, and the columns of the list.
use household_back.Base.{
  ℤ, pos, leb_ℤ, select, order_by, ltb, leb, ◌==◌, ℕ, String, Bool, false, not, ◌&&◌, Option, none,
  some, List,
}
use household_back.Core.{bad_request, Result, raise_if, ◌>>◌, strip, text_length}
use household_back.Model.{FixedExpense, is_active, Db}
use household_back.Listing.{Columns, max_sort, by_sort_order}

pub record FixedFilter : Type 0 where
  pub search_term : Option String
  pub is_archived : Option Bool

abbrev on_text : (String → Bool) → Option String → Bool
on_text bad none = false
on_text bad (some t) = bad t

abbrev bad_fixed_name : String → Bool
bad_fixed_name name = let n = text_length (strip name) in not (leb 1 n && leb n 100)

abbrev bad_day : Option ℤ → Bool
bad_day none = false
bad_day (some d) = not (leb_ℤ (pos 1) d && leb_ℤ d (pos 31))

-- `_check_common`
unfoldable pub check_common : Option String → Option ℤ → Option String → Result (Unit {0})
unfolding text_length strip
check_common name day_of_month color = do
  raise_if (on_text bad_fixed_name name) bad_request
  raise_if (bad_day day_of_month) bad_request
  raise_if (on_text (λ t. ltb 7 (text_length t)) color) bad_request

pub record FixedCreateRequest : Type 0 where
  pub name : String
  pub day_of_month : ℤ
  pub category_id : Option ℕ
  pub color : Option String
  pub icon : Option String
  pub sort_order : Option ℤ

-- `FixedCreateRequest._validate`
unfoldable pub validate_fixed_create : FixedCreateRequest → Result (Unit {0})
unfolding check_common
validate_fixed_create req = check_common (some req.name) (some req.day_of_month) req.color

pub record FixedUpdateRequest : Type 0 where
  pub name : Option String
  pub day_of_month : Option ℤ
  pub category_id : Option ℕ
  pub color : Option String
  pub icon : Option String
  pub sort_order : Option ℤ
  pub is_archived : Option Bool

-- `FixedUpdateRequest._validate`
unfoldable pub validate_fixed_update : FixedUpdateRequest → Result (Unit {0})
unfolding check_common
validate_fixed_update req = check_common req.name req.day_of_month req.color

abbrev pub fixed_columns : Columns FixedExpense
fixed_columns = record {
  frst_reg_dt_of = λ f. f.frst_reg_dt;
  id_of = λ f. f.id;
  name_of = λ f. f.name;
  sort_order_of = λ f. f.sort_order;
}

-- `FixedRepository.find_active_by_household_id`
unfoldable pub find_active_fixed : ℕ → Db → List FixedExpense
find_active_fixed household_id db = order_by (by_sort_order fixed_columns) (
    select (λ (f : FixedExpense). f.household_id == household_id && is_active f.data_stat_cd)
      db.fixed_expenses)

-- `FixedRepository.max_sort_order`
unfoldable pub max_fixed_order : ℕ → Db → ℤ
max_fixed_order household_id db =
    max_sort fixed_columns
      (λ (f : FixedExpense). f.household_id == household_id && is_active f.data_stat_cd)
      db.fixed_expenses

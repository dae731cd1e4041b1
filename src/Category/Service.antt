-- ===== src/Category/Service.antt =====
-- app/domain/category: schema.py, repository.py and service.py. `id` and `now` stand for uuid4 and the
-- clock, `ilike` for PostgreSQL's pattern match.
use household_back.Base.{
  ℤ, pos, ◌+ℤ◌, select, find, update_where, order_by, ltb, leb, ◌==◌, if◌then◌else◌, or_else,
  or_option, ℕ, String, Bool, true, false, not, ◌&&◌, ◌||◌, Option, none, some, List, [], ◌∷◌, ◌++◌,
  map,
}
use household_back.Core.{
  bad_request, not_found, Result, err, ok, raise_if, ◌>>=◌, ◌>>◌, Handler, strip, text_length,
}
use household_back.Model.{
  Category, active, deleted, CategoryKind, expense_kind, income_kind, is_active, Db,
}
use household_back.Listing.{
  RowCursor, Columns, Page, max_sort, by_sort_order, term_passes, flag_passes, cursor_page,
}

pub record CategoryFilter : Type 0 where
  pub search_term : Option String
  pub kind : Option CategoryKind
  pub is_archived : Option Bool

pub record CategoryCreateRequest : Type 0 where
  pub kind : CategoryKind
  pub name : String
  pub color : Option String
  pub icon : Option String
  pub sort_order : Option ℤ

abbrev bad_category_name : String → Bool
bad_category_name name = let n = text_length (strip name) in not (leb 1 n && leb n 100)

abbrev bad_text : (String → Bool) → Option String → Bool
bad_text bad none = false
bad_text bad (some t) = bad t

abbrev long_color : String → Bool
long_color color = ltb 7 (text_length color)

-- `CategoryCreateRequest._validate`
unfoldable pub validate_category_create : CategoryCreateRequest → Result (Unit {0})
unfolding text_length strip
validate_category_create req = do
  raise_if (bad_category_name req.name) bad_request
  raise_if (bad_text long_color req.color) bad_request

pub record CategoryUpdateRequest : Type 0 where
  pub kind : Option CategoryKind
  pub name : Option String
  pub color : Option String
  pub icon : Option String
  pub sort_order : Option ℤ
  pub is_archived : Option Bool

-- `CategoryUpdateRequest._validate`
unfoldable pub validate_category_update : CategoryUpdateRequest → Result (Unit {0})
unfolding text_length strip
validate_category_update req = do
  raise_if (bad_text bad_category_name req.name) bad_request
  raise_if (bad_text long_color req.color) bad_request

abbrev pub kind_eqb : CategoryKind → CategoryKind → Bool
kind_eqb expense_kind expense_kind = true
kind_eqb income_kind income_kind = true
kind_eqb _ _ = false

-- ORDER BY kind: the texts EXPENSE and INCOME
abbrev kind_before : CategoryKind → CategoryKind → Bool
kind_before expense_kind income_kind = true
kind_before _ _ = false

abbrev pub category_columns : Columns Category
category_columns = record {
  frst_reg_dt_of = λ c. c.frst_reg_dt;
  id_of = λ c. c.id;
  name_of = λ c. c.name;
  sort_order_of = λ c. c.sort_order;
}

-- ORDER BY kind, sort_order, frst_reg_dt
abbrev category_asc : Category → Category → Bool
category_asc x y =
    kind_before x.kind y.kind || (kind_eqb x.kind y.kind && by_sort_order category_columns x y)

-- `CategoryRepository.find_by_id`
unfoldable pub find_category : ℕ → Db → Option Category
find_category category_id db =
    find (λ (c : Category). c.id == category_id && is_active c.data_stat_cd) db.categories

-- `CategoryRepository.find_active_by_household_id`
unfoldable pub find_active_categories : ℕ → Db → List Category
find_active_categories household_id db = order_by category_asc (
    select (λ (c : Category). c.household_id == household_id && is_active c.data_stat_cd)
      db.categories)

abbrev kind_passes : Option CategoryKind → CategoryKind → Bool
kind_passes none k = true
kind_passes (some a) k = kind_eqb k a

-- `CategoryRepository.max_sort_order`
unfoldable pub max_category_order : ℕ → CategoryKind → Db → ℤ
max_category_order household_id kind db =
    max_sort category_columns
      (λ (c : Category).
        c.household_id == household_id && (kind_eqb c.kind kind && is_active c.data_stat_cd))
      db.categories

-- `_build_response`: the row's own fields, but for its status and dates
pub record CategoryResponse : Type 0 where
  pub id : ℕ
  pub household_id : ℕ
  pub kind : CategoryKind
  pub name : String
  pub color : Option String
  pub icon : Option String
  pub sort_order : ℤ
  pub is_archived : Bool

unfoldable pub category_response : Category → CategoryResponse
category_response c = record {
  id = c.id;
  household_id = c.household_id;
  kind = c.kind;
  name = c.name;
  color = c.color;
  icon = c.icon;
  sort_order = c.sort_order;
  is_archived = c.is_archived;
}

module _ (ilike : String → String → Bool) where
  -- `_build_search_conditions`
  unfoldable pub category_conditions : ℕ → CategoryFilter → Category → Bool
  unfolding strip
  category_conditions household_id f c =
      c.household_id == household_id
      && (is_active c.data_stat_cd
          && (term_passes ilike strip f.search_term c.name
              && (kind_passes f.kind c.kind && flag_passes f.is_archived c.is_archived)))

  unfoldable pub list_categories : ℕ → CategoryFilter → Db → List CategoryResponse
  unfolding category_conditions category_response
  list_categories household_id f db =
      map category_response
        (order_by category_asc (select (category_conditions household_id f) db.categories))

  unfoldable pub list_categories_cursor :
      ℕ → CategoryFilter → ℕ → Db → Option RowCursor → Page CategoryResponse
  unfolding category_conditions category_response cursor_page
  list_categories_cursor household_id f limit db cursor =
      cursor_page category_columns (map category_response) (category_conditions household_id f)
        cursor limit db.categories

unfoldable pub new_category : ℕ → ℕ → ℕ → CategoryCreateRequest → Db → Category
unfolding max_category_order strip ◌+ℤ◌
new_category id now household_id req db = record {
  id = id;
  frst_reg_dt = now;
  data_stat_cd = active;
  household_id = household_id;
  kind = req.kind;
  name = strip req.name;
  color = req.color;
  icon = req.icon;
  sort_order = or_else req.sort_order (max_category_order household_id req.kind db +ℤ pos 1);
  is_archived = false;
}

unfoldable pub create_category : ℕ → ℕ → ℕ → CategoryCreateRequest → Handler Db CategoryResponse
unfolding new_category category_response
create_category id now household_id req db =
    let c = new_category id now household_id req db in
    ok (category_response c, record db { categories = db.categories ++ c ∷ [] })

-- the checks after `find_by_id`
abbrev pub category_of : ℕ → Option Category → Result Category
category_of household_id none = err not_found
category_of household_id (some c) =
    if not (c.household_id == household_id) then err not_found else ok c

unfoldable pub owned_category : ℕ → ℕ → Db → Result Category
unfolding find_category
owned_category household_id category_id db = category_of household_id (find_category category_id db)

unfoldable pub edit_category : CategoryUpdateRequest → Category → Category
unfolding strip
edit_category req c = record c {
  kind = or_else req.kind c.kind;
  name = elim req.name [ none ↦ c.name | some name ↦ strip name ];
  color = or_option req.color c.color;
  icon = or_option req.icon c.icon;
  sort_order = or_else req.sort_order c.sort_order;
  is_archived = or_else req.is_archived c.is_archived;
}

abbrev pub put_category : Category → Db → Db
put_category c db = record db {
  categories = update_where (λ (x : Category). x.id == c.id) (λ _. c) db.categories;
}

unfoldable pub update_category : ℕ → ℕ → CategoryUpdateRequest → Handler Db CategoryResponse
unfolding owned_category edit_category category_response
update_category household_id category_id req db = do
  c ← owned_category household_id category_id db
  ok (category_response (edit_category req c), put_category (edit_category req c) db)

unfoldable pub delete_category : ℕ → ℕ → Handler Db (Unit {0})
unfolding owned_category
delete_category household_id category_id db = do
  c ← owned_category household_id category_id db
  ok (tt, put_category (record c { data_stat_cd = deleted }) db)

-- `find_by_id` returns only active rows, so the test of the status is one more guard
unfoldable pub get_category_detail : ℕ → ℕ → Db → Result CategoryResponse
unfolding owned_category category_response
get_category_detail household_id category_id db = do
  c ← owned_category household_id category_id db
  raise_if (not (is_active c.data_stat_cd)) not_found
  ok (category_response c)

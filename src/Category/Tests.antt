-- ===== src/Category/Tests.antt =====
-- The category theorems at concrete rows.
use household_back.Base.{pos, ℕ, String, ◌≡◌, refl, Bool, true, false, none, [], ◌∷◌}
use household_back.Core.{not_found, err, ok}
use household_back.Model.{Category, Transaction, active, deleted, expense_kind, Db}
use household_back.Samples.{household_db}
use household_back.Transaction.Response.{single_response}
use household_back.Category.Service.{
  CategoryFilter, put_category, delete_category, get_category_detail,
}
use household_back.Category.Labels.{single_response-delete_category}

abbrev food : Category
food = record {
  id = 11;
  frst_reg_dt = 11;
  data_stat_cd = active;
  household_id = 7;
  kind = expense_kind;
  name = "food";
  color = none;
  icon = none;
  sort_order = pos 1;
  is_archived = false;
}

abbrev rent : Category
rent = record food { id = 12; frst_reg_dt = 12; name = "rent" }

abbrev category_db : Db
category_db = record household_db { categories = food ∷ rent ∷ [] }

abbrev any_name : String → String → Bool
any_name term name = true

abbrev no_condition : CategoryFilter
no_condition = record { search_term = none; kind = none; is_archived = none }

abbrev dropped_db : Db
dropped_db = put_category (record food { data_stat_cd = deleted }) category_db

dropped_test : delete_category 7 11 category_db ≡ ok (tt, dropped_db)
unfolding delete_category
dropped_test = refl

single_response-delete_category_example :
    ((tx : Transaction) → single_response tx dropped_db ≡ single_response tx category_db)
    × ((reader : ℕ) → get_category_detail reader 11 dropped_db ≡ err not_found)
single_response-delete_category_example =
    single_response-delete_category 7 11 category_db (tt, dropped_db) ((refl, tt), (tt, tt))
      dropped_test

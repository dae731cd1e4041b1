-- ===== src/Fixed/Tests.antt =====
-- The fixed-expense theorems at concrete rows.
use household_back.Base.{pos, String, Bool, true, false, none, [], ◌∷◌}
use household_back.Model.{FixedExpense, active, Db}
use household_back.Samples.{household_db}
use household_back.Fixed.Schema.{FixedFilter}

abbrev phone : FixedExpense
phone = record {
  id = 51;
  frst_reg_dt = 51;
  data_stat_cd = active;
  household_id = 7;
  name = "phone";
  day_of_month = pos 5;
  category_id = none;
  color = none;
  icon = none;
  sort_order = pos 1;
  is_archived = false;
}

abbrev power : FixedExpense
power = record phone { id = 52; frst_reg_dt = 52; name = "power" }

abbrev fixed_db : Db
fixed_db = record household_db { fixed_expenses = phone ∷ power ∷ [] }

abbrev any_name : String → String → Bool
any_name term name = true

abbrev no_condition : FixedFilter
no_condition = record { search_term = none; is_archived = none }

-- ===== src/Listing/Tests.antt =====
-- The theorem on reading a whole list, at concrete rows.
use household_back.Base.{or_else, List, [], ◌∷◌}
use household_back.Model.{Transaction}
use household_back.Listing.{Columns}
use household_back.Samples.{lunch, salary, to_savings}

abbrev transaction_columns : Columns Transaction
transaction_columns = record {
  frst_reg_dt_of = λ t. t.frst_reg_dt;
  id_of = λ t. t.id;
  name_of = λ t. or_else t.memo "";
  sort_order_of = λ t. t.amount;
}

abbrev rows : List Transaction
rows = salary ∷ lunch ∷ to_savings ∷ []

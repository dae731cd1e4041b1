-- ===== src/Account/Report/Months.antt =====
-- The months of a report: the default range, and the sums of one month.
use household_back.Base.{
  ℤ, pos, ◌+ℤ◌, select, sum_by, if◌then◌else◌, ℕ, ◌+◌, ◌-◌, ◌*◌, List, [], ◌∷◌,
}
use household_back.Core.{Date}
use household_back.Model.{Transaction, TxType, tx_type_eqb}

-- months since year 0
abbrev pub month_index : Date → ℕ
month_index d = d.year * 12 + (d.month - 1)

-- The part of one type in the groups, and in the rows.
part : TxType → List (TxType × ℤ) → ℤ
part kind [] = pos 0
part kind ((j, v) ∷ g) = (if tx_type_eqb j kind then v else pos 0) +ℤ part kind g

rows_of : TxType → List Transaction → ℤ
rows_of kind ts = sum_by (λ t. t.amount) (select (λ t. tx_type_eqb t.tx_type kind) ts)

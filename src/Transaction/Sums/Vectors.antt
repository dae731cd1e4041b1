-- ===== src/Transaction/Sums/Vectors.antt =====
-- The five sums as a vector, and what one group of rows adds to it.
use household_back.Base.{
  ℤ, pos, ◌+ℤ◌, ◌-ℤ◌, int_laws, +ℤ_comm, +ℤ_assoc, +ℤ_zero, zero-+ℤ, -ℤ_lem, zero-+ℤ, ◌==◌,
  if◌then◌else◌, ◌==?◌, ℕ, ◌≡◌, refl, sym, ap, ◌∙◌, Bool, true, false,
}
use household_back.Model.{TxType, expense, income, transfer, fixed_expense, valuation, is_increase}
use household_back.Transaction.Sums.{
  add_income, add_expense, add_out, add_in, add_valuation, add_by_type, TxKey, Sums, zero_sums,
  add_group_row,
}

infixl 65 ◌+S◌
abbrev pub ◌+S◌ : Sums → Sums → Sums
s +S t = record {
  income_sum = s.income_sum +ℤ t.income_sum;
  expense_sum = s.expense_sum +ℤ t.expense_sum;
  transfer_out = s.transfer_out +ℤ t.transfer_out;
  transfer_in = s.transfer_in +ℤ t.transfer_in;
  valuation_net = s.valuation_net +ℤ t.valuation_net;
}

pub +S_assoc : (r s t : Sums) → r +S s +S t ≡ r +S (s +S t)
+S_assoc r s t = λ i. record {
  income_sum = +ℤ_assoc r.income_sum s.income_sum t.income_sum i;
  expense_sum = +ℤ_assoc r.expense_sum s.expense_sum t.expense_sum i;
  transfer_out = +ℤ_assoc r.transfer_out s.transfer_out t.transfer_out i;
  transfer_in = +ℤ_assoc r.transfer_in s.transfer_in t.transfer_in i;
  valuation_net = +ℤ_assoc r.valuation_net s.valuation_net t.valuation_net i;
}

pub +S_comm : (s t : Sums) → s +S t ≡ t +S s
+S_comm s t = λ i. record {
  income_sum = +ℤ_comm s.income_sum t.income_sum i;
  expense_sum = +ℤ_comm s.expense_sum t.expense_sum i;
  transfer_out = +ℤ_comm s.transfer_out t.transfer_out i;
  transfer_in = +ℤ_comm s.transfer_in t.transfer_in i;
  valuation_net = +ℤ_comm s.valuation_net t.valuation_net i;
}

pub +S_zero : (s : Sums) → s +S zero_sums ≡ s
+S_zero s = λ i. record {
  income_sum = +ℤ_zero s.income_sum i;
  expense_sum = +ℤ_zero s.expense_sum i;
  transfer_out = +ℤ_zero s.transfer_out i;
  transfer_in = +ℤ_zero s.transfer_in i;
  valuation_net = +ℤ_zero s.valuation_net i;
}

pub zero-+S : (s : Sums) → zero_sums +S s ≡ s
zero-+S s = +S_comm zero_sums s ∙ +S_zero s

-- `v` where the test holds
abbrev pub when : Bool → ℤ → ℤ
when c v = if c then v else pos 0

abbrev pub by_direction : Bool → ℤ → ℤ
by_direction up v = if up then v else pos 0 -ℤ v

-- What rows of one type, with total `v`, mean for the sums of an account.
unfoldable pub contribution_by : TxType → ℕ → TxKey → ℤ → Sums
contribution_by income a k v = record zero_sums { income_sum = when (k.account_id == a) v }
contribution_by expense a k v = record zero_sums { expense_sum = when (k.account_id == a) v }
contribution_by fixed_expense a k v = record zero_sums { expense_sum = when (k.account_id == a) v }
contribution_by transfer a k v = record zero_sums {
  transfer_out = when (k.account_id == a) v;
  transfer_in = when (k.to_account_id ==? a) v;
}
contribution_by valuation a k v = record zero_sums {
  valuation_net = when (k.account_id == a) (by_direction (is_increase k.direction) v);
}

unfoldable pub contribution : ℕ → TxKey → ℤ → Sums
unfolding contribution_by
contribution a k v = contribution_by k.tx_type a k v

-- Each step of the loop adds to one sum and leaves the other four.
module _ (s : Sums) where
  income_lem :
      (c : Bool) (v : ℤ)
      → (if c then add_income v s else s) ≡ s +S record zero_sums { income_sum = when c v }
  unfolding add_income
  income_lem true v = cc (
    +ℤ_zero s.expense_sum,
    +ℤ_zero s.transfer_out,
    +ℤ_zero s.transfer_in,
    +ℤ_zero s.valuation_net,
  )
  income_lem false v = sym (+S_zero s)

  expense_lem :
      (c : Bool) (v : ℤ)
      → (if c then add_expense v s else s) ≡ s +S record zero_sums { expense_sum = when c v }
  unfolding add_expense
  expense_lem true v =
      cc (
        +ℤ_zero s.income_sum,
        +ℤ_zero s.transfer_out,
        +ℤ_zero s.transfer_in,
        +ℤ_zero s.valuation_net,
      )
  expense_lem false v = sym (+S_zero s)

  out_lem :
      (c : Bool) (v : ℤ)
      → (if c then add_out v s else s) ≡ s +S record zero_sums { transfer_out = when c v }
  unfolding add_out
  out_lem true v =
      cc (
        +ℤ_zero s.income_sum,
        +ℤ_zero s.expense_sum,
        +ℤ_zero s.transfer_in,
        +ℤ_zero s.valuation_net,
      )
  out_lem false v = sym (+S_zero s)

  in_lem :
      (c : Bool) (v : ℤ)
      → (if c then add_in v s else s) ≡ s +S record zero_sums { transfer_in = when c v }
  unfolding add_in
  in_lem true v =
      cc (
        +ℤ_zero s.income_sum,
        +ℤ_zero s.expense_sum,
        +ℤ_zero s.transfer_out,
        +ℤ_zero s.valuation_net,
      )
  in_lem false v = sym (+S_zero s)

  valuation_lem :
      (c up : Bool) (v : ℤ)
      → (if c then add_valuation up v s else s)
        ≡ s +S record zero_sums { valuation_net = when c (by_direction up v) }
  unfolding add_valuation
  valuation_lem true true v =
      cc
        (+ℤ_zero s.income_sum, +ℤ_zero s.expense_sum, +ℤ_zero s.transfer_out, +ℤ_zero s.transfer_in)
  valuation_lem true false v = cc (
    -ℤ_lem s.valuation_net v,
    +ℤ_zero s.income_sum,
    +ℤ_zero s.expense_sum,
    +ℤ_zero s.transfer_out,
    +ℤ_zero s.transfer_in,
  )
  valuation_lem false up v = sym (+S_zero s)

-- A transfer adds to two sums.
out_in_lem :
    (v w : ℤ)
    → record zero_sums { transfer_out = v } +S record zero_sums { transfer_in = w }
      ≡ record zero_sums { transfer_out = v; transfer_in = w }
out_in_lem v w = cc (+ℤ_zero (pos 0), +ℤ_zero v, zero-+ℤ w)

transfer_lem :
    (c d : Bool) (v : ℤ) (s : Sums)
    → (let s' = if c then add_out v s else s in if d then add_in v s' else s')
      ≡ s +S record zero_sums { transfer_out = when c v; transfer_in = when d v }
transfer_lem c d v s =
    in_lem (if c then add_out v s else s) d v
    ∙ ap (λ t. t +S record zero_sums { transfer_in = when d v }) (out_lem s c v)
    ∙ +S_assoc s _ _
    ∙ ap (λ t. s +S t) (out_in_lem (when c v) (when d v))

add_by_type_lem :
    (kind : TxType) (a : ℕ) (k : TxKey) (v : ℤ) (s : Sums)
    → add_by_type kind a k v s ≡ s +S contribution_by kind a k v
unfolding add_by_type contribution_by
add_by_type_lem income a k v s = income_lem s (k.account_id == a) v
add_by_type_lem expense a k v s = expense_lem s (k.account_id == a) v
add_by_type_lem fixed_expense a k v s = expense_lem s (k.account_id == a) v
add_by_type_lem transfer a k v s = transfer_lem (k.account_id == a) (k.to_account_id ==? a) v s
add_by_type_lem valuation a k v s = valuation_lem s (k.account_id == a) (is_increase k.direction) v

pub add_group_row_lem :
    (a : ℕ) (k : TxKey) (v : ℤ) (s : Sums) → add_group_row a (k, v) s ≡ s +S contribution a k v
unfolding contribution add_group_row
add_group_row_lem a k v s = add_by_type_lem k.tx_type a k v s

when-+ℤ : (c : Bool) (v w : ℤ) → when c (v +ℤ w) ≡ when c v +ℤ when c w
when-+ℤ true v w = refl
when-+ℤ false v w = sym (+ℤ_zero (pos 0))

by_direction-+ℤ :
    (up : Bool) (v w : ℤ) → by_direction up (v +ℤ w) ≡ by_direction up v +ℤ by_direction up w
by_direction-+ℤ true v w = refl
by_direction-+ℤ false v w = omega int_laws

contribution_by-+ℤ :
    (kind : TxType) (a : ℕ) (k : TxKey) (v w : ℤ)
    → contribution_by kind a k (v +ℤ w) ≡ contribution_by kind a k v +S contribution_by kind a k w
unfolding contribution_by
contribution_by-+ℤ income a k v w = cc (when-+ℤ (k.account_id == a) v w, +ℤ_zero (pos 0))
contribution_by-+ℤ expense a k v w = cc (when-+ℤ (k.account_id == a) v w, +ℤ_zero (pos 0))
contribution_by-+ℤ fixed_expense a k v w = cc (when-+ℤ (k.account_id == a) v w, +ℤ_zero (pos 0))
contribution_by-+ℤ transfer a k v w =
    cc (when-+ℤ (k.account_id == a) v w, when-+ℤ (k.to_account_id ==? a) v w, +ℤ_zero (pos 0))
contribution_by-+ℤ valuation a k v w =
    let up = is_increase k.direction in
    cc (
      ap (when (k.account_id == a)) (by_direction-+ℤ up v w),
      when-+ℤ (k.account_id == a) (by_direction up v) (by_direction up w),
      +ℤ_zero (pos 0),
    )

-- Totals add up.
pub contribution-+ℤ :
    (a : ℕ) (k : TxKey) (v w : ℤ)
    → contribution a k (v +ℤ w) ≡ contribution a k v +S contribution a k w
unfolding contribution
contribution-+ℤ a k v w = contribution_by-+ℤ k.tx_type a k v w

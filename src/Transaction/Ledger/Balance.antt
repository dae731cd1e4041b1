-- ===== src/Transaction/Ledger/Balance.antt =====
-- The grouped sums of an account and the signs of its ledger rows tell the same story: the balance
-- is the opening balance plus the signed amount of every row that counts.
use household_back.Base.{
  ℤ, ◌+ℤ◌, ◌-ℤ◌, neg_ℤ, int_laws, All, select, sum_by, ◌==◌, if◌then◌else◌, Bool-cases, ◌==?◌, ℕ,
  ◌≡◌, refl, ap, ◌∙◌, inl, inr, Bool, true, false, not, ◌&&◌, ◌||◌, Option, none, some, List, [],
  ◌∷◌, arith,
}
use household_back.Core.{Date}
use household_back.Model.{
  Transaction, TxType, expense, income, transfer, fixed_expense, valuation, ValuationDirection,
  is_active, is_transfer, is_increase, Db,
}
use household_back.Transaction.Repository.{involves, to_matches}
use household_back.Transaction.Sums.{Sums, key_of, zero_sums, counted_for, sum_for_account}
use household_back.Transaction.Sums.Vectors.{
  ◌+S◌, when, by_direction, contribution_by, contribution,
}
use household_back.Transaction.Sums.Rows.{rows_total, sum_for_account-eq-rows_total}
use household_back.Transaction.Rules.{consistent_at, IsConsistent}
use household_back.Transaction.Ledger.{signed_by_type, signed_amount, cash_flow}

-- what the five sums add to an opening balance
abbrev net : Sums → ℤ
net s = s.income_sum -ℤ s.expense_sum -ℤ s.transfer_out +ℤ s.transfer_in +ℤ s.valuation_net

cash_flow-eq-net : (b : ℤ) (s : Sums) → cash_flow b s ≡ b +ℤ net s
unfolding cash_flow
cash_flow-eq-net b s = omega int_laws

net-+S : (s t : Sums) → net (s +S t) ≡ net s +ℤ net t
net-+S s t = omega int_laws

net_income : (v : ℤ) → net (record zero_sums { income_sum = v }) ≡ v
net_income v = omega int_laws

net_expense : (v : ℤ) → net (record zero_sums { expense_sum = v }) ≡ neg_ℤ v
net_expense v = omega int_laws

net_valuation : (v : ℤ) → net (record zero_sums { valuation_net = v }) ≡ v
net_valuation v = omega int_laws

net_direction : (up : Bool) (v : ℤ) → by_direction up v ≡ (if up then v else neg_ℤ v)
net_direction true v = refl
net_direction false v = omega int_laws

net_transfer :
    (own into : Bool) (v : ℤ)
    → (own || into) ≡ true
    → (own && into) ≡ false
    → net (record zero_sums { transfer_out = when own v; transfer_in = when into v })
      ≡ (if into then v else neg_ℤ v)
net_transfer true true v h k = cc
net_transfer true false v h k = omega int_laws
net_transfer false true v h k = omega int_laws
net_transfer false false v h k = cc

or_none : (b : Bool) → (b || false) ≡ true → b ≡ true
or_none b h = ground arith

exclusive : (acc a b : ℕ) → (not (b == acc)) ≡ true → ((acc == a) && (b == a)) ≡ false
exclusive acc a b h = ground arith

-- The sign of one row, by its type.
net-contribution_by :
    (kind : TxType) (to : Option ℕ) (acc a : ℕ) (dir : Option ValuationDirection) (v : ℤ)
    → consistent_at kind acc to ≡ true
    → (acc == a || to ==? a) ≡ true
    → net (
        contribution_by kind a
          (record { tx_type = kind; account_id = acc; to_account_id = to; direction = dir })
          v)
      ≡ (if is_transfer kind && to ==? a then v else signed_by_type kind dir v)
unfolding contribution_by
net-contribution_by income none acc a dir v c h = rw (or_none (acc == a) h) (net_income v)
net-contribution_by income (some b) acc a dir v c h = cc
net-contribution_by expense none acc a dir v c h = rw (or_none (acc == a) h) (net_expense v)
net-contribution_by expense (some b) acc a dir v c h = cc
net-contribution_by fixed_expense none acc a dir v c h = rw (or_none (acc == a) h) (net_expense v)
net-contribution_by fixed_expense (some b) acc a dir v c h = cc
net-contribution_by valuation none acc a dir v c h =
    rw (or_none (acc == a) h)
      (net_valuation (by_direction (is_increase dir) v) ∙ net_direction (is_increase dir) v)
net-contribution_by valuation (some b) acc a dir v c h = cc
net-contribution_by transfer none acc a dir v c h = cc
net-contribution_by transfer (some b) acc a dir v c h =
    net_transfer (acc == a) (b == a) v h (exclusive acc a b c)

net-contribution :
    (a : ℕ) (t : Transaction)
    → IsConsistent t
    → involves a t ≡ true
    → net (contribution a (key_of t) t.amount) ≡ signed_amount a t
unfolding contribution signed_amount
net-contribution a t c h =
    net-contribution_by t.tx_type t.to_account_id t.account_id a t.valuation_direction t.amount c h

net-rows_total :
    (a : ℕ) (p : Transaction → Bool)
    → ((t : Transaction) → p t ≡ true → involves a t ≡ true)
    → (ts : List Transaction) → All IsConsistent ts
    → net (rows_total a (select p ts)) ≡ sum_by (signed_amount a) (select p ts)
unfolding rows_total
net-rows_total a p inv [] h = omega int_laws
net-rows_total a p inv (t ∷ ts) h = elim (Bool-cases (p t)) [
  | inl counted ↦ rw counted (
      net-+S (contribution a (key_of t) t.amount) (rows_total a (select p ts))
      ∙ ap (λ x. x +ℤ net (rows_total a (select p ts))) (net-contribution a t h.0 (inv t counted))
      ∙ ap (λ x. signed_amount a t +ℤ x) (net-rows_total a p inv ts h.1))
  | inr skipped ↦ rw skipped (net-rows_total a p inv ts h.1)
]

counted_for-involves :
    (a : ℕ) (d : Option Date) (t : Transaction) → counted_for a d t ≡ true → involves a t ≡ true
counted_for-involves a d t h =
    and_middle (is_active t.data_stat_cd) (involves a t) (to_matches d t) h
  where
    and_middle : (x y z : Bool) → (x && (y && z)) ≡ true → y ≡ true
    and_middle x y z e = ground arith

-- If every stored row is consistent, the balance from the grouped sums, on any date, is the opening
-- balance plus the signed amounts of the active rows of the account up to that date.
pub cash_flow-sum_for_account :
    (b : ℤ) (a : ℕ) (d : Option Date) (db : Db)
    → All IsConsistent db.transactions
    → cash_flow b (sum_for_account a d db)
      ≡ b +ℤ sum_by (signed_amount a) (select (counted_for a d) db.transactions)
cash_flow-sum_for_account b a d db h =
    cash_flow-eq-net b (sum_for_account a d db)
    ∙ ap (λ s. b +ℤ net s) (sum_for_account-eq-rows_total a d db)
    ∙ ap (λ x. b +ℤ x)
        (net-rows_total a (counted_for a d) (counted_for-involves a d) db.transactions h)

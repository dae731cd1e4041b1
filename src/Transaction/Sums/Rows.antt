-- ===== src/Transaction/Sums/Rows.antt =====
-- Grouping loses nothing: the sums of an account are the row-by-row contributions.
use household_back.Base.{
  ℤ, select, add_group, group_sum, ◌==◌, if◌then◌else◌, Bool-cases, ◌==?◌, ℕ, ◌≡◌, refl, sym, ap,
  ◌∙◌, inl, inr, Bool, true, false, ◌||◌, Option, List, [], ◌∷◌, arith,
}
use household_back.Core.{Date}
use household_back.Model.{
  Transaction, TxType, expense, income, transfer, fixed_expense, valuation, ValuationDirection,
  tx_type_eqb, direction_eqb, Db,
}
use household_back.Transaction.Sums.{
  TxKey, Sums, key_of, id_eqb, same_key, tx_amount, zero_sums, add_group_row, distribute,
  counted_for, sum_for_account,
}
use household_back.Transaction.Sums.Vectors.{
  ◌+S◌, +S_assoc, +S_comm, +S_zero, zero-+S, contribution_by, contribution, add_group_row_lem,
  contribution-+ℤ,
}
use household_back.Transaction.Repository.{involves}

-- What an account's sums are, row by row.
unfoldable pub rows_total : ℕ → List Transaction → Sums
rows_total a [] = zero_sums
rows_total a (t ∷ ts) = contribution a (key_of t) t.amount +S rows_total a ts

groups_total : ℕ → List (TxKey × ℤ) → Sums
groups_total a [] = zero_sums
groups_total a ((k, v) ∷ g) = contribution a k v +S groups_total a g

distribute-eq-groups_total :
    (a : ℕ) (g : List (TxKey × ℤ)) (s : Sums) → distribute a g s ≡ s +S groups_total a g
unfolding distribute groups_total
distribute-eq-groups_total a [] s = sym (+S_zero s)
distribute-eq-groups_total a ((k, v) ∷ g) s =
    distribute-eq-groups_total a g (add_group_row a (k, v) s)
    ∙ ap (λ t. t +S groups_total a g) (add_group_row_lem a k v s)
    ∙ +S_assoc s (contribution a k v) (groups_total a g)

tx_type_eq : (a b : TxType) → tx_type_eqb a b ≡ true → a ≡ b
tx_type_eq a b h = ground arith

id_eq : (a b : Option ℕ) → id_eqb a b ≡ true → a ≡ b
id_eq a b h = ground arith

direction_eq : (a b : Option ValuationDirection) → direction_eqb a b ≡ true → a ≡ b
direction_eq a b h = ground arith

same_key-eq : (k j : TxKey) → same_key k j ≡ true → k ≡ j
same_key-eq k j h = ground (
  arith,
  tx_type_eq k.tx_type j.tx_type,
  id_eq k.to_account_id j.to_account_id,
  direction_eq k.direction j.direction,
)

groups_total-add_group :
    (a : ℕ) (k : TxKey) (v : ℤ) (g : List (TxKey × ℤ))
    → groups_total a (add_group same_key k v g) ≡ contribution a k v +S groups_total a g
unfolding groups_total
groups_total-add_group a k v [] = refl
groups_total-add_group a k v ((j, w) ∷ g) = elim (Bool-cases (same_key k j)) [
  | inl same ↦ rw same (
      ap (λ t. t +S groups_total a g)
        (contribution-+ℤ a j v w
          ∙ ap (λ x. contribution a x v +S contribution a j w) (sym (same_key-eq k j same)))
      ∙ +S_assoc (contribution a k v) (contribution a j w) (groups_total a g))
  | inr other_key ↦ rw other_key (
      ap (λ t. contribution a j w +S t) (groups_total-add_group a k v g)
      ∙ sym (+S_assoc (contribution a j w) (contribution a k v) (groups_total a g))
      ∙ ap (λ t. t +S groups_total a g) (+S_comm (contribution a j w) (contribution a k v))
      ∙ +S_assoc (contribution a k v) (contribution a j w) (groups_total a g))
]

groups_total-group_sum :
    (a : ℕ) (ts : List Transaction)
    → groups_total a (group_sum same_key key_of tx_amount ts) ≡ rows_total a ts
unfolding groups_total rows_total
groups_total-group_sum a [] = refl
groups_total-group_sum a (t ∷ ts) =
    groups_total-add_group a (key_of t) t.amount (group_sum same_key key_of tx_amount ts)
    ∙ ap (λ x. contribution a (key_of t) t.amount +S x) (groups_total-group_sum a ts)

-- Distributing the groups of a list of rows gives the row-by-row total.
pub distribute-group_sum :
    (a : ℕ) (ts : List Transaction)
    → distribute a (group_sum same_key key_of tx_amount ts) zero_sums ≡ rows_total a ts
distribute-group_sum a ts =
    distribute-eq-groups_total a (group_sum same_key key_of tx_amount ts) zero_sums
    ∙ zero-+S (groups_total a (group_sum same_key key_of tx_amount ts))
    ∙ groups_total-group_sum a ts

-- The sums that the service reads are the row-by-row total of the counted rows.
pub sum_for_account-eq-rows_total :
    (a : ℕ) (d : Option Date) (db : Db)
    → sum_for_account a d db ≡ rows_total a (select (counted_for a d) db.transactions)
unfolding sum_for_account
sum_for_account-eq-rows_total a d db =
    distribute-group_sum a (select (counted_for a d) db.transactions)

contribution_by-zero :
    (kind : TxType) (a : ℕ) (k : TxKey) (v : ℤ)
    → (k.account_id == a) ≡ false
    → (k.to_account_id ==? a) ≡ false
    → contribution_by kind a k v ≡ zero_sums
unfolding contribution_by
contribution_by-zero income a k v p q = rw p
contribution_by-zero expense a k v p q = rw p
contribution_by-zero fixed_expense a k v p q = rw p
contribution_by-zero transfer a k v p q = rw (p, q)
contribution_by-zero valuation a k v p q = rw p

or_false : (b c : Bool) → (b || c) ≡ false → (b ≡ false) × (c ≡ false)
or_false b c h = ground arith

contribution-zero :
    (a : ℕ) (t : Transaction)
    → involves a t ≡ false
    → contribution a (key_of t) t.amount ≡ zero_sums
unfolding contribution
contribution-zero a t h =
    let (p, q) = or_false (t.account_id == a) (t.to_account_id ==? a) h in
    contribution_by-zero t.tx_type a (key_of t) t.amount p q

-- A row that does not involve the account may be there or not.
pub rows_total-skip :
    (a : ℕ) (c : Bool) (t : Transaction) (ts : List Transaction)
    → involves a t ≡ false
    → rows_total a (if c then t ∷ ts else ts) ≡ rows_total a ts
unfolding rows_total
rows_total-skip a true t ts h =
    ap (λ x. x +S rows_total a ts) (contribution-zero a t h) ∙ zero-+S (rows_total a ts)
rows_total-skip a false t ts h = refl

pub rows_total-cons :
    (a : ℕ) (c : Bool) (t : Transaction) (ts us : List Transaction)
    → rows_total a ts ≡ rows_total a us
    → rows_total a (if c then t ∷ ts else ts) ≡ rows_total a (if c then t ∷ us else us)
unfolding rows_total
rows_total-cons a true t ts us h = ap (λ x. contribution a (key_of t) t.amount +S x) h
rows_total-cons a false t ts us h = h

-- Only the rows that involve the account matter, so a filter may be widened or narrowed elsewhere.
pub rows_total-select :
    (a : ℕ) (p q : Transaction → Bool)
    → ((t : Transaction) → involves a t ≡ true → p t ≡ q t)
    → (ts : List Transaction) → rows_total a (select p ts) ≡ rows_total a (select q ts)
unfolding rows_total
rows_total-select a p q agree [] = refl
rows_total-select a p q agree (t ∷ ts) = elim (Bool-cases (involves a t)) [
  | inl yes_row ↦
      rw (agree t yes_row)
        (rows_total-cons a (q t) t (select p ts) (select q ts) (rows_total-select a p q agree ts))
  | inr no_row ↦
      rows_total-skip a (p t) t (select p ts) no_row
      ∙ rows_total-select a p q agree ts
      ∙ sym (rows_total-skip a (q t) t (select q ts) no_row)
]

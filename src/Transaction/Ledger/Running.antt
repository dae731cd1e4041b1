-- ===== src/Transaction/Ledger/Running.antt =====
-- The running balances of the ledger, worked back from the newest row, are the balances that
-- working forward from the opening balance gives.
use household_back.Base.{
  ℤ, ◌+ℤ◌, ◌-ℤ◌, int_laws, +ℤ_assoc, +ℤ_zero, zero-+ℤ, sum_by, insert_row, order_by, Bool-cases, ℕ,
  ◌≡◌, refl, sym, ap, ◌∙◌, inl, inr, Bool, List, [], ◌∷◌, ◌++◌,
}
use household_back.Model.{Account, Category, FixedExpense, Transaction}
use household_back.Transaction.Ledger.{AccountLedgerItem, signed_amount, build_ledger_items}

-- The balance after each row of a list that begins with the newest: the opening balance and every
-- row from this one back.
abbrev pub balances_forward : ℕ → ℤ → List Transaction → List ℤ
balances_forward a opening [] = []
balances_forward a opening (r ∷ rs) =
    (opening +ℤ sum_by (signed_amount a) (r ∷ rs)) ∷ balances_forward a opening rs

abbrev pub balances : List AccountLedgerItem → List ℤ
balances [] = []
balances (i ∷ is) = i.balance_after ∷ balances is

pub sum_by-append :
    (f : Transaction → ℤ) (xs ys : List Transaction)
    → sum_by f (xs ++ ys) ≡ sum_by f xs +ℤ sum_by f ys
sum_by-append f [] ys = sym (zero-+ℤ (sum_by f ys))
sum_by-append f (x ∷ xs) ys =
    rw (sum_by-append f xs ys) (sym (+ℤ_assoc (f x) (sum_by f xs) (sum_by f ys)))

sum_by-insert_row :
    (f : Transaction → ℤ) (before : Transaction → Transaction → Bool) (x : Transaction)
    (ys : List Transaction)
    → sum_by f (insert_row before x ys) ≡ f x +ℤ sum_by f ys
sum_by-insert_row f before x [] = refl
sum_by-insert_row f before x (y ∷ ys) = elim (Bool-cases (before x y)) [
  | inl first ↦ rw first
  | inr later ↦ rw (later, sum_by-insert_row f before x ys) (swap_front (f y) (f x) (sum_by f ys))
]
  where
    swap_front : (a b c : ℤ) → a +ℤ (b +ℤ c) ≡ b +ℤ (a +ℤ c)
    swap_front a b c = omega int_laws

-- Sorting does not change a sum.
pub sum_by-order_by :
    (f : Transaction → ℤ) (before : Transaction → Transaction → Bool) (xs : List Transaction)
    → sum_by f (order_by before xs) ≡ sum_by f xs
sum_by-order_by f before [] = refl
sum_by-order_by f before (x ∷ xs) =
    sum_by-insert_row f before x (order_by before xs)
    ∙ ap (λ s. f x +ℤ s) (sum_by-order_by f before xs)

take_back : (opening s r : ℤ) → opening +ℤ (s +ℤ r) -ℤ s ≡ opening +ℤ r
take_back opening s r = omega int_laws

module _ (a : ℕ) (accounts : List Account) (categories : List Category)
    (fixed : List FixedExpense) where
  -- Started at the balance of the newest row, the backward running balances equal the balances
  -- computed forward from the opening balance, and the carry is that opening balance.
  pub build_ledger_items_lem :
      (opening : ℤ) (rows : List Transaction)
      → let page =
          build_ledger_items rows a accounts categories fixed
            (opening +ℤ sum_by (signed_amount a) rows) in
        (balances page.0 ≡ balances_forward a opening rows) × (page.1 ≡ opening)
  unfolding build_ledger_items
  build_ledger_items_lem opening [] = (refl, +ℤ_zero opening)
  build_ledger_items_lem opening (r ∷ rows) =
      rw (take_back opening (signed_amount a r) (sum_by (signed_amount a) rows)) (
        let (items, carry) = build_ledger_items_lem opening rows in
        (ap (λ bs. (opening +ℤ sum_by (signed_amount a) (r ∷ rows)) ∷ bs) items, carry))

balances_forward-append :
    (a : ℕ) (opening : ℤ) (xs ys : List Transaction)
    → balances_forward a opening (xs ++ ys)
      ≡ balances_forward a (opening +ℤ sum_by (signed_amount a) ys) xs
        ++ balances_forward a opening ys
balances_forward-append a opening [] ys = refl
balances_forward-append a opening (x ∷ xs) ys =
    rw (balances_forward-append a opening xs ys, sum_by-append (signed_amount a) xs ys)
      (ap
        (λ b.
          b
          ∷ (balances_forward a (opening +ℤ sum_by (signed_amount a) ys) xs
              ++ balances_forward a opening ys))
        (regroup opening (signed_amount a x) (sum_by (signed_amount a) xs)
          (sum_by (signed_amount a) ys)))
  where
    regroup : (o x s t : ℤ) → o +ℤ (x +ℤ (s +ℤ t)) ≡ o +ℤ t +ℤ (x +ℤ s)
    regroup o x s t = omega int_laws

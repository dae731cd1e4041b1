-- ===== src/Transaction/Service/Effects.antt =====
-- What an accepted request has been checked for, and what it does to the balances.
use household_back.Base.{
  ℤ, pos, ◌+ℤ◌, +ℤ_comm, +ℤ_assoc, +ℤ_zero, All, select, sum_by, All-append, if◌then◌else◌, ℕ, ◌≡◌,
  refl, sym, ap, ◌∙◌, Bool, true, false, ◌&&◌, none, List, [], ◌∷◌, ◌++◌,
}
use household_back.Core.{ok}
use household_back.Model.{Transaction, Db}
use household_back.Transaction.Schema.{TransactionCreateRequest, validate_create}
use household_back.Transaction.Rules.{IsConsistent}
use household_back.Transaction.Repository.{involves}
use household_back.Transaction.Response.{TransactionResponse}
use household_back.Transaction.Service.{save_transaction, new_transaction, create_transaction}
use household_back.Transaction.Service.Consistency.{
  new_transaction-IsConsistent, create_transaction-eq-ok,
}
use household_back.Transaction.Sums.{sum_for_account, counted_for}
use household_back.Transaction.Ledger.{signed_amount, cash_flow}
use household_back.Transaction.Ledger.Balance.{cash_flow-sum_for_account}

sum_by-select-append :
    (f : Transaction → ℤ) (p : Transaction → Bool) (ts : List Transaction) (t : Transaction)
    → sum_by f (select p (ts ++ t ∷ [])) ≡ sum_by f (select p ts) +ℤ (if p t then f t else pos 0)
sum_by-select-append f p [] t = by_test (p t)
  where
    by_test : (b : Bool) → sum_by f (if b then t ∷ [] else []) ≡ pos 0 +ℤ (if b then f t else pos 0)
    by_test true = +ℤ_comm (f t) (pos 0)
    by_test false = sym (+ℤ_zero (pos 0))
sum_by-select-append f p (u ∷ ts) t =
    by_test (p u) (select p (ts ++ t ∷ [])) (select p ts) _ (sum_by-select-append f p ts t)
  where
    by_test :
        (b : Bool) (l m : List Transaction) (v : ℤ)
        → sum_by f l ≡ sum_by f m +ℤ v
        → sum_by f (if b then u ∷ l else l) ≡ sum_by f (if b then u ∷ m else m) +ℤ v
    by_test true l m v e = ap (λ x. f u +ℤ x) e ∙ sym (+ℤ_assoc (f u) _ _)
    by_test false l m v e = e

-- With consistent rows, a valid creation that succeeds moves the cash balance of every account by
-- the signed amount of the new row if the account takes part in it, and by nothing otherwise.
pub create_transaction-cash_flow :
    (id now household_id user_id : ℕ) (req : TransactionCreateRequest) (db : Db)
    (result : TransactionResponse × Db) (opening : ℤ) (account_id : ℕ)
    → validate_create req ≡ ok tt
    → create_transaction id now household_id user_id req db ≡ ok result
    → All IsConsistent db.transactions
    → cash_flow opening (sum_for_account account_id none result.1)
      ≡ cash_flow opening (sum_for_account account_id none db)
        +ℤ (let t = new_transaction id now household_id user_id req in
            if involves account_id t then signed_amount account_id t else pos 0)
create_transaction-cash_flow id now household_id user_id req db result opening account_id valid made
      old =
    let t = new_transaction id now household_id user_id req in
    let (_, saved) = create_transaction-eq-ok id now household_id user_id req db result made in
    let p = counted_for account_id none in
    ap (λ d. cash_flow opening (sum_for_account account_id none d)) saved
    ∙ cash_flow-sum_for_account opening account_id none (save_transaction t db) (
        All-append IsConsistent db.transactions (t ∷ []) old
          (new_transaction-IsConsistent id now household_id user_id req valid, tt))
    ∙ ap (λ v. opening +ℤ v) (sum_by-select-append (signed_amount account_id) p db.transactions t)
    ∙ sym (+ℤ_assoc opening (sum_by (signed_amount account_id) (select p db.transactions)) _)
    ∙ ap (λ v. v +ℤ (if p t then signed_amount account_id t else pos 0))
        (sym (cash_flow-sum_for_account opening account_id none db old))
    ∙ ap
        (λ b.
          cash_flow opening (sum_for_account account_id none db)
          +ℤ (if b then signed_amount account_id t else pos 0))
        (unfold new_transaction in and_true (involves account_id t))
  where
    and_true : (b : Bool) → (true && (b && true)) ≡ b
    and_true true = refl
    and_true false = refl

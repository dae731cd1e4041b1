-- ===== src/Transaction/Service/RoundTrip.antt =====
-- What the detail of a transaction answers after it was created or deleted.
use household_back.Finders.{opt_list}
use household_back.Transaction.Validation.{validate_fk_belong_to_household, validate_fixed_belongs}
use household_back.Base.{
  All, find, update_where, find-passes, ◌==◌, if◌then◌else◌, Bool-cases, ℕ, ◌≡◌, refl, sym, ap, ◌∙◌,
  inl, inr, Bool, true, false, not, ◌&&◌, Option, none, some, List, [], ◌∷◌, ◌++◌, arith,
}
use household_back.Core.{
  not_found, Result, err, ok, raise_if, ◌>>=◌, >>=-eq-ok, ◌>>◌, >>-eq-ok, ok-injective,
}
use household_back.Model.{Transaction, deleted, is_active, Db}
use household_back.Transaction.Schema.{TransactionCreateRequest}
use household_back.Transaction.Repository.{find_transaction}
use household_back.Transaction.Response.{TransactionResponse, single_response}
use household_back.Transaction.Service.{
  save_transaction, put_transaction, new_transaction, create_transaction, owned_transaction,
  delete_transaction, get_transaction_detail,
}
use household_back.Transaction.Service.Consistency.{
  create_transaction-eq-ok, owned_transaction-eq-ok,
}

create_transaction-reply :
    (id now household_id user_id : ℕ) (req : TransactionCreateRequest) (db : Db)
    (result : TransactionResponse × Db)
    → create_transaction id now household_id user_id req db ≡ ok result
    → (let t = new_transaction id now household_id user_id req in
        result.0 ≡ single_response t (save_transaction t db))
unfolding create_transaction
create_transaction-reply id now household_id user_id req db result h =
    let t = new_transaction id now household_id user_id req in
    let last : Result (TransactionResponse × Db) =
      ok (single_response t (save_transaction t db), save_transaction t db) in
    let (_, rest) =
      >>-eq-ok
        (validate_fk_belong_to_household household_id (req.account_id ∷ opt_list req.to_account_id)
          (opt_list req.category_id) (some req.tx_type) db)
        (validate_fixed_belongs household_id req.fixed_expense_id db >> last) h in
    let (_, done) =
      >>-eq-ok (validate_fixed_belongs household_id req.fixed_expense_id db) last rest in
    ap (λ (p : TransactionResponse × Db). p.0) (sym (ok-injective done))

find_last :
    (id : ℕ) (ts : List Transaction) (t : Transaction)
    → All (λ (u : Transaction). (u.id == id) ≡ false) ts
    → (t.id == id && is_active t.data_stat_cd) ≡ true
    → find (λ (u : Transaction). u.id == id && is_active u.data_stat_cd) (ts ++ t ∷ []) ≡ some t
find_last id [] t fresh hit = rw hit refl
find_last id (u ∷ ts) t fresh hit = rw fresh.0 (find_last id ts t fresh.1 hit)

-- the two halves of the detail, apart from the lookup
abbrev owner_check : ℕ → Option Transaction → Result Transaction
owner_check household_id none = err not_found
owner_check household_id (some t) = if t.household_id == household_id then ok t else err not_found

owned_transaction-eq-owner_check :
    (household_id tx_id : ℕ) (db : Db)
    → owned_transaction household_id tx_id db ≡ owner_check household_id (find_transaction tx_id db)
unfolding owned_transaction
owned_transaction-eq-owner_check household_id tx_id db = by_row (find_transaction tx_id db)
  where
    by_row :
        (o : Option Transaction)
        → (elim o [
          | none ↦ err not_found
          | some t ↦ if t.household_id == household_id then ok t else err not_found
        ])
          ≡ owner_check household_id o
    by_row none = refl
    by_row (some t) = refl

abbrev answer : Db → Transaction → Result TransactionResponse
answer db t = raise_if (not (is_active t.data_stat_cd)) not_found >> ok (single_response t db)

detail-eq-answer :
    (household_id tx_id : ℕ) (db : Db)
    → get_transaction_detail household_id tx_id db
      ≡ (owner_check household_id (find_transaction tx_id db) >>= answer db)
unfolding get_transaction_detail
detail-eq-answer household_id tx_id db =
    ap (λ m. m >>= answer db) (owned_transaction-eq-owner_check household_id tx_id db)

detail_found :
    (household_id tx_id : ℕ) (db : Db) (t : Transaction)
    → find_transaction tx_id db ≡ some t
    → (t.household_id == household_id) ≡ true
    → is_active t.data_stat_cd ≡ true
    → get_transaction_detail household_id tx_id db ≡ ok (single_response t db)
detail_found household_id tx_id db t e own on =
    detail-eq-answer household_id tx_id db
    ∙ ap (λ o. owner_check household_id o >>= answer db) e
    ∙ rw (own, on) refl

-- If the id is new and the creation succeeds, the detail read under that id by the same household
-- answers what the creation answered.
pub get_transaction_detail-create_transaction :
    (id now household_id user_id : ℕ) (req : TransactionCreateRequest) (db : Db)
    (result : TransactionResponse × Db)
    → All (λ (u : Transaction). (u.id == id) ≡ false) db.transactions
    → create_transaction id now household_id user_id req db ≡ ok result
    → get_transaction_detail household_id id result.1 ≡ ok result.0
get_transaction_detail-create_transaction id now household_id user_id req db result fresh made =
    let t = new_transaction id now household_id user_id req in
    let (_, saved) = create_transaction-eq-ok id now household_id user_id req db result made in
    ap (get_transaction_detail household_id id) saved
    ∙ detail_found household_id id (save_transaction t db) t
        (unfold find_transaction in
          find_last id db.transactions t fresh (unfold new_transaction in ground arith))
        (unfold new_transaction in ground arith) (unfold new_transaction in refl)
    ∙ ap ok (sym (create_transaction-reply id now household_id user_id req db result made))

find_deleted :
    (tx_id : ℕ) (changed : Transaction) (ts : List Transaction)
    → (changed.id == tx_id) ≡ true
    → is_active changed.data_stat_cd ≡ false
    → find
        (λ (u : Transaction). u.id == tx_id && is_active u.data_stat_cd)
        (update_where (λ (u : Transaction). u.id == changed.id) (λ _. changed) ts)
      ≡ none
find_deleted tx_id changed [] same off = refl
find_deleted tx_id changed (u ∷ ts) same off = elim (Bool-cases (u.id == changed.id)) [
  | inl hit ↦ rw (hit, same, off) (find_deleted tx_id changed ts same off)
  | inr miss ↦ rw (miss, apart u.id miss) (find_deleted tx_id changed ts same off)
]
  where
    apart : (b : ℕ) → (b == changed.id) ≡ false → (b == tx_id) ≡ false
    apart b k = ground (arith, same)

-- If a deletion of a transaction succeeds, reading its detail and deleting it again answer
-- NOT_FOUND to every household.
pub get_transaction_detail-delete_transaction :
    (household_id tx_id reader : ℕ) (db : Db) (result : Unit {0} × Db)
    → delete_transaction household_id tx_id db ≡ ok result
    → (get_transaction_detail reader tx_id result.1 ≡ err not_found)
      × (delete_transaction reader tx_id result.1 ≡ err not_found)
unfolding delete_transaction find_transaction
get_transaction_detail-delete_transaction household_id tx_id reader db result h =
    let (tx, owned, done) = >>=-eq-ok (owned_transaction household_id tx_id db) _ h in
    let (found, _) = owned_transaction-eq-ok household_id tx_id db tx owned in
    let gone = record tx { data_stat_cd = deleted } in
    let same =
      first (tx.id == tx_id) (is_active tx.data_stat_cd) (find-passes _ db.transactions tx found) in
    let d = put_transaction gone db in
    let missing = ap (owner_check reader) (find_deleted tx_id gone db.transactions same refl) in
    let owner = owned_transaction-eq-owner_check reader tx_id d ∙ missing in
    let back = sym (ok-injective done) in
    (
      ap (λ (p : Unit {0} × Db). get_transaction_detail reader tx_id p.1) back
          ∙ detail-eq-answer reader tx_id d
          ∙ ap (λ m. m >>= answer d) missing,
      ap (λ (p : Unit {0} × Db). delete_transaction reader tx_id p.1) back
          ∙ ap (λ m. m >>= λ tx. ok (tt, put_transaction (record tx { data_stat_cd = deleted }) d))
              owner,
    )
  where
    first : (b c : Bool) → (b && c) ≡ true → b ≡ true
    first b c k = ground arith

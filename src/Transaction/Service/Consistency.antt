-- ===== src/Transaction/Service/Consistency.antt =====
-- Whatever requests come in, every stored transaction keeps the shape that the ledger relies on.
use household_back.Transaction.Response.{TransactionResponse, single_response}
use household_back.Base.{
  find-All, All-update_where, All-append, pos, leb_ℤ, All, ◌==◌, if◌then◌else◌, ℕ, ◌≡◌, refl, sym,
  ap, ◌∙◌, true, ◌&&◌, Option, none, some, List, [], ◌∷◌, arith,
}
use household_back.Core.{
  guarded-eq-ok, Handler, commit, get_db, ok-injective, bad_request, not_found, Result, ok, err,
  ◌>>◌, raise_if, >>=-eq-ok, >>-eq-ok, Handler, get_db,
}
use household_back.Model.{Transaction, deleted, is_active, Db}
use household_back.Transaction.Schema.{
  TransactionCreateRequest, TransactionUpdateRequest, validate_counterpart, validate_fixed_mapping,
  validate_direction, validate_create, validate_update,
}
use household_back.Transaction.Rules.{IsConsistent}
use household_back.Transaction.Repository.{find_transaction}
use mathlib.Core.Path.{subst}
use household_back.Finders.{opt_list}
use household_back.Transaction.Validation.{
  validate_fixed_belongs, validate_fk_belong_to_household, normalize_to_account,
  validate_transfer_consistency,
}
use household_back.Transaction.Service.{
  save_transaction, put_transaction, new_transaction, create_transaction, owned_transaction,
  validate_update_fks, apply_partial_update, update_transaction, delete_transaction,
}

-- What `TransactionCreateRequest._validate` says of the receiving account.
validate_create-counterpart :
    (req : TransactionCreateRequest)
    → validate_create req ≡ ok tt
    → validate_counterpart req ≡ ok tt
unfolding validate_create
validate_create-counterpart req h =
    let (_, rest) =
      >>-eq-ok (raise_if (leb_ℤ req.amount (pos 0)) bad_request)
        (validate_counterpart req >> (validate_fixed_mapping req >> validate_direction req)) h in
    (>>-eq-ok (validate_counterpart req) (validate_fixed_mapping req >> validate_direction req)
      rest).0

pub new_transaction-IsConsistent :
    (id now household_id user_id : ℕ) (req : TransactionCreateRequest)
    → validate_create req ≡ ok tt
    → IsConsistent (new_transaction id now household_id user_id req)
unfolding new_transaction validate_counterpart
new_transaction-IsConsistent id now household_id user_id req h =
    ground (arith, validate_create-counterpart req h)

-- A creation that succeeds has passed its checks, and adds one row to the table.
pub create_transaction-eq-ok :
    (id now household_id user_id : ℕ) (req : TransactionCreateRequest) (db : Db)
    (result : TransactionResponse × Db)
    → create_transaction id now household_id user_id req db ≡ ok result
    → (validate_fk_belong_to_household household_id
          (req.account_id ∷ opt_list req.to_account_id)
          (opt_list req.category_id)
          (some req.tx_type)
          db
        ≡ ok tt)
      × (result.1 ≡ save_transaction (new_transaction id now household_id user_id req) db)
unfolding create_transaction
create_transaction-eq-ok id now household_id user_id req db result h =
    let db' = save_transaction (new_transaction id now household_id user_id req) db in
    let last : Result (TransactionResponse × Db) =
      ok (single_response (new_transaction id now household_id user_id req) db', db') in
    let (fks, rest) =
      >>-eq-ok
        (validate_fk_belong_to_household household_id (req.account_id ∷ opt_list req.to_account_id)
          (opt_list req.category_id) (some req.tx_type) db)
        (validate_fixed_belongs household_id req.fixed_expense_id db >> last) h in
    let (_, done) =
      >>-eq-ok (validate_fixed_belongs household_id req.fixed_expense_id db) last rest in
    (fks, ap (λ (p : TransactionResponse × Db). p.1) (sym (ok-injective done)))

-- The row that an update stores.
abbrev pub updated : Transaction → TransactionUpdateRequest → Transaction
updated tx req = normalize_to_account (apply_partial_update tx req)

pub update_transaction-eq-ok :
    (household_id tx_id : ℕ) (req : TransactionUpdateRequest) (db : Db)
    (result : TransactionResponse × Db)
    → update_transaction household_id tx_id req db ≡ ok result
    → (tx : Transaction) × (owned_transaction household_id tx_id db ≡ ok tx)
      × (validate_update_fks household_id tx req db ≡ ok tt)
      × (validate_transfer_consistency (updated tx req) ≡ ok tt)
      × (result.1 ≡ put_transaction (updated tx req) db)
unfolding update_transaction
update_transaction-eq-ok household_id tx_id req db result h =
    let last = λ (tx : Transaction).
      let db' = put_transaction (updated tx req) db in
      let r : Result (TransactionResponse × Db) = ok (single_response (updated tx req) db', db') in
      r in
    let checked = λ (tx : Transaction). validate_transfer_consistency (updated tx req) >> last tx in
    let (tx, owned, rest) =
      >>=-eq-ok (owned_transaction household_id tx_id db)
        (λ tx. validate_update_fks household_id tx req db >> checked tx) h in
    let (fks, rest') = >>-eq-ok (validate_update_fks household_id tx req db) (checked tx) rest in
    let (shape, done) = >>-eq-ok (validate_transfer_consistency (updated tx req)) (last tx) rest' in
    (tx, owned, fks, shape, ap (λ (p : TransactionResponse × Db). p.1) (sym (ok-injective done)))

-- The normal form and the last check leave only consistent rows, whatever the request holds.
pub updated-IsConsistent :
    (tx : Transaction)
    → validate_transfer_consistency (normalize_to_account tx) ≡ ok tt
    → IsConsistent (normalize_to_account tx)
unfolding validate_transfer_consistency normalize_to_account
updated-IsConsistent tx h = ground arith

pub data TxRequest : Type 0 where
  post_tx : ℕ → ℕ → ℕ → TransactionCreateRequest → TxRequest
  patch_tx : ℕ → TransactionUpdateRequest → TxRequest
  delete_tx_request : ℕ → TxRequest

abbrev pub dropped : {A : Type 0} → Result (A × Db) → Result (Unit {0} × Db)
dropped (ok (a, db)) = ok (tt, db)
dropped (err e) = err e

-- One request of the router: the body is validated, then the service runs in its session.
unfoldable pub serve_tx : ℕ → TxRequest → Handler Db (Unit {0})
unfolding validate_create validate_update create_transaction update_transaction delete_transaction
serve_tx household_id (post_tx id now user_id req) db = do
  validate_create req
  dropped (create_transaction id now household_id user_id req db)
serve_tx household_id (patch_tx tx_id req) db = do
  validate_update req
  dropped (update_transaction household_id tx_id req db)
serve_tx household_id (delete_tx_request tx_id) db = delete_transaction household_id tx_id db

-- Requests of any households, one after the other.
unfoldable pub serve_all : List (ℕ × TxRequest) → Db → Db
unfolding serve_tx get_db
serve_all [] db = db
serve_all ((household_id, req) ∷ reqs) db = serve_all reqs (get_db (serve_tx household_id req) db).1

pub dropped-eq-ok :
    {A : Type 0} (m : Result (A × Db)) (result : Unit {0} × Db)
    → dropped m ≡ ok result
    → (r : A × Db) × (m ≡ ok r) × (r.1 ≡ result.1)
dropped-eq-ok (ok r) result h = (r, refl, ap (λ (p : Unit {0} × Db). p.1) (ok-injective h))
dropped-eq-ok (err e) result h = cc

AllConsistent : Db → Type 0
AllConsistent db = All IsConsistent db.transactions

pub owned_transaction-eq-ok :
    (household_id tx_id : ℕ) (db : Db) (tx : Transaction)
    → owned_transaction household_id tx_id db ≡ ok tx
    → (find_transaction tx_id db ≡ some tx) × ((tx.household_id == household_id) ≡ true)
unfolding owned_transaction
owned_transaction-eq-ok household_id tx_id db tx h = by_row (find_transaction tx_id db) h
  where
    by_row :
        (o : Option Transaction)
        → (elim o [
          | none ↦ err not_found
          | some t ↦ if t.household_id == household_id then ok t else err not_found
        ])
          ≡ ok tx
        → (o ≡ some tx) × ((tx.household_id == household_id) ≡ true)
    by_row none k = cc
    by_row (some t) k =
        let (same, row) = guarded-eq-ok (t.household_id == household_id) not_found k in
        (ap some row, subst (λ (x : Transaction). (x.household_id == household_id) ≡ true) row same)

put_transaction-AllConsistent :
    (tx : Transaction) (db : Db)
    → IsConsistent tx
    → AllConsistent db
    → AllConsistent (put_transaction tx db)
unfolding AllConsistent
put_transaction-AllConsistent tx db new old =
    All-update_where IsConsistent (λ (t : Transaction). t.id == tx.id) (λ _. tx) db.transactions
      (λ _ _. new) old

serve_tx-AllConsistent :
    (household_id : ℕ) (req : TxRequest) (db : Db) (result : Unit {0} × Db)
    → serve_tx household_id req db ≡ ok result
    → AllConsistent db
    → AllConsistent result.1
unfolding serve_tx
serve_tx-AllConsistent household_id (post_tx id now user_id req) db result h old =
    let (valid, rest) =
      >>-eq-ok (validate_create req)
        (dropped (create_transaction id now household_id user_id req db)) h in
    let (r, made, same) =
      dropped-eq-ok (create_transaction id now household_id user_id req db) result rest in
    let (_, saved) = create_transaction-eq-ok id now household_id user_id req db r made in
    subst AllConsistent (sym saved ∙ same) (
      unfold AllConsistent in
      All-append IsConsistent db.transactions (new_transaction id now household_id user_id req ∷ [])
        old (new_transaction-IsConsistent id now household_id user_id req valid, tt))
serve_tx-AllConsistent household_id (patch_tx tx_id req) db result h old =
    let (_, rest) =
      >>-eq-ok (validate_update req) (dropped (update_transaction household_id tx_id req db)) h in
    let (r, made, same) =
      dropped-eq-ok (update_transaction household_id tx_id req db) result rest in
    let (tx, _, _, shape, saved) = update_transaction-eq-ok household_id tx_id req db r made in
    subst AllConsistent (sym saved ∙ same) (
      put_transaction-AllConsistent (updated tx req) db
        (updated-IsConsistent (apply_partial_update tx req) shape) old)
serve_tx-AllConsistent household_id (delete_tx_request tx_id) db result h old =
    let (tx, owned, done) =
      >>=-eq-ok (owned_transaction household_id tx_id db)
        (λ tx. ok (tt, put_transaction (record tx { data_stat_cd = deleted }) db)) h in
    let (found, _) = owned_transaction-eq-ok household_id tx_id db tx owned in
    subst AllConsistent (ap (λ (p : Unit {0} × Db). p.1) (ok-injective done)) (
      put_transaction-AllConsistent (record tx { data_stat_cd = deleted }) db
        (unfold AllConsistent find_transaction in
          find-All IsConsistent (λ (t : Transaction). t.id == tx_id && is_active t.data_stat_cd)
            db.transactions tx old found)
        old)

get_db-AllConsistent :
    (household_id : ℕ) (req : TxRequest) (db : Db)
    → AllConsistent db
    → AllConsistent (get_db (serve_tx household_id req) db).1
unfolding get_db
get_db-AllConsistent household_id req db old =
    by_result (serve_tx household_id req db)
      (λ result e. serve_tx-AllConsistent household_id req db result e old)
  where
    by_result :
        (m : Result (Unit {0} × Db))
        → ((result : Unit {0} × Db) → m ≡ ok result → AllConsistent result.1)
        → AllConsistent (commit m db).1
    by_result (ok r) k = k r refl
    by_result (err e) k = old

-- Over any sequence of create, update and delete requests by any households, each committed or
-- rolled back, every stored transfer names another account as its receiver and no other transaction
-- names one, if that held at the start.
pub serve_all-IsConsistent :
    (reqs : List (ℕ × TxRequest)) (db : Db)
    → All IsConsistent db.transactions
    → All IsConsistent (serve_all reqs db).transactions
unfolding serve_all AllConsistent
serve_all-IsConsistent [] db h = h
serve_all-IsConsistent ((household_id, req) ∷ reqs) db h =
    serve_all-IsConsistent reqs (get_db (serve_tx household_id req) db).1
      (get_db-AllConsistent household_id req db h)

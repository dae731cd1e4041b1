-- ===== src/Transaction/Service/Isolation.antt =====
-- Households are apart: what one of them asks for leaves the transactions of the others.
use household_back.Transaction.Validation.{normalize_to_account}
use household_back.Base.{
  All, select, update_where, find-All, ◌==◌, if◌then◌else◌, Bool-cases, ℕ, ◌≡◌, refl, sym, ap, ◌∙◌,
  inl, inr, Bool, true, false, not, List, [], ◌∷◌, ◌++◌, arith,
}
use household_back.Core.{ok, >>=-eq-ok, >>-eq-ok, ok-injective}
use household_back.Model.{Transaction, deleted, Db}
use household_back.Paging.{Distinct, All-map}
use household_back.Transaction.Schema.{validate_create, validate_update}
use household_back.Transaction.Repository.{find_transaction}
use household_back.Transaction.Service.{
  put_transaction, new_transaction, create_transaction, owned_transaction, apply_partial_update,
  update_transaction, delete_transaction,
}
use household_back.Transaction.Service.Consistency.{
  dropped, TxRequest, post_tx, patch_tx, delete_tx_request, create_transaction-eq-ok, updated,
  update_transaction-eq-ok, serve_tx, dropped-eq-ok, owned_transaction-eq-ok,
}

abbrev pub row_id : Transaction → ℕ
row_id t = t.id

-- the rows of the other households
abbrev pub not_of : ℕ → Transaction → Bool
not_of household_id t = not (t.household_id == household_id)

abbrev pub others : ℕ → Db → List Transaction
others household_id db = select (not_of household_id) db.transactions

select_append :
    (p : Transaction → Bool) (ts : List Transaction) (t : Transaction)
    → p t ≡ false
    → select p (ts ++ t ∷ []) ≡ select p ts
select_append p [] t h = rw h refl
select_append p (u ∷ ts) t h = ap (λ l. if p u then u ∷ l else l) (select_append p ts t h)

-- A row replaced by another, neither of another household.
select_replace :
    (p q : Transaction → Bool) (t : Transaction) (ts : List Transaction)
    → p t ≡ false
    → All (λ u. q u ≡ true → p u ≡ false) ts
    → select p (update_where q (λ _. t) ts) ≡ select p ts
select_replace p q t [] h k = refl
select_replace p q t (u ∷ ts) h k = elim (Bool-cases (q u)) [
  | inl hit ↦ rw (hit, h, k.0 hit) (select_replace p q t ts h k.1)
  | inr miss ↦ rw miss (ap (λ l. if p u then u ∷ l else l) (select_replace p q t ts h k.1))
]

-- With primary keys, the rows of one id are one row.
All-same_row :
    (ts : List Transaction)
    → Distinct row_id ts
    → All (λ r. All (λ (u : Transaction). (u.id == r.id) ≡ true → u ≡ r) ts) ts
All-same_row [] h = tt
All-same_row (t ∷ ts) h = (
  (λ _. refl, All-map _ _ (λ u differs same. cc (differ_sym t.id u.id differs)) ts h.0),
  both _ _ ts (All-map _ _ (λ u differs same. cc differs) ts h.0) (All-same_row ts h.1),
)
  where
    differ_sym : (a b : ℕ) → (a == b) ≡ false → (b == a) ≡ false
    differ_sym a b k = ground arith

    both :
        (P Q : Transaction → Type 0) (xs : List Transaction)
        → All P xs
        → All Q xs
        → All (λ x. P x × Q x) xs
    both P Q [] p q = tt
    both P Q (x ∷ xs) p q = ((p.0, q.0), both P Q xs p.1 q.1)

put_transaction-others :
    (household_id tx_id : ℕ) (tx tx' : Transaction) (db : Db)
    → Distinct row_id db.transactions
    → owned_transaction household_id tx_id db ≡ ok tx
    → tx'.id ≡ tx.id
    → tx'.household_id ≡ tx.household_id
    → others household_id (put_transaction tx' db) ≡ others household_id db
unfolding find_transaction
put_transaction-others household_id tx_id tx tx' db distinct owned same_id same_household =
    let (found, own) = owned_transaction-eq-ok household_id tx_id db tx owned in
    let rows = db.transactions in
    let unique =
      find-All (λ r. All (λ (u : Transaction). (u.id == r.id) ≡ true → u ≡ r) rows) _ rows tx
        (All-same_row rows distinct) found in
    select_replace (not_of household_id) _ tx' rows (rw (same_household, own) refl) (
      All-map _ _ (λ u same hit. ap (not_of household_id) (same (rw same_id at hit)) ∙ rw own refl)
        rows unique)

-- With primary keys, a create, update or delete request of one household that succeeds leaves the
-- list of the transactions of all other households unchanged.
pub serve_tx-others :
    (household_id : ℕ) (req : TxRequest) (db : Db) (result : Unit {0} × Db)
    → Distinct row_id db.transactions
    → serve_tx household_id req db ≡ ok result
    → others household_id result.1 ≡ others household_id db
unfolding serve_tx
serve_tx-others household_id (post_tx id now user_id req) db result distinct h =
    let (_, rest) =
      >>-eq-ok (validate_create req)
        (dropped (create_transaction id now household_id user_id req db)) h in
    let (r, made, same) =
      dropped-eq-ok (create_transaction id now household_id user_id req db) result rest in
    let (_, saved) = create_transaction-eq-ok id now household_id user_id req db r made in
    ap (others household_id) (sym same ∙ saved)
    ∙ select_append (not_of household_id) db.transactions
        (new_transaction id now household_id user_id req) (unfold new_transaction in ground arith)
serve_tx-others household_id (patch_tx tx_id req) db result distinct h =
    let (_, rest) =
      >>-eq-ok (validate_update req) (dropped (update_transaction household_id tx_id req db)) h in
    let (r, made, same) =
      dropped-eq-ok (update_transaction household_id tx_id req db) result rest in
    let (tx, owned, _, _, saved) = update_transaction-eq-ok household_id tx_id req db r made in
    ap (others household_id) (sym same ∙ saved)
    ∙ put_transaction-others household_id tx_id tx (updated tx req) db distinct owned
        (unfold normalize_to_account apply_partial_update in refl)
        (unfold normalize_to_account apply_partial_update in refl)
serve_tx-others household_id (delete_tx_request tx_id) db result distinct h =
    let (tx, owned, done) =
      >>=-eq-ok (owned_transaction household_id tx_id db)
        (λ tx. ok (tt, put_transaction (record tx { data_stat_cd = deleted }) db))
        (unfold delete_transaction in h) in
    ap (λ (p : Unit {0} × Db). others household_id p.1) (sym (ok-injective done))
    ∙ put_transaction-others household_id tx_id tx (record tx { data_stat_cd = deleted }) db
        distinct owned refl refl

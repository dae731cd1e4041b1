-- ===== src/Portfolio/Books/Runs.antt =====
-- What every run of portfolio requests keeps.
use mathlib.Core.Path.{subst}
use household_back.Base.{
  All, select, find-All, All-update_where, All-append, ltb, ◌==◌, if◌then◌else◌, ◌==?◌, ℕ, ◌≡◌,
  refl, sym, ap, false, ◌&&◌, Option, none, some, List, [], ◌∷◌,
}
use household_back.Core.{
  guarded-eq-ok, not_found, portfolio_has_holdings, ok, err, raise_if, >>=-eq-ok, >>-eq-ok,
  ok-injective, guarded-eq-ok,
}
use household_back.Model.{PortfolioItem, PortfolioTransaction, deleted, Db}
use household_back.Portfolio.Schema.{
  PortfolioCreateRequest, PortfolioUpdateRequest, PortfolioTxUpdateRequest, and_then,
}
use household_back.Portfolio.Repository.{find_item, trade_of}
use household_back.Portfolio.Replay.{put_item}
use household_back.Portfolio.Replay.Quantities.{bought, sold}
use household_back.Portfolio.Response.{PortfolioResponse, PortfolioTxResponse}
use household_back.Portfolio.Service.{
  owned_item, owned_trade, validate_investment_account, new_item, create_portfolio, edited_trade,
  put_trade, recalc_item_of, update_portfolio_transaction, delete_portfolio_transaction,
}
use household_back.Portfolio.Holdings.{edit_item, update_portfolio, delete_portfolio}
use household_back.Portfolio.Books.{Balanced, Books}
use household_back.Portfolio.Books.Steps.{
  PortfolioStep, create_step, buy_step, sell_step, edit_trade_step, delete_trade_step,
  edit_item_step, delete_item_step, PortfolioRun, stopped, stepped, FreshItem, buy_shares-Books,
  sell_shares-Books, changed-Books,
}

-- An item replaced by one of the same id and quantity.
put_item-Books :
    (item item' : PortfolioItem) (item_id : ℕ) (db : Db)
    → find_item item_id db ≡ some item
    → item'.id ≡ item.id
    → item'.quantity ≡ item.quantity
    → Books db
    → Books (put_item item' db)
unfolding find_item
put_item-Books item item' item_id db found same_id same_qty (distinct, balanced) =
    let ts = db.portfolio_transactions in
    let old = find-All (Balanced ts) _ db.items item balanced found in
    (
      distinct,
      All-update_where (Balanced ts) (λ (i : PortfolioItem). i.id == item'.id) (λ _. item') db.items
          (λ _ _. rw (same_id, same_qty) old) balanced,
    )

pub owned_item-found :
    (household_id item_id : ℕ) (db : Db) (item : PortfolioItem)
    → owned_item household_id item_id db ≡ ok item
    → find_item item_id db ≡ some item
unfolding owned_item
owned_item-found household_id item_id db item h = by_row (find_item item_id db) h
  where
    by_row :
        (o : Option PortfolioItem)
        → (elim o [
          | none ↦ err not_found
          | some i ↦ if i.household_id == household_id then ok i else err not_found
        ])
          ≡ ok item
        → o ≡ some item
    by_row none k = cc
    by_row (some i) k = ap some (guarded-eq-ok (i.household_id == household_id) not_found k).1

-- A new item has no trades yet.
unused :
    (id : ℕ) (ts : List PortfolioTransaction)
    → All (λ (u : PortfolioTransaction). (u.portfolio_item_id ==? id) ≡ false) ts
    → select (trade_of id) ts ≡ []
unused id [] h = refl
unused id (t ∷ ts) h = rw h.0 (unused id ts h.1)

create_portfolio-Books :
    (id now household_id : ℕ) (req : PortfolioCreateRequest) (db : Db)
    (result : PortfolioResponse × Db)
    → FreshItem id db
    → create_portfolio id now household_id req db ≡ ok result
    → Books db
    → Books result.1
unfolding create_portfolio
create_portfolio-Books id now household_id req db result fresh h (distinct, balanced) =
    let (account, _, last) =
      >>=-eq-ok (validate_investment_account household_id req.account_id db) _ h in
    let ts = db.portfolio_transactions in
    let item = new_item id now household_id req in
    subst Books (ap (λ (p : PortfolioResponse × Db). p.1) (ok-injective last)) (
      distinct,
      All-append (Balanced ts) db.items (item ∷ []) balanced
          (unfold new_item bought sold in rw (unused id ts fresh) refl, tt),
    )

update_portfolio-Books :
    (household_id item_id : ℕ) (req : PortfolioUpdateRequest) (db : Db)
    (result : PortfolioResponse × Db)
    → update_portfolio household_id item_id req db ≡ ok result
    → Books db
    → Books result.1
unfolding update_portfolio
update_portfolio-Books household_id item_id req db result h books =
    let (item, owned, h1) = >>=-eq-ok (owned_item household_id item_id db) _ h in
    let (item', edited, last) = >>=-eq-ok (edit_item item req) _ h1 in
    let (_, kept) =
      >>-eq-ok
        (raise_if (and_then req.is_archived (λ b. b && ltb 0 item.quantity)) portfolio_has_holdings)
        _ (unfold edit_item in edited) in
    let same = ok-injective kept in
    subst Books (ap (λ (p : PortfolioResponse × Db). p.1) (ok-injective last)) (
      put_item-Books item item' item_id db (owned_item-found household_id item_id db item owned)
        (ap (λ (i : PortfolioItem). i.id) (sym same))
        (ap (λ (i : PortfolioItem). i.quantity) (sym same)) books)

delete_portfolio-Books :
    (household_id item_id : ℕ) (db : Db) (result : Unit {0} × Db)
    → delete_portfolio household_id item_id db ≡ ok result
    → Books db
    → Books result.1
unfolding delete_portfolio
delete_portfolio-Books household_id item_id db result h books =
    let (item, owned, h1) = >>=-eq-ok (owned_item household_id item_id db) _ h in
    let (_, last) = >>-eq-ok (raise_if (ltb 0 item.quantity) portfolio_has_holdings) _ h1 in
    subst Books (ap (λ (p : Unit {0} × Db). p.1) (ok-injective last)) (
      put_item-Books item (record item { data_stat_cd = deleted }) item_id db
        (owned_item-found household_id item_id db item owned) refl refl books)

update_portfolio_transaction-Books :
    (household_id tx_id : ℕ) (req : PortfolioTxUpdateRequest) (db : Db)
    (result : Option PortfolioTxResponse × Db)
    → update_portfolio_transaction household_id tx_id req db ≡ ok result
    → Books db
    → Books result.1
unfolding update_portfolio_transaction
update_portfolio_transaction-Books household_id tx_id req db result h books =
    let (tx, owned, h1) = >>=-eq-ok (owned_trade household_id tx_id db) _ h in
    let (db', r, last) =
      >>=-eq-ok (recalc_item_of tx.portfolio_item_id (put_trade (edited_trade tx req) db)) _ h1 in
    subst Books (ap (λ (p : Option PortfolioTxResponse × Db). p.1) (ok-injective last)) (
      changed-Books household_id tx_id tx (edited_trade tx req) db db' owned
        (unfold edited_trade in refl) (unfold edited_trade in refl) r books)

delete_portfolio_transaction-Books :
    (household_id tx_id : ℕ) (db : Db) (result : Unit {0} × Db)
    → delete_portfolio_transaction household_id tx_id db ≡ ok result
    → Books db
    → Books result.1
unfolding delete_portfolio_transaction
delete_portfolio_transaction-Books household_id tx_id db result h books =
    let (tx, owned, h1) = >>=-eq-ok (owned_trade household_id tx_id db) _ h in
    let tx' = record tx { data_stat_cd = deleted } in
    let (db', r, last) = >>=-eq-ok (recalc_item_of tx.portfolio_item_id (put_trade tx' db)) _ h1 in
    subst Books (ap (λ (p : Unit {0} × Db). p.1) (ok-injective last))
      (changed-Books household_id tx_id tx tx' db db' owned refl refl r books)

step-Books : (db db' : Db) → PortfolioStep db db' → Books db → Books db'
step-Books db db' (create_step id now household_id req reply fresh _ h) books =
    create_portfolio-Books id now household_id req db (reply, db') fresh h books
step-Books db db' (buy_step id now today household_id item_id req reply fresh _ h) books =
    buy_shares-Books id now today household_id item_id req db (reply, db') fresh h books
step-Books db db' (sell_step id now today household_id item_id req reply fresh _ h) books =
    sell_shares-Books id now today household_id item_id req db (reply, db') fresh h books
step-Books db db' (edit_trade_step household_id tx_id req reply _ h) books =
    update_portfolio_transaction-Books household_id tx_id req db (reply, db') h books
step-Books db db' (delete_trade_step household_id tx_id h) books =
    delete_portfolio_transaction-Books household_id tx_id db (tt, db') h books
step-Books db db' (edit_item_step household_id item_id req reply _ h) books =
    update_portfolio-Books household_id item_id req db (reply, db') h books
step-Books db db' (delete_item_step household_id item_id h) books =
    delete_portfolio-Books household_id item_id db (tt, db') h books

-- Over any run of accepted portfolio requests (create, buy, sell, edit or delete a trade, edit or
-- delete an item), starting from balanced books and with fresh ids, every item, deleted or not,
-- holds what its active trades bought less what they sold, and no two trades share an id.
pub run-Books : (db db' : Db) → PortfolioRun db db' → Books db → Books db'
run-Books _ _ (stopped db) books = books
run-Books _ _ (stepped db mid db' step run) books =
    run-Books mid db' run (step-Books db mid step books)

-- ===== src/Portfolio/Books/Steps.antt =====
-- The requests on holdings and trades as steps between databases: each is one request that its
-- validator and its service accepted. A new row has an id that no row refers to, as uuid4 gives.
use mathlib.Core.Path.{subst}
use household_back.Base.{
  pos_part, All, find-All, ltb, ◌==◌, if◌then◌else◌, ◌==?◌, ℕ, ◌≡◌, refl, sym, ap, true, false,
  Option, none, some, arith,
}
use household_back.Core.{
  guarded-eq-ok, Date, bad_request, not_found, ok, err, raise_if, >>=-eq-ok, >>-eq-ok, ok-injective,
  guarded-eq-ok,
}
use household_back.Model.{PortfolioItem, PortfolioTransaction, Db}
use household_back.Paging.{Distinct, All-map}
use household_back.Portfolio.Schema.{
  PortfolioCreateRequest, PortfolioBuyRequest, PortfolioSellRequest, PortfolioUpdateRequest,
  PortfolioTxUpdateRequest, validate_buy, validate_sell, validate_item_update, validate_tx_update,
  validate_item_create,
}
use household_back.Portfolio.Repository.{find_trade}
use household_back.Portfolio.Replay.{Recalculated, recalc_item}
use household_back.Portfolio.Replay.Rows.{forget, Stands, trade_id, own_row_lem}
use household_back.Portfolio.Response.{PortfolioResponse, PortfolioTxResponse}
use household_back.Portfolio.Service.{
  owned_item, owned_trade, create_portfolio, new_trade, save_trade, bought_trade, sold_trade,
  buy_shares, sell_shares, put_trade, recalc_item_of, update_portfolio_transaction,
  delete_portfolio_transaction,
}
use household_back.Portfolio.Holdings.{update_portfolio, delete_portfolio}
use household_back.Portfolio.Books.{Books, BooksBut, recalc_item-Books}
use household_back.Portfolio.Books.Trading.{
  add_trade-BooksBut, put_trade-BooksBut, recalc_item_of-Books,
}

abbrev pub FreshTrade : ℕ → Db → Type 0
FreshTrade id db =
    All (λ (u : PortfolioTransaction). (u.id == id) ≡ false) db.portfolio_transactions

abbrev pub FreshItem : ℕ → Db → Type 0
FreshItem id db =
    All (λ (u : PortfolioTransaction). (u.portfolio_item_id ==? id) ≡ false)
      db.portfolio_transactions

pub data PortfolioStep (db db' : Db) : Type 0 where
  create_step :
      (id now household_id : ℕ) (req : PortfolioCreateRequest) (reply : PortfolioResponse)
      → FreshItem id db
      → validate_item_create req ≡ ok tt
      → create_portfolio id now household_id req db ≡ ok (reply, db')
      → PortfolioStep db db'
  buy_step :
      (id now : ℕ) (today : Date) (household_id item_id : ℕ) (req : PortfolioBuyRequest)
      (reply : PortfolioResponse)
      → FreshTrade id db
      → validate_buy req ≡ ok tt
      → buy_shares id now today household_id item_id req db ≡ ok (reply, db')
      → PortfolioStep db db'
  sell_step :
      (id now : ℕ) (today : Date) (household_id item_id : ℕ) (req : PortfolioSellRequest)
      (reply : Option PortfolioResponse)
      → FreshTrade id db
      → validate_sell req ≡ ok tt
      → sell_shares id now today household_id item_id req db ≡ ok (reply, db')
      → PortfolioStep db db'
  edit_trade_step :
      (household_id tx_id : ℕ) (req : PortfolioTxUpdateRequest) (reply : Option PortfolioTxResponse)
      → validate_tx_update req ≡ ok tt
      → update_portfolio_transaction household_id tx_id req db ≡ ok (reply, db')
      → PortfolioStep db db'
  delete_trade_step :
      (household_id tx_id : ℕ)
      → delete_portfolio_transaction household_id tx_id db ≡ ok (tt, db')
      → PortfolioStep db db'
  edit_item_step :
      (household_id item_id : ℕ) (req : PortfolioUpdateRequest) (reply : PortfolioResponse)
      → validate_item_update req ≡ ok tt
      → update_portfolio household_id item_id req db ≡ ok (reply, db')
      → PortfolioStep db db'
  delete_item_step :
      (household_id item_id : ℕ)
      → delete_portfolio household_id item_id db ≡ ok (tt, db')
      → PortfolioStep db db'

-- any number of requests, one after the other
pub data PortfolioRun : Db → Db → Type 0 where
  stopped : (db : Db) → PortfolioRun db db
  stepped : (db mid db' : Db) → PortfolioStep db mid → PortfolioRun mid db' → PortfolioRun db db'

second : {A : Type 0} {r s : A × Db} → ok r ≡ ok s → r.1 ≡ s.1
second h = ap (λ p. p.1) (ok-injective h)

-- The body shared by `buy_shares` and `sell_shares`.
traded-Books :
    (t : PortfolioTransaction) (item : PortfolioItem) (db : Db) (done : Recalculated)
    → t.portfolio_item_id ≡ some item.id
    → FreshTrade t.id db
    → recalc_item item (save_trade t db) ≡ ok done
    → Books db
    → Books done.db
traded-Books t item db done own fresh r books =
    recalc_item-Books item (save_trade t db) done r
      (subst (λ key. BooksBut key (save_trade t db)) own (add_trade-BooksBut t db fresh books))

pub buy_shares-Books :
    (id now : ℕ) (today : Date) (household_id item_id : ℕ) (req : PortfolioBuyRequest) (db : Db)
    (result : PortfolioResponse × Db)
    → FreshTrade id db
    → buy_shares id now today household_id item_id req db ≡ ok result
    → Books db
    → Books result.1
unfolding buy_shares
buy_shares-Books id now today household_id item_id req db result fresh h books =
    let (item, owned, h1) = >>=-eq-ok (owned_item household_id item_id db) _ h in
    let t = bought_trade id now today household_id item req in
    let (done, r, last) = >>=-eq-ok (recalc_item item (save_trade t db)) _ h1 in
    subst Books (second last) (
      traded-Books t item db done (unfold bought_trade new_trade in refl)
        (unfold bought_trade new_trade in fresh) r books)

pub sell_shares-Books :
    (id now : ℕ) (today : Date) (household_id item_id : ℕ) (req : PortfolioSellRequest) (db : Db)
    (result : Option PortfolioResponse × Db)
    → FreshTrade id db
    → sell_shares id now today household_id item_id req db ≡ ok result
    → Books db
    → Books result.1
unfolding sell_shares
sell_shares-Books id now today household_id item_id req db result fresh h books =
    let (item, owned, h1) = >>=-eq-ok (owned_item household_id item_id db) _ h in
    let t = sold_trade id now today household_id item req in
    let (held, h2) =
      >>-eq-ok (raise_if (ltb item.quantity (pos_part req.quantity)) bad_request) _ h1 in
    let (done, r, last) = >>=-eq-ok (recalc_item item (save_trade t db)) _ h2 in
    subst Books (second last) (
      traded-Books t item db done (unfold sold_trade new_trade in refl)
        (unfold sold_trade new_trade in fresh) r books)

owned_trade-found :
    (household_id tx_id : ℕ) (db : Db) (tx : PortfolioTransaction)
    → owned_trade household_id tx_id db ≡ ok tx
    → find_trade tx_id db ≡ some tx
unfolding owned_trade
owned_trade-found household_id tx_id db tx h = by_row (find_trade tx_id db) h
  where
    by_row :
        (o : Option PortfolioTransaction)
        → (elim o [
          | none ↦ err not_found
          | some t ↦ if t.household_id == household_id then ok t else err not_found
        ])
          ≡ ok tx
        → o ≡ some tx
    by_row none k = cc
    by_row (some t) k = ap some (guarded-eq-ok (t.household_id == household_id) not_found k).1

-- Primary keys: a stored trade with the id of the one found belongs to the same item.
same_item :
    (tx_id : ℕ) (db : Db) (tx : PortfolioTransaction)
    → find_trade tx_id db ≡ some tx
    → Distinct trade_id db.portfolio_transactions
    → All
        (λ (u : PortfolioTransaction).
          (u.id == tx.id) ≡ true → u.portfolio_item_id ≡ tx.portfolio_item_id)
        db.portfolio_transactions
unfolding find_trade
same_item tx_id db tx found distinct =
    let ts = db.portfolio_transactions in
    All-map _ _
      (λ u stands same.
        ap (λ (t : PortfolioTransaction). t.portfolio_item_id)
          (sym (stands (id_swap u.id tx.id same))))
      ts (find-All (λ r. Stands ts (forget r)) _ ts tx (own_row_lem ts distinct) found)
  where
    id_swap : (a b : ℕ) → (a == b) ≡ true → (b == a) ≡ true
    id_swap a b k = ground arith

-- The body shared by the change and the deletion of a trade.
pub changed-Books :
    (household_id tx_id : ℕ) (tx tx' : PortfolioTransaction) (db db' : Db)
    → owned_trade household_id tx_id db ≡ ok tx
    → tx'.id ≡ tx.id
    → tx'.portfolio_item_id ≡ tx.portfolio_item_id
    → recalc_item_of tx.portfolio_item_id (put_trade tx' db) ≡ ok db'
    → Books db
    → Books db'
changed-Books household_id tx_id tx tx' db db' owned same_id same_key r books =
    let same = same_item tx_id db tx (owned_trade-found household_id tx_id db tx owned) books.0 in
    recalc_item_of-Books tx.portfolio_item_id (put_trade tx' db) db' r (
      subst (λ key. BooksBut key (put_trade tx' db)) same_key
        (put_trade-BooksBut tx' db (rw (same_id, same_key) same) books))

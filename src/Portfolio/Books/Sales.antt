-- ===== src/Portfolio/Books/Sales.antt =====
-- What one purchase or sale does to the item, with balanced books.
use household_back.Paging.{All-map}
use mathlib.Core.Path.{subst}
use household_back.Base.{
  ℤ, pos_part, All, select, find-All, ltb, ◌==◌, if◌then◌else◌, Bool-cases, or_else, ℕ, ◌+◌, String,
  ◌≡◌, refl, sym, ap, ◌∙◌, inl, inr, Bool, true, false, Option, List, [], ◌∷◌, ◌++◌, arith,
}
use household_back.Core.{Date, bad_request, ok, raise_if, >>=-eq-ok, >>-eq-ok, ok-injective}
use household_back.Model.{PortfolioItem, PortfolioTransaction, PortfolioTxType, buy_tx, sell_tx, Db}
use household_back.Portfolio.Schema.{PortfolioBuyRequest, PortfolioSellRequest}
use household_back.Portfolio.Repository.{find_item, trade_of, find_trades_by_item, is_buy}
use household_back.Portfolio.Replay.{
  Recalculated, Running, recompute_realized_pnl, recalc_item, recalculated, status_of,
}
use household_back.Portfolio.Replay.Quantities.{total, bought, sold}
use household_back.Portfolio.Response.{PortfolioResponse}
use household_back.Portfolio.Service.{
  owned_item, new_trade, save_trade, bought_trade, sold_trade, buy_shares, sell_shares,
}
use household_back.Portfolio.Books.{Balanced, Books, All-update_where_cases, recalculated-Balanced}
use household_back.Portfolio.Books.Runs.{owned_item-found}

total-append :
    (f : PortfolioTransaction → ℕ) (ts : List PortfolioTransaction) (t : PortfolioTransaction)
    → total f (ts ++ t ∷ []) ≡ total f ts + f t
total-append f [] t = omega arith
total-append f (u ∷ ts) t = let later = total-append f ts t in omega arith

select-append :
    (p : PortfolioTransaction → Bool) (ts : List PortfolioTransaction) (t : PortfolioTransaction)
    → p t ≡ true
    → select p (ts ++ t ∷ []) ≡ select p ts ++ t ∷ []
select-append p [] t h = rw h refl
select-append p (u ∷ ts) t h = elim (Bool-cases (p u)) [
  | inl e ↦ rw e (ap (λ l. u ∷ l) (select-append p ts t h))
  | inr e ↦ rw e (select-append p ts t h)
]

-- The quantity after the replay, from the one before and the new trade.
traded-quantity :
    (t : PortfolioTransaction) (item : PortfolioItem) (db : Db)
    (done : List PortfolioTransaction × Running)
    → trade_of item.id t ≡ true
    → recompute_realized_pnl (find_trades_by_item item.id (save_trade t db)) ≡ ok done
    → Balanced db.portfolio_transactions item
    → done.1.qty + (if is_buy t.pt_type then 0 else t.quantity)
      ≡ item.quantity + (if is_buy t.pt_type then t.quantity else 0)
unfolding bought sold recalculated
traded-quantity t item db done mine e old =
    let mine_before = select (trade_of item.id) db.portfolio_transactions in
    let after = recalculated-Balanced item (save_trade t db) done e in
    let rows = select-append (trade_of item.id) db.portfolio_transactions t mine in
    step_lem _ _ _ _ _ _ (subst (λ l. done.1.qty + sold l ≡ bought l) rows after)
      (total-append _ mine_before t) (total-append _ mine_before t) old
  where
    step_lem :
        (q0 q1 s b ts tb : ℕ) {s1 b1 : ℕ}
        → q1 + s1 ≡ b1
        → s1 ≡ s + ts
        → b1 ≡ b + tb
        → q0 + s ≡ b
        → q1 + ts ≡ q0 + tb
    step_lem q0 q1 s b ts tb e1 e2 e3 e4 = omega arith

-- What a trade leaves of its item.
abbrev Traded : PortfolioItem → PortfolioTransaction → PortfolioItem → Type 0
Traded item t i =
    (i.id == item.id) ≡ true
    → (i.quantity + (if is_buy t.pt_type then 0 else t.quantity)
        ≡ item.quantity + (if is_buy t.pt_type then t.quantity else 0))
      × (i.data_stat_cd ≡ status_of i.quantity)

clash : {A : Type 0} (b : Bool) → b ≡ true → b ≡ false → A
clash true p q = cc
clash false p q = cc

recalc_item-Traded :
    (t : PortfolioTransaction) (item : PortfolioItem) (db : Db) (done : Recalculated)
    → trade_of item.id t ≡ true
    → recalc_item item (save_trade t db) ≡ ok done
    → Balanced db.portfolio_transactions item
    → All (Traded item t) done.db.items
unfolding recalc_item recalculated
recalc_item-Traded t item db done mine r old =
    let (replayed, e, stored) =
      >>=-eq-ok (recompute_realized_pnl (find_trades_by_item item.id (save_trade t db))) _ r in
    subst (λ (d : Recalculated). All (Traded item t) d.db.items) (ok-injective stored)
      (All-update_where_cases (λ _. Unit {0}) (Traded item t) _ _ db.items
        (λ _ _ _ _. (traded-quantity t item db replayed mine e old, refl))
        (λ i _ miss same. clash _ same miss) (all_units db.items))
  where
    all_units : (items : List PortfolioItem) → All (λ (i : PortfolioItem). Unit {0}) items
    all_units [] = tt
    all_units (i ∷ items) = (tt, all_units items)

owned-Balanced :
    (household_id item_id : ℕ) (db : Db) (item : PortfolioItem)
    → owned_item household_id item_id db ≡ ok item
    → Books db
    → Balanced db.portfolio_transactions item
unfolding find_item
owned-Balanced household_id item_id db item owned books =
    find-All (Balanced db.portfolio_transactions) _ db.items item books.1
      (owned_item-found household_id item_id db item owned)

new_trade_of :
    (id now household_id : ℕ) (item : PortfolioItem) (kind : PortfolioTxType) (q p f : ℤ) (d : Date)
    (memo : Option String)
    → trade_of item.id (new_trade id now household_id item kind q p f d memo) ≡ true
unfolding new_trade
new_trade_of id now household_id item kind q p f d memo = ground arith

-- `i`, if it is the item, has `q` shares less, or more, and is active exactly if it has any.
abbrev pub Sold : PortfolioItem → ℕ → PortfolioItem → Type 0
Sold item q i =
    (i.id == item.id) ≡ true
    → (i.quantity + q ≡ item.quantity) × (i.data_stat_cd ≡ status_of i.quantity)

abbrev pub Bought : PortfolioItem → ℕ → PortfolioItem → Type 0
Bought item q i =
    (i.id == item.id) ≡ true
    → (i.quantity ≡ item.quantity + q) × (i.data_stat_cd ≡ status_of i.quantity)

second : {A : Type 0} {r s : A × Db} → ok r ≡ ok s → r.1 ≡ s.1
second h = ap (λ p. p.1) (ok-injective h)

-- With balanced books, a sale that succeeds leaves every row of the sold item with the sold number
-- of shares less, and active exactly if shares are left.
pub sell_shares-quantity :
    (id now : ℕ) (today : Date) (household_id item_id : ℕ) (req : PortfolioSellRequest) (db : Db)
    (item : PortfolioItem) (result : Option PortfolioResponse × Db)
    → owned_item household_id item_id db ≡ ok item
    → sell_shares id now today household_id item_id req db ≡ ok result
    → Books db
    → All (Sold item (pos_part req.quantity)) result.1.items
unfolding sell_shares sold_trade new_trade
sell_shares-quantity id now today household_id item_id req db item result owned h books =
    let (item', owned', h1) = >>=-eq-ok (owned_item household_id item_id db) _ h in
    let t = sold_trade id now today household_id item' req in
    let (held, h2) =
      >>-eq-ok (raise_if (ltb item'.quantity (pos_part req.quantity)) bad_request) _ h1 in
    let (done, r, last) = >>=-eq-ok (recalc_item item' (save_trade t db)) _ h2 in
    let same : item' ≡ item = ok-injective (sym owned' ∙ owned) in
    let all =
      recalc_item-Traded t item' db done
        (new_trade_of id now household_id item' sell_tx req.quantity req.sell_price req.fee
          (or_else req.tx_date today) req.memo)
        r (owned-Balanced household_id item_id db item' owned' books) in
    subst (λ (d : Db). All (Sold item (pos_part req.quantity)) d.items) (second last)
      (All-map (Traded item t) (Sold item (pos_part req.quantity))
        (λ i k same_id.
          let (e, s) = k same_id in
          (plus_zero i.quantity item.quantity (pos_part req.quantity) e, s))
        done.db.items (subst (λ (x : PortfolioItem). All (Traded x t) done.db.items) same all))
  where
    plus_zero : (a b q : ℕ) → a + q ≡ b + 0 → a + q ≡ b
    plus_zero a b q e = omega arith

-- With balanced books, a purchase that succeeds leaves every row of the bought item with the bought
-- number of shares more, and active exactly if it has shares.
pub buy_shares-quantity :
    (id now : ℕ) (today : Date) (household_id item_id : ℕ) (req : PortfolioBuyRequest) (db : Db)
    (item : PortfolioItem) (result : PortfolioResponse × Db)
    → owned_item household_id item_id db ≡ ok item
    → buy_shares id now today household_id item_id req db ≡ ok result
    → Books db
    → All (Bought item (pos_part req.quantity)) result.1.items
unfolding buy_shares bought_trade new_trade
buy_shares-quantity id now today household_id item_id req db item result owned h books =
    let (item', owned', h1) = >>=-eq-ok (owned_item household_id item_id db) _ h in
    let t = bought_trade id now today household_id item' req in
    let (done, r, last) = >>=-eq-ok (recalc_item item' (save_trade t db)) _ h1 in
    let same : item' ≡ item = ok-injective (sym owned' ∙ owned) in
    let all =
      recalc_item-Traded t item' db done
        (new_trade_of id now household_id item' buy_tx req.quantity req.price req.fee
          (or_else req.tx_date today) req.memo)
        r (owned-Balanced household_id item_id db item' owned' books) in
    subst (λ (d : Db). All (Bought item (pos_part req.quantity)) d.items) (second last)
      (All-map (Traded item t) (Bought item (pos_part req.quantity))
        (λ i k same_id. let (e, s) = k same_id in (plus_zero e, s)) done.db.items
        (subst (λ (x : PortfolioItem). All (Traded x t) done.db.items) same all))
  where
    plus_zero : {a b : ℕ} → a + 0 ≡ b → a ≡ b
    plus_zero e = omega arith

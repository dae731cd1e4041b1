-- ===== src/Portfolio/Books.antt =====
-- The books of a portfolio: an item's quantity is what its active trades bought less what they sold.
pub mod Trading
pub mod Steps
pub mod Runs
pub mod Sales
use mathlib.Core.Path.{subst}
use household_back.Base.{
  All, select, update_where, insert_row, order_by, ◌==◌, if◌then◌else◌, Bool-cases, ◌==?◌, ℕ, ◌+◌,
  ◌-◌, ◌≡◌, refl, sym, ap, ◌∙◌, inl, inr, Bool, true, false, Option, some, List, [], ◌∷◌, map,
  arith,
}
use household_back.Core.{ok, ◌>>=◌, ◌>>◌, >>=-eq-ok, ok-injective}
use household_back.Model.{PortfolioItem, PortfolioTransaction, Db}
use household_back.Paging.{Distinct}
use household_back.Portfolio.Repository.{trade_of, trade_asc, find_trades_by_item}
use household_back.Portfolio.Replay.{
  recompute_realized_pnl, store_trades, Running, Recalculated, recalc_item, recalculated,
}
use household_back.Portfolio.Replay.Quantities.{total, bought, sold, recompute_realized_pnl-qty}
use household_back.Portfolio.Replay.Rows.{forget, trade_id, store_trades_lem}

abbrev pub Balanced : List PortfolioTransaction → PortfolioItem → Type 0
Balanced ts i = i.quantity + sold (select (trade_of i.id) ts) ≡ bought (select (trade_of i.id) ts)

-- Trades have their own ids, and every item, active or not, has the quantity of its trades.
abbrev pub Books : Db → Type 0
Books db =
    Distinct trade_id db.portfolio_transactions × All (Balanced db.portfolio_transactions) db.items

-- The same, but for the item that `key` names.
abbrev pub BooksBut : Option ℕ → Db → Type 0
BooksBut key db =
    Distinct trade_id db.portfolio_transactions
    × All (λ (i : PortfolioItem). (key ==? i.id) ≡ false → Balanced db.portfolio_transactions i)
        db.items

total-insert_row :
    (f : PortfolioTransaction → ℕ) (before : PortfolioTransaction → PortfolioTransaction → Bool)
    (x : PortfolioTransaction) (ys : List PortfolioTransaction)
    → total f (insert_row before x ys) ≡ f x + total f ys
total-insert_row f before x [] = refl
total-insert_row f before x (y ∷ ys) = elim (Bool-cases (before x y)) [
  | inl e ↦ rw e refl
  | inr e ↦ rw e (let later = total-insert_row f before x ys in omega arith)
]

total-order_by :
    (f : PortfolioTransaction → ℕ) (before : PortfolioTransaction → PortfolioTransaction → Bool)
    (ts : List PortfolioTransaction)
    → total f (order_by before ts) ≡ total f ts
total-order_by f before [] = refl
total-order_by f before (t ∷ ts) =
    total-insert_row f before t (order_by before ts)
    ∙ ap (λ n. f t + n) (total-order_by f before ts)

cons_inj :
    {a b : PortfolioTransaction} {us vs : List PortfolioTransaction}
    → a ∷ us ≡ b ∷ vs
    → (a ≡ b) × (us ≡ vs)
cons_inj k = (cc, cc)

-- A total over an item's trades does not see the realized columns.
total-forget :
    (f : PortfolioTransaction → ℕ) (p : PortfolioTransaction → Bool)
    → ((t : PortfolioTransaction) → f t ≡ f (forget t))
    → ((t : PortfolioTransaction) → p t ≡ p (forget t))
    → (xs ys : List PortfolioTransaction) → map forget xs ≡ map forget ys
    → total f (select p xs) ≡ total f (select p ys)
total-forget f p hf hp [] [] e = refl
total-forget f p hf hp [] (y ∷ ys) e = cc
total-forget f p hf hp (x ∷ xs) [] e = cc
total-forget f p hf hp (x ∷ xs) (y ∷ ys) e =
    let (same, rest) = cons_inj e in
    let later = total-forget f p hf hp xs ys rest in
    let value = hf x ∙ ap f same ∙ sym (hf y) in
    step (select p xs) (select p ys) x y (p x) (p y) (hp x ∙ ap p same ∙ sym (hp y)) value later
  where
    step :
        (us vs : List PortfolioTransaction) (u v : PortfolioTransaction) (b c : Bool)
        → b ≡ c
        → f u ≡ f v
        → total f us ≡ total f vs
        → total f (if b then u ∷ us else us) ≡ total f (if c then v ∷ vs else vs)
    step us vs u v true true h value later = omega arith
    step us vs u v true false h value later = cc
    step us vs u v false true h value later = cc
    step us vs u v false false h value later = later

Balanced-forget :
    (xs ys : List PortfolioTransaction) (i : PortfolioItem)
    → map forget xs ≡ map forget ys
    → Balanced ys i
    → Balanced xs i
unfolding bought sold
Balanced-forget xs ys i e h =
    ap (λ n. i.quantity + n) (total-forget _ (trade_of i.id) (λ t. refl) (λ t. refl) xs ys e)
    ∙ h
    ∙ sym (total-forget _ (trade_of i.id) (λ t. refl) (λ t. refl) xs ys e)

differs-forget :
    (a : ℕ) (xs ys : List PortfolioTransaction)
    → map forget xs ≡ map forget ys
    → All (λ (y : PortfolioTransaction). (a == trade_id y) ≡ false) ys
    → All (λ (y : PortfolioTransaction). (a == trade_id y) ≡ false) xs
differs-forget a [] ys e h = tt
differs-forget a (x ∷ xs) [] e h = cc
differs-forget a (x ∷ xs) (y ∷ ys) e h =
    let (same, rest) = cons_inj e in
    (
      subst (λ (t : PortfolioTransaction). (a == t.id) ≡ false) (sym same) h.0,
      differs-forget a xs ys rest h.1,
    )

Distinct-forget :
    (xs ys : List PortfolioTransaction)
    → map forget xs ≡ map forget ys
    → Distinct trade_id ys
    → Distinct trade_id xs
Distinct-forget [] ys e h = tt
Distinct-forget (x ∷ xs) [] e h = cc
Distinct-forget (x ∷ xs) (y ∷ ys) e h =
    let (same, rest) = cons_inj e in
    (
      subst
          (λ (t : PortfolioTransaction).
            All (λ (u : PortfolioTransaction). (t.id == trade_id u) ≡ false) xs)
          (sym same) (differs-forget y.id xs ys rest h.0),
      Distinct-forget xs ys rest h.1,
    )

pub All-update_where_cases :
    {A : Type 0} (P Q : A → Type 0) (p : A → Bool) (f : A → A) (xs : List A)
    → ((x : A) → P x → p x ≡ true → Q (f x))
    → ((x : A) → P x → p x ≡ false → Q x)
    → All P xs
    → All Q (update_where p f xs)
All-update_where_cases P Q p f [] hit miss h = tt
All-update_where_cases P Q p f (x ∷ xs) hit miss h = elim (Bool-cases (p x)) [
  | inl e ↦ rw e (hit x h.0 e, All-update_where_cases P Q p f xs hit miss h.1)
  | inr e ↦ rw e (miss x h.0 e, All-update_where_cases P Q p f xs hit miss h.1)
]

-- The replayed item has the quantity of its trades.
recalculated-Balanced :
    (item : PortfolioItem) (db : Db) (done : List PortfolioTransaction × Running)
    → recompute_realized_pnl (find_trades_by_item item.id db) ≡ ok done
    → Balanced db.portfolio_transactions (recalculated item done.1)
unfolding recalculated find_trades_by_item bought sold
recalculated-Balanced item db done h =
    let mine = select (trade_of item.id) db.portfolio_transactions in
    ap (λ n. done.1.qty + n) (sym (total-order_by _ trade_asc mine))
    ∙ recompute_realized_pnl-qty (order_by trade_asc mine) done h
    ∙ total-order_by _ trade_asc mine

differ_sym : (a b : ℕ) → (a == b) ≡ false → (b == a) ≡ false
differ_sym a b h = ground arith

-- Whatever happened to one item's trades, its replay brings the books back into balance.
pub recalc_item-Books :
    (item : PortfolioItem) (db : Db) (done : Recalculated)
    → recalc_item item db ≡ ok done
    → BooksBut (some item.id) db
    → Books done.db
unfolding recalc_item
recalc_item-Books item db done h (distinct, old) =
    let (replayed, e, stored) =
      >>=-eq-ok (recompute_realized_pnl (find_trades_by_item item.id db)) _ h in
    let same = store_trades_lem item.id db replayed distinct e in
    let rows = store_trades replayed.0 db.portfolio_transactions in
    subst (λ (d : Recalculated). Books d.db) (ok-injective stored)
      (
        Distinct-forget rows db.portfolio_transactions same distinct,
        All-update_where_cases _ (Balanced rows) _ _ db.items
            (λ i _ _.
              Balanced-forget rows db.portfolio_transactions (recalculated item replayed.1) same
                (recalculated-Balanced item db replayed e))
            (λ i balanced apart.
              Balanced-forget rows db.portfolio_transactions i same
                (balanced (differ_sym i.id item.id (unfold recalculated in apart))))
            old,
      )

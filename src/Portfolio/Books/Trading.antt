-- ===== src/Portfolio/Books/Trading.antt =====
-- The requests on holdings and trades as steps between databases, and what every run of them keeps.
use mathlib.Core.Path.{subst}
use household_back.Base.{
  All, select, find, update_where, find-passes, All-append, ◌==◌, if◌then◌else◌, ==_iff, Bool-cases,
  ◌==?◌, ℕ, ◌≡◌, refl, sym, ap, inl, inr, true, false, Option, none, some, List, [], ◌∷◌, ◌++◌,
  arith,
}
use household_back.Core.{ok, >>=-eq-ok, ok-injective}
use household_back.Model.{PortfolioItem, PortfolioTransaction, Db}
use household_back.Paging.{Distinct, All-map}
use household_back.Portfolio.Repository.{find_item_any_status, trade_of}
use household_back.Portfolio.Replay.{recalc_item}
use household_back.Portfolio.Replay.Rows.{trade_id}
use household_back.Portfolio.Service.{save_trade, put_trade, recalc_found, recalc_item_of}
use household_back.Portfolio.Books.{
  Balanced, Books, BooksBut, All-update_where_cases, recalc_item-Books,
}

-- A trade added to one item's.
pub add_trade-BooksBut :
    (t : PortfolioTransaction) (db : Db)
    → All (λ (u : PortfolioTransaction). (u.id == t.id) ≡ false) db.portfolio_transactions
    → Books db
    → BooksBut t.portfolio_item_id (save_trade t db)
add_trade-BooksBut t db fresh (distinct, balanced) = (
  Distinct-append db.portfolio_transactions distinct fresh,
  All-map _ _ (λ i h apart. Balanced-append i db.portfolio_transactions apart h) db.items balanced,
)
  where
    Distinct-append :
        (ts : List PortfolioTransaction)
        → Distinct trade_id ts
        → All (λ (u : PortfolioTransaction). (u.id == t.id) ≡ false) ts
        → Distinct trade_id (ts ++ t ∷ [])
    Distinct-append [] d f = (tt, tt)
    Distinct-append (u ∷ ts) d f = (
      All-append (λ (v : PortfolioTransaction). (u.id == trade_id v) ≡ false) ts (t ∷ []) d.0
          (f.0, tt),
      Distinct-append ts d.1 f.1,
    )

    not_mine :
        (i : PortfolioItem) → (t.portfolio_item_id ==? i.id) ≡ false → trade_of i.id t ≡ false
    not_mine i apart = rw apart refl

    select-append :
        (i : PortfolioItem) (ts : List PortfolioTransaction)
        → trade_of i.id t ≡ false
        → select (trade_of i.id) (ts ++ t ∷ []) ≡ select (trade_of i.id) ts
    select-append i [] e = rw e refl
    select-append i (u ∷ ts) e = elim (Bool-cases (trade_of i.id u)) [
      | inl f ↦ rw f (ap (λ l. u ∷ l) (select-append i ts e))
      | inr f ↦ rw f (select-append i ts e)
    ]

    Balanced-append :
        (i : PortfolioItem) (ts : List PortfolioTransaction)
        → (t.portfolio_item_id ==? i.id) ≡ false
        → Balanced ts i
        → Balanced (ts ++ t ∷ []) i
    Balanced-append i ts apart h = rw (select-append i ts (not_mine i apart)) h

id_subst : (a b c : ℕ) → (b == c) ≡ true → (a == b) ≡ false → (a == c) ≡ false
id_subst a b c same differs = ground arith

abbrev put : PortfolioTransaction → List PortfolioTransaction → List PortfolioTransaction
put t ts = update_where (λ (u : PortfolioTransaction). u.id == t.id) (λ _. t) ts

-- A trade changed in place, its id and its item kept.
pub put_trade-BooksBut :
    (t : PortfolioTransaction) (db : Db)
    → All
        (λ (u : PortfolioTransaction).
          (u.id == t.id) ≡ true → u.portfolio_item_id ≡ t.portfolio_item_id)
        db.portfolio_transactions
    → Books db
    → BooksBut t.portfolio_item_id (put_trade t db)
put_trade-BooksBut t db same (distinct, balanced) = (
  Distinct-put db.portfolio_transactions distinct,
  All-map _ _ (λ i h apart. rw (select-put i apart db.portfolio_transactions same) h) db.items
      balanced,
)
  where
    apart_from :
        (a : ℕ) (ts : List PortfolioTransaction)
        → All (λ (v : PortfolioTransaction). (a == trade_id v) ≡ false) ts
        → All (λ (v : PortfolioTransaction). (a == trade_id v) ≡ false) (put t ts)
    apart_from a ts h =
        All-update_where_cases _ _ _ _ ts (λ v differs hit. id_subst a v.id t.id hit differs)
          (λ v differs miss. differs) h

    Distinct-put :
        (ts : List PortfolioTransaction) → Distinct trade_id ts → Distinct trade_id (put t ts)
    Distinct-put [] d = tt
    Distinct-put (u ∷ ts) d = elim (Bool-cases (u.id == t.id)) [
      | inl e ↦ rw e (
        apart_from t.id ts (
            subst (λ a. All (λ (v : PortfolioTransaction). (a == trade_id v) ≡ false) ts)
              ((==_iff u.id t.id).0 e) d.0),
        Distinct-put ts d.1,
      )
      | inr e ↦ rw e (apart_from u.id ts d.0, Distinct-put ts d.1)
    ]

    select-put :
        (i : PortfolioItem)
        → (t.portfolio_item_id ==? i.id) ≡ false
        → (ts : List PortfolioTransaction)
        → All
            (λ (u : PortfolioTransaction).
              (u.id == t.id) ≡ true → u.portfolio_item_id ≡ t.portfolio_item_id)
            ts
        → select (trade_of i.id) (put t ts) ≡ select (trade_of i.id) ts
    select-put i apart [] s = refl
    select-put i apart (u ∷ ts) s = elim (Bool-cases (u.id == t.id)) [
      | inl e ↦ rw e (rw (s.0 e, apart) (select-put i apart ts s.1))
      | inr e ↦ rw e (ap (λ l. if trade_of i.id u then u ∷ l else l) (select-put i apart ts s.1))
    ]

none_of :
    (item_id : ℕ) (ts : List PortfolioTransaction) (items : List PortfolioItem)
    → find (λ (i : PortfolioItem). i.id == item_id) items ≡ none
    → All (λ (i : PortfolioItem). (item_id == i.id) ≡ false → Balanced ts i) items
    → All (Balanced ts) items
none_of item_id ts [] e h = tt
none_of item_id ts (i ∷ items) e h = elim (Bool-cases (i.id == item_id)) [
  | inl hit ↦ cc (rw hit at e)
  | inr miss ↦ (h.0 (id_swap i.id item_id miss), none_of item_id ts items (rw miss at e) h.1)
]
  where
    id_swap : (a b : ℕ) → (a == b) ≡ false → (b == a) ≡ false
    id_swap a b k = ground arith

nothing_apart :
    (ts : List PortfolioTransaction) (items : List PortfolioItem)
    → All (λ (i : PortfolioItem). false ≡ false → Balanced ts i) items
    → All (Balanced ts) items
nothing_apart ts items h = All-map _ _ (λ i k. k refl) items h

pub recalc_item_of-Books :
    (key : Option ℕ) (db db' : Db) → recalc_item_of key db ≡ ok db' → BooksBut key db → Books db'
unfolding recalc_item_of find_item_any_status
recalc_item_of-Books none db db' h (distinct, old) =
    subst Books (ok-injective h) (distinct, nothing_apart db.portfolio_transactions db.items old)
recalc_item_of-Books (some item_id) db db' h old =
    by_item (find (λ (i : PortfolioItem). i.id == item_id) db.items) refl h
  where
    by_item :
        (o : Option PortfolioItem)
        → find (λ (i : PortfolioItem). i.id == item_id) db.items ≡ o
        → recalc_found o db ≡ ok db'
        → Books db'
    by_item none e k =
        subst Books (unfold recalc_found in ok-injective k)
          (old.0, none_of item_id db.portfolio_transactions db.items e old.1)
    by_item (some item) e k =
        let (done, r, last) = >>=-eq-ok (recalc_item item db) _ (unfold recalc_found in k) in
        let same = (==_iff item.id item_id).0 (find-passes _ db.items item e) in
        subst Books (ok-injective last)
          (recalc_item-Books item db done r (subst (λ key. BooksBut (some key) db) (sym same) old))

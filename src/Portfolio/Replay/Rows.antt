-- ===== src/Portfolio/Replay/Rows.antt =====
-- The rows that the replay writes: which columns change, and that a second replay changes nothing.
use mathlib.Core.Path.{subst}
use household_back.Base.{
  All, select, find, order_by, find-All, find-passes, ltb, ◌==◌, Option-cases, ℕ, ◌≡◌, refl, sym,
  ap, ◌∙◌, inl, inr, Bool, true, false, none, List, [], ◌∷◌, map, arith,
}
use household_back.Core.{Decimal, bad_request, ok, ◌>>=◌, ◌>>◌, raise_if, >>=-eq-ok, ok-injective}
use household_back.Model.{PortfolioTransaction, PortfolioTxType, buy_tx, sell_tx, Db}
use household_back.Paging.{Distinct, All-select, All-map, All-order_by}
use household_back.Portfolio.Repository.{trade_of, trade_asc, find_trades_by_item}
use household_back.Portfolio.Replay.{
  sale, replay_trade, replay_from, recompute_realized_pnl, store_trades, Running, running_avg,
  realize, zero_running,
}

-- A trade without its realized columns.
abbrev pub forget : PortfolioTransaction → PortfolioTransaction
forget t = record t { realized_pnl = none; realized_cost_basis = none }

guarded_sale :
    {A : Type 0} {x y : A} (c : Bool)
    → (raise_if c bad_request >> ok x) ≡ ok y
    → (c ≡ false) × (x ≡ y)
guarded_sale true h = cc
guarded_sale false h = (refl, ok-injective h)

realize-forget : (avg : Decimal) (t : PortfolioTransaction) → forget (realize avg t) ≡ forget t
unfolding realize
realize-forget avg t = refl

replay_trade-forget :
    (kind : PortfolioTxType) (t : PortfolioTransaction) (r : Running)
    {done : PortfolioTransaction × Running}
    → replay_trade kind t r ≡ ok done
    → forget done.0 ≡ forget t
unfolding replay_trade sale
replay_trade-forget buy_tx t r h =
    ap (λ (p : PortfolioTransaction × Running). forget p.0) (sym (ok-injective h))
replay_trade-forget sell_tx t r h =
    let (_, done) = guarded_sale (ltb r.qty t.quantity) h in
    ap (λ (p : PortfolioTransaction × Running). forget p.0) (sym done)
    ∙ realize-forget (running_avg r) t

-- A trade replayed again is left as it is.
replay_trade_again :
    (kind : PortfolioTxType) (t : PortfolioTransaction) (r : Running)
    {done : PortfolioTransaction × Running}
    → replay_trade kind t r ≡ ok done
    → replay_trade kind done.0 r ≡ ok done
unfolding replay_trade
replay_trade_again buy_tx t r h =
    subst (λ (p : PortfolioTransaction × Running). replay_trade buy_tx p.0 r ≡ ok p)
      (ok-injective h) refl
replay_trade_again sell_tx t r h =
    let (held, done) = guarded_sale (ltb r.qty t.quantity) h in
    subst (λ (p : PortfolioTransaction × Running). replay_trade sell_tx p.0 r ≡ ok p) done
      (unfold sale realize in rw held refl)

replay_from-map-forget :
    (ts : List PortfolioTransaction) (r : Running) (done : List PortfolioTransaction × Running)
    → replay_from ts r ≡ ok done
    → map forget done.0 ≡ map forget ts
unfolding replay_from
replay_from-map-forget [] r done h =
    ap (λ (p : List PortfolioTransaction × Running). map forget p.0) (sym (ok-injective h))
replay_from-map-forget (t ∷ ts) r done h =
    let (first, e, h1) =
      >>=-eq-ok (replay_trade t.pt_type t r)
        (λ first. replay_from ts first.1 >>= λ rest. ok (first.0 ∷ rest.0, rest.1)) h in
    let (rest, f, h2) =
      >>=-eq-ok (replay_from ts first.1) (λ rest. ok (first.0 ∷ rest.0, rest.1)) h1 in
    ap (λ (p : List PortfolioTransaction × Running). map forget p.0) (sym (ok-injective h2))
    ∙ ap (λ x. x ∷ map forget rest.0) (replay_trade-forget t.pt_type t r e)
    ∙ ap (λ l. forget t ∷ l) (replay_from-map-forget ts first.1 rest f)

replay_from_again :
    (ts : List PortfolioTransaction) (r : Running) (done : List PortfolioTransaction × Running)
    → replay_from ts r ≡ ok done
    → replay_from done.0 r ≡ ok done
unfolding replay_from
replay_from_again [] r done h =
    subst (λ (p : List PortfolioTransaction × Running). replay_from p.0 r ≡ ok p) (ok-injective h)
      refl
replay_from_again (t ∷ ts) r done h =
    let (first, e, h1) =
      >>=-eq-ok (replay_trade t.pt_type t r)
        (λ first. replay_from ts first.1 >>= λ rest. ok (first.0 ∷ rest.0, rest.1)) h in
    let (rest, f, h2) =
      >>=-eq-ok (replay_from ts first.1) (λ rest. ok (first.0 ∷ rest.0, rest.1)) h1 in
    let kind = ap (λ (t : PortfolioTransaction). t.pt_type) (replay_trade-forget t.pt_type t r e) in
    subst (λ (p : List PortfolioTransaction × Running). replay_from p.0 r ≡ ok p) (ok-injective h2)
      (rw kind
        (rw (replay_trade_again t.pt_type t r e) (rw (replay_from_again ts first.1 rest f) refl)))

-- A replay that succeeds keeps every trade but for its two realized columns, in the same order, and
-- replaying the trades it wrote gives the same result again.
pub recompute_realized_pnl_stable :
    (ts : List PortfolioTransaction) (done : List PortfolioTransaction × Running)
    → recompute_realized_pnl ts ≡ ok done
    → (map forget done.0 ≡ map forget ts) × (recompute_realized_pnl done.0 ≡ ok done)
unfolding recompute_realized_pnl
recompute_realized_pnl_stable ts done h =
    (replay_from-map-forget ts zero_running done h, replay_from_again ts zero_running done h)

-- What holds of every trade by its other columns holds of the replayed ones.
All-forget :
    (P : PortfolioTransaction → Type 0)
    → (xs ys : List PortfolioTransaction) → map forget xs ≡ map forget ys
    → All (λ t. P (forget t)) ys
    → All (λ t. P (forget t)) xs
All-forget P [] ys e h = tt
All-forget P (x ∷ xs) [] e h = cc
All-forget P (x ∷ xs) (y ∷ ys) e h =
    let (same, rest) = cons_inj e in (subst P (sym same) h.0, All-forget P xs ys rest h.1)
  where
    cons_inj :
        {a b : PortfolioTransaction} {us vs : List PortfolioTransaction}
        → a ∷ us ≡ b ∷ vs
        → (a ≡ b) × (us ≡ vs)
    cons_inj k = (cc, cc)

-- `r` stands for the stored trades of its id: they differ in the realized columns at most.
abbrev pub Stands : List PortfolioTransaction → PortfolioTransaction → Type 0
Stands ts r = All (λ (t : PortfolioTransaction). (r.id == t.id) ≡ true → r ≡ forget t) ts

store_trades-forget :
    (rows ts : List PortfolioTransaction)
    → All (λ r. Stands ts (forget r)) rows
    → map forget (store_trades rows ts) ≡ map forget ts
unfolding store_trades
store_trades-forget rows [] h = refl
store_trades-forget rows (t ∷ ts) h =
    let later = store_trades-forget rows ts (All-map _ _ (λ r s. s.1) rows h) in
    elim (Option-cases (find (λ (r : PortfolioTransaction). r.id == t.id) rows)) [
      | inl e ↦ rw e (ap (λ l. forget t ∷ l) later)
      | inr (r, e) ↦ rw e (
          let same = (find-All (λ r. Stands (t ∷ ts) (forget r)) _ rows r h e).0 in
          let hit = find-passes (λ (r : PortfolioTransaction). r.id == t.id) rows r e in
          ap (λ x. x ∷ map forget (store_trades rows ts)) (same hit) ∙ ap (λ l. forget t ∷ l) later)
    ]

abbrev pub trade_id : PortfolioTransaction → ℕ
trade_id t = t.id

All-both :
    (P Q : PortfolioTransaction → Type 0) (xs : List PortfolioTransaction)
    → All P xs
    → All Q xs
    → All (λ x. P x × Q x) xs
All-both P Q [] h k = tt
All-both P Q (x ∷ xs) h k = ((h.0, k.0), All-both P Q xs h.1 k.1)

differ_sym : (a b : ℕ) → (a == b) ≡ false → (b == a) ≡ false
differ_sym a b h = ground arith

-- With primary keys, each stored trade stands for itself.
pub own_row_lem :
    (ts : List PortfolioTransaction) → Distinct trade_id ts → All (λ r. Stands ts (forget r)) ts
own_row_lem [] h = tt
own_row_lem (t ∷ ts) h = (
  (λ _. refl, All-map _ _ (λ u differs same. cc) ts h.0),
  All-both _ _ ts (All-map _ _ (λ u differs same. cc (differ_sym t.id u.id differs)) ts h.0)
      (own_row_lem ts h.1),
)

-- Storing the outcome of an item's replay changes no trade but in its realized columns.
pub store_trades_lem :
    (item_id : ℕ) (db : Db) (done : List PortfolioTransaction × Running)
    → Distinct trade_id db.portfolio_transactions
    → recompute_realized_pnl (find_trades_by_item item_id db) ≡ ok done
    → map forget (store_trades done.0 db.portfolio_transactions)
      ≡ map forget db.portfolio_transactions
unfolding find_trades_by_item
store_trades_lem item_id db done distinct h =
    let ts = db.portfolio_transactions in
    let mine = order_by trade_asc (select (trade_of item_id) ts) in
    store_trades-forget done.0 ts (
      All-forget (Stands ts) done.0 mine (recompute_realized_pnl_stable mine done h).0 (
        All-order_by _ trade_asc (select (trade_of item_id) ts)
          (All-select _ (trade_of item_id) ts (own_row_lem ts distinct))))

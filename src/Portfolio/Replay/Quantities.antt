-- ===== src/Portfolio/Replay/Quantities.antt =====
-- The replay's quantities, apart from its Decimals: when it succeeds, and how many shares remain.
use household_back.Base.{
  take, ltb, if◌then◌else◌, ℕ, zero, suc, ◌+◌, ◌-◌, ◌≤◌, ◌≡◌, refl, ap, ◌↔◌, Bool, true, false,
  List, [], ◌∷◌, arith,
}
use household_back.Core.{bad_request, ok, ◌>>=◌, ◌>>◌, raise_if, >>=-eq-ok, ok-injective}
use household_back.Model.{PortfolioTransaction, PortfolioTxType, buy_tx, sell_tx}
use household_back.Portfolio.Repository.{is_buy}
use household_back.Portfolio.Replay.{
  sale, Running, zero_running, replay_trade, replay_from, recompute_realized_pnl,
}

abbrev pub total : (PortfolioTransaction → ℕ) → List PortfolioTransaction → ℕ
total f [] = 0
total f (t ∷ ts) = f t + total f ts

-- shares bought and shares sold in a list of trades
unfoldable pub bought : List PortfolioTransaction → ℕ
bought ts = total (λ t. if is_buy t.pt_type then t.quantity else 0) ts

unfoldable pub sold : List PortfolioTransaction → ℕ
sold ts = total (λ t. if is_buy t.pt_type then 0 else t.quantity) ts

-- At no point has more been sold than was held at the start and bought since.
abbrev pub NeverOversold : ℕ → List PortfolioTransaction → Type 0
NeverOversold q ts = (n : ℕ) → sold (take n ts) ≤ q + bought (take n ts)

sold_by : PortfolioTxType → ℕ → ℕ
sold_by kind n = if is_buy kind then 0 else n

bought_by : PortfolioTxType → ℕ → ℕ
bought_by kind n = if is_buy kind then n else 0

not_ltb : (q n : ℕ) → ltb q n ≡ false → n ≤ q
not_ltb q n k = ground arith

held_lem : (q n left : ℕ) → ltb q n ≡ false → q - n ≡ left → (left + n ≡ q + 0) × (n ≤ q + 0)
held_lem q n left k e = let le = not_ltb q n k in (omega arith, omega arith)

-- One trade that succeeds moves the quantity by its own.
replay_trade-qty :
    (kind : PortfolioTxType) (t : PortfolioTransaction) (r : Running)
    {done : PortfolioTransaction × Running}
    → replay_trade kind t r ≡ ok done
    → (done.1.qty + sold_by kind t.quantity ≡ r.qty + bought_by kind t.quantity)
      × (sold_by kind t.quantity ≤ r.qty + bought_by kind t.quantity)
unfolding replay_trade sale sold_by bought_by
replay_trade-qty buy_tx t r h =
    let same = ap (λ (p : PortfolioTransaction × Running). p.1.qty) (ok-injective h) in
    (omega arith, omega arith)
replay_trade-qty sell_tx t r h =
    let (held, done) = guarded_sale (ltb r.qty t.quantity) h in
    let same = ap (λ (p : PortfolioTransaction × Running). p.1.qty) (ok-injective done) in
    held_lem r.qty t.quantity _ held same
  where
    guarded_sale :
        {A : Type 0} {x y : A} (c : Bool)
        → (raise_if c bad_request >> ok x) ≡ ok y
        → (c ≡ false) × (ok x ≡ ok y)
    guarded_sale true k = cc
    guarded_sale false k = (refl, k)

-- A trade that does not sell too much succeeds.
replay_trade_total :
    (kind : PortfolioTxType) (t : PortfolioTransaction) (r : Running)
    → sold_by kind t.quantity ≤ r.qty + bought_by kind t.quantity
    → (done : PortfolioTransaction × Running) × (replay_trade kind t r ≡ ok done)
unfolding replay_trade sale sold_by bought_by
replay_trade_total buy_tx t r h = (_, refl)
replay_trade_total sell_tx t r h =
    unguarded (ltb r.qty t.quantity) (sale t r) (enough r.qty t.quantity h)
  where
    enough : (q n : ℕ) → n ≤ q + 0 → ltb q n ≡ false
    enough q n k = ground arith

    unguarded :
        {A : Type 0} (c : Bool) (x : A)
        → c ≡ false
        → (y : A) × ((raise_if c bad_request >> ok x) ≡ ok y)
    unguarded true x k = cc
    unguarded false x k = (x, refl)

-- The prefix condition of a longer list, step by step.
NeverOversold-cons :
    (q q' : ℕ) (t : PortfolioTransaction) (ts : List PortfolioTransaction)
    → q' + sold_by t.pt_type t.quantity ≡ q + bought_by t.pt_type t.quantity
    → sold_by t.pt_type t.quantity ≤ q + bought_by t.pt_type t.quantity
    → NeverOversold q' ts
    → NeverOversold q (t ∷ ts)
unfolding bought sold sold_by bought_by
NeverOversold-cons q q' t ts e here h zero = omega arith
NeverOversold-cons q q' t ts e here h (suc n) = let later = h n in omega (arith)

NeverOversold-tail :
    (q q' : ℕ) (t : PortfolioTransaction) (ts : List PortfolioTransaction)
    → q' + sold_by t.pt_type t.quantity ≡ q + bought_by t.pt_type t.quantity
    → NeverOversold q (t ∷ ts)
    → NeverOversold q' ts
unfolding bought sold sold_by bought_by
NeverOversold-tail q q' t ts e h n = let whole = h (suc n) in omega arith

NeverOversold-head :
    (q : ℕ) (t : PortfolioTransaction) (ts : List PortfolioTransaction)
    → NeverOversold q (t ∷ ts)
    → sold_by t.pt_type t.quantity ≤ q + bought_by t.pt_type t.quantity
unfolding bought sold sold_by bought_by
NeverOversold-head q t ts h = let first = h 1 in omega arith

none_oversold : (q : ℕ) → NeverOversold q []
unfolding bought sold
none_oversold q zero = omega arith
none_oversold q (suc n) = omega arith

replay_from-qty :
    (ts : List PortfolioTransaction) (r : Running) (done : List PortfolioTransaction × Running)
    → replay_from ts r ≡ ok done
    → (done.1.qty + sold ts ≡ r.qty + bought ts) × NeverOversold r.qty ts
unfolding replay_from sold sold_by bought bought_by
replay_from-qty [] r done h =
    let same = ap (λ (p : List PortfolioTransaction × Running). p.1.qty) (ok-injective h) in
    (omega arith, none_oversold r.qty)
replay_from-qty (t ∷ ts) r done h =
    let (first, e, h1) =
      >>=-eq-ok (replay_trade t.pt_type t r)
        (λ first. replay_from ts first.1 >>= λ rest. ok (first.0 ∷ rest.0, rest.1)) h in
    let (rest, f, h2) =
      >>=-eq-ok (replay_from ts first.1) (λ rest. ok (first.0 ∷ rest.0, rest.1)) h1 in
    let same = ap (λ (p : List PortfolioTransaction × Running). p.1.qty) (ok-injective h2) in
    let (moved, covered) = replay_trade-qty t.pt_type t r e in
    let (later, never) = replay_from-qty ts first.1 rest f in
    (
      step_lem _ _ _ _ _ _ _ _ moved later same,
      NeverOversold-cons r.qty first.1.qty t ts moved covered never,
    )
  where
    step_lem :
        (q q1 q2 q3 s b ss bs : ℕ)
        → q1 + s ≡ q + b
        → q2 + ss ≡ q1 + bs
        → q2 ≡ q3
        → q3 + (s + ss) ≡ q + (b + bs)
    step_lem q q1 q2 q3 s b ss bs e f g = omega arith

replay_from_total :
    (ts : List PortfolioTransaction) (r : Running)
    → NeverOversold r.qty ts
    → (done : List PortfolioTransaction × Running) × (replay_from ts r ≡ ok done)
unfolding replay_from
replay_from_total [] r h = (_, refl)
replay_from_total (t ∷ ts) r h =
    let (first, e) = replay_trade_total t.pt_type t r (NeverOversold-head r.qty t ts h) in
    let (moved, _) = replay_trade-qty t.pt_type t r e in
    let (rest, f) =
      replay_from_total ts first.1 (NeverOversold-tail r.qty first.1.qty t ts moved h) in
    ((first.0 ∷ rest.0, rest.1), rw e (rw f refl))

-- The replay of a list of trades succeeds, with a final quantity of the shares bought less the
-- shares sold, exactly when in every prefix no more is sold than bought.
pub recompute_realized_pnl_iff :
    (ts : List PortfolioTransaction)
    → ((done : List PortfolioTransaction × Running) × (recompute_realized_pnl ts ≡ ok done)
        × (done.1.qty + sold ts ≡ bought ts))
      ↔ ((n : ℕ) → sold (take n ts) ≤ bought (take n ts))
unfolding recompute_realized_pnl
recompute_realized_pnl_iff ts = (
  λ (done, e, _) n. let h = (replay_from-qty ts zero_running done e).1 n in omega arith,
  λ h.
      let (done, e) = replay_from_total ts zero_running (λ n. let k = h n in omega arith) in
      let moved = (replay_from-qty ts zero_running done e).0 in (done, e, omega arith),
)

pub recompute_realized_pnl-qty :
    (ts : List PortfolioTransaction) (done : List PortfolioTransaction × Running)
    → recompute_realized_pnl ts ≡ ok done
    → done.1.qty + sold ts ≡ bought ts
unfolding recompute_realized_pnl
recompute_realized_pnl-qty ts done h =
    let moved = (replay_from-qty ts zero_running done h).0 in omega arith

-- ===== src/Portfolio/Replay.antt =====
-- portfolio/service.py: `_recompute_realized_pnl`, the replay of an item's trades in their order, and
-- `_recalc_item_from_transactions`, which stores its outcome. The proofs are in the modules below.
pub mod Quantities
pub mod Rows
use household_back.Base.{
  ℤ, pos, find, update_where, ltb, ◌==◌, if◌then◌else◌, or_else, ℕ, ◌+◌, ◌-◌, refl, some, List, [],
  ◌∷◌, arith,
}
use household_back.Core.{
  Decimal, integer, decimal_zero, add_decimal, sub_decimal, mul_decimal, div_decimal,
  quantize_cents, bad_request, Result, ok, ◌>>=◌, ◌>>◌, raise_if,
}
use household_back.Model.{
  PortfolioItem, PortfolioTransaction, DataStatus, active, deleted, PortfolioTxType, buy_tx,
  sell_tx, Db,
}
use household_back.Portfolio.Repository.{find_trades_by_item}

-- a number of shares, and an amount of money, as Decimals
abbrev pub quantity_decimal : ℕ → Decimal
quantity_decimal q = integer (pos q) 4

abbrev pub money_decimal : ℤ → Decimal
money_decimal m = integer m 2

-- `running_qty` and `running_cost`
pub record Running : Type 0 where
  pub qty : ℕ
  pub cost : Decimal

abbrev pub zero_running : Running
zero_running = record { qty = 0; cost = decimal_zero }

-- `running_cost / running_qty if running_qty > 0 else 0`
unfoldable pub running_avg : Running → Decimal
unfolding div_decimal
running_avg r = if ltb 0 r.qty then div_decimal r.cost (quantity_decimal r.qty) else decimal_zero

unfoldable pub buy_cost : PortfolioTransaction → Decimal
unfolding add_decimal mul_decimal
buy_cost t =
    add_decimal (mul_decimal (quantity_decimal t.quantity) (money_decimal (pos t.price)))
      (money_decimal (pos t.fee))

-- a SELL row with its realized columns
unfoldable pub realize : Decimal → PortfolioTransaction → PortfolioTransaction
unfolding quantize_cents mul_decimal sub_decimal
realize avg t = record t {
  realized_cost_basis = some (quantize_cents (mul_decimal avg (quantity_decimal t.quantity)));
  realized_pnl = some (
      quantize_cents (
        sub_decimal
          (mul_decimal (sub_decimal (money_decimal (pos t.price)) avg)
            (quantity_decimal t.quantity))
          (money_decimal (pos t.fee))));
}

-- the effect of a sale: the realized columns, and the running sums at an unchanged average
unfoldable pub sale : PortfolioTransaction → Running → PortfolioTransaction × Running
unfolding running_avg realize mul_decimal sub_decimal
sale t r =
    let avg = running_avg r in
    (
      realize avg t,
      record {
        qty = r.qty - t.quantity;
        cost = sub_decimal r.cost (mul_decimal avg (quantity_decimal t.quantity));
      },
    )

-- the body of the loop
unfoldable pub replay_trade :
    PortfolioTxType → PortfolioTransaction → Running → Result (PortfolioTransaction × Running)
unfolding buy_cost sale add_decimal
replay_trade buy_tx t r =
    ok (t, record { qty = r.qty + t.quantity; cost = add_decimal r.cost (buy_cost t) })
replay_trade sell_tx t r = do raise_if (ltb r.qty t.quantity) bad_request; ok (sale t r)

-- The loop; it returns the updated rows beside the final quantity and cost.
unfoldable pub replay_from :
    List PortfolioTransaction → Running → Result (List PortfolioTransaction × Running)
unfolding replay_trade
replay_from [] r = ok ([], r)
replay_from (t ∷ ts) r = replay_trade t.pt_type t r >>= λ first.
    replay_from ts first.1 >>= λ rest. ok (first.0 ∷ rest.0, rest.1)

-- `_recompute_realized_pnl`
unfoldable pub recompute_realized_pnl :
    List PortfolioTransaction → Result (List PortfolioTransaction × Running)
unfolding replay_from
recompute_realized_pnl ts = replay_from ts zero_running

-- the UPDATE of the changed rows, by primary key
unfoldable pub store_trades :
    List PortfolioTransaction → List PortfolioTransaction → List PortfolioTransaction
store_trades rows [] = []
store_trades rows (t ∷ ts) =
    or_else (find (λ (r : PortfolioTransaction). r.id == t.id) rows) t ∷ store_trades rows ts

abbrev pub put_item : PortfolioItem → Db → Db
put_item item db = record db {
  items = update_where (λ (i : PortfolioItem). i.id == item.id) (λ _. item) db.items;
}

abbrev pub status_of : ℕ → DataStatus
status_of qty = if ltb 0 qty then active else deleted

-- The item after the replay. The column `avg_price` holds two decimals, rounded half away from 0.
unfoldable pub recalculated : PortfolioItem → Running → PortfolioItem
unfolding running_avg quantize_cents
recalculated item r = record item {
  quantity = r.qty;
  avg_price = quantize_cents (running_avg r);
  data_stat_cd = status_of r.qty;
}

-- What the replay leaves: the item, its average price before the column rounds it, the database.
pub record Recalculated : Type 0 where
  pub item : PortfolioItem
  pub avg : Decimal
  pub db : Db

-- `_recalc_item_from_transactions`. The remaining quantity is a natural number, since a sale of more
-- than is held has raised, so the test `remaining_qty < 0` never fires.
unfoldable pub recalc_item : PortfolioItem → Db → Result Recalculated
unfolding find_trades_by_item recompute_realized_pnl store_trades recalculated running_avg
recalc_item item db = recompute_realized_pnl (find_trades_by_item item.id db) >>= λ done.
    ok (record {
      item = recalculated item done.1;
      avg = running_avg done.1;
      db =
          put_item (recalculated item done.1)
            (record db { portfolio_transactions = store_trades done.0 db.portfolio_transactions });
    })

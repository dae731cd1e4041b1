-- ===== src/Portfolio/Holdings.antt =====
-- portfolio/service.py: the operations on a holding that leave its trades alone.
use mathlib.Core.Option
use household_back.Base.{ltb, or_else, ℕ, not, ◌&&◌, [], ◌∷◌}
use household_back.Core.{
  not_found, portfolio_has_holdings, Result, ok, ◌>>=◌, ◌>>◌, raise_if, Handler, strip,
}
use household_back.Model.{PortfolioItem, deleted, is_active, Db}
use household_back.Finders.{find_accounts}
use household_back.Portfolio.Schema.{PortfolioUpdateRequest, and_then}
use household_back.Portfolio.Replay.{put_item, money_decimal}
use household_back.Portfolio.Response.{PortfolioResponse, item_response}
use household_back.Portfolio.Service.{owned_item}

-- The assignments of `update_portfolio`. Archiving a holding that still has shares is refused.
unfoldable pub edit_item : PortfolioItem → PortfolioUpdateRequest → Result PortfolioItem
unfolding strip
edit_item item req = do
  raise_if (and_then req.is_archived (λ b. b && ltb 0 item.quantity)) portfolio_has_holdings
  ok (record item {
    current_price = or_else req.current_price item.current_price;
    name = or_else (Option.map strip req.name) item.name;
    code = or_else (Option.map strip req.code) item.code;
    market = or_else req.market item.market;
    is_archived = or_else req.is_archived item.is_archived;
  })

unfoldable pub update_portfolio : ℕ → ℕ → PortfolioUpdateRequest → Handler Db PortfolioResponse
unfolding owned_item edit_item item_response find_accounts
update_portfolio household_id item_id req db = do
  item ← owned_item household_id item_id db
  item' ← edit_item item req
  let db' = put_item item' db
  ok (
    item_response item' (money_decimal item'.avg_price) (find_accounts (item'.account_id ∷ []) db'),
    db',
  )

unfoldable pub delete_portfolio : ℕ → ℕ → Handler Db (Unit {0})
unfolding owned_item
delete_portfolio household_id item_id db = do
  item ← owned_item household_id item_id db
  raise_if (ltb 0 item.quantity) portfolio_has_holdings
  ok (tt, put_item (record item { data_stat_cd = deleted }) db)

-- `find_by_id` returns only active rows, so the last test of the source is one more guard
unfoldable pub get_portfolio_detail : ℕ → ℕ → Db → Result PortfolioResponse
unfolding owned_item item_response find_accounts
get_portfolio_detail household_id item_id db = do
  item ← owned_item household_id item_id db
  raise_if (not (is_active item.data_stat_cd)) not_found
  ok (item_response item (money_decimal item.avg_price) (find_accounts (item.account_id ∷ []) db))

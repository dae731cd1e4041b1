-- ===== src/Portfolio/Service.antt =====
-- portfolio/service.py: the operations on holdings and trades. `id`, `now` and `today` stand for uuid4
-- and the clock. A request has passed its validator, so `pos_part` reads its positive numbers.
use mathlib.Core.Option
use household_back.Base.{
  ℤ, pos, pos_part, find, update_where, ltb, ◌==◌, if◌then◌else◌, or_else, or_option, ℕ, String,
  false, not, ◌||◌, Option, none, some, List, [], ◌∷◌, ◌++◌,
}
use household_back.Core.{
  Date, decimal_zero, bad_request, not_found, Result, ok, err, ◌>>=◌, ◌>>◌, raise_if, Handler,
  strip,
}
use household_back.Model.{
  Account, PortfolioItem, PortfolioTransaction, active, deleted, PortfolioTxType, buy_tx, sell_tx,
  is_active, is_investment, Db,
}
use household_back.Finders.{find_accounts}
use household_back.Portfolio.Schema.{
  PortfolioCreateRequest, PortfolioBuyRequest, PortfolioSellRequest, PortfolioTxUpdateRequest,
}
use household_back.Portfolio.Repository.{find_item, find_item_any_status, find_trade}
use household_back.Portfolio.Replay.{recalc_item}
use household_back.Portfolio.Response.{
  PortfolioResponse, PortfolioTxResponse, item_response, tx_response,
}

-- `find_by_id`, then the check of the owner
unfoldable pub owned_item : ℕ → ℕ → Db → Result PortfolioItem
unfolding find_item
owned_item household_id item_id db = elim (find_item item_id db) [
  | none ↦ err not_found
  | some item ↦ if item.household_id == household_id then ok item else err not_found
]

unfoldable pub owned_trade : ℕ → ℕ → Db → Result PortfolioTransaction
unfolding find_trade
owned_trade household_id tx_id db = elim (find_trade tx_id db) [
  | none ↦ err not_found
  | some tx ↦ if tx.household_id == household_id then ok tx else err not_found
]

abbrev first_account : List Account → Option Account
first_account [] = none
first_account (a ∷ accounts) = some a

-- `_validate_investment_account`
unfoldable pub validate_investment_account : ℕ → ℕ → Db → Result Account
unfolding find_accounts
validate_investment_account household_id account_id db =
    elim (first_account (find_accounts (account_id ∷ []) db)) [
      | none ↦ err not_found
      | some a ↦ do
        raise_if (not (a.household_id == household_id) || not (is_active a.data_stat_cd)) not_found
        raise_if (not (is_investment a.account_type)) bad_request
        ok a
    ]

unfoldable pub new_item : ℕ → ℕ → ℕ → PortfolioCreateRequest → PortfolioItem
unfolding strip
new_item id now household_id req = record {
  id = id;
  frst_reg_dt = now;
  data_stat_cd = active;
  household_id = household_id;
  account_id = req.account_id;
  name = strip req.name;
  code = strip req.code;
  market = req.market;
  quantity = 0;
  avg_price = pos 0;
  current_price = req.current_price;
  is_archived = false;
}

unfoldable pub create_portfolio : ℕ → ℕ → ℕ → PortfolioCreateRequest → Handler Db PortfolioResponse
unfolding validate_investment_account new_item item_response find_accounts
create_portfolio id now household_id req db = do
  account ← validate_investment_account household_id req.account_id db
  let item = new_item id now household_id req
  let db' = record db { items = db.items ++ item ∷ [] }
  ok (item_response item decimal_zero (find_accounts (item.account_id ∷ []) db'), db')

-- the row that `buy` or `sell` records
unfoldable pub new_trade :
    ℕ
    → ℕ
    → ℕ
    → PortfolioItem
    → PortfolioTxType
    → ℤ
    → ℤ
    → ℤ
    → Date
    → Option String
    → PortfolioTransaction
new_trade id now household_id item kind quantity price fee tx_date memo = record {
  id = id;
  frst_reg_dt = now;
  data_stat_cd = active;
  household_id = household_id;
  account_id = item.account_id;
  portfolio_item_id = some item.id;
  name = item.name;
  code = item.code;
  market = item.market;
  pt_type = kind;
  quantity = pos_part quantity;
  price = pos_part price;
  fee = pos_part fee;
  tx_date = tx_date;
  memo = memo;
  realized_pnl = none;
  realized_cost_basis = none;
}

abbrev pub save_trade : PortfolioTransaction → Db → Db
save_trade t db = record db { portfolio_transactions = db.portfolio_transactions ++ t ∷ [] }

unfoldable pub bought_trade :
    ℕ → ℕ → Date → ℕ → PortfolioItem → PortfolioBuyRequest → PortfolioTransaction
unfolding new_trade
bought_trade id now today household_id item req =
    new_trade id now household_id item buy_tx req.quantity req.price req.fee
      (or_else req.tx_date today) req.memo

unfoldable pub sold_trade :
    ℕ → ℕ → Date → ℕ → PortfolioItem → PortfolioSellRequest → PortfolioTransaction
unfolding new_trade
sold_trade id now today household_id item req =
    new_trade id now household_id item sell_tx req.quantity req.sell_price req.fee
      (or_else req.tx_date today) req.memo

unfoldable pub buy_shares :
    ℕ → ℕ → Date → ℕ → ℕ → PortfolioBuyRequest → Handler Db PortfolioResponse
unfolding owned_item bought_trade recalc_item item_response find_accounts
buy_shares id now today household_id item_id req db = do
  item ← owned_item household_id item_id db
  done ← recalc_item item (save_trade (bought_trade id now today household_id item req) db)
  ok (item_response done.item done.avg (find_accounts (item.account_id ∷ []) done.db), done.db)

-- The reply is empty when everything was sold.
unfoldable pub sell_shares :
    ℕ → ℕ → Date → ℕ → ℕ → PortfolioSellRequest → Handler Db (Option PortfolioResponse)
unfolding owned_item sold_trade recalc_item item_response find_accounts
sell_shares id now today household_id item_id req db = do
  item ← owned_item household_id item_id db
  raise_if (ltb item.quantity (pos_part req.quantity)) bad_request
  done ← recalc_item item (save_trade (sold_trade id now today household_id item req) db)
  ok (
    if done.item.quantity == 0
        then none
        else some (item_response done.item done.avg (find_accounts (item.account_id ∷ []) done.db)),
    done.db,
  )

abbrev opt_nat : Option ℤ → Option ℕ
opt_nat none = none
opt_nat (some x) = some (pos_part x)

-- the assignments of `update_portfolio_transaction`
unfoldable pub edited_trade : PortfolioTransaction → PortfolioTxUpdateRequest → PortfolioTransaction
edited_trade tx req = record tx {
  quantity = or_else (opt_nat req.quantity) tx.quantity;
  price = or_else (opt_nat req.price) tx.price;
  fee = or_else (opt_nat req.fee) tx.fee;
  tx_date = or_else req.tx_date tx.tx_date;
  memo = or_option req.memo tx.memo;
}

abbrev pub put_trade : PortfolioTransaction → Db → Db
put_trade tx db = record db {
  portfolio_transactions =
      update_where (λ (t : PortfolioTransaction). t.id == tx.id) (λ _. tx)
        db.portfolio_transactions;
}

-- `find_by_id_any_status` and, when there is an item, its replay
unfoldable pub recalc_found : Option PortfolioItem → Db → Result Db
unfolding recalc_item
recalc_found none db = ok db
recalc_found (some item) db = recalc_item item db >>= λ done. ok done.db

unfoldable pub recalc_item_of : Option ℕ → Db → Result Db
unfolding recalc_found find_item_any_status
recalc_item_of none db = ok db
recalc_item_of (some item_id) db = recalc_found (find_item_any_status item_id db) db

-- The reply shows the trade as the replay left it in the session.
unfoldable pub update_portfolio_transaction :
    ℕ → ℕ → PortfolioTxUpdateRequest → Handler Db (Option PortfolioTxResponse)
unfolding owned_trade edited_trade recalc_item_of tx_response find_accounts
update_portfolio_transaction household_id tx_id req db = do
  tx ← owned_trade household_id tx_id db
  db' ← recalc_item_of tx.portfolio_item_id (put_trade (edited_trade tx req) db)
  ok (
    Option.map (λ t. tx_response t (find_accounts (tx.account_id ∷ []) db'))
        (find (λ (t : PortfolioTransaction). t.id == tx.id) db'.portfolio_transactions),
    db',
  )

unfoldable pub delete_portfolio_transaction : ℕ → ℕ → Handler Db (Unit {0})
unfolding owned_trade recalc_item_of
delete_portfolio_transaction household_id tx_id db = do
  tx ← owned_trade household_id tx_id db
  db' ← recalc_item_of tx.portfolio_item_id (put_trade (record tx { data_stat_cd = deleted }) db)
  ok (tt, db')

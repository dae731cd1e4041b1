-- ===== src/Portfolio/Repository.antt =====
-- portfolio/repository.py: the queries on holdings and trades.
use household_back.Base.{
  ℤ, pos, ◌-ℤ◌, select, find, update_where, count, order_by, elem, group_sum, leb, ◌==◌,
  if◌then◌else◌, ◌==?◌, ℕ, ◌+◌, ◌*◌, Bool, true, false, ◌&&◌, ◌||◌, Option, none, some, List, [],
  ◌∷◌, ◌++◌,
}
use household_back.Core.{Date, date_ltb, date_eqb, date_leb}
use household_back.Model.{
  PortfolioItem, PortfolioTransaction, PortfolioValueHistory, deleted, PortfolioTxType, buy_tx,
  sell_tx, is_active, Db,
}

-- `PortfolioItemRepository.find_by_id`
unfoldable pub find_item : ℕ → Db → Option PortfolioItem
find_item item_id db =
    find (λ (i : PortfolioItem). i.id == item_id && is_active i.data_stat_cd) db.items

-- `find_by_id_any_status`
unfoldable pub find_item_any_status : ℕ → Db → Option PortfolioItem
find_item_any_status item_id db = find (λ (i : PortfolioItem). i.id == item_id) db.items

-- an active holding of the account
abbrev pub held_by : ℕ → PortfolioItem → Bool
held_by account_id i = i.account_id == account_id && is_active i.data_stat_cd

abbrev item_asc : PortfolioItem → PortfolioItem → Bool
item_asc x y = leb x.frst_reg_dt y.frst_reg_dt

-- `find_active_by_account_id`
unfoldable pub find_items_by_account : ℕ → Db → List PortfolioItem
find_items_by_account account_id db = order_by item_asc (select (held_by account_id) db.items)

-- `count_active_by_account_id`
unfoldable pub count_items_by_account : ℕ → Db → ℕ
count_items_by_account account_id db = count (held_by account_id) db.items

-- `base[item.account_id].append(item)`
abbrev pub append_item :
    PortfolioItem → List (ℕ × List PortfolioItem) → List (ℕ × List PortfolioItem)
append_item i [] = []
append_item i ((a, items) ∷ base) =
    (a, if a == i.account_id then items ++ i ∷ [] else items) ∷ append_item i base

abbrev pub append_items :
    List PortfolioItem → List (ℕ × List PortfolioItem) → List (ℕ × List PortfolioItem)
append_items [] base = base
append_items (i ∷ items) base = append_items items (append_item i base)

abbrev pub no_items : List ℕ → List (ℕ × List PortfolioItem)
no_items [] = []
no_items (a ∷ ids) = (a, []) ∷ no_items ids

-- `find_active_by_account_ids`
unfoldable pub find_items_by_accounts : List ℕ → Db → List (ℕ × List PortfolioItem)
find_items_by_accounts account_ids db =
    append_items
      (select (λ (i : PortfolioItem). elem i.account_id account_ids && is_active i.data_stat_cd)
        db.items)
      (no_items account_ids)

-- `items_map.get(account_id, [])`
abbrev pub items_of : ℕ → List (ℕ × List PortfolioItem) → List PortfolioItem
items_of account_id [] = []
items_of account_id ((a, items) ∷ base) =
    if a == account_id then items else items_of account_id base

-- `PortfolioTransactionRepository.find_by_id`
unfoldable pub find_trade : ℕ → Db → Option PortfolioTransaction
find_trade tx_id db =
    find (λ (t : PortfolioTransaction). t.id == tx_id && is_active t.data_stat_cd)
      db.portfolio_transactions

-- an active trade of the item
abbrev pub trade_of : ℕ → PortfolioTransaction → Bool
trade_of item_id t = t.portfolio_item_id ==? item_id && is_active t.data_stat_cd

-- ORDER BY tx_date, frst_reg_dt
abbrev pub trade_asc : PortfolioTransaction → PortfolioTransaction → Bool
trade_asc x y =
    date_ltb x.tx_date y.tx_date
    || (date_eqb x.tx_date y.tx_date && leb x.frst_reg_dt y.frst_reg_dt)

-- `find_active_by_item_id`
unfoldable pub find_trades_by_item : ℕ → Db → List PortfolioTransaction
find_trades_by_item item_id db =
    order_by trade_asc (select (trade_of item_id) db.portfolio_transactions)

abbrev pub is_buy : PortfolioTxType → Bool
is_buy buy_tx = true
is_buy sell_tx = false

-- `_settlement_expr`, in units of 0.000001
unfoldable pub settlement_amount : PortfolioTransaction → ℤ
unfolding ◌-ℤ◌
settlement_amount t =
    let gross = t.quantity * t.price in
    if is_buy t.pt_type then pos (gross + t.fee * 10000) else pos gross -ℤ pos (t.fee * 10000)

abbrev pub before_or_on : Option Date → PortfolioTransaction → Bool
before_or_on none t = true
before_or_on (some d) t = date_leb t.tx_date d

-- the dict `{"buy": …, "sell": …}`
pub record TradeSums : Type 0 where
  pub buy : ℤ
  pub sell : ℤ

abbrev pub zero_trades : TradeSums
zero_trades = record { buy = pos 0; sell = pos 0 }

pub record TradeKey : Type 0 where
  pub account_id : ℕ
  pub is_buy : Bool

abbrev bool_eqb : Bool → Bool → Bool
bool_eqb true true = true
bool_eqb false false = true
bool_eqb _ _ = false

abbrev pub same_trade_key : TradeKey → TradeKey → Bool
same_trade_key a b = a.account_id == b.account_id && bool_eqb a.is_buy b.is_buy

abbrev pub trade_key : PortfolioTransaction → TradeKey
trade_key t = record { account_id = t.account_id; is_buy = is_buy t.pt_type }

-- the assignment to the entry of the group's side
abbrev pub set_side : Bool → ℤ → TradeSums → TradeSums
set_side true total s = record s { buy = total }
set_side false total s = record s { sell = total }

unfoldable pub assign_sides : List (TradeKey × ℤ) → TradeSums → TradeSums
assign_sides [] s = s
assign_sides ((k, total) ∷ rows) s = assign_sides rows (set_side k.is_buy total s)

-- `PortfolioTransactionRepository.sum_for_account`
unfoldable pub trade_sums_for_account : ℕ → Option Date → Db → TradeSums
unfolding assign_sides settlement_amount
trade_sums_for_account account_id to_date db =
    assign_sides
      (group_sum same_trade_key trade_key settlement_amount (
        select
          (λ (t : PortfolioTransaction).
            t.account_id == account_id && (is_active t.data_stat_cd && before_or_on to_date t))
          db.portfolio_transactions))
      zero_trades

-- `base[account_id][side] = total`
abbrev pub set_entry : TradeKey → ℤ → List (ℕ × TradeSums) → List (ℕ × TradeSums)
set_entry k total [] = []
set_entry k total ((a, s) ∷ base) =
    (a, if a == k.account_id then set_side k.is_buy total s else s) ∷ set_entry k total base

unfoldable pub assign_entries : List (TradeKey × ℤ) → List (ℕ × TradeSums) → List (ℕ × TradeSums)
assign_entries [] base = base
assign_entries ((k, total) ∷ rows) base = assign_entries rows (set_entry k total base)

abbrev pub zero_trade_entries : List ℕ → List (ℕ × TradeSums)
zero_trade_entries [] = []
zero_trade_entries (a ∷ ids) = (a, zero_trades) ∷ zero_trade_entries ids

-- `PortfolioTransactionRepository.sum_for_accounts`
unfoldable pub trade_sums_for_accounts : List ℕ → Db → List (ℕ × TradeSums)
unfolding assign_entries settlement_amount
trade_sums_for_accounts account_ids db =
    assign_entries
      (group_sum same_trade_key trade_key settlement_amount (
        select
          (λ (t : PortfolioTransaction). elem t.account_id account_ids && is_active t.data_stat_cd)
          db.portfolio_transactions))
      (zero_trade_entries account_ids)

-- `pt_sums.get(account_id, {"buy": 0, "sell": 0})`
abbrev pub trades_of : ℕ → List (ℕ × TradeSums) → TradeSums
trades_of account_id [] = zero_trades
trades_of account_id ((a, s) ∷ base) = if a == account_id then s else trades_of account_id base

-- the two `soft_delete_by_account_id` of this file
unfoldable pub soft_delete_trades : ℕ → Db → Db
soft_delete_trades account_id db = record db {
  portfolio_transactions =
      update_where
        (λ (t : PortfolioTransaction). t.account_id == account_id && is_active t.data_stat_cd)
        (λ t. record t { data_stat_cd = deleted }) db.portfolio_transactions;
}

unfoldable pub soft_delete_value_histories : ℕ → Db → Db
soft_delete_value_histories account_id db = record db {
  value_histories =
      update_where
        (λ (h : PortfolioValueHistory). h.account_id == account_id && is_active h.data_stat_cd)
        (λ h. record h { data_stat_cd = deleted }) db.value_histories;
}

-- ===== src/Account/Balance/Trades.antt =====
-- The batch queries of trades and of holdings give each listed account what its own query gives.
use mathlib.Core.Path.{fun_ext}
use household_back.Paging.{select-and}
use household_back.Base.{
  ℤ, select, elem, add_group, group_sum, ◌==◌, if◌then◌else◌, ==_iff, Bool-cases, ℕ, ◌≡◌, refl, sym,
  ap, ◌∙◌, inl, inr, Bool, true, false, ◌&&◌, ◌||◌, none, List, [], ◌∷◌, arith,
}
use household_back.Model.{PortfolioTransaction, is_active, Db}
use household_back.Portfolio.Repository.{
  TradeSums, TradeKey, settlement_amount, zero_trades, same_trade_key, trade_key, set_side,
  assign_sides, trade_sums_for_account, set_entry, assign_entries, zero_trade_entries,
  trade_sums_for_accounts, trades_of,
}

-- the groups of one account
abbrev pick : ℕ → List (TradeKey × ℤ) → List (TradeKey × ℤ)
pick a [] = []
pick a ((k, v) ∷ g) = if k.account_id == a then (k, v) ∷ pick a g else pick a g

same_account :
    (k j : TradeKey) (a : ℕ) → same_trade_key k j ≡ true → (j.account_id == a) ≡ (k.account_id == a)
same_account k j a h = ground arith

pick-add_group :
    (a : ℕ) (k : TradeKey) (v : ℤ) (g : List (TradeKey × ℤ))
    → pick a (add_group same_trade_key k v g)
      ≡ (if k.account_id == a then add_group same_trade_key k v (pick a g) else pick a g)
pick-add_group a k v [] = refl
pick-add_group a k v ((j, w) ∷ g) = elim (Bool-cases (same_trade_key k j)) [
  | inl same ↦ elim (Bool-cases (k.account_id == a)) [
    | inl mine ↦ rw (same, same_account k j a same, mine, same) refl
    | inr foreign ↦ rw (same, same_account k j a same, foreign) refl
  ]
  | inr apart ↦ elim (Bool-cases (k.account_id == a)) [
    | inl mine ↦ elim (Bool-cases (j.account_id == a)) [
      | inl hit ↦
          rw (apart, hit, mine, apart)
            (ap (λ l. (j, w) ∷ l) (pick-add_group a k v g ∙ rw mine refl))
      | inr miss ↦ rw (apart, miss, mine) (pick-add_group a k v g ∙ rw mine refl)
    ]
    | inr foreign ↦ elim (Bool-cases (j.account_id == a)) [
      | inl hit ↦
          rw (apart, hit, foreign) (ap (λ l. (j, w) ∷ l) (pick-add_group a k v g ∙ rw foreign refl))
      | inr miss ↦ rw (apart, miss, foreign) (pick-add_group a k v g ∙ rw foreign refl)
    ]
  ]
]

abbrev groups : List PortfolioTransaction → List (TradeKey × ℤ)
groups ts = group_sum same_trade_key trade_key settlement_amount ts

abbrev of_account : ℕ → PortfolioTransaction → Bool
of_account a t = t.account_id == a

group_step :
    (a : ℕ) (t : PortfolioTransaction) (b : Bool) (g : List (TradeKey × ℤ))
    (ts : List PortfolioTransaction)
    → pick a g ≡ groups (select (of_account a) ts)
    → (if b
        then add_group same_trade_key (trade_key t) (settlement_amount t) (pick a g)
        else pick a g)
      ≡ groups (if b then t ∷ select (of_account a) ts else select (of_account a) ts)
group_step a t true g ts e = ap (add_group same_trade_key (trade_key t) (settlement_amount t)) e
group_step a t false g ts e = e

pick-groups :
    (a : ℕ) (ts : List PortfolioTransaction)
    → pick a (groups ts) ≡ groups (select (of_account a) ts)
pick-groups a [] = refl
pick-groups a (t ∷ ts) =
    pick-add_group a (trade_key t) (settlement_amount t) (groups ts)
    ∙ group_step a t (t.account_id == a) (groups ts) ts (pick-groups a ts)

-- Whether an account has an entry.
abbrev listed : ℕ → List (ℕ × TradeSums) → Bool
listed a [] = false
listed a ((j, s) ∷ base) = j == a || listed a base

set_entry-listed :
    (a : ℕ) (k : TradeKey) (v : ℤ) (base : List (ℕ × TradeSums))
    → listed a (set_entry k v base) ≡ listed a base
set_entry-listed a k v [] = refl
set_entry-listed a k v ((j, s) ∷ base) = ap (λ b. j == a || b) (set_entry-listed a k v base)

trades_of-set_entry :
    (a : ℕ) (k : TradeKey) (v : ℤ) (base : List (ℕ × TradeSums))
    → listed a base ≡ true
    → trades_of a (set_entry k v base)
      ≡ (if k.account_id == a then set_side k.is_buy v (trades_of a base) else trades_of a base)
trades_of-set_entry a k v [] h = cc
trades_of-set_entry a k v ((j, s) ∷ base) h = elim (Bool-cases (j == a)) [
  | inl hit ↦ rw ((==_iff j a).0 hit, eqb_self a, swap a k.account_id) refl
  | inr miss ↦ rw miss (trades_of-set_entry a k v base (later h miss))
]
  where
    eqb_self : (n : ℕ) → (n == n) ≡ true
    eqb_self n = ground arith

    swap : (m n : ℕ) → (m == n) ≡ (n == m)
    swap m n = ground arith

    later : {b c : Bool} → (b || c) ≡ true → b ≡ false → c ≡ true
    later {b} {c} p q = ground arith

trades_of-assign_entries :
    (a : ℕ) (g : List (TradeKey × ℤ)) (base : List (ℕ × TradeSums))
    → listed a base ≡ true
    → trades_of a (assign_entries g base) ≡ assign_sides (pick a g) (trades_of a base)
unfolding assign_entries assign_sides
trades_of-assign_entries a [] base h = refl
trades_of-assign_entries a ((k, v) ∷ g) base h =
    trades_of-assign_entries a g (set_entry k v base) (set_entry-listed a k v base ∙ h)
    ∙ entry_step (k.account_id == a) (trades_of-set_entry a k v base h)
  where
    entry_step :
        {s : TradeSums} (b : Bool)
        → s ≡ (if b then set_side k.is_buy v (trades_of a base) else trades_of a base)
        → assign_sides (pick a g) s
          ≡ assign_sides (if b then (k, v) ∷ pick a g else pick a g) (trades_of a base)
    entry_step true e = ap (assign_sides (pick a g)) e
    entry_step false e = ap (assign_sides (pick a g)) e

zero_entries_lem :
    (a : ℕ) (ids : List ℕ)
    → (listed a (zero_trade_entries ids) ≡ elem a ids)
      × (trades_of a (zero_trade_entries ids) ≡ zero_trades)
zero_entries_lem a [] = (refl, refl)
zero_entries_lem a (b ∷ ids) =
    let (e, f) = zero_entries_lem a ids in
    (ap (λ x. b == a || x) e ∙ ap (λ x. x || elem a ids) (swap b a), entry (b == a) f)
  where
    swap : (m n : ℕ) → (m == n) ≡ (n == m)
    swap m n = ground arith

    entry :
        {s : TradeSums} (c : Bool) → s ≡ zero_trades → (if c then zero_trades else s) ≡ zero_trades
    entry true h = refl
    entry false h = h

elem-eq : (a b : ℕ) (ids : List ℕ) → elem a ids ≡ true → (b == a) ≡ true → elem b ids ≡ true
elem-eq a b ids member same = rw ((==_iff b a).0 same) member

filters_agree :
    (a c : ℕ) (ids : List ℕ) (on : Bool)
    → elem a ids ≡ true
    → ((elem c ids && on) && c == a) ≡ (c == a && (on && true))
filters_agree a c ids on member = ground (arith, elem-eq a c ids member)

-- The batch query of trades agrees with the single one on every listed account.
pub trades_of-trade_sums_for_accounts :
    (ids : List ℕ) (a : ℕ) (db : Db)
    → elem a ids ≡ true
    → trades_of a (trade_sums_for_accounts ids db) ≡ trade_sums_for_account a none db
unfolding trade_sums_for_accounts trade_sums_for_account
trades_of-trade_sums_for_accounts ids a db member =
    let ts = db.portfolio_transactions in
    let batch : PortfolioTransaction → Bool =
      λ t. elem t.account_id ids && is_active t.data_stat_cd in
    let (e, f) = zero_entries_lem a ids in
    trades_of-assign_entries a (groups (select batch ts)) (zero_trade_entries ids) (e ∙ member)
    ∙ ap (λ s. assign_sides (pick a (groups (select batch ts))) s) f
    ∙ ap (λ g. assign_sides g zero_trades)
        (pick-groups a (select batch ts)
          ∙ ap groups (
              sym (select-and batch (of_account a) ts)
              ∙ ap (λ p. select p ts)
                  (fun_ext
                    λ t. filters_agree a t.account_id ids (is_active t.data_stat_cd) member)))

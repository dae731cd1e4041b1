-- ===== src/Account/Balance/Agreement.antt =====
-- The batch balance of a listed account is its own balance.
use mathlib.Core.Path.{fun_ext}
use household_back.Base.{
  ℤ, pos, ◌+ℤ◌, ◌*ℤ◌, int_laws, append_snoc, select, sum_by, insert_row, order_by, elem, ◌==◌,
  if◌then◌else◌, ==_iff, Bool-cases, or_else, ℕ, ◌≡◌, refl, sym, ap, ◌∙◌, inl, inr, Bool, true,
  false, ◌&&◌, ◌||◌, none, List, [], ◌∷◌, ◌++◌, arith,
}
use household_back.Model.{Account, PortfolioItem, is_active, is_investment, Db}
use household_back.Paging.{select-and}
use household_back.Transaction.Sums.{sum_for_account, zero_sums}
use household_back.Transaction.Sums.Batch.{lookup-sum_for_accounts}
use household_back.Portfolio.Repository.{
  TradeSums, held_by, find_items_by_account, append_item, append_items, no_items,
  find_items_by_accounts, items_of, trade_sums_for_account, trade_sums_for_accounts, trades_of,
}
use household_back.Account.Balance.{
  assemble_balance, cost_of, valuation_of, investment_summary, calc_cash_balance,
  calc_investment_balance, calc_balance, ids_of, investment_ids, load_balance_sources,
  build_balance,
}
use household_back.Account.Balance.Trades.{trades_of-trade_sums_for_accounts}

abbrev of_account : ℕ → PortfolioItem → Bool
of_account a i = i.account_id == a

abbrev listed : ℕ → List (ℕ × List PortfolioItem) → Bool
listed a [] = false
listed a ((j, s) ∷ base) = j == a || listed a base

append_item-listed :
    (a : ℕ) (i : PortfolioItem) (base : List (ℕ × List PortfolioItem))
    → listed a (append_item i base) ≡ listed a base
append_item-listed a i [] = refl
append_item-listed a i ((j, s) ∷ base) = ap (λ b. j == a || b) (append_item-listed a i base)

append_nil : {A : Type 0} (xs : List A) → xs ++ [] ≡ xs
append_nil [] = refl
append_nil (x ∷ xs) = ap (λ l. x ∷ l) (append_nil xs)

items_of-append_item :
    (a : ℕ) (i : PortfolioItem) (base : List (ℕ × List PortfolioItem))
    → listed a base ≡ true
    → items_of a (append_item i base)
      ≡ (if i.account_id == a then items_of a base ++ i ∷ [] else items_of a base)
items_of-append_item a i [] h = cc
items_of-append_item a i ((j, s) ∷ base) h = elim (Bool-cases (j == a)) [
  | inl hit ↦ rw ((==_iff j a).0 hit, eqb_self a, swap a i.account_id) refl
  | inr miss ↦ rw miss (items_of-append_item a i base (later h miss))
]
  where
    eqb_self : (n : ℕ) → (n == n) ≡ true
    eqb_self n = ground arith

    swap : (m n : ℕ) → (m == n) ≡ (n == m)
    swap m n = ground arith

    later : {b c : Bool} → (b || c) ≡ true → b ≡ false → c ≡ true
    later {b} {c} p q = ground arith

items_of-append_items :
    (a : ℕ) (items : List PortfolioItem) (base : List (ℕ × List PortfolioItem))
    → listed a base ≡ true
    → items_of a (append_items items base) ≡ items_of a base ++ select (of_account a) items
items_of-append_items a [] base h = sym (append_nil (items_of a base))
items_of-append_items a (i ∷ items) base h =
    items_of-append_items a items (append_item i base) (append_item-listed a i base ∙ h)
    ∙ entry_step (i.account_id == a) (items_of-append_item a i base h)
  where
    entry_step :
        {l : List PortfolioItem} (b : Bool)
        → l ≡ (if b then items_of a base ++ i ∷ [] else items_of a base)
        → l ++ select (of_account a) items
          ≡ items_of a base
            ++ (if b then i ∷ select (of_account a) items else select (of_account a) items)
    entry_step true e =
        ap (λ l. l ++ select (of_account a) items) e
        ∙ append_snoc (items_of a base) i (select (of_account a) items)
    entry_step false e = ap (λ l. l ++ select (of_account a) items) e

no_items_lem :
    (a : ℕ) (ids : List ℕ)
    → (listed a (no_items ids) ≡ elem a ids) × (items_of a (no_items ids) ≡ [])
no_items_lem a [] = (refl, refl)
no_items_lem a (b ∷ ids) =
    let (e, f) = no_items_lem a ids in
    (ap (λ x. b == a || x) e ∙ ap (λ x. x || elem a ids) (swap b a), entry (b == a) f)
  where
    swap : (m n : ℕ) → (m == n) ≡ (n == m)
    swap m n = ground arith

    entry : {l : List PortfolioItem} (c : Bool) → l ≡ [] → (if c then [] else l) ≡ []
    entry true h = refl
    entry false h = h

elem-eq : (a b : ℕ) (ids : List ℕ) → elem a ids ≡ true → (b == a) ≡ true → elem b ids ≡ true
elem-eq a b ids member same = rw ((==_iff b a).0 same) member

filters_agree :
    (a c : ℕ) (ids : List ℕ) (on : Bool)
    → elem a ids ≡ true
    → ((elem c ids && on) && c == a) ≡ (c == a && on)
filters_agree a c ids on member = ground (arith, elem-eq a c ids member)

items_of-find_items_by_accounts :
    (ids : List ℕ) (a : ℕ) (db : Db)
    → elem a ids ≡ true
    → items_of a (find_items_by_accounts ids db) ≡ select (held_by a) db.items
unfolding find_items_by_accounts
items_of-find_items_by_accounts ids a db member =
    let batch : PortfolioItem → Bool = λ i. elem i.account_id ids && is_active i.data_stat_cd in
    let (e, f) = no_items_lem a ids in
    items_of-append_items a (select batch db.items) (no_items ids) (e ∙ member)
    ∙ ap (λ l. l ++ select (of_account a) (select batch db.items)) f
    ∙ sym (select-and batch (of_account a) db.items)
    ∙ ap (λ p. select p db.items)
        (fun_ext λ i. filters_agree a i.account_id ids (is_active i.data_stat_cd) member)

sum_by-insert_row :
    {A : Type 0} (f : A → ℤ) (before : A → A → Bool) (x : A) (ys : List A)
    → sum_by f (insert_row before x ys) ≡ f x +ℤ sum_by f ys
sum_by-insert_row f before x [] = refl
sum_by-insert_row f before x (y ∷ ys) = elim (Bool-cases (before x y)) [
  | inl e ↦ rw e refl
  | inr e ↦
      rw e (
        ap (λ v. f y +ℤ v) (sum_by-insert_row f before x ys) ∙ swap_first (f y) (f x) (sum_by f ys))
]
  where
    swap_first : (a b c : ℤ) → a +ℤ (b +ℤ c) ≡ b +ℤ (a +ℤ c)
    swap_first a b c = omega int_laws

sum_by-order_by :
    {A : Type 0} (f : A → ℤ) (before : A → A → Bool) (xs : List A)
    → sum_by f (order_by before xs) ≡ sum_by f xs
sum_by-order_by f before [] = refl
sum_by-order_by f before (x ∷ xs) =
    sum_by-insert_row f before x (order_by before xs)
    ∙ ap (λ v. f x +ℤ v) (sum_by-order_by f before xs)

-- The order of the holdings does not matter to a summary.
investment_summary-order_by :
    (cash : ℤ) (before : PortfolioItem → PortfolioItem → Bool) (items : List PortfolioItem)
    → investment_summary cash (order_by before items) ≡ investment_summary cash items
unfolding investment_summary cost_of valuation_of
investment_summary-order_by cash before items =
    rw
      (
        sum_by-order_by (λ (i : PortfolioItem). pos i.quantity *ℤ i.avg_price) before items,
        sum_by-order_by (λ (i : PortfolioItem). pos i.quantity *ℤ i.current_price) before items,
      )
      refl

-- The parts of the batch and those of the single queries, for the two kinds of account.
assemble_plain :
    (a : Account) (trades : TradeSums) (items : List PortfolioItem) (db : Db)
    → is_investment a.account_type ≡ false
    → assemble_balance a (sum_for_account a.id none db) trades items ≡ calc_balance a db
unfolding assemble_balance calc_balance calc_cash_balance
assemble_plain a trades items db plain = rw plain refl

assemble_investment :
    (a : Account) (db : Db)
    → is_investment a.account_type ≡ true
    → assemble_balance a
        (sum_for_account a.id none db)
        (trade_sums_for_account a.id none db)
        (select (held_by a.id) db.items)
      ≡ calc_balance a db
unfolding assemble_balance calc_balance calc_investment_balance find_items_by_account
assemble_investment a db held =
    rw held (sym (investment_summary-order_by _ _ (select (held_by a.id) db.items)))

-- The balance of one account, by the same parts.
pub calc_balance-eq-assemble :
    (a : Account) (db : Db)
    → calc_balance a db
      ≡ assemble_balance a
          (sum_for_account a.id none db)
          (trade_sums_for_account a.id none db)
          (select (held_by a.id) db.items)
calc_balance-eq-assemble a db = elim (Bool-cases (is_investment a.account_type)) [
  | inl held ↦ sym (assemble_investment a db held)
  | inr plain ↦ sym (
      assemble_plain a (trade_sums_for_account a.id none db) (select (held_by a.id) db.items) db
        plain)
]

pub build_balance-eq-calc_balance :
    (accounts : List Account) (a : Account) (db : Db)
    → elem a.id (ids_of accounts) ≡ true
    → (is_investment a.account_type ≡ true → elem a.id (investment_ids accounts) ≡ true)
    → build_balance a (load_balance_sources accounts db) ≡ calc_balance a db
unfolding build_balance load_balance_sources
build_balance-eq-calc_balance accounts a db member invested =
    let sums =
      ap (λ o. or_else o zero_sums) (lookup-sum_for_accounts (ids_of accounts) a.id db member) in
    let trades = trades_of a.id (trade_sums_for_accounts (investment_ids accounts) db) in
    let items = items_of a.id (find_items_by_accounts (investment_ids accounts) db) in
    ap (λ s. assemble_balance a s trades items) sums
    ∙ elim (Bool-cases (is_investment a.account_type)) [
      | inl held ↦
          let listed_id = invested held in
          ap (λ x. assemble_balance a (sum_for_account a.id none db) x items)
            (trades_of-trade_sums_for_accounts (investment_ids accounts) a.id db listed_id)
          ∙ ap
              (assemble_balance a (sum_for_account a.id none db)
                (trade_sums_for_account a.id none db))
              (items_of-find_items_by_accounts (investment_ids accounts) a.id db listed_id)
          ∙ assemble_investment a db held
      | inr plain ↦ assemble_plain a trades items db plain
    ]

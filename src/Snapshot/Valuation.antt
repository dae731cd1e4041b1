-- ===== src/Snapshot/Valuation.antt =====
-- market_price/service.py and portfolio/snapshot_service.py: the values of the holdings in a batch, and
-- the balances of the accounts.
use household_back.Base.{
  ℤ, ◌+ℤ◌, All, sum_by, ℕ, String, ◌≡◌, refl, sym, ap, ◌∙◌, Bool, some, List, [], ◌∷◌, ◌++◌,
}
use household_back.Core.{Date, month_first}
use household_back.Model.{Account, Db}
use household_back.Paging.{Distinct, All-map}
use household_back.Keys.{All-both}
use household_back.Portfolio.Repository.{trade_sums_for_account}
use household_back.Transaction.Sums.{sum_for_account}
use household_back.Transaction.Ledger.{cash_flow}
use household_back.Account.Balance.{micro, trade_cash}
use household_back.Snapshot.Holdings.{
  Holding, Valued, asof_holdings_by_account, value_holdings_at_month, valued_of, asof_summary,
  investment_balance_on,
}
use household_back.Snapshot.Histories.{holdings_of, all_holdings}
use household_back.Snapshot.Prices.{worth, item_of, value_holdings_lem}

sum_by_same :
    (f g : Holding → ℤ) (hs : List Holding) → All (λ h. f h ≡ g h) hs → sum_by f hs ≡ sum_by g hs
sum_by_same f g [] e = refl
sum_by_same f g (h ∷ hs) e = rw (e.0, sum_by_same f g hs e.1) refl

abbrev worth_in : List (ℕ × Valued) → Holding → ℤ
worth_in valued h = (valued_of h.item_id valued).valuation

same_sum :
    (month : Date) (db : Db) (hs batch : List Holding)
    → Distinct item_of hs
    → All
        (λ (h : Holding).
          valued_of h.item_id (value_holdings_at_month batch month db) ≡ worth month db h)
        hs
    → sum_by (worth_in (value_holdings_at_month hs month db)) hs
      ≡ sum_by (worth_in (value_holdings_at_month batch month db)) hs
same_sum month db hs batch d every =
    sum_by_same (worth_in (value_holdings_at_month hs month db))
      (worth_in (value_holdings_at_month batch month db)) hs
      (All-map
        (λ (h : Holding).
          (valued_of h.item_id (value_holdings_at_month hs month db) ≡ worth month db h)
          × (valued_of h.item_id (value_holdings_at_month batch month db) ≡ worth month db h))
        _ (λ h q. ap (λ (v : Valued). v.valuation) (q.0 ∙ sym q.1)) hs
        (All-both _ _ hs (value_holdings_lem month db hs d) every))

All-left : {A : Type 0} (P : A → Type 0) (xs ys : List A) → All P (xs ++ ys) → All P xs
All-left P [] ys h = tt
All-left P (x ∷ xs) ys h = (h.0, All-left P xs ys h.1)

All-right : {A : Type 0} (P : A → Type 0) (xs ys : List A) → All P (xs ++ ys) → All P ys
All-right P [] ys h = h
All-right P (x ∷ xs) ys h = All-right P xs ys h.1

Distinct-left : (xs ys : List Holding) → Distinct item_of (xs ++ ys) → Distinct item_of xs
Distinct-left [] ys d = tt
Distinct-left (x ∷ xs) ys d = (All-left _ xs ys d.0, Distinct-left xs ys d.1)

Distinct-right : (xs ys : List Holding) → Distinct item_of (xs ++ ys) → Distinct item_of ys
Distinct-right [] ys d = d
Distinct-right (x ∷ xs) ys d = Distinct-right xs ys d.1

module _ (le : String → String → Bool) (as_of : Date) (db : Db) where
  -- the holdings of one listed account, with what holds of all of them
  per_account :
      (P : Holding → Type 0) (accounts : List Account)
      → Distinct item_of (all_holdings (holdings_of le accounts as_of db))
      → All P (all_holdings (holdings_of le accounts as_of db))
      → All
          (λ (a : Account).
            Distinct item_of (asof_holdings_by_account le a.id as_of db)
            × All P (asof_holdings_by_account le a.id as_of db))
          accounts
  unfolding holdings_of
  per_account P [] d h = tt
  per_account P (a ∷ accounts) d h = (
    (Distinct-left _ _ d, All-left P _ _ h),
    per_account P accounts (Distinct-right _ _ d) (All-right P _ _ h),
  )

  -- the cash of an account on the day
  abbrev account_cash : Account → ℤ
  account_cash a =
      trade_cash (micro (cash_flow a.start_balance (sum_for_account a.id (some as_of) db)))
        (trade_sums_for_account a.id (some as_of) db)

  -- the balance of an account from the values that the batch of the household stores
  abbrev pub balance_from : List Account → Account → ℤ
  balance_from accounts a =
      let valued =
        value_holdings_at_month (all_holdings (holdings_of le accounts as_of db))
          (month_first as_of) db in
      account_cash a
      +ℤ sum_by (λ (h : Holding). (valued_of h.item_id valued).valuation)
          (asof_holdings_by_account le a.id as_of db)

  -- If the holdings that a list of accounts had on a day are of different items, the balance of
  -- each as an investment account on that day is its cash and the sum of the values that one batch
  -- over the holdings of all the accounts gives its holdings.
  pub investment_balance_on-value_holdings_at_month :
      (accounts : List Account)
      → Distinct item_of (all_holdings (holdings_of le accounts as_of db))
      → All
          (λ (a : Account). (investment_balance_on le a as_of db).balance ≡ balance_from accounts a)
          accounts
  unfolding investment_balance_on asof_summary
  investment_balance_on-value_holdings_at_month accounts d =
      All-map _ _
        (λ a p. ap (◌+ℤ◌ (account_cash a)) (
          same_sum (month_first as_of) db (asof_holdings_by_account le a.id as_of db)
            (all_holdings (holdings_of le accounts as_of db)) p.0 p.1))
        accounts (per_account _ accounts d (value_holdings_lem (month_first as_of) db _ d))

-- ===== src/Account/Service/Cascade.antt =====
-- What the deletion of one account leaves to the others.
use household_back.Base.{
  select, update_where, group_sum, ltb, ◌==◌, if◌then◌else◌, ==_iff, Bool-cases, ◌==?◌, ℕ, ◌≡◌,
  refl, sym, ap, ◌∙◌, ◌⊎◌, inl, inr, Bool, true, false, ◌&&◌, ◌||◌, Option, none, some, List, [],
  ◌∷◌, arith,
}
use household_back.Core.{
  Date, account_has_dependents, ok, raise_if, >>=-eq-ok, >>-eq-ok, ok-injective,
}
use household_back.Model.{Account, Transaction, deleted, is_active, is_transfer, Db}
use household_back.Transaction.Repository.{
  involves, is_solo_of, is_orphan_transfer, counterparty, is_dead, delete_tx, soft_delete_solo,
  soft_delete_orphan_transfers,
}
use household_back.Transaction.Sums.{sum_for_account, counted_for}
use household_back.Transaction.Sums.Rows.{
  sum_for_account-eq-rows_total, rows_total, rows_total-skip, rows_total-cons,
}
use household_back.Portfolio.Repository.{
  held_by, assign_sides, same_trade_key, trade_key, settlement_amount, zero_trades,
  trade_sums_for_account, find_items_by_account, soft_delete_trades, soft_delete_value_histories,
  count_items_by_account,
}
use household_back.Account.Balance.{
  assemble_balance, calc_cash_balance, calc_investment_balance, calc_balance, assemble_balance,
}
use household_back.Account.Balance.Agreement.{calc_balance-eq-assemble}
use household_back.Account.Service.{
  owned_account, delete_children, delete_account, put_account, soft_delete_snapshots,
}

-- Soft-deleting rows that do not involve the account leaves its total.
rows_total-delete :
    (b : ℕ) (d : Option Date) (p : Transaction → Bool)
    → ((t : Transaction) → p t ≡ true → involves b t ≡ false)
    → (ts : List Transaction)
    → rows_total b (select (counted_for b d) (update_where p delete_tx ts))
      ≡ rows_total b (select (counted_for b d) ts)
rows_total-delete b d p apart [] = refl
rows_total-delete b d p apart (t ∷ ts) = elim (Bool-cases (p t)) [
  | inl gone ↦ rw gone (
      rows_total-delete b d p apart ts
      ∙ sym (rows_total-skip b (counted_for b d t) t (select (counted_for b d) ts) (apart t gone)))
  | inr kept ↦ rw kept (
      rows_total-cons b (counted_for b d t) t
        (select (counted_for b d) (update_where p delete_tx ts)) (select (counted_for b d) ts)
        (rows_total-delete b d p apart ts))
]

solo-apart :
    (a b : ℕ) (t : Transaction) → (b == a) ≡ false → is_solo_of a t ≡ true → involves b t ≡ false
unfolding is_solo_of
solo-apart a b t differ h = ground arith

third : (x y u v : Bool) → (x && (y && (u && v))) ≡ true → (u ≡ true) × (v ≡ true)
third x y u v h = (ground arith, ground arith)

-- The ends of a transfer that touches `a` and whose other end is dead: `b` is neither.
ends-apart :
    (a b : ℕ) (dead : Option ℕ → Bool) (from : ℕ) (to : Option ℕ)
    → (b == a) ≡ false
    → dead (some b) ≡ false
    → (from == a || to ==? a) ≡ true
    → dead (if from == a then to else some from) ≡ true
    → (from == b || to ==? b) ≡ false
ends-apart a b dead from to differ alive touches gone = elim (Bool-cases (from == a)) [
  | inl source ↦ received to (rw source at gone) (source_apart source)
  | inr not_source ↦
      sent to (rw not_source at gone) (rw not_source at touches) (Bool-cases (from == b))
]
  where
    source_apart : (from == a) ≡ true → (from == b) ≡ false
    source_apart e = ground (arith, differ)

    same_dead : (c : ℕ) → (c == b) ≡ true → dead (some c) ≡ false
    same_dead c e = rw ((==_iff c b).0 e) alive

    received :
        (end : Option ℕ) → dead end ≡ true → (from == b) ≡ false → (from == b || end ==? b) ≡ false
    received none g s = rw s refl
    received (some c) g s = elim (Bool-cases (c == b)) [
      | inl e ↦ cc (same_dead c e)
      | inr e ↦ rw (s, e) refl
    ]

    sent :
        (end : Option ℕ)
        → dead (some from) ≡ true
        → (end ==? a) ≡ true
        → ((from == b) ≡ true) ⊎ ((from == b) ≡ false)
        → (from == b || end ==? b) ≡ false
    sent end g e (inl s) = cc (same_dead from s)
    sent none g e (inr s) = cc
    sent (some c) g e (inr s) = rw s (ground (arith, differ, e))

-- A transfer that is deleted has a dead counterparty, so it does not involve a living account.
orphan-apart :
    (a b : ℕ) (accounts : List Account) (t : Transaction)
    → (b == a) ≡ false
    → is_dead accounts (some b) ≡ false
    → is_orphan_transfer a accounts t ≡ true
    → involves b t ≡ false
unfolding is_orphan_transfer
orphan-apart a b accounts t differ alive h =
    let (touches, gone) =
      third (is_active t.data_stat_cd) (is_transfer t.tx_type) (involves a t)
        (is_dead accounts (counterparty a t)) h in
    ends-apart a b (is_dead accounts) t.account_id t.to_account_id differ alive touches gone

select-update_where :
    {A : Type 0} (p q : A → Bool) (f : A → A)
    → ((x : A) → q x ≡ true → (p x ≡ false) × (p (f x) ≡ false))
    → (xs : List A) → select p (update_where q f xs) ≡ select p xs
select-update_where p q f apart [] = refl
select-update_where p q f apart (x ∷ xs) = elim (Bool-cases (q x)) [
  | inl hit ↦
      let (old, new) = apart x hit in rw (hit, old, new) (select-update_where p q f apart xs)
  | inr miss ↦ rw miss (ap (λ l. if p x then x ∷ l else l) (select-update_where p q f apart xs))
]

-- The children of the deleted account are apart from the rows of another living account.
sum_for_account-delete_children :
    (a b : ℕ) (d : Option Date) (db : Db)
    → (b == a) ≡ false
    → is_dead db.accounts (some b) ≡ false
    → sum_for_account b d (delete_children a db) ≡ sum_for_account b d db
unfolding delete_children soft_delete_snapshots soft_delete_value_histories soft_delete_trades
    soft_delete_orphan_transfers soft_delete_solo
sum_for_account-delete_children a b d db differ alive =
    sum_for_account-eq-rows_total b d _
    ∙ rows_total-delete b d (is_orphan_transfer a db.accounts)
        (λ t. orphan-apart a b db.accounts t differ alive)
        (update_where (is_solo_of a) delete_tx db.transactions)
    ∙ rows_total-delete b d (is_solo_of a) (λ t. solo-apart a b t differ) db.transactions
    ∙ sym (sum_for_account-eq-rows_total b d db)

trade_sums-delete_children :
    (a b : ℕ) (db : Db)
    → (b == a) ≡ false
    → trade_sums_for_account b none (delete_children a db) ≡ trade_sums_for_account b none db
unfolding delete_children soft_delete_snapshots soft_delete_value_histories soft_delete_trades
    soft_delete_orphan_transfers soft_delete_solo trade_sums_for_account
trade_sums-delete_children a b db differ =
    ap (λ ts. assign_sides (group_sum same_trade_key trade_key settlement_amount ts) zero_trades)
      (select-update_where _ _ _
        (λ t hit. (
          foreign t.account_id (is_active t.data_stat_cd) hit,
          foreign_deleted t.account_id (is_active t.data_stat_cd) hit,
        ))
        db.portfolio_transactions)
  where
    foreign : (c : ℕ) (on : Bool) → (c == a && on) ≡ true → (c == b && (on && true)) ≡ false
    foreign c on h = ground (arith, differ)

    foreign_deleted :
        (c : ℕ) (on : Bool) → (c == a && on) ≡ true → (c == b && (false && true)) ≡ false
    foreign_deleted c on h = ground (arith, differ)

calc_balance-delete_children :
    (a : ℕ) (account : Account) (db : Db)
    → (account.id == a) ≡ false
    → is_dead db.accounts (some account.id) ≡ false
    → calc_balance account (delete_children a db) ≡ calc_balance account db
calc_balance-delete_children a account db differ alive =
    calc_balance-eq-assemble account (delete_children a db)
    ∙ ap
        (λ s.
          assemble_balance account s (trade_sums_for_account account.id none (delete_children a db))
            (select (held_by account.id) (delete_children a db).items))
        (sum_for_account-delete_children a account.id none db differ alive)
    ∙ ap
        (λ s.
          assemble_balance account (sum_for_account account.id none db) s
            (select (held_by account.id) (delete_children a db).items))
        (trade_sums-delete_children a account.id db differ)
    ∙ same_items
    ∙ sym (calc_balance-eq-assemble account db)
  where
    same_items :
        assemble_balance account
          (sum_for_account account.id none db)
          (trade_sums_for_account account.id none db)
          (select (held_by account.id) (delete_children a db).items)
        ≡ assemble_balance account
            (sum_for_account account.id none db)
            (trade_sums_for_account account.id none db)
            (select (held_by account.id) db.items)
    same_items =
        unfold delete_children soft_delete_snapshots soft_delete_value_histories soft_delete_trades
          soft_delete_orphan_transfers soft_delete_solo in
        refl

-- The balance does not read the table of accounts.
calc_balance-put_account :
    (account changed : Account) (db : Db)
    → calc_balance account (put_account changed db) ≡ calc_balance account db
unfolding calc_balance calc_cash_balance calc_investment_balance sum_for_account
    trade_sums_for_account find_items_by_account
calc_balance-put_account account changed db = refl

-- A deletion of an account that succeeds leaves the balance summary of any other account that has
-- no deleted row as it was.
pub calc_balance-delete_account :
    (household_id account_id : ℕ) (account : Account) (db : Db) (result : Unit {0} × Db)
    → delete_account household_id account_id db ≡ ok result
    → (account.id == account_id) ≡ false
    → is_dead db.accounts (some account.id) ≡ false
    → calc_balance account result.1 ≡ calc_balance account db
unfolding delete_account
calc_balance-delete_account household_id account_id account db result h differ alive =
    let (gone, _, h1) = >>=-eq-ok (owned_account household_id account_id db) _ h in
    let (_, last) =
      >>-eq-ok (raise_if (ltb 0 (count_items_by_account account_id db)) account_has_dependents) _
        h1 in
    ap (λ (p : Unit {0} × Db). calc_balance account p.1) (sym (ok-injective last))
    ∙ calc_balance-put_account account (record gone { data_stat_cd = deleted })
        (delete_children account_id db)
    ∙ calc_balance-delete_children account_id account db differ alive

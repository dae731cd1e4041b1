-- ===== src/Transaction/Sums/Batch.antt =====
-- The batch query gives every listed account the sums that the single query gives it.
use household_back.Base.{
  ℤ, select, elem, group_sum, ◌==◌, if◌then◌else◌, ==_iff, Bool-cases, ◌==?◌, ℕ, ◌≡◌, refl, sym, ap,
  ◌∙◌, inl, inr, Bool, true, false, ◌&&◌, ◌||◌, Option, none, some, List, [], ◌∷◌, arith,
}
use household_back.Model.{
  Transaction, TxType, expense, income, transfer, fixed_expense, valuation, is_active, is_transfer,
  Db,
}
use household_back.Transaction.Sums.{
  add_in, add_by_type, TxKey, Sums, key_of, same_key, tx_amount, zero_sums, add_group_row,
  distribute, counted_for, sum_for_account, update_entry, lookup_sums, zero_entries, add_own,
  add_received, add_batch_row, distribute_batch, elem?, counted_for_any, sum_for_accounts,
}
use household_back.Transaction.Sums.Rows.{
  distribute-group_sum, sum_for_account-eq-rows_total, rows_total-select,
}
use household_back.Transaction.Repository.{involves}

lookup_sums-update_entry :
    (a b : ℕ) (f : Sums → Sums) (base : List (ℕ × Sums)) (s : Sums)
    → lookup_sums a base ≡ some s
    → lookup_sums a (update_entry b f base) ≡ some (if b == a then f s else s)
lookup_sums-update_entry a b f [] s h = cc
lookup_sums-update_entry a b f ((j, x) ∷ base) s h =
    ground (arith, lookup_sums-update_entry a b f base s)

elem_self : (a b : ℕ) (ids : List ℕ) → elem a ids ≡ true → elem b ids ≡ false → (b == a) ≡ false
elem_self a b ids p q = elim (Bool-cases (b == a)) [
  | inl same ↦ cc (ap (λ x. elem x ids) ((==_iff b a).0 same))
  | inr differs ↦ differs
]

-- The entry of `a` after the first half of the loop's body.
own_entry :
    (ids : List ℕ) (a b : ℕ) (f : Sums → Sums) (base : List (ℕ × Sums)) {s : Sums}
    → elem a ids ≡ true
    → lookup_sums a base ≡ some s
    → lookup_sums a (if elem b ids then update_entry b f base else base)
      ≡ some (if b == a then f s else s)
own_entry ids a b f base member h = elim (Bool-cases (elem b ids)) [
  | inl listed ↦ rw listed (lookup_sums-update_entry a b f base _ h)
  | inr unlisted ↦ rw (unlisted, elem_self a b ids member unlisted) h
]

-- The entry of `a` after the second half.
received_entry :
    (ids : List ℕ) (a : ℕ) (to : Option ℕ) (is_tr : Bool) (v : ℤ) (base : List (ℕ × Sums))
    {s : Sums}
    → elem a ids ≡ true
    → lookup_sums a base ≡ some s
    → lookup_sums a (add_received to is_tr ids v base)
      ≡ some (if is_tr then (if to ==? a then add_in v s else s) else s)
unfolding add_received
received_entry ids a none true v base member h = h
received_entry ids a none false v base member h = h
received_entry ids a (some b) true v base member h = own_entry ids a b (add_in v) base member h
received_entry ids a (some b) false v base member h = h

-- Both halves together are the body of the single loop.
halves_lem :
    (kind : TxType) (a : ℕ) (k : TxKey) (v : ℤ) (s : Sums)
    → (let s' = if k.account_id == a then add_own kind k v s else s in
        if is_transfer kind then (if k.to_account_id ==? a then add_in v s' else s') else s')
      ≡ add_by_type kind a k v s
unfolding add_own add_by_type
halves_lem income a k v s = refl
halves_lem expense a k v s = refl
halves_lem fixed_expense a k v s = refl
halves_lem transfer a k v s = refl
halves_lem valuation a k v s = refl

add_batch_row_lem :
    (ids : List ℕ) (a : ℕ) (k : TxKey) (v : ℤ) (base : List (ℕ × Sums)) {s : Sums}
    → elem a ids ≡ true
    → lookup_sums a base ≡ some s
    → lookup_sums a (add_batch_row ids (k, v) base) ≡ some (add_group_row a (k, v) s)
unfolding add_batch_row add_group_row
add_batch_row_lem ids a k v base {s} member h =
    received_entry ids a k.to_account_id (is_transfer k.tx_type) v _ member
      (own_entry ids a k.account_id (add_own k.tx_type k v) base member h)
    ∙ ap some (halves_lem k.tx_type a k v s)

distribute_batch_lem :
    (ids : List ℕ) (a : ℕ) (g : List (TxKey × ℤ)) (base : List (ℕ × Sums)) {s : Sums}
    → elem a ids ≡ true
    → lookup_sums a base ≡ some s
    → lookup_sums a (distribute_batch ids g base) ≡ some (distribute a g s)
unfolding distribute_batch distribute
distribute_batch_lem ids a [] base member h = h
distribute_batch_lem ids a ((k, v) ∷ g) base member h =
    distribute_batch_lem ids a g (add_batch_row ids (k, v) base) member
      (add_batch_row_lem ids a k v base member h)

lookup_sums-zero_entries :
    (a : ℕ) (ids : List ℕ) → elem a ids ≡ true → lookup_sums a (zero_entries ids) ≡ some zero_sums
lookup_sums-zero_entries a [] h = cc
lookup_sums-zero_entries a (b ∷ ids) h = ground (arith, lookup_sums-zero_entries a ids)

elem-eq : (a b : ℕ) (ids : List ℕ) → elem a ids ≡ true → (b == a) ≡ true → elem b ids ≡ true
elem-eq a b ids member same = rw ((==_iff b a).0 same) member

filters_agree :
    (ids : List ℕ) (a : ℕ)
    → elem a ids ≡ true
    → (t : Transaction) → involves a t ≡ true
    → counted_for_any ids t ≡ counted_for a none t
filters_agree ids a member t h = listed t.to_account_id h
  where
    listed :
        (to : Option ℕ)
        → (t.account_id == a || to ==? a) ≡ true
        → (is_active t.data_stat_cd && (elem t.account_id ids || elem? to ids))
          ≡ (is_active t.data_stat_cd && ((t.account_id == a || to ==? a) && true))
    listed none h = ground (arith, elem-eq a t.account_id ids member)
    listed (some b) h = ground (arith, elem-eq a t.account_id ids member, elem-eq a b ids member)

-- For every listed account the batch query of transaction sums returns the five sums that the query
-- of that account alone returns.
pub lookup-sum_for_accounts :
    (ids : List ℕ) (a : ℕ) (db : Db)
    → elem a ids ≡ true
    → lookup_sums a (sum_for_accounts ids db) ≡ some (sum_for_account a none db)
unfolding sum_for_accounts
lookup-sum_for_accounts ids a db member =
    let rows = select (counted_for_any ids) db.transactions in
    distribute_batch_lem ids a (group_sum same_key key_of tx_amount rows) (zero_entries ids) member
      (lookup_sums-zero_entries a ids member)
    ∙ ap some (
        distribute-group_sum a rows
        ∙ rows_total-select a (counted_for_any ids) (counted_for a none)
            (filters_agree ids a member) db.transactions
        ∙ sym (sum_for_account-eq-rows_total a none db))

-- ===== src/Transaction/Sums.antt =====
-- transaction/repository.py: the aggregates. SQL groups and adds; a loop then distributes the
-- groups over the named sums. The proofs are in the modules below.
pub mod Vectors
pub mod Rows
pub mod Batch
use household_back.Base.{
  ℤ, pos, ◌+ℤ◌, ◌-ℤ◌, select, elem, group_sum, ◌==◌, if◌then◌else◌, ◌==?◌, ℕ, ◌+◌, ◌-◌, refl, Bool,
  true, false, ◌&&◌, ◌||◌, Option, none, some, List, [], ◌∷◌, arith,
}
use household_back.Core.{Date, ◌>>=◌, ◌>>◌}
use household_back.Model.{
  Transaction, TxType, expense, income, transfer, fixed_expense, valuation, ValuationDirection,
  is_active, is_transfer, tx_type_eqb, direction_eqb, is_increase, Db,
}
use household_back.Transaction.Repository.{involves, to_matches}

-- the columns of the GROUP BY
pub record TxKey : Type 0 where
  pub tx_type : TxType
  pub account_id : ℕ
  pub to_account_id : Option ℕ
  pub direction : Option ValuationDirection

abbrev pub key_of : Transaction → TxKey
key_of t = record {
  tx_type = t.tx_type;
  account_id = t.account_id;
  to_account_id = t.to_account_id;
  direction = t.valuation_direction;
}

abbrev pub id_eqb : Option ℕ → Option ℕ → Bool
id_eqb none none = true
id_eqb (some a) (some b) = a == b
id_eqb _ _ = false

abbrev pub same_key : TxKey → TxKey → Bool
same_key a b =
    tx_type_eqb a.tx_type b.tx_type
    && (a.account_id == b.account_id
        && (id_eqb a.to_account_id b.to_account_id && direction_eqb a.direction b.direction))

abbrev pub tx_amount : Transaction → ℤ
tx_amount t = t.amount

-- the dict of five sums
pub record Sums : Type 0 where
  pub income_sum : ℤ
  pub expense_sum : ℤ
  pub transfer_out : ℤ
  pub transfer_in : ℤ
  pub valuation_net : ℤ

abbrev pub zero_sums : Sums
zero_sums = record {
  income_sum = pos 0;
  expense_sum = pos 0;
  transfer_out = pos 0;
  transfer_in = pos 0;
  valuation_net = pos 0;
}

add_income : ℤ → Sums → Sums
add_income total s = record s { income_sum = s.income_sum +ℤ total }

add_expense : ℤ → Sums → Sums
add_expense total s = record s { expense_sum = s.expense_sum +ℤ total }

add_out : ℤ → Sums → Sums
add_out total s = record s { transfer_out = s.transfer_out +ℤ total }

add_in : ℤ → Sums → Sums
add_in total s = record s { transfer_in = s.transfer_in +ℤ total }

add_valuation : Bool → ℤ → Sums → Sums
add_valuation true total s = record s { valuation_net = s.valuation_net +ℤ total }
add_valuation false total s = record s { valuation_net = s.valuation_net -ℤ total }

-- the body of the loop in `sum_for_account`, by the type of the group
add_by_type : TxType → ℕ → TxKey → ℤ → Sums → Sums
unfolding add_income add_expense add_out add_in add_valuation
add_by_type income account_id k total s =
    if k.account_id == account_id then add_income total s else s
add_by_type expense account_id k total s =
    if k.account_id == account_id then add_expense total s else s
add_by_type fixed_expense account_id k total s =
    if k.account_id == account_id then add_expense total s else s
add_by_type transfer account_id k total s =
    let s' = if k.account_id == account_id then add_out total s else s in
    if k.to_account_id ==? account_id then add_in total s' else s'
add_by_type valuation account_id k total s =
    if k.account_id == account_id then add_valuation (is_increase k.direction) total s else s

unfoldable pub add_group_row : ℕ → TxKey × ℤ → Sums → Sums
unfolding add_by_type
add_group_row account_id (k, total) s = add_by_type k.tx_type account_id k total s

unfoldable pub distribute : ℕ → List (TxKey × ℤ) → Sums → Sums
unfolding add_group_row
distribute account_id [] s = s
distribute account_id (row ∷ rows) s = distribute account_id rows (add_group_row account_id row s)

-- the WHERE of `sum_for_account`
abbrev pub counted_for : ℕ → Option Date → Transaction → Bool
counted_for account_id to_date t =
    is_active t.data_stat_cd && (involves account_id t && to_matches to_date t)

-- `TransactionRepository.sum_for_account`
unfoldable pub sum_for_account : ℕ → Option Date → Db → Sums
unfolding distribute
sum_for_account account_id to_date db =
    distribute account_id
      (group_sum same_key key_of tx_amount
        (select (counted_for account_id to_date) db.transactions))
      zero_sums

-- `base[aid]`, with `f` applied to the entry of one account
abbrev pub update_entry : ℕ → (Sums → Sums) → List (ℕ × Sums) → List (ℕ × Sums)
update_entry account_id f [] = []
update_entry account_id f ((j, s) ∷ base) =
    (j, if j == account_id then f s else s) ∷ update_entry account_id f base

abbrev pub lookup_sums : ℕ → List (ℕ × Sums) → Option Sums
lookup_sums account_id [] = none
lookup_sums account_id ((j, s) ∷ base) =
    if j == account_id then some s else lookup_sums account_id base

abbrev pub zero_entries : List ℕ → List (ℕ × Sums)
zero_entries [] = []
zero_entries (a ∷ ids) = (a, zero_sums) ∷ zero_entries ids

-- what the batch loop does to the entry of the row's own account
unfoldable pub add_own : TxType → TxKey → ℤ → Sums → Sums
unfolding add_income add_expense add_out add_valuation
add_own income k total s = add_income total s
add_own expense k total s = add_expense total s
add_own fixed_expense k total s = add_expense total s
add_own transfer k total s = add_out total s
add_own valuation k total s = add_valuation (is_increase k.direction) total s

-- the second half of the batch loop: the receiving account of a transfer
unfoldable pub add_received : Option ℕ → Bool → List ℕ → ℤ → List (ℕ × Sums) → List (ℕ × Sums)
unfolding add_in
add_received (some b) true ids total base =
    if elem b ids then update_entry b (add_in total) base else base
add_received _ _ ids total base = base

-- the body of the loop in `sum_for_accounts`
unfoldable pub add_batch_row : List ℕ → TxKey × ℤ → List (ℕ × Sums) → List (ℕ × Sums)
unfolding add_own add_received
add_batch_row ids (k, total) base = add_received k.to_account_id (is_transfer k.tx_type) ids total (
    if elem k.account_id ids
    then update_entry k.account_id (add_own k.tx_type k total) base
    else base)

unfoldable pub distribute_batch : List ℕ → List (TxKey × ℤ) → List (ℕ × Sums) → List (ℕ × Sums)
unfolding add_batch_row
distribute_batch ids [] base = base
distribute_batch ids (row ∷ rows) base = distribute_batch ids rows (add_batch_row ids row base)

abbrev pub elem? : Option ℕ → List ℕ → Bool
elem? none ids = false
elem? (some a) ids = elem a ids

-- the WHERE of `sum_for_accounts`
abbrev pub counted_for_any : List ℕ → Transaction → Bool
counted_for_any ids t =
    is_active t.data_stat_cd && (elem t.account_id ids || elem? t.to_account_id ids)

-- `TransactionRepository.sum_for_accounts`; with no ids the base is empty and no row counts
unfoldable pub sum_for_accounts : List ℕ → Db → List (ℕ × Sums)
unfolding distribute_batch
sum_for_accounts ids db =
    distribute_batch ids
      (group_sum same_key key_of tx_amount (select (counted_for_any ids) db.transactions))
      (zero_entries ids)

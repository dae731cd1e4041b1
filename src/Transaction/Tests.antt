-- ===== src/Transaction/Tests.antt =====
-- The theorems on transactions at concrete rows.
use household_back.Base.{◌==◌}
use household_back.Transaction.Service.RoundTrip.{
  get_transaction_detail-create_transaction, get_transaction_detail-delete_transaction,
}
use household_back.Transaction.Service.{get_transaction_detail, delete_transaction}
use household_back.Core.{not_found, err}
use household_back.Model.{deleted}
use household_back.Base.{
  ℤ, pos, ◌+ℤ◌, neg_ℤ, length, take, All, select, sum_by, ltb, if◌then◌else◌, ℕ, ◌≡◌, refl, false,
  Option, none, some, List, [], ◌∷◌, ◌++◌, arith,
}
use household_back.Core.{ok}
use household_back.Model.{Account, Transaction, real_estate, expense, valuation, Db}
use household_back.Paging.{Distinct}
use household_back.Samples.{jan, living_account, salary, lunch, to_savings, household_db}
use household_back.Transaction.Schema.{
  TransactionCreateRequest, TransactionUpdateRequest, validate_create,
}
use household_back.Transaction.Rules.{IsConsistent}
use household_back.Transaction.Repository.{
  account_filter, involves, conditions, cursor_of, cursor_after,
}
use household_back.Transaction.Response.{single_response}
use household_back.Transaction.Service.{new_transaction, create_transaction}
use household_back.Transaction.Service.Consistency.{
  TxRequest, post_tx, patch_tx, delete_tx_request, serve_tx, serve_all, serve_all-IsConsistent,
}
use household_back.Transaction.Service.Isolation.{row_id, others, serve_tx-others}
use household_back.Transaction.Service.Effects.{create_transaction-cash_flow}
use household_back.Transaction.Sums.{counted_for, sum_for_account, lookup_sums, sum_for_accounts}
use household_back.Transaction.Sums.Batch.{lookup-sum_for_accounts}
use household_back.Transaction.Paging.{listed}
use household_back.Transaction.Ledger.{
  LedgerCursor, signed_amount, build_ledger_items, cash_flow, ledger_page,
}
use household_back.Transaction.Ledger.Balance.{cash_flow-sum_for_account}
use household_back.Transaction.Ledger.Running.{balances_forward, balances, build_ledger_items_lem}
use household_back.Transaction.Ledger.Pages.{ledger_page_lem}

abbrev coffee_request : TransactionCreateRequest
coffee_request = record {
  tx_type = expense;
  amount = pos 450;
  tx_date = jan 8;
  account_id = 1;
  to_account_id = none;
  category_id = none;
  paid_by_user_id = none;
  fixed_expense_id = none;
  memo = none;
  valuation_direction = none;
}

abbrev no_change : TransactionUpdateRequest
no_change = record {
  tx_type = none;
  amount = none;
  tx_date = none;
  account_id = none;
  to_account_id = none;
  category_id = none;
  paid_by_user_id = none;
  fixed_expense_id = none;
  memo = none;
  valuation_direction = none;
}

household_db-IsConsistent : All IsConsistent household_db.transactions
household_db-IsConsistent = (refl, (refl, (refl, tt)))

household_db-Distinct : Distinct row_id household_db.transactions
household_db-Distinct = ((refl, (refl, tt)), ((refl, tt), (tt, tt)))

abbrev requests : List (ℕ × TxRequest)
requests =
    (7, post_tx 24 24 5 coffee_request)
    ∷ (7, patch_tx 23 (record no_change { tx_type = some expense }))
    ∷ (7, delete_tx_request 22)
    ∷ []

serve_all-IsConsistent_example : All IsConsistent (serve_all requests household_db).transactions
serve_all-IsConsistent_example =
    serve_all-IsConsistent requests household_db household_db-IsConsistent

abbrev coffee : Transaction
coffee = record lunch {
  id = 24;
  frst_reg_dt = 24;
  amount = pos 450;
  tx_date = jan 8;
  paid_by_user_id = some 5;
}

abbrev coffee_db : Db
coffee_db = record household_db { transactions = salary ∷ lunch ∷ to_savings ∷ coffee ∷ [] }

create_test :
    create_transaction 24 24 7 5 coffee_request household_db
    ≡ ok (single_response coffee coffee_db, coffee_db)
unfolding create_transaction
create_test = refl

valid_test : validate_create coffee_request ≡ ok tt
unfolding validate_create
valid_test = refl

serve_test : serve_tx 7 (post_tx 24 24 5 coffee_request) household_db ≡ ok (tt, coffee_db)
unfolding serve_tx
serve_test = refl

serve_tx-others_example : others 7 coffee_db ≡ others 7 household_db
serve_tx-others_example =
    serve_tx-others 7 (post_tx 24 24 5 coffee_request) household_db (tt, coffee_db)
      household_db-Distinct serve_test

create_transaction-cash_flow_example :
    cash_flow (pos 10000) (sum_for_account 1 none coffee_db)
    ≡ cash_flow (pos 10000) (sum_for_account 1 none household_db)
      +ℤ (let t = new_transaction 24 24 7 5 coffee_request in
          if involves 1 t then signed_amount 1 t else pos 0)
create_transaction-cash_flow_example =
    create_transaction-cash_flow 24 24 7 5 coffee_request household_db
      (single_response coffee coffee_db, coffee_db) (pos 10000) 1 valid_test create_test
      household_db-IsConsistent

-- A house, and a spending on it that becomes an adjustment without a direction.
abbrev house : Account
house = record living_account { id = 4; name = "house"; account_type = real_estate }

abbrev repair : Transaction
repair = record lunch { id = 25; account_id = 4 }

abbrev to_adjustment : TransactionUpdateRequest
to_adjustment = record no_change { tx_type = some valuation }

abbrev house_db : Db
house_db = record household_db { accounts = house ∷ []; transactions = repair ∷ [] }

abbrev adjusted : Transaction
adjusted = record repair { tx_type = valuation }

abbrev adjusted_db : Db
adjusted_db = record house_db { transactions = adjusted ∷ [] }

lookup-sum_for_accounts_example :
    lookup_sums 2 (sum_for_accounts (1 ∷ 2 ∷ []) household_db)
    ≡ some (sum_for_account 2 none household_db)
lookup-sum_for_accounts_example = lookup-sum_for_accounts (1 ∷ 2 ∷ []) 2 household_db refl

cash_flow-sum_for_account_example :
    cash_flow (pos 10000) (sum_for_account 1 (some (jan 3)) household_db)
    ≡ pos 10000
      +ℤ sum_by (signed_amount 1) (select (counted_for 1 (some (jan 3))) household_db.transactions)
cash_flow-sum_for_account_example =
    cash_flow-sum_for_account (pos 10000) 1 (some (jan 3)) household_db household_db-IsConsistent

build_ledger_items_lem_example :
    let page =
      build_ledger_items
        (lunch ∷ salary ∷ [])
        1
        []
        []
        []
        (pos 10000 +ℤ sum_by (signed_amount 1) (lunch ∷ salary ∷ [])) in
    (balances page.0 ≡ balances_forward 1 (pos 10000) (lunch ∷ salary ∷ [])) × (page.1 ≡ pos 10000)
build_ledger_items_lem_example = build_ledger_items_lem 1 [] [] [] (pos 10000) (lunch ∷ salary ∷ [])

listed_test : listed 7 (account_filter 1) household_db ≡ (to_savings ∷ []) ++ lunch ∷ salary ∷ []
unfolding conditions cursor_after
listed_test = refl

-- the cursors behind the newest row and behind the next
abbrev behind : Transaction → ℤ → Option LedgerCursor
behind t carry = some (record { row = cursor_of t; carry = carry })

ledger_page_lem_example :
    let page = ledger_page 7 living_account none (behind to_savings (pos 13800)) 1 household_db in
    (balances page.items ≡ take 1 (balances_forward 1 (pos 10000) (lunch ∷ salary ∷ [])))
    × (page.next_cursor
        ≡ (if ltb 1 (length (lunch ∷ salary ∷ [])) then behind lunch (pos 15000) else none))
unfolding signed_amount ◌+ℤ◌ neg_ℤ
ledger_page_lem_example =
    ledger_page_lem 7 living_account 1 household_db household_db-Distinct household_db-IsConsistent
      ((λ _. refl), ((λ _. refl), ((λ _. refl), tt))) (to_savings ∷ []) (lunch ∷ salary ∷ [])
      listed_test (omega arith)

fresh_test : All (λ (u : Transaction). (u.id == 24) ≡ false) household_db.transactions
fresh_test = (refl, (refl, (refl, tt)))

get_transaction_detail-create_transaction_example :
    get_transaction_detail 7 24 coffee_db ≡ ok (single_response coffee coffee_db)
get_transaction_detail-create_transaction_example =
    get_transaction_detail-create_transaction 24 24 7 5 coffee_request household_db
      (single_response coffee coffee_db, coffee_db) fresh_test create_test

abbrev fasting_db : Db
fasting_db = record household_db {
  transactions = salary ∷ record lunch { data_stat_cd = deleted } ∷ to_savings ∷ [];
}

delete_test : delete_transaction 7 22 household_db ≡ ok (tt, fasting_db)
unfolding delete_transaction
delete_test = refl

get_transaction_detail-delete_transaction_example :
    (get_transaction_detail 7 22 fasting_db ≡ err not_found)
    × (delete_transaction 7 22 fasting_db ≡ err not_found)
get_transaction_detail-delete_transaction_example =
    get_transaction_detail-delete_transaction 7 22 7 household_db (tt, fasting_db) delete_test

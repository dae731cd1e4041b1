-- ===== src/Account/Tests.antt =====
-- The account theorems at concrete rows.
use household_back.Account.Service.Closing.{get_account_detail-delete_account}
use household_back.Portfolio.Repository.{count_items_by_account}
use household_back.Account.Service.{get_account_detail}
use household_back.Base.{true, Bool, String}
use household_back.Core.{not_found}
use household_back.Base.{◌≡◌, refl, [], ◌∷◌, map}
use household_back.Core.{account_has_dependents, ok, err}
use household_back.Model.{deleted, Db}
use household_back.Samples.{
  living_account, savings_account, broker_account, salary, lunch, to_savings, household_db,
}
use household_back.Account.Balance.{calc_balance}
use household_back.Account.Service.{account_response, batch_responses, delete_account}
use household_back.Account.Service.Lists.{batch_responses_lem}
use household_back.Account.Service.Cascade.{calc_balance-delete_account}

batch_responses_lem_example :
    batch_responses (living_account ∷ broker_account ∷ []) household_db
    ≡ map
        (λ a. account_response a (calc_balance a household_db))
        (living_account ∷ broker_account ∷ [])
batch_responses_lem_example =
    batch_responses_lem (living_account ∷ broker_account ∷ []) household_db

abbrev closed_db : Db
closed_db = record household_db {
  accounts =
      record living_account { data_stat_cd = deleted } ∷ savings_account ∷ broker_account ∷ [];
  transactions =
      record salary { data_stat_cd = deleted }
      ∷ record lunch { data_stat_cd = deleted }
      ∷ to_savings
      ∷ [];
}

delete_test : delete_account 7 1 household_db ≡ ok (tt, closed_db)
unfolding delete_account
delete_test = refl

-- The transfer that the savings account received stays.
calc_balance-delete_account_example :
    calc_balance savings_account closed_db ≡ calc_balance savings_account household_db
calc_balance-delete_account_example =
    calc_balance-delete_account 7 1 savings_account household_db (tt, closed_db) delete_test refl
      refl

-- An account with holdings is not deleted.
dependents_test : delete_account 7 3 household_db ≡ err account_has_dependents
unfolding delete_account
dependents_test = refl

abbrev same_text : String → String → Bool
same_text term name = true

get_account_detail-delete_account_example :
    (count_items_by_account 1 household_db ≡ 0) × (get_account_detail 7 1 closed_db ≡ err not_found)
get_account_detail-delete_account_example =
    get_account_detail-delete_account 7 1 7 household_db (tt, closed_db) delete_test

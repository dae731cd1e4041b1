-- ===== src/Account/Paging.antt =====
-- account/repository.py: `list_by_cursor` pages through the filtered accounts, newest first.
use household_back.Base.{select, order_by, ℕ, String, Bool, List}
use household_back.Model.{Account, Db}
use household_back.Account.Repository.{
  AccountFilter, account_cursor, account_after, account_desc, search_conditions,
}

after : Account → Account → Bool
after x y = account_after (account_cursor x) y

abbrev pub account_id_of : Account → ℕ
account_id_of a = a.id

-- the whole filtered list
abbrev pub listed_accounts : (String → String → Bool) → ℕ → AccountFilter → Db → List Account
listed_accounts ilike household_id f db =
    order_by account_desc (select (search_conditions ilike household_id f) db.accounts)

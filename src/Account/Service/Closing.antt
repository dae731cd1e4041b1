-- ===== src/Account/Service/Closing.antt =====
-- An account that was deleted.
use household_back.Base.{
  find, update_where, find-passes, ltb, ◌==◌, if◌then◌else◌, Bool-cases, ℕ, ◌≡◌, refl, sym, ap, ◌∙◌,
  inl, inr, Bool, true, false, not, ◌&&◌, Option, none, some, List, [], ◌∷◌, arith,
}
use household_back.Core.{
  guarded-eq-ok, not_found, account_has_dependents, Result, err, ok, raise_if, ◌>>=◌, >>=-eq-ok,
  ◌>>◌, >>-eq-ok, raise_if-eq-ok, ok-injective, guarded-eq-ok,
}
use household_back.Model.{Account, deleted, is_active, Db}
use household_back.Finders.{find_account}
use household_back.Account.Balance.{calc_balance}
use household_back.Portfolio.Repository.{count_items_by_account}
use household_back.Account.Service.{
  AccountResponse, account_response, owned_account, delete_children, delete_account, put_account,
  get_account_detail,
}

find-none :
    (account_id : ℕ) (changed : Account) (accounts : List Account)
    → (changed.id == account_id) ≡ true
    → is_active changed.data_stat_cd ≡ false
    → find
        (λ (a : Account). a.id == account_id && is_active a.data_stat_cd)
        (update_where (λ (a : Account). a.id == changed.id) (λ _. changed) accounts)
      ≡ none
find-none account_id changed [] same off = refl
find-none account_id changed (a ∷ accounts) same off = elim (Bool-cases (a.id == changed.id)) [
  | inl hit ↦ rw (hit, same, off) (find-none account_id changed accounts same off)
  | inr miss ↦ rw (miss, apart a.id miss) (find-none account_id changed accounts same off)
]
  where
    apart : (b : ℕ) → (b == changed.id) ≡ false → (b == account_id) ≡ false
    apart b k = ground (arith, same)

found_id :
    (household_id account_id : ℕ) (db : Db) (account : Account)
    → owned_account household_id account_id db ≡ ok account
    → (account.id == account_id) ≡ true
unfolding owned_account find_account
found_id household_id account_id db account h =
    by_row (find (λ (a : Account). a.id == account_id && is_active a.data_stat_cd) db.accounts) refl
      h
  where
    first : (b c : Bool) → (b && c) ≡ true → b ≡ true
    first b c k = ground arith

    by_row :
        (o : Option Account)
        → find (λ (a : Account). a.id == account_id && is_active a.data_stat_cd) db.accounts ≡ o
        → (elim o [
          | none ↦ err not_found
          | some a ↦ if a.household_id == household_id then ok a else err not_found
        ])
          ≡ ok account
        → (account.id == account_id) ≡ true
    by_row none e k = cc
    by_row (some a) e k =
        let same = (guarded-eq-ok (a.household_id == household_id) not_found k).1 in
        ap (λ (x : Account). x.id == account_id) (sym same)
        ∙ first (a.id == account_id) (is_active a.data_stat_cd) (find-passes _ db.accounts a e)

-- the two halves of the detail, apart from the lookup
abbrev owner_check : ℕ → Option Account → Result Account
owner_check household_id none = err not_found
owner_check household_id (some a) = if a.household_id == household_id then ok a else err not_found

abbrev answer : Db → Account → Result AccountResponse
answer db a =
    raise_if (not (is_active a.data_stat_cd)) not_found
    >> ok (account_response a (calc_balance a db))

detail-eq-answer :
    (household_id account_id : ℕ) (db : Db)
    → get_account_detail household_id account_id db ≡ (
        owner_check household_id
          (find (λ (a : Account). a.id == account_id && is_active a.data_stat_cd) db.accounts)
        >>= answer db)
unfolding get_account_detail owned_account find_account
detail-eq-answer household_id account_id db =
    ap (λ m. m >>= answer db)
      (by_row (find (λ (a : Account). a.id == account_id && is_active a.data_stat_cd) db.accounts))
  where
    by_row :
        (o : Option Account)
        → (elim o [
          | none ↦ err not_found
          | some a ↦ if a.household_id == household_id then ok a else err not_found
        ])
          ≡ owner_check household_id o
    by_row none = refl
    by_row (some a) = refl

-- If the deletion of an account succeeds, it had no active holdings, and its detail answers
-- NOT_FOUND to every household from then on.
pub get_account_detail-delete_account :
    (household_id account_id reader : ℕ) (db : Db) (result : Unit {0} × Db)
    → delete_account household_id account_id db ≡ ok result
    → (count_items_by_account account_id db ≡ 0)
      × (get_account_detail reader account_id result.1 ≡ err not_found)
unfolding delete_account
get_account_detail-delete_account household_id account_id reader db result h =
    let (account, owned, h1) = >>=-eq-ok (owned_account household_id account_id db) _ h in
    let (free, last) =
      >>-eq-ok (raise_if (ltb 0 (count_items_by_account account_id db)) account_has_dependents) _
        h1 in
    let gone = record account { data_stat_cd = deleted } in
    (
      no_items (count_items_by_account account_id db) (
          raise_if-eq-ok (ltb 0 (count_items_by_account account_id db)) account_has_dependents
            free),
      ap (λ (p : Unit {0} × Db). get_account_detail reader account_id p.1) (sym (ok-injective last))
          ∙ detail (delete_children account_id db) gone (
              find-none account_id gone (delete_children account_id db).accounts
                (found_id household_id account_id db account owned) refl),
    )
  where
    no_items : (n : ℕ) → ltb 0 n ≡ false → n ≡ 0
    no_items n k = ground arith

    detail :
        (d : Db) (gone : Account)
        → find
            (λ (a : Account). a.id == account_id && is_active a.data_stat_cd)
            (put_account gone d).accounts
          ≡ none
        → get_account_detail reader account_id (put_account gone d) ≡ err not_found
    detail d gone e =
        detail-eq-answer reader account_id (put_account gone d)
        ∙ ap (λ o. owner_check reader o >>= answer (put_account gone d)) e

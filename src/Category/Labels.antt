-- ===== src/Category/Labels.antt =====
-- category/service.py: a deleted category goes from the lists, and its name stays on the transactions.
use mathlib.Core.Path.{subst}
use household_back.Base.{
  All, select, find, update_where, elem, find-passes, ◌==◌, if◌then◌else◌, Bool-cases, ℕ, String,
  ◌≡◌, refl, sym, ap, ◌∙◌, inl, inr, Bool, true, false, not, ◌&&◌, Option, none, some, List, [],
  ◌∷◌, arith,
}
use household_back.Core.{not_found, err, ok, raise_if, ◌>>=◌, >>=-eq-ok, ◌>>◌, ok-injective}
use household_back.Model.{Account, Category, FixedExpense, Transaction, deleted, is_active, Db}
use household_back.Finders.{find_accounts, find_categories, find_fixed_expenses, opt_list}
use household_back.Transaction.Response.{
  TransactionResponse, then_some, then_option, category_by_id, build_response, single_response,
}
use household_back.Paging.{Distinct}
use household_back.Keys.{same_row}
use household_back.Category.Service.{
  category_columns, find_category, category_response, category_of, owned_category, put_category,
  delete_category, get_category_detail,
}

-- the labels that a transaction takes from its category
abbrev labels : Option Category → Option (String × Option String × Option String)
labels none = none
labels (some c) = some (c.name, c.color, c.icon)

abbrev shown : ℕ → List ℕ → List Category → Option (String × Option String × Option String)
shown i ids cs =
    labels (find (λ (x : Category). x.id == i) (select (λ (x : Category). elem x.id ids) cs))

-- the first row of a list, replaced by one with the same id and labels
shown_head :
    (i : ℕ) (ids : List ℕ) (a b : Category) (xs ys : List Category)
    → a.id ≡ b.id
    → labels (some a) ≡ labels (some b)
    → shown i ids xs ≡ shown i ids ys
    → shown i ids (a ∷ xs) ≡ shown i ids (b ∷ ys)
shown_head i ids a b xs ys same_id same_labels rest =
    by_tests (elem a.id ids) (a.id == i) refl refl (ap (λ k. elem k ids) (sym same_id))
      (ap (λ k. k == i) (sym same_id))
  where
    by_tests :
        (p q : Bool)
        → elem a.id ids ≡ p
        → (a.id == i) ≡ q
        → elem b.id ids ≡ elem a.id ids
        → (b.id == i) ≡ (a.id == i)
        → shown i ids (a ∷ xs) ≡ shown i ids (b ∷ ys)
    by_tests true true e f e' f' = rw (e', e, f', f) same_labels
    by_tests true false e f e' f' = rw (e', e, f', f) rest
    by_tests false q e f e' f' = rw (e', e) rest

-- A soft delete changes no label.
shown-delete :
    (c : Category) (i : ℕ) (ids : List ℕ) (cs : List Category)
    → All (λ (x : Category). (x.id == c.id) ≡ true → x ≡ c) cs
    → shown i ids (
        update_where (λ (x : Category). x.id == c.id) (λ _. record c { data_stat_cd = deleted }) cs)
      ≡ shown i ids cs
shown-delete c i ids [] h = refl
shown-delete c i ids (x ∷ cs) h = elim (Bool-cases (x.id == c.id)) [
  | inl hit ↦ rw hit (
      shown_head i ids (record c { data_stat_cd = deleted }) x _ cs
        (sym (ap (λ (y : Category). y.id) (h.0 hit)))
        (sym (ap (λ (y : Category). labels (some y)) (h.0 hit))) (shown-delete c i ids cs h.1))
  | inr miss ↦ rw miss (shown_head i ids x x _ cs refl refl (shown-delete c i ids cs h.1))
]

abbrev with_labels :
    TransactionResponse → Option (String × Option String × Option String) → TransactionResponse
with_labels r none = record r { category_name = none; category_color = none; category_icon = none }
with_labels r (some l) = record r {
  category_name = some l.0;
  category_color = l.1;
  category_icon = l.2;
}

-- the fields of a response that come from a category
abbrev with_category : TransactionResponse → Option Category → TransactionResponse
with_category r o = record r {
  category_name = then_some o (λ c. c.name);
  category_color = then_option o (λ c. c.color);
  category_icon = then_option o (λ c. c.icon);
}

with_category-eq :
    (r : TransactionResponse) (o : Option Category) → with_category r o ≡ with_labels r (labels o)
with_category-eq r none = refl
with_category-eq r (some c) = refl

-- What a response shows of a category is its labels.
build_response-eq :
    (tx : Transaction) (accounts : List Account) (fixed : List FixedExpense) (xs : List Category)
    → build_response tx accounts xs fixed
      ≡ with_labels
          (build_response tx accounts [] fixed)
          (labels (category_by_id tx.category_id xs))
unfolding build_response
build_response-eq tx accounts fixed xs =
    opened
    ∙ with_category-eq (build_response tx accounts [] fixed) (category_by_id tx.category_id xs)
  where
    opened :
        build_response tx accounts xs fixed
        ≡ with_category (build_response tx accounts [] fixed) (category_by_id tx.category_id xs)
    opened = refl

labels-category_by_id :
    (o : Option ℕ) (c : Category) (db : Db)
    → All (λ (x : Category). (x.id == c.id) ≡ true → x ≡ c) db.categories
    → labels (
        category_by_id o
          (find_categories (opt_list o) (put_category (record c { data_stat_cd = deleted }) db)))
      ≡ labels (category_by_id o (find_categories (opt_list o) db))
unfolding category_by_id find_categories
labels-category_by_id none c db h = refl
labels-category_by_id (some i) c db h = shown-delete c i (i ∷ []) db.categories h

response-put_category :
    (tx : Transaction) (c : Category) (db : Db)
    → All (λ (x : Category). (x.id == c.id) ≡ true → x ≡ c) db.categories
    → single_response tx (put_category (record c { data_stat_cd = deleted }) db)
      ≡ single_response tx db
unfolding single_response
response-put_category tx c db h =
    let accounts = find_accounts (tx.account_id ∷ opt_list tx.to_account_id) db in
    let fixed = find_fixed_expenses (opt_list tx.fixed_expense_id) db in
    build_response-eq tx accounts fixed (
      find_categories (opt_list tx.category_id)
        (put_category (record c { data_stat_cd = deleted }) db))
    ∙ ap (with_labels (build_response tx accounts [] fixed))
        (labels-category_by_id tx.category_id c db h)
    ∙ sym (build_response-eq tx accounts fixed (find_categories (opt_list tx.category_id) db))

category_of-eq-ok :
    (household_id category_id : ℕ) (db : Db) (c : Category)
    → owned_category household_id category_id db ≡ ok c
    → find_category category_id db ≡ some c
unfolding owned_category
category_of-eq-ok household_id category_id db c h = by_row (find_category category_id db) h
  where
    by_test :
        (b : Bool) (x : Category) → (if not b then err not_found else ok x) ≡ ok c → some x ≡ some c
    by_test true x k = ap some (ok-injective k)
    by_test false x k = cc

    by_row : (o : Option Category) → category_of household_id o ≡ ok c → o ≡ some c
    by_row none k = cc
    by_row (some x) k = by_test (x.household_id == household_id) x k

gone_from :
    (category_id : ℕ) (c : Category) (cs : List Category)
    → (c.id == category_id) ≡ true
    → find
        (λ (x : Category). x.id == category_id && is_active x.data_stat_cd)
        (update_where
          (λ (x : Category). x.id == c.id)
          (λ _. record c { data_stat_cd = deleted })
          cs)
      ≡ none
gone_from category_id c [] same = refl
gone_from category_id c (x ∷ cs) same = elim (Bool-cases (x.id == c.id)) [
  | inl hit ↦ rw (hit, same) (gone_from category_id c cs same)
  | inr miss ↦ rw (miss, apart x.id c.id miss same) (gone_from category_id c cs same)
]
  where
    apart : (a b : ℕ) → (a == b) ≡ false → (b == category_id) ≡ true → (a == category_id) ≡ false
    apart a b h k = ground arith

-- With primary keys, if the deletion of a category succeeds, every transaction is shown as before,
-- with its category, and the detail of the category answers NOT_FOUND to every household.
pub single_response-delete_category :
    (household_id category_id : ℕ) (db : Db) (result : Unit {0} × Db)
    → Distinct category_columns.id_of db.categories
    → delete_category household_id category_id db ≡ ok result
    → ((tx : Transaction) → single_response tx result.1 ≡ single_response tx db)
      × ((reader : ℕ) → get_category_detail reader category_id result.1 ≡ err not_found)
unfolding delete_category find_category
single_response-delete_category household_id category_id db result d e =
    let (c, owned, done) = >>=-eq-ok (owned_category household_id category_id db) _ e in
    let found = category_of-eq-ok household_id category_id db c owned in
    let made = ap (λ (p : Unit {0} × Db). p.1) (ok-injective done) in
    let unique = same_row category_columns.id_of _ db.categories c d found in
    let hit = first (c.id == category_id) _ (find-passes _ db.categories c found) in
    (
      λ tx.
          subst (λ x. single_response tx x ≡ single_response tx db) made
            (response-put_category tx c db unique),
      λ reader.
          subst (λ x. get_category_detail reader category_id x ≡ err not_found) made
            (unfold get_category_detail owned_category in
              ap
                (λ o. category_of reader o >>= λ x.
                  raise_if (not (is_active x.data_stat_cd)) not_found >> ok (category_response x))
                (gone_from category_id c db.categories hit)),
    )
  where
    first : (a b : Bool) → (a && b) ≡ true → a ≡ true
    first a b h = ground arith

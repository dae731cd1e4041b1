-- ===== src/Fixed/Pages.antt =====
-- app/domain/fixed: the list, read page by page, and the names it shows.
use household_back.Base.{
  elem, ◌==◌, ==_iff, Bool-cases, ℕ, ◌≡◌, refl, sym, ap, ◌∙◌, inl, inr, Bool, true, false, ◌||◌,
  Option, none, some, List, [], ◌∷◌, ◌++◌, map,
}
use household_back.Model.{Category, FixedExpense, Db}
use household_back.Finders.{find_categories, opt_list}
use household_back.Transaction.Response.{category_by_id}
use household_back.Keys.{find-select-elem}
use household_back.Fixed.Service.{fixed_response, category_ids, fixed_responses, one_fixed_response}

-- The category of an id is the same from every query that asks for it.
category_by_id-find_categories :
    (o : Option ℕ) (ids : List ℕ) (db : Db)
    → ((i : ℕ) → o ≡ some i → elem i ids ≡ true)
    → category_by_id o (find_categories ids db) ≡ category_by_id o (find_categories (opt_list o) db)
unfolding category_by_id find_categories
category_by_id-find_categories none ids db h = refl
category_by_id-find_categories (some i) ids db h =
    find-select-elem (λ (c : Category). c.id) i ids db.categories (h i refl)
    ∙ sym (
        find-select-elem (λ (c : Category). c.id) i (i ∷ []) db.categories
          (rw ((==_iff i i).1 refl) refl))

fixed_response_one :
    (ids : List ℕ) (db : Db) (f : FixedExpense)
    → ((i : ℕ) → f.category_id ≡ some i → elem i ids ≡ true)
    → fixed_response (find_categories ids db) f ≡ one_fixed_response db f
unfolding fixed_response one_fixed_response
fixed_response_one ids db f h = rw (category_by_id-find_categories f.category_id ids db h) refl

elem-append : (i : ℕ) (xs ys : List ℕ) → elem i (xs ++ ys) ≡ (elem i xs || elem i ys)
elem-append i [] ys = refl
elem-append i (x ∷ xs) ys = elim (Bool-cases (i == x)) [
  | inl e ↦ rw e refl
  | inr e ↦ rw e (elem-append i xs ys)
]

-- Each row's category is among those of the batch.
each_response :
    (db : Db) (ids : List ℕ) (rows : List FixedExpense)
    → ((i : ℕ) → elem i (category_ids rows) ≡ true → elem i ids ≡ true)
    → map (fixed_response (find_categories ids db)) rows ≡ map (one_fixed_response db) rows
each_response db ids [] h = refl
each_response db ids (f ∷ rows) h = rw (fixed_response_one ids db f (λ i e. h i (first i e))) (
    ap (λ l. one_fixed_response db f ∷ l)
      (each_response db ids rows
        (λ i e. h i (elem-append i (opt_list f.category_id) (category_ids rows) ∙ or_right _ e))))
  where
    or_right : (b : Bool) {c : Bool} → c ≡ true → (b || c) ≡ true
    or_right true e = refl
    or_right false e = e

    first : (i : ℕ) → f.category_id ≡ some i → elem i (category_ids (f ∷ rows)) ≡ true
    first i e = rw (e, (==_iff i i).1 refl) refl

pub fixed_responses_lem :
    (db : Db) (rows : List FixedExpense)
    → fixed_responses db rows ≡ map (one_fixed_response db) rows
unfolding fixed_responses
fixed_responses_lem db rows = each_response db (category_ids rows) rows (λ i e. e)

-- ===== src/Keys.antt =====
-- Tables with primary keys: what INSERT and UPDATE do to keys, counts and the rows that a query finds.
use mathlib.Core.Path.{subst}
use household_back.Base.{
  All, select, find, any, elem, ==_iff, update_where, count, find-All, All-append, ◌==◌,
  if◌then◌else◌, Bool-cases, ℕ, suc, ◌+◌, ◌≤◌, ◌≡◌, refl, sym, inl, inr, Bool, true, false, ◌||◌,
  none, some, List, [], ◌∷◌, ◌++◌, arith,
}
use household_back.Paging.{Distinct, All-map}

module _ {A : Type 0} where
  pub All-both : (P Q : A → Type 0) (xs : List A) → All P xs → All Q xs → All (λ x. P x × Q x) xs
  All-both P Q [] p q = tt
  All-both P Q (x ∷ xs) p q = ((p.0, q.0), All-both P Q xs p.1 q.1)

  pub All-every : (P : A → Type 0) (xs : List A) → ((x : A) → P x) → All P xs
  All-every P [] h = tt
  All-every P (x ∷ xs) h = (h x, All-every P xs h)

  pub All-update_cases :
      (P : A → Type 0) (q : A → Bool) (f : A → A) (xs : List A)
      → All (λ x. (q x ≡ true → P (f x)) × (q x ≡ false → P x)) xs
      → All P (update_where q f xs)
  All-update_cases P q f [] h = tt
  All-update_cases P q f (x ∷ xs) h = elim (Bool-cases (q x)) [
    | inl e ↦ rw e (h.0.0 e, All-update_cases P q f xs h.1)
    | inr e ↦ rw e (h.0.1 e, All-update_cases P q f xs h.1)
  ]

module _ {A : Type 0} (id_of : A → ℕ) where
  differ_sym : (x y : A) → (id_of x == id_of y) ≡ false → (id_of y == id_of x) ≡ false
  differ_sym x y h = ground arith

  pub Distinct-append :
      (xs : List A) (y : A)
      → Distinct id_of xs
      → All (λ x. (id_of x == id_of y) ≡ false) xs
      → Distinct id_of (xs ++ y ∷ [])
  Distinct-append [] y h k = (tt, tt)
  Distinct-append (x ∷ xs) y h k = (
    All-append (λ z. (id_of x == id_of z) ≡ false) xs (y ∷ []) h.0 (k.0, tt),
    Distinct-append xs y h.1 k.1,
  )

  apart_update :
      (q : A → Bool) (f : A → A) (k : ℕ) (xs : List A)
      → ((x : A) → q x ≡ true → id_of (f x) ≡ id_of x)
      → All (λ y. (k == id_of y) ≡ false) xs
      → All (λ y. (k == id_of y) ≡ false) (update_where q f xs)
  apart_update q f k [] same h = tt
  apart_update q f k (x ∷ xs) same h = elim (Bool-cases (q x)) [
    | inl e ↦ rw (e, same x e) (h.0, apart_update q f k xs same h.1)
    | inr e ↦ rw e (h.0, apart_update q f k xs same h.1)
  ]

  -- An UPDATE that leaves the ids.
  pub Distinct-update :
      (q : A → Bool) (f : A → A) (xs : List A)
      → ((x : A) → q x ≡ true → id_of (f x) ≡ id_of x)
      → Distinct id_of xs
      → Distinct id_of (update_where q f xs)
  Distinct-update q f [] same h = tt
  Distinct-update q f (x ∷ xs) same h = elim (Bool-cases (q x)) [
    | inl e ↦ rw e (
      subst (λ k. All (λ y. (k == id_of y) ≡ false) (update_where q f xs)) (sym (same x e))
          (apart_update q f (id_of x) xs same h.0),
      Distinct-update q f xs same h.1,
    )
    | inr e ↦ rw e (apart_update q f (id_of x) xs same h.0, Distinct-update q f xs same h.1)
  ]

  every_row :
      (xs : List A)
      → Distinct id_of xs
      → All (λ r. All (λ x. (id_of x == id_of r) ≡ true → x ≡ r) xs) xs
  every_row [] h = tt
  every_row (y ∷ xs) h = (
    (λ _. refl, All-map _ _ (λ x differs same. cc (differ_sym y x differs)) xs h.0),
    All-both _ _ xs (All-map _ _ (λ x differs same. cc differs) xs h.0) (every_row xs h.1),
  )

  -- The row found is the only one of its id.
  pub same_row :
      (p : A → Bool) (xs : List A) (r : A)
      → Distinct id_of xs
      → find p xs ≡ some r
      → All (λ x. (id_of x == id_of r) ≡ true → x ≡ r) xs
  same_row p xs r h e =
      find-All (λ s. All (λ x. (id_of x == id_of s) ≡ true → x ≡ s) xs) p xs r (every_row xs h) e

module _ {A : Type 0} (p : A → Bool) where
  pub count-append :
      (xs : List A) (y : A) → count p (xs ++ y ∷ []) ≡ count p xs + (if p y then 1 else 0)
  count-append [] y = by_test (p y)
    where
      by_test : (b : Bool) → (if b then suc 0 else 0) ≡ 0 + (if b then 1 else 0)
      by_test true = refl
      by_test false = refl
  count-append (x ∷ xs) y = elim (Bool-cases (p x)) [
    | inl e ↦ rw e (omega (arith, count-append xs y))
    | inr e ↦ rw e (count-append xs y)
  ]

  -- An UPDATE after which its rows no longer pass.
  pub count-update_le :
      (q : A → Bool) (f : A → A) (xs : List A)
      → ((x : A) → p (f x) ≡ false)
      → count p (update_where q f xs) ≤ count p xs
  count-update_le q f [] off = omega arith
  count-update_le q f (x ∷ xs) off = ground (arith, off x, count-update_le q f xs off)

  pub count-none : (xs : List A) → find p xs ≡ none → count p xs ≡ 0
  count-none [] h = refl
  count-none (x ∷ xs) h = ground (arith, count-none xs)

  pub any-append_left : (xs ys : List A) → any p xs ≡ true → any p (xs ++ ys) ≡ true
  any-append_left [] ys h = cc
  any-append_left (x ∷ xs) ys h = elim (Bool-cases (p x)) [
    | inl e ↦ rw e refl
    | inr e ↦ rw e (any-append_left xs ys (rw e at h))
  ]

  pub any-append_last : (xs : List A) (y : A) → p y ≡ true → any p (xs ++ y ∷ []) ≡ true
  any-append_last [] y h = rw h refl
  any-append_last (x ∷ xs) y h = elim (Bool-cases (p x)) [
    | inl e ↦ rw e refl
    | inr e ↦ rw e (any-append_last xs y h)
  ]

  -- An UPDATE that touches no row that passes.
  pub any-update :
      (q : A → Bool) (f : A → A) (xs : List A)
      → All (λ x. p x ≡ true → q x ≡ false) xs
      → any p xs ≡ true
      → any p (update_where q f xs) ≡ true
  any-update q f [] k h = cc
  any-update q f (x ∷ xs) k h = elim (Bool-cases (p x)) [
    | inl e ↦ rw (k.0 e, e) refl
    | inr e ↦ later (p (if q x then f x else x)) (any-update q f xs k.1 (rw e at h))
  ]
    where
      later : (b : Bool) {c : Bool} → c ≡ true → (b || c) ≡ true
      later true e = refl
      later false e = e

-- A row that a list of ids names is found among the rows of those ids.
pub find-select-elem :
    {A : Type 0} (id_of : A → ℕ) (i : ℕ) (ids : List ℕ) (xs : List A)
    → elem i ids ≡ true
    → find (λ x. id_of x == i) (select (λ x. elem (id_of x) ids) xs) ≡ find (λ x. id_of x == i) xs
find-select-elem id_of i ids [] h = refl
find-select-elem id_of i ids (x ∷ xs) h = elim (Bool-cases (id_of x == i)) [
  | inl same ↦ rw (subst (λ k. elem k ids ≡ true) (sym ((==_iff (id_of x) i).0 same)) h, same) refl
  | inr apart ↦ elim (Bool-cases (elem (id_of x) ids)) [
    | inl e ↦ rw (e, apart) (find-select-elem id_of i ids xs h)
    | inr e ↦ rw (e, apart) (find-select-elem id_of i ids xs h)
  ]
]

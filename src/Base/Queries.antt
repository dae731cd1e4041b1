-- ===== src/Base/Queries.antt =====
-- Table scans: the shapes of SQL statement that the repositories issue. A table is a list of rows.
use Prim.Native.Nat.{ℕ, suc}
use mathlib.Core.Bool.{Bool, true, false, ◌||◌}
use mathlib.Core.Path.{◌≡◌, refl, subst}
use mathlib.Core.Logic.{◌⊎◌, inl, inr}
use household_back.Base.Lists.{All}
use mathlib.Core.List.{List, [], ◌∷◌, ◌++◌}
use mathlib.Core.Option.{Option, none, some}
use household_back.Base.Tests.{Bool-cases, ◌==◌, if◌then◌else◌}
use household_back.Base.Int.{ℤ, pos, ◌+ℤ◌}

module _ {ℓ} {A : Type ℓ} where
  -- SELECT … WHERE p
  abbrev pub select : (A → Bool) → List A → List A
  select p [] = []
  select p (x ∷ xs) = if p x then x ∷ select p xs else select p xs

  -- the one row of a SELECT by key
  abbrev pub find : (A → Bool) → List A → Option A
  find p [] = none
  find p (x ∷ xs) = if p x then some x else find p xs

  -- SELECT EXISTS
  abbrev pub any : (A → Bool) → List A → Bool
  any p [] = false
  any p (x ∷ xs) = p x || any p xs

  -- UPDATE … SET f WHERE p
  abbrev pub update_where : (A → Bool) → (A → A) → List A → List A
  update_where p f [] = []
  update_where p f (x ∷ xs) = (if p x then f x else x) ∷ update_where p f xs

  -- SUM(f)
  abbrev pub sum_by : (A → ℤ) → List A → ℤ
  sum_by f [] = pos 0
  sum_by f (x ∷ xs) = f x +ℤ sum_by f xs

  -- COUNT(*)
  abbrev pub count : (A → Bool) → List A → ℕ
  count p [] = 0
  count p (x ∷ xs) = if p x then suc (count p xs) else count p xs

  -- ORDER BY: insertion sort; `before x y` says that `x` is not after `y`
  abbrev pub insert_row : (A → A → Bool) → A → List A → List A
  insert_row before x [] = x ∷ []
  insert_row before x (y ∷ ys) = if before x y then x ∷ y ∷ ys else y ∷ insert_row before x ys

  abbrev pub order_by : (A → A → Bool) → List A → List A
  order_by before [] = []
  order_by before (x ∷ xs) = insert_row before x (order_by before xs)

-- `id IN (…)`
abbrev pub elem : ℕ → List ℕ → Bool
elem a [] = false
elem a (x ∷ xs) = a == x || elem a xs

-- the distinct values, as in `set(xs)`
abbrev pub dedup : List ℕ → List ℕ
dedup [] = []
dedup (x ∷ xs) = let rest = dedup xs in if elem x rest then rest else x ∷ rest

-- SELECT key, SUM(amount) … GROUP BY key
module _ {ℓ} {K : Type ℓ} (same : K → K → Bool) where
  abbrev pub add_group : K → ℤ → List (K × ℤ) → List (K × ℤ)
  add_group k v [] = (k, v) ∷ []
  add_group k v ((j, w) ∷ g) = if same k j then (j, v +ℤ w) ∷ g else (j, w) ∷ add_group k v g

  abbrev pub group_sum {κ} : {A : Type κ} → (A → K) → (A → ℤ) → List A → List (K × ℤ)
  group_sum key amount [] = []
  group_sum key amount (x ∷ xs) = add_group (key x) (amount x) (group_sum key amount xs)

some_inj {ℓ} : {A : Type ℓ} {a b : A} → some a ≡ some b → a ≡ b
some_inj h = cc

pub first_hit {ℓ} :
    {A : Type ℓ} (b : Bool) (y : A) (rest : Option A) {x : A}
    → (if b then some y else rest) ≡ some x
    → ((b ≡ true) × (y ≡ x)) ⊎ ((b ≡ false) × (rest ≡ some x))
first_hit true y rest h = inl (refl, some_inj h)
first_hit false y rest h = inr (refl, h)

module _ {A : Type 0} where
  -- What holds of every row holds of the row found.
  pub find-All :
      (P : A → Type 0) (p : A → Bool) (xs : List A) (x : A) → All P xs → find p xs ≡ some x → P x
  find-All P p [] x h e = cc
  find-All P p (y ∷ xs) x h e = elim (first_hit (p y) y (find p xs) e) [
    | inl (hit, same) ↦ subst P same h.0
    | inr (miss, later) ↦ find-All P p xs x h.1 later
  ]

  -- The row found passes the test.
  pub find-passes : (p : A → Bool) (xs : List A) (x : A) → find p xs ≡ some x → p x ≡ true
  find-passes p [] x e = cc
  find-passes p (y ∷ xs) x e = elim (first_hit (p y) y (find p xs) e) [
    | inl (hit, same) ↦ subst (λ z. p z ≡ true) same hit
    | inr (miss, later) ↦ find-passes p xs x later
  ]

  pub All-update_where :
      (P : A → Type 0) (p : A → Bool) (f : A → A) (xs : List A)
      → ((x : A) → P x → P (f x))
      → All P xs
      → All P (update_where p f xs)
  All-update_where P p f [] k h = tt
  All-update_where P p f (x ∷ xs) k h = elim (Bool-cases (p x)) [
    | inl e ↦ rw e (k x h.0, All-update_where P p f xs k h.1)
    | inr e ↦ rw e (h.0, All-update_where P p f xs k h.1)
  ]

  pub All-append : (P : A → Type 0) (xs ys : List A) → All P xs → All P ys → All P (xs ++ ys)
  All-append P [] ys h k = k
  All-append P (x ∷ xs) ys h k = (h.0, All-append P xs ys h.1 k)

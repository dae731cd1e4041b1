-- ===== src/Base/Lists.antt =====
-- Lists measured by native numbers, under the library's names.
use Prim.Native.Nat.{ℕ, zero, suc, ◌<◌}
use mathlib.Core.Path.{◌≡◌, refl, ap}
use mathlib.Core.Logic.{◌⊎◌, inl, inr}
use native.Mathlib.Omega.{arith}
use household_back.Base.Tests.{ltb}
use mathlib.Core.List.{List, [], ◌∷◌, ◌++◌}
use mathlib.Core.Option.{Option, none, some}

module _ {ℓ} {A : Type ℓ} where
  abbrev pub length : List A → ℕ
  length [] = 0
  length (x ∷ xs) = suc (length xs)

  -- `xs[:n]`, SQL's LIMIT
  abbrev pub take : ℕ → List A → List A
  take zero xs = []
  take (suc n) [] = []
  take (suc n) (x ∷ xs) = x ∷ take n xs

  abbrev pub drop : ℕ → List A → List A
  drop zero xs = xs
  drop (suc n) [] = []
  drop (suc n) (x ∷ xs) = drop n xs

  -- `xs[-1]`, `none` on an empty list
  abbrev pub last? : List A → Option A
  last? [] = none
  last? (x ∷ []) = some x
  last? (x ∷ y ∷ xs) = last? (y ∷ xs)

module _ {ℓ} {A : Type ℓ} where
  pub take-append-drop : (n : ℕ) (xs : List A) → take n xs ++ drop n xs ≡ xs
  take-append-drop zero xs = refl
  take-append-drop (suc n) [] = refl
  take-append-drop (suc n) (x ∷ xs) = rw (take-append-drop n xs)

-- A property of every element.
abbrev pub All {ℓ κ} : {A : Type ℓ} → (A → Type κ) → List A → Type κ
All P [] = Unit
All P (x ∷ xs) = P x × All P xs

module _ {ℓ} {A : Type ℓ} where
  pub append_snoc : (i : List A) (c : A) (post : List A) → (i ++ c ∷ []) ++ post ≡ i ++ c ∷ post
  append_snoc [] c post = refl
  append_snoc (x ∷ i) c post = rw (append_snoc i c post)

  pub last?-snoc : (i : List A) (c : A) → last? (i ++ c ∷ []) ≡ some c
  last?-snoc [] c = refl
  last?-snoc (x ∷ []) c = refl
  last?-snoc (x ∷ y ∷ i) c = last?-snoc (y ∷ i) c

  -- Seen from its end, a list is empty or has a last element.
  pub snoc_cases : (xs : List A) → (xs ≡ []) ⊎ ((i : List A) × (c : A) × (xs ≡ i ++ c ∷ []))
  snoc_cases [] = inl refl
  snoc_cases (x ∷ xs) = elim (snoc_cases xs) [
    | inl e ↦ inr ([], x, ap (λ l. x ∷ l) e)
    | inr (i, c, e) ↦ inr (x ∷ i, c, ap (λ l. x ∷ l) e)
  ]

  pub take-take : (n : ℕ) (xs : List A) → take n (take (suc n) xs) ≡ take n xs
  take-take zero xs = refl
  take-take (suc n) [] = refl
  take-take (suc n) (x ∷ xs) = rw (take-take n xs)

  pub last?-append : (xs ys : List A) {c : A} → last? ys ≡ some c → last? (xs ++ ys) ≡ some c
  last?-append [] ys h = h
  last?-append (x ∷ []) [] h = cc
  last?-append (x ∷ []) (y ∷ ys) h = h
  last?-append (x ∷ z ∷ xs) ys h = last?-append (z ∷ xs) ys h

  -- A cut of more rows than the limit, at a limit of one or more, is not empty.
  pub last?-take :
      (n : ℕ) (xs : List A) → 0 < n → 0 < length xs → (c : A) × (last? (take n xs) ≡ some c)
  last?-take zero xs h k = absurd (omega arith)
  last?-take (suc n) [] h k = absurd (omega arith)
  last?-take (suc zero) (x ∷ xs) h k = (x, refl)
  last?-take (suc (suc n)) (x ∷ []) h k = (x, refl)
  last?-take (suc (suc n)) (x ∷ y ∷ xs) h k =
      last?-take (suc n) (y ∷ xs) (omega arith) (omega arith)

pub append_assoc_lem {ℓ} : {A : Type ℓ} (xs ys zs : List A) → (xs ++ ys) ++ zs ≡ xs ++ (ys ++ zs)
append_assoc_lem [] ys zs = refl
append_assoc_lem (x ∷ xs) ys zs = rw (append_assoc_lem xs ys zs)

-- One row more than the limit tells whether there are more.
pub ltb-length-take {ℓ} :
    {A : Type ℓ} (n : ℕ) (xs : List A) → ltb n (length (take (suc n) xs)) ≡ ltb n (length xs)
ltb-length-take zero [] = refl
ltb-length-take zero (x ∷ xs) = ground arith
ltb-length-take (suc n) [] = refl
ltb-length-take (suc n) (x ∷ xs) = ground (arith, ltb-length-take n xs)

-- ===== src/Snapshot/Scans.antt =====
-- Counts and tests over tables, for the proofs on snapshots.
use household_back.Base.{
  All, select, any, count, Bool-cases, ◌+◌, ◌≤◌, ◌≡◌, refl, inl, inr, Bool, true, false, ◌||◌, List,
  [], ◌∷◌, ◌++◌, arith,
}
use household_back.Core.{Date, date_eqb}
use household_back.Paging.{All-map}

module _ {A : Type 0} (p : A → Bool) where
  pub count-++ : (xs ys : List A) → count p (xs ++ ys) ≡ count p xs + count p ys
  count-++ [] ys = omega arith
  count-++ (x ∷ xs) ys = elim (Bool-cases (p x)) [
    | inl e ↦ rw e (omega (arith, count-++ xs ys))
    | inr e ↦ rw e (count-++ xs ys)
  ]

  pub count-select_le : (q : A → Bool) (xs : List A) → count p (select q xs) ≤ count p xs
  count-select_le q [] = omega arith
  count-select_le q (x ∷ xs) = ground (arith, count-select_le q xs)

  -- a DELETE of every row that passes
  pub count-select_none :
      (q : A → Bool) (xs : List A)
      → ((x : A) → p x ≡ true → q x ≡ false)
      → count p (select q xs) ≡ 0
  count-select_none q [] off = refl
  count-select_none q (x ∷ xs) off = elim (Bool-cases (q x)) [
    | inl e ↦ elim (Bool-cases (p x)) [
      | inl f ↦ cc (off x f)
      | inr f ↦ rw (e, f) (count-select_none q xs off)
    ]
    | inr e ↦ rw e (count-select_none q xs off)
  ]

  pub count-any :
      (q : A → Bool) (xs : List A)
      → ((x : A) → p x ≡ true → q x ≡ true)
      → any q xs ≡ false
      → count p xs ≡ 0
  count-any q [] on h = refl
  count-any q (x ∷ xs) on h = elim (Bool-cases (q x)) [
    | inl e ↦ cc (rw e at h)
    | inr e ↦ elim (Bool-cases (p x)) [
      | inl f ↦ cc (on x f)
      | inr f ↦ rw f (count-any q xs on (rw e at h))
    ]
  ]

pub or_later : (b c : Bool) → c ≡ true → (b || c) ≡ true
or_later b c h = ground arith

module _ {A : Type 0} where
  -- what a test implies holds of every row that a SELECT returns
  pub select-All :
      (P : A → Type 0) (q : A → Bool) (xs : List A)
      → All (λ x. q x ≡ true → P x) xs
      → All P (select q xs)
  select-All P q [] h = tt
  select-All P q (x ∷ xs) h = elim (Bool-cases (q x)) [
    | inl e ↦ rw e (h.0 e, select-All P q xs h.1)
    | inr e ↦ rw e (select-All P q xs h.1)
  ]

  -- every row is there to be found by its own test
  pub any_own :
      (g : A → A → Bool) (P : A → Type 0)
      → ((x : A) → P x → g x x ≡ true)
      → (xs : List A) → All (λ x. P x → any (g x) xs ≡ true) xs
  any_own g P self [] = tt
  any_own g P self (x ∷ xs) = (
    (λ px. rw (self x px) refl),
    All-map _ _ (λ y later py. or_later (g y x) (any (g y) xs) (later py)) xs (any_own g P self xs),
  )

pub date_eqb_trans :
    (a b c : Date) → date_eqb a b ≡ true → date_eqb c b ≡ true → date_eqb c a ≡ true
date_eqb_trans a b c h k = ground arith

-- ===== src/Paging.antt =====
-- Cursor paging, as every list endpoint does it: filter, sort, keep the rows after the cursor's row.
-- The sort order is a parameter; the page after a row is what follows that row in the whole list.
use mathlib.Core.Path.{subst}
use household_back.Base.{
  All, select, insert_row, order_by, ◌==◌, if◌then◌else◌, Bool-cases, ℕ, ◌≡◌, refl, sym, ap, ◌∙◌,
  inl, inr, Bool, true, false, not, ◌&&◌, ◌||◌, List, [], ◌∷◌, ◌++◌, arith,
}

module _ {A : Type 0} (id_of : A → ℕ) where
  -- Primary keys: no id is used twice.
  abbrev pub Distinct : List A → Type 0
  Distinct [] = Unit
  Distinct (x ∷ xs) = All (λ y. (id_of x == id_of y) ≡ false) xs × Distinct xs

module _ {A : Type 0} where
  pub All-select : (P : A → Type 0) (q : A → Bool) (xs : List A) → All P xs → All P (select q xs)
  All-select P q [] h = tt
  All-select P q (x ∷ xs) h = elim (Bool-cases (q x)) [
    | inl e ↦ rw e (h.0, All-select P q xs h.1)
    | inr e ↦ rw e (All-select P q xs h.1)
  ]

  pub All-map : (P Q : A → Type 0) → ((x : A) → P x → Q x) → (xs : List A) → All P xs → All Q xs
  All-map P Q f [] h = tt
  All-map P Q f (x ∷ xs) h = (f x h.0, All-map P Q f xs h.1)

  pub select-and :
      (p q : A → Bool) (xs : List A) → select (λ x. p x && q x) xs ≡ select q (select p xs)
  select-and p q [] = refl
  select-and p q (x ∷ xs) = elim (Bool-cases (p x)) [
    | inl e ↦ elim (Bool-cases (q x)) [
      | inl f ↦ rw (e, f) (ap (λ l. x ∷ l) (select-and p q xs))
      | inr f ↦ rw (e, f) (select-and p q xs)
    ]
    | inr e ↦ rw e (select-and p q xs)
  ]

  pub select_everything : (q : A → Bool) (xs : List A) → All (λ x. q x ≡ true) xs → select q xs ≡ xs
  select_everything q [] h = refl
  select_everything q (x ∷ xs) h = rw h.0 (ap (λ l. x ∷ l) (select_everything q xs h.1))

  pub All-insert_row :
      (P : A → Type 0) (before : A → A → Bool) (x : A) (ys : List A)
      → P x
      → All P ys
      → All P (insert_row before x ys)
  All-insert_row P before x [] p h = (p, tt)
  All-insert_row P before x (y ∷ ys) p h = elim (Bool-cases (before x y)) [
    | inl e ↦ rw e (p, h)
    | inr e ↦ rw e (h.0, All-insert_row P before x ys p h.1)
  ]

  pub All-order_by :
      (P : A → Type 0) (before : A → A → Bool) (xs : List A) → All P xs → All P (order_by before xs)
  All-order_by P before [] h = tt
  All-order_by P before (x ∷ xs) h =
      All-insert_row P before x (order_by before xs) h.0 (All-order_by P before xs h.1)

module _ {A : Type 0} (id_of : A → ℕ) where
  pub Distinct-select :
      (q : A → Bool) (xs : List A) → Distinct id_of xs → Distinct id_of (select q xs)
  Distinct-select q [] h = tt
  Distinct-select q (x ∷ xs) h = elim (Bool-cases (q x)) [
    | inl e ↦
        rw e (All-select (λ y. (id_of x == id_of y) ≡ false) q xs h.0, Distinct-select q xs h.1)
    | inr e ↦ rw e (Distinct-select q xs h.1)
  ]

  differ_sym : (x y : A) → (id_of x == id_of y) ≡ false → (id_of y == id_of x) ≡ false
  differ_sym x y h = ground arith

  Distinct-insert_row :
      (before : A → A → Bool) (x : A) (ys : List A)
      → All (λ y. (id_of x == id_of y) ≡ false) ys
      → Distinct id_of ys
      → Distinct id_of (insert_row before x ys)
  Distinct-insert_row before x [] p h = (tt, tt)
  Distinct-insert_row before x (y ∷ ys) p h = elim (Bool-cases (before x y)) [
    | inl e ↦ rw e (p, h)
    | inr e ↦ rw e (
      All-insert_row (λ z. (id_of y == id_of z) ≡ false) before x ys (differ_sym x y p.0) h.0,
      Distinct-insert_row before x ys p.1 h.1,
    )
  ]

  pub Distinct-order_by :
      (before : A → A → Bool) (xs : List A)
      → Distinct id_of xs
      → Distinct id_of (order_by before xs)
  Distinct-order_by before [] h = tt
  Distinct-order_by before (x ∷ xs) h =
      Distinct-insert_row before x (order_by before xs)
        (All-order_by (λ y. (id_of x == id_of y) ≡ false) before xs h.0)
        (Distinct-order_by before xs h.1)

-- `after x y`: `y` stands strictly after `x` in the order.
module _ {A : Type 0} (id_of : A → ℕ) (after : A → A → Bool)
    (asym : (x y : A) → after x y ≡ true → after y x ≡ false)
    (between : (x y z : A) → after x z ≡ true → (after x y || after y z) ≡ true)
    (total : (x y : A) → (id_of x == id_of y) ≡ false → (after x y || after y x) ≡ true) where
  abbrev before : A → A → Bool
  before x y = not (after y x)

  abbrev NotAfter : A → A → Type 0
  NotAfter x y = after y x ≡ false

  abbrev IsSorted : List A → Type 0
  IsSorted [] = Unit
  IsSorted (x ∷ xs) = All (NotAfter x) xs × IsSorted xs

  irrefl : (x : A) → after x x ≡ false
  irrefl x = elim (Bool-cases (after x x)) [ inl e ↦ asym x x e | inr e ↦ e ]

  or_false : (b c : Bool) → (b || c) ≡ true → b ≡ false → c ≡ true
  or_false b c h k = ground arith

  NotAfter-through : (x y z : A) → NotAfter x y → NotAfter y z → NotAfter x z
  NotAfter-through x y z p q = elim (Bool-cases (after z x)) [
    | inl e ↦ cc (or_false (after z y) (after y x) (between z y x e) q)
    | inr e ↦ e
  ]

  or_swap : (b c : Bool) → (b || c) ≡ true → c ≡ false → b ≡ true
  or_swap b c h k = ground arith

  flip_true : (b : Bool) → not b ≡ true → b ≡ false
  flip_true b h = ground arith

  flip_false : (b : Bool) → not b ≡ false → b ≡ true
  flip_false b h = ground arith

  insert_row-IsSorted : (x : A) (ys : List A) → IsSorted ys → IsSorted (insert_row before x ys)
  insert_row-IsSorted x [] h = (tt, tt)
  insert_row-IsSorted x (y ∷ ys) h = elim (Bool-cases (before x y)) [
    | inl e ↦ rw e (
        let first = flip_true (after y x) e in
        (
          (first, All-map (NotAfter y) (NotAfter x) (λ z p. NotAfter-through x y z first p) ys h.0),
          h,
        ))
    | inr e ↦ rw e (
      All-insert_row (NotAfter y) before x ys (asym y x (flip_false (after y x) e)) h.0,
      insert_row-IsSorted x ys h.1,
    )
  ]

  order_by-IsSorted : (xs : List A) → IsSorted (order_by before xs)
  order_by-IsSorted [] = tt
  order_by-IsSorted (x ∷ xs) = insert_row-IsSorted x (order_by before xs) (order_by-IsSorted xs)

  -- A row before all others is inserted in front.
  insert_row_front : (x : A) (ys : List A) → All (NotAfter x) ys → insert_row before x ys ≡ x ∷ ys
  insert_row_front x [] h = refl
  insert_row_front x (y ∷ ys) h = rw h.0

  select-insert_row :
      (q : A → Bool) (x : A) (ys : List A)
      → IsSorted ys
      → select q (insert_row before x ys)
        ≡ (if q x then insert_row before x (select q ys) else select q ys)
  select-insert_row q x [] h = elim (Bool-cases (q x)) [ inl e ↦ rw e | inr e ↦ rw e ]
  select-insert_row q x (y ∷ ys) h = elim (Bool-cases (before x y)) [
    | inl e ↦
        let first = flip_true (after y x) e in
        let all_first =
          All-map (NotAfter y) (NotAfter x) (λ z p. NotAfter-through x y z first p) ys h.0 in
        rw e (
          ap (λ l. if q x then l else select q (y ∷ ys))
            (sym (
              insert_row_front x (select q (y ∷ ys))
                (All-select (NotAfter x) q (y ∷ ys) (first, all_first)))))
    | inr e ↦ elim (Bool-cases (q x)) [
      | inl f ↦ elim (Bool-cases (q y)) [
        | inl g ↦ rw (e, f, g, e) (ap (λ l. y ∷ l) (select-insert_row q x ys h.1 ∙ rw f))
        | inr g ↦ rw (e, f, g) (select-insert_row q x ys h.1 ∙ rw f)
      ]
      | inr f ↦ elim (Bool-cases (q y)) [
        | inl g ↦ rw (e, f, g) (ap (λ l. y ∷ l) (select-insert_row q x ys h.1 ∙ rw f))
        | inr g ↦ rw (e, f, g) (select-insert_row q x ys h.1 ∙ rw f)
      ]
    ]
  ]

  select_step :
      (b : Bool) (x : A) (xs : List A) {ys : List A}
      → order_by before xs ≡ ys
      → order_by before (if b then x ∷ xs else xs) ≡ (if b then insert_row before x ys else ys)
  select_step true x xs e = ap (insert_row before x) e
  select_step false x xs e = e

  All-middle :
      (P : A → Type 0) (pre : List A) (c : A) (post : List A) → All P (pre ++ c ∷ post) → P c
  All-middle P [] c post h = h.0
  All-middle P (x ∷ pre) c post h = All-middle P pre c post h.1

  later_rows :
      (c : A) (post : List A)
      → All (NotAfter c) post
      → All (λ y. (id_of c == id_of y) ≡ false) post
      → All (λ y. after c y ≡ true) post
  later_rows c [] s d = tt
  later_rows c (y ∷ post) s d =
      (or_swap (after c y) (after y c) (total c y d.0) s.0, later_rows c post s.1 d.1)

  -- Filtering and sorting commute.
  select-order_by :
      (q : A → Bool) (xs : List A) → order_by before (select q xs) ≡ select q (order_by before xs)
  select-order_by q [] = refl
  select-order_by q (x ∷ xs) =
      select_step (q x) x (select q xs) (select-order_by q xs)
      ∙ sym (select-insert_row q x (order_by before xs) (order_by-IsSorted xs))

  -- What stands behind a row of a sorted list comes after it, and nothing else does.
  select-after :
      (pre : List A) (c : A) (post : List A)
      → IsSorted (pre ++ c ∷ post)
      → Distinct id_of (pre ++ c ∷ post)
      → select (after c) (pre ++ c ∷ post) ≡ post
  select-after [] c post s d =
      rw (irrefl c) (select_everything (after c) post (later_rows c post s.0 d.0))
  select-after (x ∷ pre) c post s d =
      rw (All-middle (NotAfter x) pre c post s.0) (select-after pre c post s.1 d.1)

  -- Sorting and cutting at a cursor: the rows after the row `c` are the rest of the whole list.
  pub order_by-after :
      (p : A → Bool) (rows pre : List A) (c : A) (post : List A)
      → Distinct id_of rows
      → order_by before (select p rows) ≡ pre ++ c ∷ post
      → order_by before (select (λ x. p x && after c x) rows) ≡ post
  order_by-after p rows pre c post d e =
      ap (order_by before) (select-and p (after c) rows)
      ∙ select-order_by (after c) (select p rows)
      ∙ ap (select (after c)) e
      ∙ select-after pre c post (subst IsSorted e (order_by-IsSorted (select p rows))) (
          subst (Distinct id_of) e
            (Distinct-order_by id_of before (select p rows) (Distinct-select id_of p rows d)))

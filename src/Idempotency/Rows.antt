-- ===== src/Idempotency/Rows.antt =====
-- core/idempotency/repository.py: the rows of one user and key, under each statement.
use text.Mathlib.TextEquality.{eq_iff}
use household_back.Base.{
  All, select, find, any, update_where, first_hit, leb, if◌then◌else◌, Bool-cases, ℕ, String, ◌≡◌,
  refl, sym, ap, ◌∙◌, ◌↔◌, inl, inr, Bool, true, false, ◌&&◌, ◌||◌, Option, none, some, List, [],
  ◌∷◌, ◌++◌, arith,
}
use household_back.Idempotency.Store.{
  IdempotencyRecord, KeyedRequest, completed, is_completed, is_row, mark_completed, release,
}
use household_back.Idempotency.Middleware.{HttpResponse, settle}

module _ {A : Type 0} (p : A → Bool) where
  pub find-none_of_any : (xs : List A) → any p xs ≡ false → find p xs ≡ none
  find-none_of_any [] h = refl
  find-none_of_any (x ∷ xs) h = elim (Bool-cases (p x)) [
    | inl e ↦ cc
    | inr e ↦ rw e (find-none_of_any xs (rw e at h))
  ]

  pub any-of_find : (xs : List A) (x : A) → find p xs ≡ some x → any p xs ≡ true
  any-of_find [] x h = cc
  any-of_find (y ∷ xs) x h = elim (first_hit (p y) y (find p xs) h) [
    | inl (hit, same) ↦ rw hit
    | inr (miss, later) ↦ rw miss (any-of_find xs x later)
  ]

  pub find-append : (xs ys : List A) (x : A) → find p xs ≡ some x → find p (xs ++ ys) ≡ some x
  find-append [] ys x h = cc
  find-append (y ∷ xs) ys x h = elim (first_hit (p y) y (find p xs) h) [
    | inl (hit, same) ↦ rw hit (ap some same)
    | inr (miss, later) ↦ rw miss (find-append xs ys x later)
  ]

  pub find-append_miss : (xs ys : List A) → any p xs ≡ false → find p (xs ++ ys) ≡ find p ys
  find-append_miss [] ys h = refl
  find-append_miss (y ∷ xs) ys h = elim (Bool-cases (p y)) [
    | inl e ↦ cc
    | inr e ↦ rw e (find-append_miss xs ys (rw e at h))
  ]

  pub any-append : (xs : List A) (y : A) → any p (xs ++ y ∷ []) ≡ (any p xs || p y)
  any-append [] y = by_test (p y)
    where
      by_test : (b : Bool) → (b || false) ≡ (false || b)
      by_test true = refl
      by_test false = refl
  any-append (x ∷ xs) y = elim (Bool-cases (p x)) [ inl e ↦ rw e | inr e ↦ rw e (any-append xs y) ]

  -- A row that a DELETE spares is still found.
  pub find-select :
      (q : A → Bool) (xs : List A) (x : A)
      → find p xs ≡ some x
      → q x ≡ true
      → find p (select q xs) ≡ some x
  find-select q [] x h k = cc
  find-select q (y ∷ xs) x h k = elim (first_hit (p y) y (find p xs) h) [
    | inl (hit, same) ↦ rw (ap q same ∙ k, hit) (ap some same)
    | inr (miss, later) ↦ elim (Bool-cases (q y)) [
      | inl e ↦ rw (e, miss) (find-select q xs x later k)
      | inr e ↦ rw e (find-select q xs x later k)
    ]
  ]

  pub any-select : (q : A → Bool) (xs : List A) → any p xs ≡ false → any p (select q xs) ≡ false
  any-select q [] h = refl
  any-select q (x ∷ xs) h = elim (Bool-cases (p x)) [
    | inl e ↦ cc
    | inr e ↦ elim (Bool-cases (q x)) [
      | inl k ↦ rw (k, e) (any-select q xs (rw e at h))
      | inr k ↦ rw k (any-select q xs (rw e at h))
    ]
  ]

  pub All-select : (P : A → Type 0) (q : A → Bool) (xs : List A) → All P xs → All P (select q xs)
  All-select P q [] h = tt
  All-select P q (x ∷ xs) h = elim (Bool-cases (q x)) [
    | inl e ↦ rw e (h.0, All-select P q xs h.1)
    | inr e ↦ rw e (All-select P q xs h.1)
  ]

  -- An UPDATE of no row.
  pub update_where_none :
      (f : A → A) (xs : List A) (y : A)
      → any p xs ≡ false
      → p y ≡ true
      → update_where p f (xs ++ y ∷ []) ≡ xs ++ f y ∷ []
  update_where_none f [] y h k = rw k
  update_where_none f (x ∷ xs) y h k = elim (Bool-cases (p x)) [
    | inl e ↦ cc
    | inr e ↦ rw e (ap (λ r. x ∷ r) (update_where_none f xs y (rw e at h) k))
  ]

abbrev pub IsCompleted : IdempotencyRecord → Type 0
IsCompleted r = is_completed r.status ≡ true

-- `release` takes away the pending row alone.
pub release-append :
    (user_id : ℕ) (key : String) (rows : List IdempotencyRecord) (row : IdempotencyRecord)
    → All IsCompleted rows
    → is_row user_id key row ≡ true
    → is_completed row.status ≡ false
    → release user_id key (rows ++ row ∷ []) ≡ rows
unfolding release
release-append user_id key [] row h same open_row = rw (same, open_row)
release-append user_id key (r ∷ rows) row h same open_row =
    rw (h.0, drop_false (is_row user_id key r))
      (ap (λ l. r ∷ l) (release-append user_id key rows row h.1 same open_row))
  where
    drop_false : (b : Bool) → (b && false) ≡ false
    drop_false true = refl
    drop_false false = refl

-- the row that a success leaves
abbrev pub done_row : IdempotencyRecord → HttpResponse → ℕ → IdempotencyRecord
done_row row response now = record row {
  status = completed;
  status_code = some response.status_code;
  response_headers = some response.headers;
  response_body = some response.body;
  completed_at = some now;
}

abbrev pub after_run :
    List IdempotencyRecord → IdempotencyRecord → Option HttpResponse → ℕ → List IdempotencyRecord
after_run rows row none now = rows
after_run rows row (some response) now =
    if leb 500 response.status_code then rows else rows ++ done_row row response now ∷ []

-- What the commit leaves: the completed row after a success, and nothing after a failure.
pub settle-append :
    (req : KeyedRequest) (response : Option HttpResponse) (now : ℕ) (rows : List IdempotencyRecord)
    (row : IdempotencyRecord)
    → All IsCompleted rows
    → any (is_row req.user_id req.key) rows ≡ false
    → is_row req.user_id req.key row ≡ true
    → is_completed row.status ≡ false
    → settle req response now (rows ++ row ∷ []) ≡ after_run rows row response now
unfolding settle mark_completed
settle-append req none now rows row h free same open_row =
    release-append req.user_id req.key rows row h same open_row
settle-append req (some response) now rows row h free same open_row =
    elim (Bool-cases (leb 500 response.status_code)) [
      | inl e ↦ rw e (release-append req.user_id req.key rows row h same open_row)
      | inr e ↦ rw e (update_where_none (is_row req.user_id req.key) _ rows row free same)
    ]

pub is_row_iff :
    (user_id : ℕ) (key : String) (r : IdempotencyRecord)
    → (is_row user_id key r ≡ true) ↔ ((r.user_id ≡ user_id) × (r.key ≡ key))
is_row_iff user_id key r = ground (arith, eq_iff r.key key)

abbrev pub same_key : IdempotencyRecord → IdempotencyRecord → Bool
same_key a b = is_row a.user_id a.key b

-- Two rows of one user and key: a test that holds of one holds of the other.
pub is_row_trans :
    (user_id user_id' : ℕ) (key key' : String) (r : IdempotencyRecord)
    → is_row user_id key r ≡ true
    → is_row user_id' key' r ≡ true
    → (user_id ≡ user_id') × (key ≡ key')
is_row_trans user_id user_id' key key' r h k =
    let (a, b) = (is_row_iff user_id key r).0 h in
    let (a', b') = (is_row_iff user_id' key' r).0 k in (sym a ∙ a', sym b ∙ b')

same_key_sym : (a b : IdempotencyRecord) → same_key a b ≡ false → same_key b a ≡ false
same_key_sym a b h = elim (Bool-cases (same_key b a)) [
  | inl e ↦
      let (p, q) = (is_row_iff b.user_id b.key a).0 e in
      absurd (different ((is_row_iff a.user_id a.key b).1 (sym p, sym q)))
  | inr e ↦ e
]
  where
    different : same_key a b ≡ true → ⊥
    different e = cc

-- one row to a user and key
abbrev pub Unique : List IdempotencyRecord → Type 0
Unique [] = Unit
Unique (r ∷ rows) = (any (same_key r) rows ≡ false) × Unique rows

pub Unique-select :
    (q : IdempotencyRecord → Bool) (rows : List IdempotencyRecord)
    → Unique rows
    → Unique (select q rows)
Unique-select q [] h = tt
Unique-select q (r ∷ rows) h = elim (Bool-cases (q r)) [
  | inl e ↦ rw e (any-select (same_key r) q rows h.0, Unique-select q rows h.1)
  | inr e ↦ rw e (Unique-select q rows h.1)
]

pub Unique-append :
    (rows : List IdempotencyRecord) (row : IdempotencyRecord)
    → Unique rows
    → any (same_key row) rows ≡ false
    → Unique (rows ++ row ∷ [])
Unique-append [] row h k = (refl, tt)
Unique-append (r ∷ rows) row h k =
    let (apart, rest) = split_or (same_key row r) (any (same_key row) rows) k in
    (
      any-append (same_key r) rows row ∙ both h.0 (same_key_sym row r apart),
      Unique-append rows row h.1 rest,
    )
  where
    split_or : (a b : Bool) → (a || b) ≡ false → (a ≡ false) × (b ≡ false)
    split_or a b e = ground arith

    both : {a b : Bool} → a ≡ false → b ≡ false → (a || b) ≡ false
    both e e' = rw (e, e')

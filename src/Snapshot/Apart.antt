-- ===== src/Snapshot/Apart.antt =====
-- app/domain/account_snapshot/service.py: the snapshots of a month that is not the one being made.
use household_back.Base.{
  All, select, any, ◌==◌, ==_iff, Bool-cases, ℕ, String, ◌≡◌, refl, ap, ◌∙◌, inl, inr, Bool, true,
  false, not, ◌&&◌, ◌||◌, List, [], ◌∷◌, ◌++◌, map, arith,
}
use household_back.Core.{Date, date_eqb}
use household_back.Model.{Account, AccountSnapshot, Db}
use household_back.Paging.{Distinct, All-map}
use household_back.Snapshot.Histories.{Fresh, belongs, delete_snapshots}
use household_back.Snapshot.Service.{stored_row, delete_if, save_all, snapshot_row}

-- the snapshots of a household for a month
abbrev pub is_row_of : ℕ → Date → List Account → AccountSnapshot → Bool
is_row_of household_id month accounts s =
    date_eqb s.snapshot_date month && belongs household_id s.account_id accounts

abbrev pub rows_of : ℕ → Date → Db → List AccountSnapshot
rows_of household_id month db =
    select (is_row_of household_id month db.accounts) db.account_snapshots

-- An account belongs to one household.
missed_accounts :
    (household_id account_id : ℕ) (accounts : List Account)
    → All (λ (a : Account). (account_id == a.id) ≡ false) accounts
    → belongs household_id account_id accounts ≡ false
missed_accounts household_id account_id [] h = refl
missed_accounts household_id account_id (a ∷ accounts) h =
    rw (h.0) (missed_accounts household_id account_id accounts h.1)

same_apart : (a b c : ℕ) → (a == b) ≡ true → (b == c) ≡ false → (a == c) ≡ false
same_apart a b c h k = ground arith

owner_apart :
    (owner here there : ℕ)
    → ((true && owner == here) || false) ≡ true
    → (here == there) ≡ false
    → ((true && owner == there) || false) ≡ false
owner_apart owner here there h k = ground arith

one_household :
    (here there account_id : ℕ) (accounts : List Account)
    → (here == there) ≡ false
    → Distinct (λ (a : Account). a.id) accounts
    → belongs here account_id accounts ≡ true
    → belongs there account_id accounts ≡ false
one_household here there account_id [] apart d h = cc
one_household here there account_id (a ∷ accounts) apart d h =
    elim (Bool-cases (account_id == a.id)) [
      | inl e ↦
          let only : (household_id : ℕ) → belongs household_id account_id accounts ≡ false =
            λ household_id.
              missed_accounts household_id account_id accounts (
                All-map _ _ (λ b differs. same_apart account_id a.id b.id e differs) accounts
                  d.0) in
          rw (e, only there) (owner_apart a.household_id here there (rw (e, only here) at h) apart)
      | inr e ↦ rw e (one_household here there account_id accounts apart d.1 (rw e at h))
    ]

select-++ :
    {A : Type 0} (p : A → Bool) (xs ys : List A)
    → All (λ y. p y ≡ false) ys
    → select p (xs ++ ys) ≡ select p xs
select-++ p [] [] h = refl
select-++ p [] (y ∷ ys) h = rw h.0 (select-++ p [] ys h.1)
select-++ p (x ∷ xs) ys h = elim (Bool-cases (p x)) [
  | inl e ↦ rw e (ap (λ l. x ∷ l) (select-++ p xs ys h))
  | inr e ↦ rw e (select-++ p xs ys h)
]

select-select :
    {A : Type 0} (p q : A → Bool) (xs : List A)
    → ((x : A) → p x ≡ true → q x ≡ true)
    → select p (select q xs) ≡ select p xs
select-select p q [] h = refl
select-select p q (x ∷ xs) h = elim (Bool-cases (q x)) [
  | inl e ↦ elim (Bool-cases (p x)) [
    | inl f ↦ rw (e, f) (ap (λ l. x ∷ l) (select-select p q xs h))
    | inr f ↦ rw (e, f) (select-select p q xs h)
  ]
  | inr e ↦ elim (Bool-cases (p x)) [
    | inl f ↦ cc (h x f)
    | inr f ↦ rw (e, f) (select-select p q xs h)
  ]
]

pub any-select :
    {A : Type 0} (p q r : A → Bool) (xs : List A)
    → any (λ x. p x && (q x && r x)) xs ≡ any q (select (λ x. p x && r x) xs)
any-select p q r [] = refl
any-select p q r (x ∷ xs) = ground (arith, any-select p q r xs)

dates_apart : (a b c : Date) → date_eqb a b ≡ true → date_eqb c b ≡ false → date_eqb a c ≡ false
dates_apart a b c h k = ground arith

pub date_eqb-eq : (a b : Date) → date_eqb a b ≡ true → a ≡ b
date_eqb-eq a b h =
    let y : a.year ≡ b.year = (==_iff a.year b.year).0 (parts h).0 in
    let m : a.month ≡ b.month = (==_iff a.month b.month).0 (parts h).1.0 in
    let d : a.day ≡ b.day = (==_iff a.day b.day).0 (parts h).1.1 in
    λ i. record { year = y i; month = m i; day = d i }
  where
    split : (x y z : Bool) → (x && (y && z)) ≡ true → (x ≡ true) × ((y ≡ true) × (z ≡ true))
    split true true true h = (refl, (refl, refl))
    split true true false h = cc
    split true false z h = cc
    split false y z h = cc

    parts :
        date_eqb a b ≡ true
        → ((a.year == b.year) ≡ true) × (((a.month == b.month) ≡ true) × ((a.day == b.day) ≡ true))
    parts = split (a.year == b.year) (a.month == b.month) (a.day == b.day)

-- A row of another household or of another month.
other_row :
    (here there account_id : ℕ) (made month : Date) (accounts : List Account)
    → Distinct (λ (a : Account). a.id) accounts
    → (here == there && date_eqb made month) ≡ false
    → belongs here account_id accounts ≡ true
    → (date_eqb made month && belongs there account_id accounts) ≡ false
other_row here there account_id made month accounts d apart h = elim (Bool-cases (here == there)) [
  | inl e ↦ rw (rw e at apart) refl
  | inr e ↦ rw (one_household here there account_id accounts e d h) (and_false _)
]
  where
    and_false : (b : Bool) → (b && false) ≡ false
    and_false b = ground arith

both_dates : (x y b : Bool) → (x && b) ≡ true → (y && b) ≡ false → (x ≡ true) × (y ≡ false)
both_dates true true true h k = cc
both_dates true false true h k = (refl, refl)
both_dates true y false h k = cc
both_dates false y b h k = cc

-- One DELETE and INSERT leave the rows of other households and other months.
abbrev pub IsKept : ℕ → Date → Db → Db → Type 0
IsKept household_id month db db' =
    (db'.accounts ≡ db.accounts) × (rows_of household_id month db' ≡ rows_of household_id month db)

pub IsKept-trans :
    (household_id : ℕ) (month : Date) (a b c : Db)
    → IsKept household_id month a b
    → IsKept household_id month b c
    → IsKept household_id month a c
IsKept-trans household_id month a b c h k = (k.0 ∙ h.0, k.1 ∙ h.1)

module _ (household_id : ℕ) (month : Date) (maker : ℕ) (made : Date) (db : Db)
    (d : Distinct (λ (a : Account). a.id) db.accounts)
    (apart : (maker == household_id && date_eqb made month) ≡ false) where
  pub delete_if-IsKept :
      (replace : Bool) → IsKept household_id month db (delete_if replace maker made db)
  unfolding delete_snapshots
  delete_if-IsKept true = (refl, select-select _ _ db.account_snapshots stays)
    where
      stays :
          (s : AccountSnapshot)
          → is_row_of household_id month db.accounts s ≡ true
          → not (belongs maker s.account_id db.accounts && date_eqb s.snapshot_date made) ≡ true
      stays s h = elim (Bool-cases (belongs maker s.account_id db.accounts)) [
        | inl e ↦
            let p =
              both_dates (date_eqb s.snapshot_date month) (date_eqb made month) _ h
                (other_row maker household_id s.account_id made month db.accounts d apart e) in
            rw (dates_apart s.snapshot_date month made p.0 p.1, e) refl
        | inr e ↦ rw e refl
      ]
  delete_if-IsKept false = (refl, refl)

  pub save_all-IsKept :
      (le : String → String → Bool) (fresh : Fresh) (from : Db) (accounts : List Account)
      → All (λ (a : Account). belongs maker a.id db.accounts ≡ true) accounts
      → IsKept household_id month db (save_all fresh (map (snapshot_row le made from) accounts) db)
  unfolding snapshot_row
  save_all-IsKept le fresh from accounts h =
      (refl, select-++ _ db.account_snapshots _ (new_rows accounts h))
    where
      new_rows :
          (accounts : List Account)
          → All (λ (a : Account). belongs maker a.id db.accounts ≡ true) accounts
          → All
              (λ s. is_row_of household_id month db.accounts s ≡ false)
              (map (stored_row fresh) (map (snapshot_row le made from) accounts))
      new_rows [] h = tt
      new_rows (a ∷ accounts) h = (
        other_row maker household_id a.id made month db.accounts d apart h.0,
        new_rows accounts h.1,
      )

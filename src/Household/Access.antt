-- ===== src/Household/Access.antt =====
-- household/service.py and household/deps.py: who gets in after a creation, and who does not after a removal.
use mathlib.Core.Path.{subst}
use household_back.Base.{
  All, find, any, update_where, count, first_hit, find-passes, ◌==◌, if◌then◌else◌, ==_iff,
  Bool-cases, ℕ, suc, ◌≤◌, String, ◌≡◌, refl, sym, ap, ◌∙◌, inl, inr, Bool, true, false, ◌&&◌, ◌||◌,
  Option, none, some, List, [], ◌∷◌, ◌++◌, arith,
}
use household_back.Core.{
  Date, household_not_member, household_not_found, household_owner_cannot_leave, err, ok, raise_if,
  ◌>>=◌, >>=-eq-ok, >>-eq-ok, ok-injective,
}
use household_back.Model.{Household, HouseholdMember, deleted, is_active, Db}
use household_back.Idempotency.Rows.{find-append_miss}
use household_back.Paging.{All-map}
use household_back.Keys.{same_row}
use household_back.Household.Repository.{
  find_household, is_membership, find_membership, find_member,
}
use household_back.Household.Schema.{HouseholdCreateRequest, HouseholdResponse, household_response}
use household_back.Household.Service.{
  member_here, household_there, member_there, detail_of, require_owner, owner_row, new_household,
  create_household, member_here, dropped_member, remove_household_member, get_household_detail,
  household_there, member_there, get_current_household,
}
use household_back.Household.Rules.{IsManaged, post_household, member_key, IsFresh}
use household_back.Household.Steps.{dead_membership}
use household_back.Household.Runs.{member_here-eq-ok}

split_and : (a b : Bool) → (a && b) ≡ true → (a ≡ true) × (b ≡ true)
split_and a b h = ground arith

some_counts :
    (p hit : HouseholdMember → Bool) (l : List HouseholdMember)
    → any (λ x. hit x && p x) l ≡ true
    → 1 ≤ count p l
some_counts p hit [] h = cc
some_counts p hit (m ∷ l) h = ground (arith, some_counts p hit l)

-- A user's only active row in a household is deleted: none is left.
module _ (p hit : HouseholdMember → Bool) (gone : HouseholdMember) (off : p gone ≡ false) where
  none_left :
      (ms : List HouseholdMember) → count p ms ≡ 0 → find p (update_where hit (λ _. gone) ms) ≡ none
  none_left [] h = refl
  none_left (m ∷ ms) h = elim (Bool-cases (p m)) [
    | inl e ↦ absurd (nonzero (rw e at h))
    | inr e ↦ rw (head e (hit m)) (none_left ms (rw e at h))
  ]
    where
      nonzero : {n : ℕ} → suc n ≡ 0 → ⊥
      nonzero k = omega arith

      head : p m ≡ false → (b : Bool) → p (if b then gone else m) ≡ false
      head e true = off
      head e false = e

  only_row_gone :
      (ms : List HouseholdMember)
      → count p ms ≤ 1
      → any (λ m. hit m && p m) ms ≡ true
      → find p (update_where hit (λ _. gone) ms) ≡ none
  only_row_gone [] few h = cc
  only_row_gone (m ∷ ms) few h = elim (Bool-cases (p m)) [
    | inl e ↦ elim (Bool-cases (hit m)) [
      | inl k ↦ rw (k, off) (none_left ms (at_most (rw e at few)))
      | inr k ↦ absurd (too_many (count p ms) (rw e at few) (counted ms (rw (k) at h)))
    ]
    | inr e ↦ rw (head e (hit m)) (only_row_gone ms (rw e at few) (rest_of (hit m) (rw e at h)))
  ]
    where
      at_most : {n : ℕ} → suc n ≤ 1 → n ≡ 0
      at_most k = omega arith

      too_many : (n : ℕ) → suc n ≤ 1 → 1 ≤ n → ⊥
      too_many n k l = omega arith

      counted : (l : List HouseholdMember) → any (λ x. hit x && p x) l ≡ true → 1 ≤ count p l
      counted l k = some_counts p hit l k

      head : p m ≡ false → (b : Bool) → p (if b then gone else m) ≡ false
      head e true = off
      head e false = e

      rest_of : (b : Bool) {c : Bool} → ((b && false) || c) ≡ true → c ≡ true
      rest_of true k = k
      rest_of false k = k

module _ {A : Type 0} where
  any_found :
      (r q : A → Bool) (xs : List A) (x : A) → find r xs ≡ some x → q x ≡ true → any q xs ≡ true
  any_found r q [] x h k = cc
  any_found r q (y ∷ xs) x h k = elim (first_hit (r y) y (find r xs) h) [
    | inl (_, same) ↦ rw (ap q same ∙ k) refl
    | inr (_, later) ↦ or_true (q y) (any_found r q xs x later k)
  ]
    where
      or_true : (b : Bool) {c : Bool} → c ≡ true → (b || c) ≡ true
      or_true true e = refl
      or_true false e = e

  find-update_miss :
      (p q : A → Bool) (y : A) (xs : List A)
      → p y ≡ false
      → All (λ x. q x ≡ true → p x ≡ false) xs
      → find p (update_where q (λ _. y) xs) ≡ find p xs
  find-update_miss p q y [] off h = refl
  find-update_miss p q y (x ∷ xs) off h = elim (Bool-cases (q x)) [
    | inl e ↦ rw (e, off, h.0 e) (find-update_miss p q y xs off h.1)
    | inr e ↦ rw e (ap (λ o. if p x then some x else o) (find-update_miss p q y xs off h.1))
  ]

  any_off : (p : A → Bool) (xs : List A) → All (λ x. p x ≡ false) xs → any p xs ≡ false
  any_off p [] h = refl
  any_off p (x ∷ xs) h = rw h.0 (any_off p xs h.1)

entry-eq :
    (user_id household_id : ℕ) (db d : Db) (o : Option HouseholdMember)
    → find (is_membership household_id user_id) d.household_members ≡ o
    → d.households ≡ db.households
    → get_current_household user_id household_id d
      ≡ (member_there o >>= λ _. household_there (find_household household_id db))
unfolding get_current_household find_membership find_household
entry-eq user_id household_id db d o e same =
    ap (λ x. member_there x >>= λ _. household_there (find_household household_id d)) e
    ∙ ap
        (λ hs. member_there o >>= λ _.
          household_there
            (find (λ (h : Household). h.id == household_id && is_active h.data_stat_cd) hs))
        same

-- In a managed database, after the removal of a member row its user no longer enters the household,
-- and every other user enters or is refused as before.
pub remove_household_member-get_current_household :
    (household_id member_id owner_id : ℕ) (db : Db) (m : HouseholdMember) (result : Unit {0} × Db)
    → IsManaged db
    → find_member member_id db ≡ some m
    → remove_household_member household_id member_id owner_id db ≡ ok result
    → (get_current_household m.user_id household_id result.1 ≡ err household_not_member)
      × ((user_id : ℕ)
          → (m.user_id == user_id) ≡ false
          → get_current_household user_id household_id result.1
            ≡ get_current_household user_id household_id db)
unfolding find_member remove_household_member
remove_household_member-get_current_household household_id member_id owner_id db m result v found
      e =
    let (row, owned, rest) = >>=-eq-ok (require_owner household_id owner_id db) _ e in
    let (m', here, rest') =
      >>=-eq-ok (member_here household_id (find_member member_id db)) _ rest in
    let (free, done) =
      >>-eq-ok (raise_if (m'.user_id == row.owner_id) household_owner_cannot_leave) _ rest' in
    let (found', in_household) = member_here-eq-ok household_id member_id db m' here in
    let same_m : m' ≡ m = some_inj (sym found' ∙ found) in
    let made : dropped_member m db ≡ result.1 =
      ap (λ x. dropped_member x db) (sym same_m)
      ∙ ap (λ (p : Unit {0} × Db). p.1) (ok-injective done) in
    let m_here : m.household_id ≡ household_id =
      ap (λ (x : HouseholdMember). x.household_id) (sym same_m) ∙ in_household in
    let live = (split_and (m.id == member_id) _ (find-passes _ db.household_members m found)).1 in
    let unique = same_row member_key _ db.household_members m v.member_keys found in
    (
      subst (λ d. get_current_household m.user_id household_id d ≡ err household_not_member) made
          (entry-eq m.user_id household_id db (dropped_member m db) none
            (unfold dropped_member in
              only_row_gone (is_membership household_id m.user_id) (λ x. x.id == m.id)
                (record m { data_stat_cd = deleted })
                (dead_membership household_id m.user_id (record m { data_stat_cd = deleted }) refl)
                db.household_members (v.single household_id m.user_id)
                (any_found _ (λ x. x.id == m.id && is_membership household_id m.user_id x)
                  db.household_members m found (itself m.id m.household_id m.user_id m_here live)))
            (unfold dropped_member in refl)),
      λ user_id apart.
          subst
            (λ d.
              get_current_household user_id household_id d
              ≡ get_current_household user_id household_id db)
            made
            (entry-eq user_id household_id db (dropped_member m db)
                (find (is_membership household_id user_id) db.household_members)
                (unfold dropped_member in
                  find-update_miss (is_membership household_id user_id) (λ x. x.id == m.id)
                    (record m { data_stat_cd = deleted }) db.household_members
                    (dead_membership household_id user_id (record m { data_stat_cd = deleted })
                      refl)
                    (All-map (λ (x : HouseholdMember). (x.id == m.id) ≡ true → x ≡ m) _
                      (λ x same k.
                        ap (is_membership household_id user_id) (same k)
                        ∙ missed (m.household_id == household_id) (is_active m.data_stat_cd) apart)
                      db.household_members unique))
                (unfold dropped_member in refl)
              ∙ sym (
                  entry-eq user_id household_id db db
                    (find (is_membership household_id user_id) db.household_members) refl refl)),
    )
  where
    some_inj : {a b : HouseholdMember} → some a ≡ some b → a ≡ b
    some_inj h = cc

    itself :
        (a b c : ℕ)
        → b ≡ household_id
        → is_active m.data_stat_cd ≡ true
        → (a == a && (b == household_id && (c == c && is_active m.data_stat_cd))) ≡ true
    itself a b c h k = rw ((==_iff a a).1 refl, (==_iff b household_id).1 h, (==_iff c c).1 refl) k

    missed : (a b : Bool) {c : Bool} → c ≡ false → (a && (c && b)) ≡ false
    missed true b h = rw h refl
    missed false b h = refl

-- If the creation of a household under fresh ids succeeds, its detail answers its creator what the
-- creation answered, and NOT_FOUND to every other user.
pub create_household-get_household_detail :
    (upper : String → String) (id member_id now : ℕ) (today : Date) (req : HouseholdCreateRequest)
    (user_id : ℕ) (db : Db) (result : HouseholdResponse × Db)
    → IsFresh (post_household id member_id now today req user_id) db
    → create_household upper id member_id now today req user_id db ≡ ok result
    → (get_household_detail id user_id result.1 ≡ ok result.0)
      × ((reader : ℕ)
          → (user_id == reader) ≡ false
          → get_household_detail id reader result.1 ≡ err household_not_found)
unfolding create_household get_household_detail find_household find_membership new_household
    owner_row household_response
create_household-get_household_detail upper id member_id now today req user_id db result fresh e =
    let made = ok-injective e in
    let h = new_household upper id now today req user_id in
    let m = owner_row member_id now id user_id in
    let found : find (λ (x : Household). x.id == id && is_active x.data_stat_cd)
          (db.households ++ h ∷ [])
        ≡ some h =
      find-append_miss _ db.households (h ∷ []) (
        any_off _ db.households (
          All-map (λ (x : Household). (x.id == id) ≡ false) _ (λ x k. rw k refl) db.households
            fresh.0))
      ∙ rw ((==_iff id id).1 refl) refl in
    let nobody = λ (u : ℕ). any_off (is_membership id u) db.household_members (
      All-map
        (λ (x : HouseholdMember). ((x.id == member_id) ≡ false) × ((x.household_id == id) ≡ false))
        _ (λ x k. rw k.1 refl) db.household_members fresh.1) in
    let found_own : find (is_membership id user_id) (db.household_members ++ m ∷ []) ≡ some m =
      find-append_miss (is_membership id user_id) db.household_members (m ∷ []) (nobody user_id)
      ∙ rw ((==_iff id id).1 refl, (==_iff user_id user_id).1 refl) refl in
    (
      subst (λ (p : HouseholdResponse × Db). get_household_detail id user_id p.1 ≡ ok p.0) made
          (ap
              (λ o.
                detail_of user_id o
                  (find (is_membership id user_id) (db.household_members ++ m ∷ [])))
              found
            ∙ ap (detail_of user_id (some h)) found_own
            ∙ rw ((==_iff user_id user_id).1 refl) refl),
      λ reader apart.
          let found_none : find (is_membership id reader) (db.household_members ++ m ∷ []) ≡ none =
            find-append_miss (is_membership id reader) db.household_members (m ∷ []) (nobody reader)
            ∙ rw ((==_iff id id).1 refl, apart) refl in
          subst
            (λ (p : HouseholdResponse × Db).
              get_household_detail id reader p.1 ≡ err household_not_found)
            made
            (ap
                (λ o.
                  detail_of reader o
                    (find (is_membership id reader) (db.household_members ++ m ∷ [])))
                found
              ∙ ap (detail_of reader (some h)) found_none),
    )

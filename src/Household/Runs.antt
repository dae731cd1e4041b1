-- ===== src/Household/Runs.antt =====
-- household/service.py: any run of requests keeps the rules.
use mathlib.Core.Path.{subst}
use household_back.Base.{
  All, find, All-append, ◌==◌, if◌then◌else◌, ==_iff, is_some, ℕ, String, ◌≡◌, refl, sym, ap, ◌∙◌,
  Bool, true, false, not, Option, none, some, List, [], ◌∷◌, ◌++◌,
}
use household_back.Core.{
  household_member_already, household_member_not_found, household_owner_cannot_leave, Result, err,
  ok, raise_if, >>=-eq-ok, >>-eq-ok, raise_if-eq-ok, ok-injective,
}
use household_back.Model.{Household, HouseholdMember, is_active, Db}
use household_back.Paging.{All-map}
use household_back.Keys.{Distinct-append, any-append_last}
use household_back.Household.Repository.{is_membership, find_membership, find_member, find_user}
use household_back.Household.Schema.{
  HouseholdResponse, HouseholdMemberResponse, validate_household_create, validate_household_update,
  validate_member_create,
}
use household_back.Household.Service.{
  target_user, member_here, require_owner, owner_row, new_household, create_household,
  edit_household, update_household, delete_household, new_member, add_household_member,
  remove_household_member,
}
use household_back.Household.Rules.{
  IsManaged, HouseholdRequest, post_household, put_household_request, delete_household_request,
  post_member, delete_member_request, HouseholdRun, quiet, request, household_key, OwnerIn, changed,
  serve_household, IsFresh,
}
use household_back.Household.Steps.{
  require_owner-eq-ok, put_household-IsManaged, added_member-IsManaged, deleted_household-IsManaged,
  dropped_member-IsManaged,
}

pub changed-eq-ok :
    {A : Type 0} (m : Result (A × Db)) (d : Db)
    → changed m ≡ ok d
    → (r : A × Db) × (m ≡ ok r) × (r.1 ≡ d)
changed-eq-ok (err e) d h = cc
changed-eq-ok (ok (a, x)) d h = ((a, x), refl, ok-injective h)

-- A new household, and its owner's row.
new_household_rows-IsManaged :
    (db : Db) (h : Household) (m : HouseholdMember)
    → m.household_id ≡ h.id
    → m.user_id ≡ h.owner_id
    → is_active m.data_stat_cd ≡ true
    → All (λ (x : Household). (x.id == h.id) ≡ false) db.households
    → All
        (λ (x : HouseholdMember). ((x.id == m.id) ≡ false) × ((x.household_id == h.id) ≡ false))
        db.household_members
    → IsManaged db
    → IsManaged (record db {
      households = db.households ++ h ∷ [];
      household_members = db.household_members ++ m ∷ [];
    })
unfolding find_membership
new_household_rows-IsManaged db h m same_household same_user live new_key new_member_key v =
    let with_member : IsManaged (record db { household_members = db.household_members ++ m ∷ [] }) =
      added_member-IsManaged db m (All-map _ _ (λ x p. p.0) db.household_members new_member_key)
        (nobody db.household_members new_member_key) v in
    record {
      household_keys = Distinct-append household_key db.households h v.household_keys new_key;
      member_keys = with_member.member_keys;
      owners =
          All-append (OwnerIn (db.household_members ++ m ∷ [])) db.households (h ∷ [])
            with_member.owners
            (
              λ _. any-append_last (is_membership h.id h.owner_id) db.household_members m (
                  rw
                    (
                      (==_iff m.household_id h.id).1 same_household,
                      (==_iff m.user_id h.owner_id).1 same_user,
                    )
                    live),
              tt,
            );
      single = with_member.single;
    }
  where
    nobody :
        (ms : List HouseholdMember)
        → All
            (λ (x : HouseholdMember). ((x.id == m.id) ≡ false) × ((x.household_id == h.id) ≡ false))
            ms
        → find (is_membership m.household_id m.user_id) ms ≡ none
    nobody [] k = refl
    nobody (x ∷ ms) k =
        rw (subst (λ n. (x.household_id == n) ≡ false) (sym same_household) k.0.1) (nobody ms k.1)

pub member_here-eq-ok :
    (household_id member_id : ℕ) (db : Db) (m : HouseholdMember)
    → member_here household_id (find_member member_id db) ≡ ok m
    → (find_member member_id db ≡ some m) × (m.household_id ≡ household_id)
member_here-eq-ok household_id member_id db m h = by_row (find_member member_id db) h
  where
    by_row :
        (o : Option HouseholdMember)
        → member_here household_id o ≡ ok m
        → (o ≡ some m) × (m.household_id ≡ household_id)
    by_row none k = cc
    by_row (some x) k = by_test (x.household_id == household_id) refl k
      where
        by_test :
            (b : Bool)
            → (x.household_id == household_id) ≡ b
            → (if not b then err household_member_not_found else ok x) ≡ ok m
            → (some x ≡ some m) × (m.household_id ≡ household_id)
        by_test true e q = (
          ap some (ok-injective q),
          ap (λ (y : HouseholdMember). y.household_id) (sym (ok-injective q))
              ∙ (==_iff x.household_id household_id).0 e,
        )
        by_test false e q = cc

no_member : (o : Option HouseholdMember) → is_some o ≡ false → o ≡ none
no_member none h = refl
no_member (some m) h = cc

-- One request that succeeds.
pub serve_household-IsManaged :
    (upper : String → String) (r : HouseholdRequest) (db d : Db)
    → IsFresh r db
    → serve_household upper r db ≡ ok d
    → IsManaged db
    → IsManaged d
unfolding serve_household
serve_household-IsManaged upper (post_household id member_id now today req user_id) db d fresh h v =
    let (_, made) = >>-eq-ok (validate_household_create req) _ h in
    let (_, e, same) =
      changed-eq-ok (create_household upper id member_id now today req user_id db) d made in
    subst IsManaged
      (ap (λ (p : HouseholdResponse × Db). p.1) (ok-injective (unfold create_household in e))
        ∙ same)
      (new_household_rows-IsManaged db (new_household upper id now today req user_id)
        (owner_row member_id now id user_id) (unfold owner_row new_household in refl)
        (unfold owner_row new_household in refl) (unfold owner_row in refl)
        (unfold new_household in fresh.0) (unfold owner_row new_household in fresh.1) v)
serve_household-IsManaged upper (put_household_request household_id req user_id) db d fresh h v =
    let (_, made) = >>-eq-ok (validate_household_update req) _ h in
    let (_, e, same) = changed-eq-ok (update_household upper household_id req user_id db) d made in
    let (row, owned, rest) =
      >>=-eq-ok (require_owner household_id user_id db) _ (unfold update_household in e) in
    let (found, _, live, _) = require_owner-eq-ok household_id user_id db row owned in
    subst IsManaged (ap (λ (p : HouseholdResponse × Db). p.1) (ok-injective rest) ∙ same) (
      put_household-IsManaged household_id db row (edit_household upper req row) found
        (unfold edit_household in refl) (unfold edit_household in refl) live v)
serve_household-IsManaged upper (delete_household_request household_id user_id) db d fresh h v =
    let (_, e, same) = changed-eq-ok (delete_household household_id user_id db) d h in
    let (row, owned, rest) =
      >>=-eq-ok (require_owner household_id user_id db) _ (unfold delete_household in e) in
    let (_, same_id, _, _) = require_owner-eq-ok household_id user_id db row owned in
    subst IsManaged (ap (λ (p : Unit {0} × Db). p.1) (ok-injective rest) ∙ same)
      (deleted_household-IsManaged household_id db row same_id v)
serve_household-IsManaged upper (post_member id now household_id req user_id) db d fresh h v =
    let (_, made) = >>-eq-ok (validate_member_create req) _ h in
    let (_, e, same) =
      changed-eq-ok (add_household_member id now household_id req user_id db) d made in
    let (row, owned, rest) =
      >>=-eq-ok (require_owner household_id user_id db) _ (unfold add_household_member in e) in
    let (target, _, rest') = >>=-eq-ok (target_user (find_user req.user_id db)) _ rest in
    let (free, done) =
      >>-eq-ok
        (raise_if (is_some (find_membership household_id req.user_id db)) household_member_already)
        _ rest' in
    subst IsManaged (ap (λ (p : HouseholdMemberResponse × Db). p.1) (ok-injective done) ∙ same) (
      added_member-IsManaged db (new_member id now household_id req) (unfold new_member in fresh)
        (unfold new_member in no_member _ (raise_if-eq-ok _ household_member_already free)) v)
serve_household-IsManaged upper (delete_member_request household_id member_id user_id) db d fresh h
      v =
    let (_, e, same) =
      changed-eq-ok (remove_household_member household_id member_id user_id db) d h in
    let (row, owned, rest) =
      >>=-eq-ok (require_owner household_id user_id db) _ (unfold remove_household_member in e) in
    let (m, here, rest') = >>=-eq-ok (member_here household_id (find_member member_id db)) _ rest in
    let (free, done) =
      >>-eq-ok (raise_if (m.user_id == row.owner_id) household_owner_cannot_leave) _ rest' in
    let (found, same_id, _, _) = require_owner-eq-ok household_id user_id db row owned in
    let (found_member, in_household) = member_here-eq-ok household_id member_id db m here in
    subst IsManaged (ap (λ (p : Unit {0} × Db). p.1) (ok-injective done) ∙ same) (
      dropped_member-IsManaged household_id member_id db row m found same_id found_member
        in_household (raise_if-eq-ok _ household_owner_cannot_leave free) v)

pub HouseholdRun-IsManaged :
    {upper : String → String} {db d : Db} → HouseholdRun upper db d → IsManaged db → IsManaged d
HouseholdRun-IsManaged quiet v = v
HouseholdRun-IsManaged {upper} (request {d} {d'} r earlier fresh e) v =
    serve_household-IsManaged upper r d d' fresh e (HouseholdRun-IsManaged earlier v)

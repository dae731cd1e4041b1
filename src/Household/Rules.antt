-- ===== src/Household/Rules.antt =====
-- household/service.py: what holds of households and members over any run of requests.
use household_back.Base.{All, any, count, ◌==◌, ℕ, ◌≤◌, String, ◌≡◌, true, false, List}
use household_back.Core.{Date, Result, err, ok, ◌>>◌}
use household_back.Model.{Household, HouseholdMember, is_active, Db}
use household_back.Paging.{Distinct}
use household_back.Household.Repository.{is_membership}
use household_back.Household.Schema.{
  HouseholdCreateRequest, HouseholdUpdateRequest, HouseholdMemberCreateRequest,
  validate_household_create, validate_household_update, validate_member_create,
}
use household_back.Household.Service.{
  create_household, update_household, delete_household, add_household_member,
  remove_household_member,
}

abbrev pub household_key : Household → ℕ
household_key h = h.id

abbrev pub member_key : HouseholdMember → ℕ
member_key m = m.id

-- An active household has its owner among its active members.
abbrev pub OwnerIn : List HouseholdMember → Household → Type 0
OwnerIn ms h = is_active h.data_stat_cd ≡ true → any (is_membership h.id h.owner_id) ms ≡ true

pub record IsManaged (db : Db) : Type 0 where
  pub household_keys : Distinct household_key db.households
  pub member_keys : Distinct member_key db.household_members
  pub owners : All (OwnerIn db.household_members) db.households
  -- nobody is an active member twice
  pub single :
      (household_id user_id : ℕ)
      → count (is_membership household_id user_id) db.household_members ≤ 1

-- the routes that change households or members, with the user who asks
pub data HouseholdRequest : Type 0 where
  post_household : (id member_id now : ℕ) → Date → HouseholdCreateRequest → ℕ → HouseholdRequest
  put_household_request : ℕ → HouseholdUpdateRequest → ℕ → HouseholdRequest
  delete_household_request : ℕ → ℕ → HouseholdRequest
  post_member : (id now household_id : ℕ) → HouseholdMemberCreateRequest → ℕ → HouseholdRequest
  delete_member_request : (household_id member_id user_id : ℕ) → HouseholdRequest

-- the database after the request
abbrev pub changed : {A : Type 0} → Result (A × Db) → Result Db
changed (err e) = err e
changed (ok (a, db)) = ok db

unfoldable pub serve_household : (String → String) → HouseholdRequest → Db → Result Db
unfolding validate_household_create create_household validate_household_update update_household
    delete_household validate_member_create add_household_member remove_household_member
serve_household upper (post_household id member_id now today req user_id) db =
    validate_household_create req
    >> changed (create_household upper id member_id now today req user_id db)
serve_household upper (put_household_request household_id req user_id) db =
    validate_household_update req >> changed (update_household upper household_id req user_id db)
serve_household upper (delete_household_request household_id user_id) db =
    changed (delete_household household_id user_id db)
serve_household upper (post_member id now household_id req user_id) db =
    validate_member_create req >> changed (add_household_member id now household_id req user_id db)
serve_household upper (delete_member_request household_id member_id user_id) db =
    changed (remove_household_member household_id member_id user_id db)

-- uuid4 gives ids that no row has, and no membership names
abbrev pub IsFresh : HouseholdRequest → Db → Type 0
IsFresh (post_household id member_id now today req user_id) db =
    All (λ (h : Household). (h.id == id) ≡ false) db.households
    × All
        (λ (m : HouseholdMember). ((m.id == member_id) ≡ false) × ((m.household_id == id) ≡ false))
        db.household_members
IsFresh (post_member id now household_id req user_id) db =
    All (λ (m : HouseholdMember). (m.id == id) ≡ false) db.household_members
IsFresh _ db = Unit

-- Requests one after another; one that fails leaves the database.
pub data HouseholdRun (upper : String → String) (db : Db) : Db → Type 0 where
  quiet : HouseholdRun upper db db
  request :
      {d d' : Db} (r : HouseholdRequest)
      → HouseholdRun upper db d
      → IsFresh r d
      → serve_household upper r d ≡ ok d'
      → HouseholdRun upper db d'

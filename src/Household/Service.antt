-- ===== src/Household/Service.antt =====
-- household/schema.py, household/service.py and household/deps.py. `id` and `now` stand for uuid4 and the
-- clock, `upper` for Python's `str.upper`.
use household_back.Base.{
  select, find, update_where, elem, ◌==◌, if◌then◌else◌, is_some, or_else, or_option, ℕ, String,
  not, ◌&&◌, Option, none, some, List, [], ◌∷◌, ◌++◌, map,
}
use household_back.Core.{
  Date, not_found, household_not_member, household_not_found, household_not_owner,
  household_member_already, household_member_not_found, household_owner_cannot_leave, Result, err,
  ok, raise_if, ◌>>=◌, ◌>>◌, Handler, strip,
}
use household_back.Model.{
  Account, Category, FixedExpense, Transaction, PortfolioItem, PortfolioTransaction,
  PortfolioValueHistory, AccountSnapshot, Household, HouseholdMember, User, DataStatus, active,
  deleted, HouseholdRole, owner_role, member_role, is_active, Db,
}
use household_back.Household.Repository.{
  find_household, find_membership, find_member, find_households_of, find_members_of, find_user,
  find_users,
}
use household_back.Household.Schema.{
  HouseholdCreateRequest, HouseholdUpdateRequest, HouseholdMemberCreateRequest, HouseholdResponse,
  household_response, HouseholdMemberResponse, member_response, WholePage, whole_page,
}

abbrev pub role_of : Household → ℕ → HouseholdRole
role_of h user_id = if h.owner_id == user_id then owner_role else member_role

unfoldable pub list_households : ℕ → Db → WholePage HouseholdResponse
unfolding find_households_of household_response
list_households user_id db =
    whole_page (map (λ h. household_response h (role_of h user_id)) (find_households_of user_id db))

-- `_require_membership`
unfoldable pub require_membership : ℕ → ℕ → Db → Result HouseholdMember
unfolding find_membership
require_membership household_id user_id db = elim (find_membership household_id user_id db) [
  | none ↦ err household_not_member
  | some m ↦ ok m
]

-- the checks that follow `find_by_id` where only the owner may go on
abbrev pub owner_only : ℕ → Option Household → Result Household
owner_only user_id none = err household_not_found
owner_only user_id (some h) = if not (h.owner_id == user_id) then err household_not_owner else ok h

-- `_require_owner`
unfoldable pub require_owner : ℕ → ℕ → Db → Result Household
unfolding find_household
require_owner household_id user_id db = owner_only user_id (find_household household_id db)

unfoldable pub owner_row : ℕ → ℕ → ℕ → ℕ → HouseholdMember
owner_row id now household_id user_id = record {
  id = id;
  frst_reg_dt = now;
  data_stat_cd = active;
  household_id = household_id;
  user_id = user_id;
  role = owner_role;
  joined_at = now;
}

abbrev pub put_household : Household → Db → Db
put_household h db = record db {
  households = update_where (λ (x : Household). x.id == h.id) (λ _. h) db.households;
}

module _ (upper : String → String) where
  unfoldable pub new_household : ℕ → ℕ → Date → HouseholdCreateRequest → ℕ → Household
  unfolding strip
  new_household id now today req user_id = record {
    id = id;
    frst_reg_dt = now;
    data_stat_cd = active;
    name = strip req.name;
    description = req.description;
    owner_id = user_id;
    currency = upper req.currency;
    started_at = or_else req.started_at today;
  }

  unfoldable pub create_household :
      ℕ → ℕ → ℕ → Date → HouseholdCreateRequest → ℕ → Handler Db HouseholdResponse
  unfolding new_household owner_row household_response
  create_household id member_id now today req user_id db =
      let h = new_household id now today req user_id in
      ok (
        household_response h owner_role,
        record db {
          households = db.households ++ h ∷ [];
          household_members = db.household_members ++ owner_row member_id now id user_id ∷ [];
        },
      )

  unfoldable pub edit_household : HouseholdUpdateRequest → Household → Household
  unfolding strip
  edit_household req h = record h {
    name = elim req.name [ none ↦ h.name | some name ↦ strip name ];
    description = or_option req.description h.description;
    currency = elim req.currency [ none ↦ h.currency | some c ↦ upper c ];
    started_at = or_else req.started_at h.started_at;
  }

  -- the lookup and the owner check stand in the handler itself, as in `_require_owner`
  unfoldable pub update_household : ℕ → HouseholdUpdateRequest → ℕ → Handler Db HouseholdResponse
  unfolding require_owner edit_household household_response
  update_household household_id req user_id db = do
    h ← require_owner household_id user_id db
    ok (
      household_response (edit_household req h) owner_role,
      put_household (edit_household req h) db,
    )

-- one UPDATE of `_cascade_soft_delete_children`: a table with its two columns and its soft delete
abbrev delete_rows :
    {Row : Type 0} → (Row → ℕ) → (Row → DataStatus) → (Row → Row) → ℕ → List Row → List Row
delete_rows household_of status_of mark household_id rows =
    update_where (λ r. household_of r == household_id && is_active (status_of r)) mark rows

-- `select(Account.id).where(Account.household_id == household_id)`
abbrev pub account_ids : ℕ → Db → List ℕ
account_ids household_id db =
    map (λ (a : Account). a.id)
      (select (λ (a : Account). a.household_id == household_id) db.accounts)

-- `_cascade_soft_delete_children`
unfoldable pub cascade_soft_delete_children : ℕ → Db → Db
cascade_soft_delete_children household_id db = record db {
  accounts =
      delete_rows (λ (a : Account). a.household_id) (λ a. a.data_stat_cd)
        (λ a. record a { data_stat_cd = deleted }) household_id db.accounts;
  categories =
      delete_rows (λ (c : Category). c.household_id) (λ c. c.data_stat_cd)
        (λ c. record c { data_stat_cd = deleted }) household_id db.categories;
  transactions =
      delete_rows (λ (t : Transaction). t.household_id) (λ t. t.data_stat_cd)
        (λ t. record t { data_stat_cd = deleted }) household_id db.transactions;
  items =
      delete_rows (λ (i : PortfolioItem). i.household_id) (λ i. i.data_stat_cd)
        (λ i. record i { data_stat_cd = deleted }) household_id db.items;
  portfolio_transactions =
      delete_rows (λ (t : PortfolioTransaction). t.household_id) (λ t. t.data_stat_cd)
        (λ t. record t { data_stat_cd = deleted }) household_id db.portfolio_transactions;
  value_histories =
      delete_rows (λ (v : PortfolioValueHistory). v.household_id) (λ v. v.data_stat_cd)
        (λ v. record v { data_stat_cd = deleted }) household_id db.value_histories;
  fixed_expenses =
      delete_rows (λ (f : FixedExpense). f.household_id) (λ f. f.data_stat_cd)
        (λ f. record f { data_stat_cd = deleted }) household_id db.fixed_expenses;
  household_members =
      delete_rows (λ (m : HouseholdMember). m.household_id) (λ m. m.data_stat_cd)
        (λ m. record m { data_stat_cd = deleted }) household_id db.household_members;
  account_snapshots =
      update_where
        (λ (s : AccountSnapshot).
          elem s.account_id (account_ids household_id db) && is_active s.data_stat_cd)
        (λ s. record s { data_stat_cd = deleted }) db.account_snapshots;
}

-- the children, then `household.data_stat_cd = DELETED`
unfoldable pub deleted_household : ℕ → Household → Db → Db
unfolding cascade_soft_delete_children
deleted_household household_id h db =
    put_household (record h { data_stat_cd = deleted })
      (cascade_soft_delete_children household_id db)

unfoldable pub delete_household : ℕ → ℕ → Handler Db (Unit {0})
unfolding require_owner deleted_household
delete_household household_id user_id db = do
  h ← require_owner household_id user_id db
  ok (tt, deleted_household household_id h db)

abbrev user_by_id : ℕ → List User → Option User
user_by_id user_id users = find (λ (u : User). u.id == user_id) users

unfoldable pub list_household_members : ℕ → ℕ → Db → Result (WholePage HouseholdMemberResponse)
unfolding require_membership find_members_of find_users member_response
list_household_members household_id user_id db = do
  viewer ← require_membership household_id user_id db
  let ms = find_members_of household_id db
  let users = find_users (map (λ (m : HouseholdMember). m.user_id) ms) db
  ok (whole_page (map (λ (m : HouseholdMember). member_response m (user_by_id m.user_id users)) ms))

unfoldable pub new_member : ℕ → ℕ → ℕ → HouseholdMemberCreateRequest → HouseholdMember
new_member id now household_id req = record {
  id = id;
  frst_reg_dt = now;
  data_stat_cd = active;
  household_id = household_id;
  user_id = req.user_id;
  role = req.role;
  joined_at = now;
}

abbrev pub target_user : Option User → Result User
target_user none = err not_found
target_user (some u) = ok u

unfoldable pub add_household_member :
    ℕ → ℕ → ℕ → HouseholdMemberCreateRequest → ℕ → Handler Db HouseholdMemberResponse
unfolding require_owner find_user find_membership new_member member_response
add_household_member id now household_id req user_id db = do
  h ← require_owner household_id user_id db
  target ← target_user (find_user req.user_id db)
  raise_if (is_some (find_membership household_id req.user_id db)) household_member_already
  let m = new_member id now household_id req
  ok (
    member_response m (some target),
    record db { household_members = db.household_members ++ m ∷ [] },
  )

-- a member row of this household
abbrev pub member_here : ℕ → Option HouseholdMember → Result HouseholdMember
member_here household_id none = err household_member_not_found
member_here household_id (some m) =
    if not (m.household_id == household_id) then err household_member_not_found else ok m

-- `member.data_stat_cd = DELETED`
unfoldable pub dropped_member : HouseholdMember → Db → Db
dropped_member m db = record db {
  household_members =
      update_where (λ (x : HouseholdMember). x.id == m.id)
        (λ _. record m { data_stat_cd = deleted }) db.household_members;
}

unfoldable pub remove_household_member : ℕ → ℕ → ℕ → Handler Db (Unit {0})
unfolding require_owner find_member dropped_member
remove_household_member household_id member_id user_id db = do
  h ← require_owner household_id user_id db
  m ← member_here household_id (find_member member_id db)
  raise_if (m.user_id == h.owner_id) household_owner_cannot_leave
  ok (tt, dropped_member m db)

-- what follows the two lookups of the detail
abbrev pub detail_of : ℕ → Option Household → Option HouseholdMember → Result HouseholdResponse
unfolding household_response
detail_of user_id none m = err household_not_found
detail_of user_id (some h) none = err household_not_found
detail_of user_id (some h) (some m) =
    ok (household_response h (if h.owner_id == user_id then owner_role else m.role))

-- `find_by_id` returns only active rows, so the test of the status is one more guard
unfoldable pub get_household_detail : ℕ → ℕ → Db → Result HouseholdResponse
unfolding find_household find_membership household_response
get_household_detail household_id user_id db =
    detail_of user_id (find_household household_id db) (find_membership household_id user_id db)

-- `get_current_household` of deps.py: the household of the X-Household-Id header
abbrev pub household_there : Option Household → Result Household
household_there none = err household_not_found
household_there (some h) = ok h

abbrev pub member_there : Option HouseholdMember → Result HouseholdMember
member_there none = err household_not_member
member_there (some m) = ok m

unfoldable pub get_current_household : ℕ → ℕ → Db → Result Household
unfolding find_membership find_household
get_current_household user_id household_id db = do
  m ← member_there (find_membership household_id user_id db)
  household_there (find_household household_id db)

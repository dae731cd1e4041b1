-- ===== src/Household/Repository.antt =====
-- household/repository.py, and the lookups of user/repository.py that the household services use. A
-- query with `scalar_one_or_none` is the first row that passes.
use household_back.Base.{
  select, find, order_by, elem, leb, ◌==◌, if◌then◌else◌, ℕ, Bool, ◌&&◌, Option, List, [], ◌∷◌,
  ◌++◌, map,
}
use household_back.Model.{Household, HouseholdMember, User, is_active, Db}

-- `HouseholdRepository.find_by_id`
unfoldable pub find_household : ℕ → Db → Option Household
find_household household_id db =
    find (λ (h : Household). h.id == household_id && is_active h.data_stat_cd) db.households

-- the active membership of a user in a household
abbrev pub is_membership : ℕ → ℕ → HouseholdMember → Bool
is_membership household_id user_id m =
    m.household_id == household_id && (m.user_id == user_id && is_active m.data_stat_cd)

-- `HouseholdMemberRepository.find_by_household_and_user`
unfoldable pub find_membership : ℕ → ℕ → Db → Option HouseholdMember
find_membership household_id user_id db =
    find (is_membership household_id user_id) db.household_members

-- `HouseholdMemberRepository.find_by_id`
unfoldable pub find_member : ℕ → Db → Option HouseholdMember
find_member member_id db =
    find (λ (m : HouseholdMember). m.id == member_id && is_active m.data_stat_cd)
      db.household_members

-- one household for each membership row that joins it
abbrev joined_rows : ℕ → List HouseholdMember → Household → List Household
joined_rows user_id ms h = map (λ (m : HouseholdMember). h) (select (is_membership h.id user_id) ms)

abbrev joined : ℕ → List HouseholdMember → List Household → List Household
joined user_id ms [] = []
joined user_id ms (h ∷ hs) =
    (if is_active h.data_stat_cd then joined_rows user_id ms h else []) ++ joined user_id ms hs

abbrev older_household : Household → Household → Bool
older_household x y = leb x.frst_reg_dt y.frst_reg_dt

-- `HouseholdRepository.find_active_by_user_id`
unfoldable pub find_households_of : ℕ → Db → List Household
find_households_of user_id db =
    order_by older_household (joined user_id db.household_members db.households)

-- `HouseholdRepository.find_all_active`
unfoldable pub find_all_active : Db → List Household
find_all_active db = select (λ (h : Household). is_active h.data_stat_cd) db.households

abbrev joined_before : HouseholdMember → HouseholdMember → Bool
joined_before x y = leb x.joined_at y.joined_at

-- `HouseholdMemberRepository.find_active_by_household_id`
unfoldable pub find_members_of : ℕ → Db → List HouseholdMember
find_members_of household_id db = order_by joined_before (
    select (λ (m : HouseholdMember). m.household_id == household_id && is_active m.data_stat_cd)
      db.household_members)

-- `UserRepository.find_by_id`
unfoldable pub find_user : ℕ → Db → Option User
find_user user_id db = find (λ (u : User). u.id == user_id && is_active u.data_stat_cd) db.users

-- `UserRepository.find_by_ids`
unfoldable pub find_users : List ℕ → Db → List User
find_users ids db = select (λ (u : User). elem u.id ids && is_active u.data_stat_cd) db.users

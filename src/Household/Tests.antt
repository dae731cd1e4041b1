-- ===== src/Household/Tests.antt =====
-- The household theorems at concrete rows.
use household_back.Base.{◌==◌, ℕ, String, ◌≡◌, refl, false, none, some, [], ◌∷◌, arith}
use household_back.Core.{household_not_member, household_not_found, err, ok}
use household_back.Model.{Household, HouseholdMember, User, active, owner_role, member_role, Db}
use household_back.Samples.{jan, household_db}
use household_back.Household.Repository.{find_member}
use household_back.Household.Schema.{
  HouseholdCreateRequest, HouseholdMemberCreateRequest, household_response,
}
use household_back.Household.Service.{
  create_household, deleted_household, dropped_member, remove_household_member,
  get_household_detail, get_current_household,
}
use household_back.Household.Rules.{
  IsManaged, HouseholdRequest, post_household, post_member, HouseholdRun, quiet, request,
  serve_household,
}
use household_back.Household.Runs.{serve_household-IsManaged, HouseholdRun-IsManaged}
use household_back.Household.Access.{
  remove_household_member-get_current_household, create_household-get_household_detail,
}

abbrev shout : String → String
shout text = text

abbrev home_request : HouseholdCreateRequest
home_request = record { name = "home"; description = none; currency = "KRW"; started_at = none }

abbrev start_home : HouseholdRequest
start_home = post_household 7 71 1 (jan 1) home_request 4

abbrev home : Household
home = record {
  id = 7;
  frst_reg_dt = 1;
  data_stat_cd = active;
  name = "home";
  description = none;
  owner_id = 4;
  currency = "KRW";
  started_at = jan 1;
}

abbrev owner_member : HouseholdMember
owner_member = record {
  id = 71;
  frst_reg_dt = 1;
  data_stat_cd = active;
  household_id = 7;
  user_id = 4;
  role = owner_role;
  joined_at = 1;
}

abbrev guest : HouseholdMember
guest = record owner_member {
  id = 72;
  frst_reg_dt = 2;
  user_id = 5;
  role = member_role;
  joined_at = 2;
}

abbrev founded_db : Db
founded_db = record household_db { households = home ∷ []; household_members = owner_member ∷ [] }

abbrev home_db : Db
home_db = record founded_db { household_members = owner_member ∷ guest ∷ [] }

founded_test : serve_household shout start_home household_db ≡ ok founded_db
unfolding serve_household
founded_test = refl

household_db-IsManaged : IsManaged household_db
household_db-IsManaged = record {
  household_keys = tt;
  member_keys = tt;
  owners = tt;
  single = λ k user_id. omega arith;
}

founded_run : HouseholdRun shout household_db founded_db
founded_run = request start_home quiet (tt, tt) founded_test

created_test :
    create_household shout 7 71 1 (jan 1) home_request 4 household_db
    ≡ ok (household_response home owner_role, founded_db)
unfolding create_household
created_test = refl

create_household-get_household_detail_example :
    (get_household_detail 7 4 founded_db ≡ ok (household_response home owner_role))
    × ((reader : ℕ)
        → (4 == reader) ≡ false
        → get_household_detail 7 reader founded_db ≡ err household_not_found)
create_household-get_household_detail_example =
    create_household-get_household_detail shout 7 71 1 (jan 1) home_request 4 household_db
      (household_response home owner_role, founded_db) (tt, tt) created_test

abbrev closed_home_db : Db
unfolding deleted_household
closed_home_db = deleted_household 7 home founded_db

-- A guest joins, and is removed again.
abbrev guest_request : HouseholdMemberCreateRequest
guest_request = record { user_id = 5; role = member_role }

abbrev guest_user : User
guest_user = record {
  id = 5;
  frst_reg_dt = 0;
  data_stat_cd = active;
  email = "guest@example.com";
  name = "guest";
  password_hash = "x";
  language = "ko";
}

abbrev known_db : Db
known_db = record founded_db { users = guest_user ∷ [] }

abbrev joined_db : Db
joined_db = record known_db { household_members = owner_member ∷ guest ∷ [] }

joined_test : serve_household shout (post_member 72 2 7 guest_request 4) known_db ≡ ok joined_db
unfolding serve_household
joined_test = refl

known_db-IsManaged : IsManaged known_db
known_db-IsManaged = record {
  household_keys = household_run-IsManaged_founded.household_keys;
  member_keys = household_run-IsManaged_founded.member_keys;
  owners = household_run-IsManaged_founded.owners;
  single = household_run-IsManaged_founded.single;
}
  where
    household_run-IsManaged_founded : IsManaged founded_db
    household_run-IsManaged_founded = HouseholdRun-IsManaged founded_run household_db-IsManaged

joined_db-IsManaged : IsManaged joined_db
joined_db-IsManaged =
    serve_household-IsManaged shout (post_member 72 2 7 guest_request 4) known_db joined_db
      (refl, tt) joined_test known_db-IsManaged

abbrev left_db : Db
unfolding dropped_member
left_db = dropped_member guest joined_db

left_test : remove_household_member 7 72 4 joined_db ≡ ok (tt, left_db)
unfolding remove_household_member
left_test = refl

guest_test : find_member 72 joined_db ≡ some guest
unfolding find_member
guest_test = refl

remove_household_member-get_current_household_example :
    (get_current_household 5 7 left_db ≡ err household_not_member)
    × ((user_id : ℕ)
        → (5 == user_id) ≡ false
        → get_current_household user_id 7 left_db ≡ get_current_household user_id 7 joined_db)
remove_household_member-get_current_household_example =
    remove_household_member-get_current_household 7 72 4 joined_db guest (tt, left_db)
      joined_db-IsManaged guest_test left_test

-- ===== src/Household/Schema.antt =====
-- household/schema.py: the requests with their validators, and the responses.
use household_back.Base.{
  length, leb, ◌==◌, ℕ, String, Bool, false, not, ◌&&◌, Option, none, some, List,
}
use household_back.Core.{Date, bad_request, Result, raise_if, ◌>>◌, strip, text_length}
use household_back.Model.{Household, HouseholdMember, User, HouseholdRole, is_owner_role}

pub record HouseholdCreateRequest : Type 0 where
  pub name : String
  pub description : Option String
  pub currency : String
  pub started_at : Option Date

abbrev bad_household_name : String → Bool
bad_household_name name = let n = text_length (strip name) in not (leb 1 n && leb n 100)

-- `HouseholdCreateRequest._validate`
unfoldable pub validate_household_create : HouseholdCreateRequest → Result (Unit {0})
unfolding text_length strip
validate_household_create req = do
  raise_if (bad_household_name req.name) bad_request
  raise_if (not (text_length req.currency == 3)) bad_request

pub record HouseholdUpdateRequest : Type 0 where
  pub name : Option String
  pub description : Option String
  pub currency : Option String
  pub started_at : Option Date

abbrev on_some : (String → Bool) → Option String → Bool
on_some bad none = false
on_some bad (some t) = bad t

-- `HouseholdUpdateRequest._validate`
unfoldable pub validate_household_update : HouseholdUpdateRequest → Result (Unit {0})
unfolding text_length strip
validate_household_update req = do
  raise_if (on_some bad_household_name req.name) bad_request
  raise_if (on_some (λ t. not (text_length t == 3)) req.currency) bad_request

pub record HouseholdMemberCreateRequest : Type 0 where
  pub user_id : ℕ
  pub role : HouseholdRole

-- `HouseholdMemberCreateRequest._validate`: nobody is made an owner this way
unfoldable pub validate_member_create : HouseholdMemberCreateRequest → Result (Unit {0})
validate_member_create req = raise_if (is_owner_role req.role) bad_request

pub record HouseholdResponse : Type 0 where
  pub id : ℕ
  pub name : String
  pub description : Option String
  pub owner_id : ℕ
  pub currency : String
  pub started_at : Date
  pub role : HouseholdRole

-- `_build_response`
unfoldable pub household_response : Household → HouseholdRole → HouseholdResponse
household_response h role = record {
  id = h.id;
  name = h.name;
  description = h.description;
  owner_id = h.owner_id;
  currency = h.currency;
  started_at = h.started_at;
  role = role;
}

pub record HouseholdMemberResponse : Type 0 where
  pub id : ℕ
  pub household_id : ℕ
  pub user_id : ℕ
  pub user_name : Option String
  pub user_email : Option String
  pub role : HouseholdRole
  pub joined_at : ℕ

-- `_build_member_response`
unfoldable pub member_response : HouseholdMember → Option User → HouseholdMemberResponse
member_response m user = record {
  id = m.id;
  household_id = m.household_id;
  user_id = m.user_id;
  user_name = elim user [ none ↦ none | some u ↦ some u.name ];
  user_email = elim user [ none ↦ none | some u ↦ some u.email ];
  role = m.role;
  joined_at = m.joined_at;
}

-- a list in the envelope of the pages: there is no next page
pub record WholePage (Item : Type 0) : Type 0 where
  pub items : List Item
  pub next_cursor : Option String
  pub has_next : Bool
  pub total_count : ℕ

abbrev pub whole_page : {Item : Type 0} → List Item → WholePage Item
whole_page items = record {
  items = items;
  next_cursor = none;
  has_next = false;
  total_count = length items;
}

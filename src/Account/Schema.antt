-- ===== src/Account/Schema.antt =====
-- account/schema.py: the requests and their validators.
use household_back.Base.{ℤ, ltb, leb, String, Bool, false, not, ◌&&◌, Option, none, some}
use household_back.Core.{bad_request, Result, ◌>>◌, raise_if, strip, text_length}
use household_back.Model.{AccountType}

pub record AccountCreateRequest : Type 0 where
  pub name : String
  pub account_type : AccountType
  pub start_balance : ℤ
  pub color : Option String
  pub icon : Option String
  pub sort_order : Option ℤ

pub record AccountUpdateRequest : Type 0 where
  pub name : Option String
  pub account_type : Option AccountType
  pub start_balance : Option ℤ
  pub color : Option String
  pub icon : Option String
  pub sort_order : Option ℤ
  pub is_archived : Option Bool

-- `not (1 <= len(name.strip()) <= 100)`
unfoldable pub bad_account_name : String → Bool
unfolding strip text_length
bad_account_name name = let n = text_length (strip name) in not (leb 1 n && leb n 100)

-- `color is not None and len(color) > 7`
unfoldable pub bad_color : Option String → Bool
unfolding text_length
bad_color none = false
bad_color (some color) = ltb 7 (text_length color)

unfoldable bad_new_name : Option String → Bool
unfolding bad_account_name
bad_new_name none = false
bad_new_name (some name) = bad_account_name name

unfoldable pub validate_account_create : AccountCreateRequest → Result (Unit {0})
unfolding bad_account_name bad_color
validate_account_create req = do
  raise_if (bad_account_name req.name) bad_request
  raise_if (bad_color req.color) bad_request

unfoldable pub validate_account_update : AccountUpdateRequest → Result (Unit {0})
unfolding bad_new_name bad_color
validate_account_update req = do
  raise_if (bad_new_name req.name) bad_request
  raise_if (bad_color req.color) bad_request

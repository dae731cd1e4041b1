-- ===== src/Core/Errors.antt =====
-- app/core/exceptions: the business errors, and a computation that may raise one.
use household_back.Base.{if◌then◌else◌, ◌≡◌, refl, Bool, true, false}

-- the members of `ErrorCode` that are errors
pub data ErrorCode : Type 0 where
  bad_request unauthorized forbidden not_found service_unavailable internal_error : ErrorCode
  invalid_token expired_token invalid_password login_failed invalid_refresh_token : ErrorCode
  user_duplicate_login_id user_duplicate_email invalid_email_format : ErrorCode
  invalid_password_format invalid_name : ErrorCode
  household_not_member household_not_found household_not_owner : ErrorCode
  household_member_already household_member_not_found household_owner_cannot_leave : ErrorCode
  stock_lookup_failed portfolio_has_holdings account_has_dependents : ErrorCode
  idempotency_key_conflict idempotency_body_mismatch idempotency_in_progress : ErrorCode

-- `raise CustomException(code)` is `err code`.
pub data Result {ℓ} (Value : Type ℓ) : Type ℓ where
  err : ErrorCode → Result Value
  ok : Value → Result Value

-- `if condition: raise CustomException(code)`
abbrev pub raise_if : Bool → ErrorCode → Result (Unit {0})
raise_if false code = ok tt
raise_if true code = err code

-- one statement after another: an exception skips the rest
module _ {ℓ κ} {Value : Type ℓ} {Next : Type κ} where
  infixl 5 ◌>>=◌
  abbrev pub ◌>>=◌ : Result Value → (Value → Result Next) → Result Next
  err code >>= next = err code
  ok value >>= next = next value

  -- A chain that ended well ran both its parts.
  pub >>=-eq-ok :
      (first : Result Value) (next : Value → Result Next) {reply : Next}
      → (first >>= next) ≡ ok reply
      → (value : Value) × (first ≡ ok value) × (next value ≡ ok reply)
  >>=-eq-ok (err code) next h = cc
  >>=-eq-ok (ok value) next h = (value, refl, h)

module _ {ℓ} {Next : Type ℓ} where
  infixl 5 ◌>>◌
  abbrev pub ◌>>◌ : Result (Unit {0}) → Result Next → Result Next
  check >> rest = check >>= λ _. rest

  pub >>-eq-ok :
      (check : Result (Unit {0})) (rest : Result Next) {reply : Next}
      → (check >> rest) ≡ ok reply
      → (check ≡ ok tt) × (rest ≡ ok reply)
  >>-eq-ok (err code) rest h = cc
  >>-eq-ok (ok tt) rest h = (refl, h)

pub raise_if-eq-ok : (c : Bool) (e : ErrorCode) → raise_if c e ≡ ok tt → c ≡ false
raise_if-eq-ok true e h = cc
raise_if-eq-ok false e h = refl

pub ok-injective {ℓ} : {A : Type ℓ} {a b : A} → ok a ≡ ok b → a ≡ b
ok-injective h = cc

-- `if not b: raise e`, then `return a`
pub guarded-eq-ok {ℓ} :
    {A : Type ℓ} (b : Bool) (e : ErrorCode) {a x : A}
    → (if b then ok a else err e) ≡ ok x
    → (b ≡ true) × (a ≡ x)
guarded-eq-ok true e h = (refl, ok-injective h)
guarded-eq-ok false e h = cc

-- ===== src/Core/Session.antt =====
-- app/core/database.py: one request runs in one session. `get_db` commits when the handler returns
-- and rolls back when it raises, so a handler is a function from the database to a result that
-- carries the new database only on success.
use household_back.Core.Errors.{Result, ok, err}

abbrev pub Handler {ℓ} : Type ℓ → Type ℓ → Type ℓ
Handler S A = S → Result (A × S)

-- The reply and the database after the request.
abbrev pub commit {ℓ} : {S A : Type ℓ} → Result (A × S) → S → Result A × S
commit (ok (a, s')) s = (ok a, s')
commit (err e) s = (err e, s)

unfoldable pub get_db {ℓ} : {S A : Type ℓ} → Handler S A → S → Result A × S
get_db h s = commit (h s) s

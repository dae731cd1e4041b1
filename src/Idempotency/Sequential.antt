-- ===== src/Idempotency/Sequential.antt =====
-- app/core/idempotency/middleware.py: a request that meets no other is one run of the session steps.
use text.Mathlib.Text.{◌==◌ as ◌===◌}
use household_back.Base.{ℕ, String, ◌≡◌, Option}
use household_back.Idempotency.Middleware.{HttpRequest, HttpResponse, dispatch}
use household_back.Idempotency.Sessions.{System, idle, Reach}

abbrev AllIdle : System → Type 0
AllIdle s = (j : ℕ) → s.phase j ≡ idle

module _ {App : Type 0} (sha256 : String → String)
    (router : HttpRequest → App → Option HttpResponse × App) where
  -- The run that a request makes from a system at rest.
  abbrev RunOf : HttpRequest → ℕ → ℕ → ℕ → System → App → Type 0
  RunOf http id now end s app =
      (t : System) × Reach s t
      × (t.rows
          ≡ (dispatch sha256 router http id now end (record { rows = s.rows; app = app })).1.rows)
      × AllIdle t

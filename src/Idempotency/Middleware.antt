-- ===== src/Idempotency/Middleware.antt =====
-- app/core/idempotency: response_codec.py and middleware.py. The router is an argument: it answers, or
-- raises (`none`), and has committed its own session by then. `sha256` is an argument too.
use text.Mathlib.Text.{◌==◌ as ◌===◌}
use household_back.Base.{
  leb, ◌==◌, if◌then◌else◌, or_else, ℕ, String, not, Option, none, some, List, [],
}
use household_back.Core.{ErrorCode, Result, err, ok}
use household_back.Idempotency.Store.{
  IdempotencyRecord, KeyedRequest, AcquireResult, Headers, mark_completed, release, process_acquire,
}

pub record HttpRequest : Type 0 where
  pub method : String
  pub path : String
  pub key_header : Option String
  -- what `extract_user_id` reads from the token
  pub user : Option ℕ
  pub body : String

pub record HttpResponse : Type 0 where
  pub status_code : ℕ
  pub headers : Headers
  pub body : String

-- `status_code or 200`
abbrev status_or_ok : Option ℕ → ℕ
status_or_ok none = 200
status_or_ok (some n) = if n == 0 then 200 else n

-- `build_cached_response`
unfoldable pub build_cached_response : IdempotencyRecord → HttpResponse
build_cached_response r = record {
  status_code = status_or_ok r.status_code;
  headers = or_else r.response_headers [];
  body = or_else r.response_body "";
}

-- the gate of `dispatch`: POST, a key that is not empty, and a user
abbrev key_of : Option String → Option String
key_of none = none
key_of (some String.[]) = none
key_of (some key) = some key

abbrev keyed : (String → String) → HttpRequest → Option String → Option ℕ → Option KeyedRequest
keyed sha256 http (some key) (some user_id) = some (record {
  user_id = user_id;
  key = key;
  method = http.method;
  path = http.path;
  fingerprint = sha256 http.body;
})
keyed sha256 http _ _ = none

unfoldable pub gate : (String → String) → HttpRequest → Option KeyedRequest
gate sha256 http =
    if not (http.method === "POST")
    then none
    else keyed sha256 http (key_of http.key_header) http.user

-- What the session writes once the router is back, on the rows that the session sees: `release` after
-- an exception or a status of 500 or more, `mark_completed` otherwise.
unfoldable pub settle :
    KeyedRequest → Option HttpResponse → ℕ → List IdempotencyRecord → List IdempotencyRecord
unfolding mark_completed release
settle req none now rows = release req.user_id req.key rows
settle req (some response) now rows =
    if leb 500 response.status_code
    then release req.user_id req.key rows
    else mark_completed req.user_id req.key response.status_code response.headers response.body now
        rows

-- `raised` passes the router's exception on; `refused` is `_build_error_response`.
pub data Reply : Type 0 where
  raised : Reply
  refused : ErrorCode → Reply
  answered : HttpResponse → Reply

abbrev pub reply_of : Option HttpResponse → Reply
reply_of none = raised
reply_of (some response) = answered response

-- the committed rows, and the rest of the database
pub record Server (App : Type 0) : Type 0 where
  pub rows : List IdempotencyRecord
  pub app : App

module _ {App : Type 0} where
  -- the rest of `dispatch`, after `process_acquire`
  abbrev pub proceed :
      (App → Option HttpResponse × App)
      → KeyedRequest
      → ℕ
      → Server App
      → AcquireResult
      → List IdempotencyRecord
      → Reply × Server App
  unfolding settle build_cached_response
  proceed router req later s result rows =
      let (response, app) = router s.app in
      let run : Reply × Server App =
        (reply_of response, record s { rows = settle req response later rows; app = app }) in
      elim result.cached_record [
        | none ↦ run
        | some r ↦ if not result.acquired then (answered (build_cached_response r), s) else run
      ]

  abbrev pub acquired_or_refused :
      (App → Option HttpResponse × App)
      → KeyedRequest
      → ℕ
      → Server App
      → Result (AcquireResult × List IdempotencyRecord)
      → Reply × Server App
  unfolding proceed
  acquired_or_refused router req later s (err code) = (refused code, s)
  acquired_or_refused router req later s (ok (result, rows)) =
      proceed router req later s result rows

  -- what follows the gate: the router alone, or the session
  abbrev pub past_gate :
      (HttpRequest → App → Option HttpResponse × App)
      → HttpRequest
      → ℕ
      → ℕ
      → ℕ
      → Server App
      → Option KeyedRequest
      → Reply × Server App
  unfolding process_acquire proceed
  past_gate router http id now later s none =
      let (response, app) = router http s.app in (reply_of response, record s { app = app })
  past_gate router http id now later s (some req) =
      acquired_or_refused (router http) req later s (process_acquire req id now s.rows)

  -- `IdempotencyMiddleware.dispatch`, with no other request in between. `now` is the time of the
  -- INSERT, and `later` that of the completion.
  unfoldable pub dispatch :
      (String → String)
      → (HttpRequest → App → Option HttpResponse × App)
      → HttpRequest
      → ℕ
      → ℕ
      → ℕ
      → Server App
      → Reply × Server App
  unfolding gate past_gate
  dispatch sha256 router http id now later s =
      past_gate router http id now later s (gate sha256 http)

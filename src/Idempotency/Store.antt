-- ===== src/Idempotency/Store.antt =====
-- app/core/idempotency: constants.py, enums.py, model.py, repository.py and service.py. The table is a
-- list of rows; time is in seconds; the JSON text of the headers is kept as the list that it stands
-- for. `id` and `now` stand for uuid4 and the clock.
use text.Mathlib.Text.{◌==◌ as ◌===◌}
use household_back.Base.{
  select, find, any, update_where, count, ltb, ◌==◌, if◌then◌else◌, ℕ, ◌+◌, ◌*◌, String, Bool, true,
  false, not, ◌&&◌, ◌||◌, Option, none, some, List, [], ◌∷◌, ◌++◌,
}
use household_back.Core.{
  idempotency_key_conflict, idempotency_body_mismatch, idempotency_in_progress, Result, err, ok,
  ◌>>=◌, Handler,
}

pub data IdempotencyStatus : Type 0 where
  pending completed : IdempotencyStatus

abbrev pub is_completed : IdempotencyStatus → Bool
is_completed completed = true
is_completed pending = false

abbrev pub Headers : Type 0
Headers = List (String × String)

pub record IdempotencyRecord : Type 0 where
  pub id : ℕ
  pub user_id : ℕ
  pub key : String
  pub method : String
  pub path : String
  pub request_fingerprint : String
  pub status : IdempotencyStatus
  pub status_code : Option ℕ
  pub response_headers : Option Headers
  pub response_body : Option String
  pub created_at : ℕ
  pub completed_at : Option ℕ

-- a request that passed the gate of the middleware
pub record KeyedRequest : Type 0 where
  pub user_id : ℕ
  pub key : String
  pub method : String
  pub path : String
  pub fingerprint : String

-- the columns under the unique constraint
abbrev pub is_row : ℕ → String → IdempotencyRecord → Bool
is_row user_id key r = r.user_id == user_id && r.key === key

-- PENDING_TTL_SECONDS
abbrev pub pending_ttl : ℕ
pending_ttl = 60

-- COMPLETED_TTL_HOURS, in seconds
abbrev pub completed_ttl : ℕ
completed_ttl = 24 * 3600

-- `IdempotencyRepository.find`
unfoldable pub find_record : ℕ → String → List IdempotencyRecord → Option IdempotencyRecord
find_record user_id key rows = find (is_row user_id key) rows

-- the values of the INSERT
unfoldable pub pending_row : KeyedRequest → ℕ → ℕ → IdempotencyRecord
pending_row req id now = record {
  id = id;
  user_id = req.user_id;
  key = req.key;
  method = req.method;
  path = req.path;
  request_fingerprint = req.fingerprint;
  status = pending;
  status_code = none;
  response_headers = none;
  response_body = none;
  created_at = now;
  completed_at = none;
}

-- `IdempotencyRepository.try_acquire`: INSERT … ON CONFLICT (user_id, key) DO NOTHING
unfoldable pub try_acquire :
    KeyedRequest → ℕ → ℕ → List IdempotencyRecord → Bool × List IdempotencyRecord
unfolding pending_row
try_acquire req id now rows =
    if any (is_row req.user_id req.key) rows
    then (false, rows)
    else (true, rows ++ pending_row req id now ∷ [])

abbrev completed_row : ℕ → Headers → String → ℕ → IdempotencyRecord → IdempotencyRecord
completed_row status_code headers body now r = record r {
  status = completed;
  status_code = some status_code;
  response_headers = some headers;
  response_body = some body;
  completed_at = some now;
}

-- `IdempotencyRepository.mark_completed`
unfoldable pub mark_completed :
    ℕ → String → ℕ → Headers → String → ℕ → List IdempotencyRecord → List IdempotencyRecord
mark_completed user_id key status_code headers body now rows =
    update_where (is_row user_id key) (completed_row status_code headers body now) rows

-- `IdempotencyRepository.release`
unfoldable pub release : ℕ → String → List IdempotencyRecord → List IdempotencyRecord
release user_id key rows =
    select (λ (r : IdempotencyRecord). not (is_row user_id key r && not (is_completed r.status)))
      rows

-- `completed_at < cutoff`; a comparison with NULL does not hold
abbrev older : Option ℕ → ℕ → ℕ → Bool
older none ttl now = false
older (some t) ttl now = ltb (t + ttl) now

abbrev pub stale_pending : ℕ → IdempotencyRecord → Bool
stale_pending now r = not (is_completed r.status) && ltb (r.created_at + pending_ttl) now

abbrev pub stale_completed : ℕ → IdempotencyRecord → Bool
stale_completed now r = is_completed r.status && older r.completed_at completed_ttl now

-- `IdempotencyRepository.cleanup_expired`: the two numbers of deleted rows, and the table after
unfoldable pub cleanup_expired : ℕ → List IdempotencyRecord → (ℕ × ℕ) × List IdempotencyRecord
cleanup_expired now rows =
    let rest = select (λ r. not (stale_pending now r)) rows in
    (
      (count (stale_pending now) rows, count (stale_completed now) rest),
      select (λ r. not (stale_completed now r)) rest,
    )

pub record AcquireResult : Type 0 where
  pub acquired : Bool
  pub cached_record : Option IdempotencyRecord

-- the part of `process_acquire` after a conflict: `existing` is what `find` returns then
unfoldable pub resolve_conflict : Option IdempotencyRecord → KeyedRequest → Result AcquireResult
resolve_conflict none req = err idempotency_in_progress
resolve_conflict (some existing) req =
    if not (existing.method === req.method) || not (existing.path === req.path)
    then err idempotency_key_conflict
    else if not (existing.request_fingerprint === req.fingerprint)
    then err idempotency_body_mismatch
    else if is_completed existing.status
    then ok (record { acquired = false; cached_record = some existing })
    else err idempotency_in_progress

-- `process_acquire`, where no other session commits between its two statements
unfoldable pub process_acquire :
    KeyedRequest → ℕ → ℕ → Handler (List IdempotencyRecord) AcquireResult
unfolding try_acquire resolve_conflict find_record
process_acquire req id now rows =
    let (acquired, rows') = try_acquire req id now rows in
    if acquired
    then ok (record { acquired = true; cached_record = none }, rows')
    else (resolve_conflict (find_record req.user_id req.key rows') req >>= λ r. ok (r, rows'))

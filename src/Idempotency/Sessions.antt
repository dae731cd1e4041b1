-- ===== src/Idempotency/Sessions.antt =====
-- app/core/idempotency/middleware.py, with any number of requests at once. The INSERT is not committed
-- until the router is back: PostgreSQL lets another INSERT of the same user and key wait for that
-- transaction, and shows its row to nobody else. If the process ends, the transaction is undone.
pub mod Invariant
pub mod Commit
pub mod Replay
use household_back.Base.{
  ◌==◌, if◌then◌else◌, ℕ, ◌+◌, String, ◌≡◌, refl, Bool, true, false, Option, none, some, List, [],
  ◌∷◌, ◌++◌, arith,
}
use household_back.Core.{ErrorCode, Result, err, ok, ◌>>=◌, ◌>>◌}
use household_back.Idempotency.Store.{
  IdempotencyRecord, KeyedRequest, AcquireResult, is_row, find_record, pending_row, try_acquire,
  cleanup_expired, resolve_conflict,
}
use household_back.Idempotency.Middleware.{HttpResponse, build_cached_response, settle}

-- where the handler of a request stands
pub data Phase : Type 0 where
  idle : Phase
  -- the INSERT met a committed row, and `find` comes next
  conflicted : KeyedRequest → Phase
  -- the row is inserted, and the router runs
  running : KeyedRequest → IdempotencyRecord → Phase
  -- the router is back
  returned : KeyedRequest → IdempotencyRecord → Option HttpResponse → Phase

-- whether the transaction holds an uncommitted row of that user and key
abbrev pub holds : ℕ → String → Phase → Bool
holds user_id key idle = false
holds user_id key (conflicted req) = false
holds user_id key (running req row) = is_row user_id key row
holds user_id key (returned req row response) = is_row user_id key row

pub data Outcome : Type 0 where
  ran : KeyedRequest → Outcome
  refusal : KeyedRequest → ErrorCode → Outcome
  replay : KeyedRequest → HttpResponse → Outcome

-- `rows` are the committed rows, `phase` gives each handler's place, and `history` is what happened,
-- the last first.
pub record System : Type 0 where
  pub rows : List IdempotencyRecord
  pub phase : ℕ → Phase
  pub history : List Outcome

abbrev pub init : System
init = record { rows = []; phase = λ _. idle; history = [] }

abbrev pub set_phase : (ℕ → Phase) → ℕ → Phase → ℕ → Phase
set_phase f i p j = if i == j then p else f j

abbrev pub move : System → ℕ → Phase → System
move s i p = record s { phase = set_phase s.phase i p }

abbrev pub acquired_phase : KeyedRequest → ℕ → ℕ → Bool × List IdempotencyRecord → Phase
unfolding pending_row
acquired_phase req id now (true, rows) = running req (pending_row req id now)
acquired_phase req id now (false, rows) = conflicted req

abbrev pub resolved : KeyedRequest → Result AcquireResult → Outcome
unfolding build_cached_response
resolved req (err code) = refusal req code
resolved req (ok result) = elim result.cached_record [
  | none ↦ ran req
  | some r ↦ replay req (build_cached_response r)
]

pub data Step (s : System) : System → Type 0 where
  -- `try_acquire`, once no open transaction holds the row
  acquire :
      (i : ℕ) (req : KeyedRequest) (id now : ℕ)
      → s.phase i ≡ idle
      → ((j : ℕ) → holds req.user_id req.key (s.phase j) ≡ false)
      → Step s (move s i (acquired_phase req id now (try_acquire req id now s.rows)))
  -- `find` and what follows a conflict
  resolve :
      (i : ℕ) (req : KeyedRequest)
      → s.phase i ≡ conflicted req
      → Step s (record (move s i idle) {
        history =
            resolved req (resolve_conflict (find_record req.user_id req.key s.rows) req)
            ∷ s.history;
      })
  -- the router answers, or raises
  respond :
      (i : ℕ) (req : KeyedRequest) (row : IdempotencyRecord) (response : Option HttpResponse)
      → s.phase i ≡ running req row
      → Step s (record (move s i (returned req row response)) { history = ran req ∷ s.history })
  -- the last statement and the commit
  complete :
      (i : ℕ) (req : KeyedRequest) (row : IdempotencyRecord) (response : Option HttpResponse)
      (now : ℕ)
      → s.phase i ≡ returned req row response
      → Step s (record (move s i idle) { rows = settle req response now (s.rows ++ row ∷ []) })
  -- the process ends: the transaction is undone
  crash : (i : ℕ) → Step s (move s i idle)
  -- the hourly job
  cleanup : (now : ℕ) → Step s (record s { rows = (cleanup_expired now s.rows).1 })

pub data Reach (s : System) : System → Type 0 where
  here : Reach s s
  next : {t u : System} → Reach s t → Step t u → Reach s u

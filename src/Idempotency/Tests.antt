-- ===== src/Idempotency/Tests.antt =====
-- The idempotency theorems at concrete requests.
use household_back.Base.{
  ℕ, suc, String, ◌≡◌, refl, ◌↔◌, false, Option, none, some, [], ◌∷◌, ◌++◌, arith,
}
use household_back.Core.{idempotency_in_progress, err}
use household_back.Idempotency.Store.{
  IdempotencyRecord, KeyedRequest, find_record, pending_row, try_acquire, resolve_conflict,
}
use household_back.Idempotency.Middleware.{
  HttpRequest, HttpResponse, Server, raised, answered, gate, settle, dispatch,
}
use household_back.Idempotency.Dispatch.{cached_reply, dispatch-dispatch, dispatch-failed}
use household_back.Idempotency.Sessions.{
  System, idle, running, returned, ran, replay, acquire, respond, Reach, here, next, init, move,
  resolved,
}
use household_back.Idempotency.Sessions.Replay.{start, in_progress_iff, runs, complete-replay}

-- Any text function stands in for the digest, and the application counts its rows.
abbrev digest : String → String
digest body = body

abbrev created : HttpResponse
created = record { status_code = 200; headers = []; body = "created" }

abbrev counting_router : HttpRequest → ℕ → Option HttpResponse × ℕ
counting_router http rows = (some created, suc rows)

abbrev failing_router : HttpRequest → ℕ → Option HttpResponse × ℕ
failing_router http rows = (none, rows)

abbrev post : HttpRequest
post = record {
  method = "POST";
  path = "/transaction/create";
  key_header = some "k1";
  user = some 4;
  body = "lunch";
}

abbrev lunch_request : KeyedRequest
lunch_request = record {
  user_id = 4;
  key = "k1";
  method = "POST";
  path = "/transaction/create";
  fingerprint = "lunch";
}

abbrev empty_server : Server ℕ
empty_server = record { rows = []; app = 0 }

gate_test : gate digest post ≡ some lunch_request
unfolding gate
gate_test = refl

dispatch-dispatch_example :
    let first = dispatch digest counting_router post 1 10 11 empty_server in
    (first.0 ≡ answered created)
    × (first.1.app ≡ 1)
    × (dispatch digest counting_router post 2 20 21 first.1
        ≡ (cached_reply lunch_request created lunch_request, first.1))
dispatch-dispatch_example =
    dispatch-dispatch digest counting_router post post lunch_request lunch_request 1 10 11 2 20 21
      empty_server created gate_test gate_test refl refl tt refl refl (omega arith) (omega arith)

dispatch-failed_example :
    dispatch digest failing_router post 1 10 11 empty_server ≡ (raised, empty_server)
dispatch-failed_example =
    dispatch-failed digest failing_router post lunch_request 1 10 11 empty_server gate_test tt refl
      refl

-- A first request runs, and another waits for nothing but its own conflict.
abbrev lunch_row : IdempotencyRecord
unfolding pending_row
lunch_row = pending_row lunch_request 1 10

abbrev started : System
started = move init 0 (running lunch_request lunch_row)

started-Reach : Reach init started
unfolding try_acquire pending_row
started-Reach = next here (acquire 0 lunch_request 1 10 refl (λ j. refl))

abbrev back : System
back = record (move started 0 (returned lunch_request lunch_row (some created))) {
  history = ran lunch_request ∷ [];
}

back-Reach : Reach init back
back-Reach = next started-Reach (respond 0 lunch_request lunch_row (some created) refl)

in_progress_iff_example :
    (resolve_conflict (find_record 4 "k1" started.rows) lunch_request ≡ err idempotency_in_progress)
    ↔ (find_record 4 "k1" started.rows ≡ none)
in_progress_iff_example = in_progress_iff lunch_request started-Reach

abbrev committed : System
committed = record (move back 0 idle) {
  rows = settle lunch_request (some created) 12 (back.rows ++ lunch_row ∷ []);
}

complete-replay_example :
    ((try_acquire lunch_request 2 30 committed.rows).0 ≡ false)
    × (resolved lunch_request (resolve_conflict (find_record 4 "k1" committed.rows) lunch_request)
        ≡ replay lunch_request created)
    × (runs 4 "k1" committed.history ≡ runs 4 "k1" back.history)
complete-replay_example =
    complete-replay 0 lunch_request lunch_row created 12 2 30 back-Reach refl (omega arith)
      (omega arith) start

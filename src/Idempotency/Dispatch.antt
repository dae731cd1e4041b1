-- ===== src/Idempotency/Dispatch.antt =====
-- app/core/idempotency/middleware.py: `dispatch`, one request after another.
use text.Mathlib.Text.{◌==◌ as ◌===◌}
use mathlib.Core.Path.{subst}
use household_back.Base.{
  All, find, any, leb, if◌then◌else◌, Bool-cases, ℕ, ◌<◌, String, ◌≡◌, refl, ap, ◌∙◌, ◌≢◌, inl, inr,
  Bool, true, false, not, ◌||◌, Option, none, some, List, [], ◌∷◌, ◌++◌, arith,
}
use household_back.Core.{idempotency_key_conflict, idempotency_body_mismatch, ok, ◌>>=◌}
use household_back.Idempotency.Store.{
  IdempotencyRecord, KeyedRequest, is_row, find_record, pending_row, resolve_conflict,
  process_acquire,
}
use household_back.Idempotency.Middleware.{
  acquired_or_refused, past_gate, dispatch, HttpRequest, HttpResponse, Server, Reply, refused,
  answered, build_cached_response, gate, settle, reply_of, dispatch,
}
use household_back.Idempotency.Rows.{
  any-of_find, find-append_miss, IsCompleted, done_row, after_run, settle-append, is_row_iff,
}
use household_back.Idempotency.Sessions.Replay.{cached_done_row}

-- what a request gets whose user and key have a completed row: nothing runs
abbrev pub cached_reply : KeyedRequest → HttpResponse → KeyedRequest → Reply
cached_reply first response req =
    if not (first.method === req.method) || not (first.path === req.path)
    then refused idempotency_key_conflict
    else if not (first.fingerprint === req.fingerprint)
    then refused idempotency_body_mismatch
    else answered response

process_acquire_new :
    (req : KeyedRequest) (id now : ℕ) (rows : List IdempotencyRecord)
    → any (is_row req.user_id req.key) rows ≡ false
    → process_acquire req id now rows
      ≡ ok (record { acquired = true; cached_record = none }, rows ++ pending_row req id now ∷ [])
unfolding process_acquire
process_acquire_new req id now rows free = rw free refl

process_acquire_old :
    (req : KeyedRequest) (id now : ℕ) (rows : List IdempotencyRecord) (r : IdempotencyRecord)
    → find (is_row req.user_id req.key) rows ≡ some r
    → process_acquire req id now rows ≡ (resolve_conflict (some r) req >>= λ a. ok (a, rows))
unfolding process_acquire find_record
process_acquire_old req id now rows r found =
    rw (any-of_find (is_row req.user_id req.key) rows r found)
      (ap (λ o. resolve_conflict o req >>= λ a. ok (a, rows)) found)

-- whether the router failed: it raised, or answered 500 or more
abbrev pub failed : Option HttpResponse → Bool
failed none = true
failed (some response) = leb 500 response.status_code

failed_rows :
    (rows : List IdempotencyRecord) (row : IdempotencyRecord) (response : Option HttpResponse)
    (end : ℕ)
    → failed response ≡ true
    → after_run rows row response end ≡ rows
failed_rows rows row none end h = refl
failed_rows rows row (some response) end h = rw h refl

module _ {App : Type 0} (sha256 : String → String)
    (router : HttpRequest → App → Option HttpResponse × App) where
  -- A key without a row: the router runs.
  pub dispatch_new :
      (http : HttpRequest) (req : KeyedRequest) (id now end : ℕ) (s : Server App)
      → gate sha256 http ≡ some req
      → any (is_row req.user_id req.key) s.rows ≡ false
      → dispatch sha256 router http id now end s ≡ (
        reply_of (router http s.app).0,
        record s {
          rows = settle req (router http s.app).0 end (s.rows ++ pending_row req id now ∷ []);
          app = (router http s.app).1;
        },
      )
  unfolding dispatch settle build_cached_response process_acquire
  dispatch_new http req id now end s g free =
      ap (past_gate router http id now end s) g
      ∙ ap (acquired_or_refused (router http) req end s)
          (process_acquire_new req id now s.rows free)

  -- A key with a completed row: the row decides, and nothing changes.
  dispatch_old :
      (http : HttpRequest) (req : KeyedRequest) (id now end : ℕ) (s : Server App)
      (first : KeyedRequest) (response : HttpResponse) (done id' : ℕ) (start : ℕ)
      → gate sha256 http ≡ some req
      → response.status_code ≢ 0
      → find (is_row req.user_id req.key) s.rows
        ≡ some (done_row (pending_row first id' start) response done)
      → dispatch sha256 router http id now end s ≡ (cached_reply first response req, s)
  unfolding dispatch settle build_cached_response process_acquire resolve_conflict pending_row
  dispatch_old http req id now end s first response done id' start g not_zero found =
      ap (past_gate router http id now end s) g
      ∙ ap (acquired_or_refused (router http) req end s)
          (process_acquire_old req id now s.rows _ found)
      ∙ elim (Bool-cases (not (first.method === req.method) || not (first.path === req.path))) [
        | inl other_place ↦ rw other_place refl
        | inr same_place ↦ elim (Bool-cases (not (first.fingerprint === req.fingerprint))) [
          | inl other_body ↦ rw (same_place, other_body) refl
          | inr same_body ↦
              rw (same_place, same_body)
                (ap (λ r. (answered r, s))
                  (cached_done_row (pending_row first id' start) response done not_zero))
        ]
      ]

  first_row :
      (req req' : KeyedRequest) (id now end : ℕ) (rows : List IdempotencyRecord)
      (response : HttpResponse)
      → All IsCompleted rows
      → any (is_row req.user_id req.key) rows ≡ false
      → response.status_code < 500
      → req.user_id ≡ req'.user_id
      → req.key ≡ req'.key
      → find
          (is_row req'.user_id req'.key)
          (settle req (some response) end (rows ++ pending_row req id now ∷ []))
        ≡ some (done_row (pending_row req id now) response end)
  unfolding pending_row
  first_row req req' id now end rows response h free fine same_user same_text =
      let mine = (is_row_iff req.user_id req.key (pending_row req id now)).1 (refl, refl) in
      ap (find (is_row req'.user_id req'.key)) (
        settle-append req (some response) end rows (pending_row req id now) h free mine refl
        ∙ rw (low response.status_code fine) refl)
      ∙ find-append_miss (is_row req'.user_id req'.key) rows
          (done_row (pending_row req id now) response end ∷ [])
          (subst (λ u. any (is_row u req'.key) rows ≡ false) same_user
            (subst (λ t. any (is_row req.user_id t) rows ≡ false) same_text free))
      ∙ rw ((is_row_iff req'.user_id req'.key (pending_row req id now)).1 (same_user, same_text))
          refl
    where
      low : (n : ℕ) → n < 500 → leb 500 n ≡ false
      low n k = ground arith

  -- Two keyed requests of one user and key, one after the other, on completed rows without that
  -- key: if the router answers the first with a status other than 0 and below 500, the first is
  -- answered so, and the second changes nothing and gets a conflict error for another method or
  -- path, a mismatch error for another body, and the same response otherwise.
  pub dispatch-dispatch :
      (http http' : HttpRequest) (req req' : KeyedRequest) (id now end id' now' end' : ℕ)
      (s : Server App) (response : HttpResponse)
      → gate sha256 http ≡ some req
      → gate sha256 http' ≡ some req'
      → req.user_id ≡ req'.user_id
      → req.key ≡ req'.key
      → All IsCompleted s.rows
      → any (is_row req.user_id req.key) s.rows ≡ false
      → (router http s.app).0 ≡ some response
      → response.status_code ≢ 0
      → response.status_code < 500
      → let first = dispatch sha256 router http id now end s in
        (first.0 ≡ answered response)
        × (first.1.app ≡ (router http s.app).1)
        × (dispatch sha256 router http' id' now' end' first.1
            ≡ (cached_reply req response req', first.1))
  dispatch-dispatch http http' req req' id now end id' now' end' s response g g' same_user same_text
        h free answer not_zero fine =
      let ran = dispatch_new http req id now end s g free in
      (
        ap (λ (p : Reply × Server App). p.0) ran ∙ ap reply_of answer,
        ap (λ (p : Reply × Server App). p.1.app) ran,
        dispatch_old http' req' id' now' end' (dispatch sha256 router http id now end s).1 req
            response end id now g' not_zero
            (ap (λ (p : Reply × Server App). find (is_row req'.user_id req'.key) p.1.rows) ran
              ∙ ap
                  (λ o.
                    find (is_row req'.user_id req'.key)
                      (settle req o end (s.rows ++ pending_row req id now ∷ [])))
                  answer
              ∙ first_row req req' id now end s.rows response h free fine same_user same_text),
      )

  -- If the router raises, or answers with a status of 500 or more, to a keyed request on completed
  -- rows without its key, the request leaves no row behind, so a retry runs the router again.
  pub dispatch-failed :
      (http : HttpRequest) (req : KeyedRequest) (id now end : ℕ) (s : Server App)
      → gate sha256 http ≡ some req
      → All IsCompleted s.rows
      → any (is_row req.user_id req.key) s.rows ≡ false
      → failed (router http s.app).0 ≡ true
      → dispatch sha256 router http id now end s
        ≡ (reply_of (router http s.app).0, record s { app = (router http s.app).1 })
  dispatch-failed http req id now end s g h free bad =
      dispatch_new http req id now end s g free
      ∙ ap
          (λ l.
            (reply_of (router http s.app).0, record s { rows = l; app = (router http s.app).1 }))
          (settle-append req (router http s.app).0 end s.rows (pending_row req id now) h free
              ((is_row_iff req.user_id req.key (pending_row req id now)).1
                (unfold pending_row in (refl, refl)))
              (unfold pending_row in refl)
            ∙ failed_rows s.rows (pending_row req id now) (router http s.app).0 end bad)

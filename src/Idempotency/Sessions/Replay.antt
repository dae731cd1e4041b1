-- ===== src/Idempotency/Sessions/Replay.antt =====
-- core/idempotency: what the key of a request is good for, with any number of requests at once.
use mathlib.Core.Path.{subst}
use text.Mathlib.Text.{◌==◌ as ◌===◌}
use text.Mathlib.TextEquality.{eq_iff}
use household_back.Base.{
  find, any, count, find-All, ltb, leb, ◌==◌, ==_iff, Bool-cases, Option-cases, ℕ, ◌+◌, ◌≤◌, ◌<◌,
  String, ◌≡◌, refl, sym, ap, ◌∙◌, ◌≢◌, ◌↔◌, inl, inr, Bool, true, false, not, ◌&&◌, Option, none,
  some, List, [], ◌∷◌, ◌++◌, arith,
}
use household_back.Core.{idempotency_in_progress, err, ok}
use household_back.Idempotency.Store.{
  IdempotencyRecord, KeyedRequest, is_row, completed_ttl, find_record, try_acquire, stale_pending,
  stale_completed, cleanup_expired, resolve_conflict,
}
use household_back.Idempotency.Middleware.{HttpResponse, build_cached_response, settle}
use household_back.Idempotency.Rows.{
  any-of_find, find-append, find-append_miss, find-select, IsCompleted, done_row, after_run,
  is_row_iff,
}
use household_back.Idempotency.Sessions.{
  System, idle, running, returned, Outcome, ran, replay, Step, acquire, resolve, respond, complete,
  crash, cleanup, Reach, init, move, resolved,
}
use household_back.Idempotency.Sessions.Invariant.{Belongs, IsSound, OwnRow}
use household_back.Idempotency.Sessions.Commit.{complete_rows, Step-IsSound, reachable-IsSound}

not_in_progress :
    (req : KeyedRequest) (r : IdempotencyRecord)
    → IsCompleted r
    → resolve_conflict (some r) req ≢ err idempotency_in_progress
unfolding resolve_conflict
not_in_progress req r finished h = ground arith

-- In every reachable state a request that met a conflict is answered IDEMPOTENCY_IN_PROGRESS
-- exactly when the row is gone by then: no committed row is ever pending.
pub in_progress_iff :
    {s : System} (req : KeyedRequest)
    → Reach init s
    → (resolve_conflict (find_record req.user_id req.key s.rows) req ≡ err idempotency_in_progress)
      ↔ (find_record req.user_id req.key s.rows ≡ none)
unfolding find_record
in_progress_iff {s} req r = (
  λ e. elim (Option-cases (find (is_row req.user_id req.key) s.rows)) [
    | inl none_there ↦ none_there
    | inr (row, found) ↦ absurd (
        not_in_progress req row
          (find-All IsCompleted (is_row req.user_id req.key) s.rows row (reachable-IsSound r).done
            found)
          (ap (λ o. resolve_conflict o req) (sym found) ∙ e))
  ],
  λ e. rw e (unfold resolve_conflict in refl),
)

-- the time that a step reads
abbrev pub clock : {s t : System} → Step s t → ℕ
clock (acquire i req id now e no_lock) = 0
clock (resolve i req e) = 0
clock (respond i req row response e) = 0
clock (complete i req row response now e) = 0
clock (crash i) = 0
clock (cleanup now) = now

-- steps in which no cleanup runs after the deadline
pub data Before (deadline : ℕ) (s : System) : System → Type 0 where
  start : Before deadline s s
  later :
      {t u : System}
      → Before deadline s t
      → (st : Step t u) → clock st ≤ deadline
      → Before deadline s u

-- how often the router ran for a user and key
abbrev run_of : ℕ → String → Outcome → Bool
run_of user_id key (ran req) = req.user_id == user_id && req.key === key
run_of user_id key _ = false

abbrev pub runs : ℕ → String → List Outcome → ℕ
runs user_id key history = count (run_of user_id key) history

resolved_not_run :
    (user_id : ℕ) (key : String) (req : KeyedRequest) (o : Option IdempotencyRecord)
    (l : List Outcome)
    → runs user_id key (resolved req (resolve_conflict o req) ∷ l) ≡ runs user_id key l
unfolding resolve_conflict resolved
resolved_not_run user_id key req none l = refl
resolved_not_run user_id key req (some r) l = ground arith

module _ (user_id : ℕ) (key : String) (d : IdempotencyRecord) (since : ℕ) (finished : IsCompleted d)
    (dated : d.completed_at ≡ some since) where
  abbrev IsKept : System → Type 0
  IsKept s = find (is_row user_id key) s.rows ≡ some d

  kept_cleanup :
      (rows : List IdempotencyRecord) (now : ℕ)
      → find (is_row user_id key) rows ≡ some d
      → now ≤ since + completed_ttl
      → find (is_row user_id key) (cleanup_expired now rows).1 ≡ some d
  unfolding cleanup_expired
  kept_cleanup rows now h k =
      find-select (is_row user_id key) (λ r. not (stale_completed now r)) _ d
        (find-select (is_row user_id key) (λ r. not (stale_pending now r)) rows d h (rw finished))
        (rw (finished, dated) (in_time since k))
    where
      in_time : (t : ℕ) → now ≤ t + completed_ttl → not (ltb (t + completed_ttl) now) ≡ true
      in_time t e = ground arith

  kept_after_run :
      (rows : List IdempotencyRecord) (row : IdempotencyRecord) (response : Option HttpResponse)
      (now : ℕ)
      → find (is_row user_id key) rows ≡ some d
      → find (is_row user_id key) (after_run rows row response now) ≡ some d
  kept_after_run rows row none now h = h
  kept_after_run rows row (some response) now h = elim (Bool-cases (leb 500 response.status_code)) [
    | inl e ↦ rw e h
    | inr e ↦ rw e (find-append (is_row user_id key) rows _ d h)
  ]

  -- While the row is there, no open transaction is of its key.
  other_key :
      (s : System) (i : ℕ) (req : KeyedRequest) (row : IdempotencyRecord)
      → IsSound s
      → IsKept s
      → s.phase i ≡ running req row
      → run_of user_id key (ran req) ≡ false
  other_key s i req row h k e = elim (Bool-cases (run_of user_id key (ran req))) [
    | inl hit ↦ absurd (
        clash (h.free i user_id key (rw e (same (subst OwnRow e (h.own i)) hit)))
          (any-of_find (is_row user_id key) s.rows d k))
    | inr miss ↦ miss
  ]
    where
      clash : {b : Bool} → b ≡ false → b ≡ true → ⊥
      clash p q = cc

      both : (a b : Bool) → (a && b) ≡ true → (a ≡ true) × (b ≡ true)
      both a b p = ground arith

      same : Belongs req row → run_of user_id key (ran req) ≡ true → is_row user_id key row ≡ true
      same own_row hit =
          let (p, q) = both (req.user_id == user_id) (req.key === key) hit in
          let (a, b) = (is_row_iff req.user_id req.key row).0 own_row.mine in
          (is_row_iff user_id key row).1
            (a ∙ (==_iff req.user_id user_id).0 p, b ∙ (eq_iff req.key key).0 q)

  IsKept-Step :
      {s t : System} (st : Step s t)
      → IsSound s
      → IsKept s
      → clock st ≤ since + completed_ttl
      → IsKept t × (runs user_id key t.history ≡ runs user_id key s.history)
  unfolding find_record
  IsKept-Step (acquire i req id now e no_lock) h k c = (k, refl)
  IsKept-Step {s} (resolve i req e) h k c =
      (k, resolved_not_run user_id key req (find_record req.user_id req.key s.rows) s.history)
  IsKept-Step {s} (respond i req row response e) h k c = (k, rw (other_key s i req row h k e))
  IsKept-Step {s} (complete i req row response now e) h k c = (
    rw (complete_rows s i req row response now h e) (kept_after_run s.rows row response now k),
    refl,
  )
  IsKept-Step (crash i) h k c = (k, refl)
  IsKept-Step {s} (cleanup now) h k c = (kept_cleanup s.rows now k c, refl)

  IsKept-Before :
      {s t : System}
      → Before (since + completed_ttl) s t
      → IsSound s
      → IsKept s
      → IsSound t × IsKept t × (runs user_id key t.history ≡ runs user_id key s.history)
  IsKept-Before start h k = (h, k, refl)
  IsKept-Before (later b st c) h k =
      let (h', k', same) = IsKept-Before b h k in
      let (k'', same') = IsKept-Step st h' k' c in (Step-IsSound st h', k'', same' ∙ same)

pub resolve_conflict_same :
    (req : KeyedRequest) (r : IdempotencyRecord)
    → r.method ≡ req.method
    → r.path ≡ req.path
    → r.request_fingerprint ≡ req.fingerprint
    → IsCompleted r
    → resolve_conflict (some r) req ≡ ok (record { acquired = false; cached_record = some r })
unfolding resolve_conflict
resolve_conflict_same req r same_method same_path same_print finished =
    rw
      (
        (eq_iff r.method req.method).1 same_method,
        (eq_iff r.path req.path).1 same_path,
        (eq_iff r.request_fingerprint req.fingerprint).1 same_print,
        finished,
      )
      refl

pub cached_done_row :
    (row : IdempotencyRecord) (response : HttpResponse) (now : ℕ)
    → response.status_code ≢ 0
    → build_cached_response (done_row row response now) ≡ response
unfolding build_cached_response
cached_done_row row response now h = rw (not_zero response.status_code h) refl
  where
    not_zero : (n : ℕ) → n ≢ 0 → (n == 0) ≡ false
    not_zero n k = ground arith

try_acquire-fails :
    (req : KeyedRequest) (id now : ℕ) (rows : List IdempotencyRecord)
    → any (is_row req.user_id req.key) rows ≡ true
    → (try_acquire req id now rows).0 ≡ false
unfolding try_acquire
try_acquire-fails req id now rows h = rw h refl

-- In every reachable state, for a handler whose router answered with a status other than 0 and
-- below 500: after its commit, and after any steps in which no cleanup runs more than 24 hours
-- later, no request of the same user and key acquires the key, the same request is answered with
-- the stored response, and the router has not run for that user and key again.
pub complete-replay :
    {s u : System} (i : ℕ) (req : KeyedRequest) (row : IdempotencyRecord) (response : HttpResponse)
    (now id later_now : ℕ)
    → Reach init s
    → s.phase i ≡ returned req row (some response)
    → response.status_code ≢ 0
    → response.status_code < 500
    → Before
        (now + completed_ttl)
        (record (move s i idle) { rows = settle req (some response) now (s.rows ++ row ∷ []) })
        u
    → ((try_acquire req id later_now u.rows).0 ≡ false)
      × (resolved req (resolve_conflict (find_record req.user_id req.key u.rows) req)
          ≡ replay req response)
      × (runs req.user_id req.key u.history ≡ runs req.user_id req.key s.history)
unfolding find_record
complete-replay {s} {u} i req row response now id later_now r e not_zero fine b =
    let h = reachable-IsSound r in
    let own_row = subst OwnRow e (h.own i) in
    let d = done_row row response now in
    let free = h.free i req.user_id req.key (rw e own_row.mine) in
    let committed =
      complete_rows s i req row (some response) now h e ∙ rw (low response.status_code fine) refl in
    let found : find (is_row req.user_id req.key)
          (settle req (some response) now (s.rows ++ row ∷ []))
        ≡ some d =
      ap (find (is_row req.user_id req.key)) committed
      ∙ find-append_miss (is_row req.user_id req.key) s.rows (d ∷ []) free
      ∙ rw own_row.mine refl in
    let (_, kept, same) =
      IsKept-Before req.user_id req.key d now refl refl b
        (Step-IsSound (complete i req row (some response) now e) h) found in
    (
      try_acquire-fails req id later_now u.rows
          (any-of_find (is_row req.user_id req.key) u.rows d kept),
      ap (λ o. resolved req (resolve_conflict o req)) kept
          ∙ ap (resolved req) (
              resolve_conflict_same req d own_row.same_method own_row.same_path own_row.same_print
                refl)
          ∙ unfold resolved in ap (replay req) (cached_done_row row response now not_zero),
      same,
    )
  where
    low : (n : ℕ) → n < 500 → leb 500 n ≡ false
    low n k = ground arith

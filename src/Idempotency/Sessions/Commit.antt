-- ===== src/Idempotency/Sessions/Commit.antt =====
-- core/idempotency: the steps that change the committed rows, and every reachable state.
use mathlib.Core.Path.{subst}
use household_back.Base.{
  select, any, All-append, leb, ◌==◌, ==_iff, Bool-cases, ℕ, String, ◌≡◌, refl, sym, ◌∙◌, inl, inr,
  Bool, true, false, not, Option, none, some, [], ◌∷◌, ◌++◌,
}
use household_back.Idempotency.Store.{
  IdempotencyRecord, KeyedRequest, is_row, stale_pending, stale_completed, cleanup_expired,
}
use household_back.Idempotency.Middleware.{HttpResponse, settle}
use household_back.Idempotency.Rows.{
  any-append, any-select, All-select, IsCompleted, done_row, after_run, settle-append, is_row_iff,
  Unique-select, Unique-append,
}
use household_back.Idempotency.Sessions.{
  System, idle, returned, Step, acquire, resolve, respond, complete, crash, cleanup, Reach, here,
  next, holds, init, set_phase, move,
}
use household_back.Idempotency.Sessions.Invariant.{
  IsSound, OwnRow, set_phase_cases, with_history, idle-IsSound, returned-IsSound, acquired-IsSound,
}

-- What a handler commits.
pub complete_rows :
    (s : System) (i : ℕ) (req : KeyedRequest) (row : IdempotencyRecord)
    (response : Option HttpResponse) (now : ℕ)
    → IsSound s
    → s.phase i ≡ returned req row response
    → settle req response now (s.rows ++ row ∷ []) ≡ after_run s.rows row response now
complete_rows s i req row response now h e =
    let own_row = subst OwnRow e (h.own i) in
    settle-append req response now s.rows row h.done
      (h.free i req.user_id req.key (rw e own_row.mine)) own_row.mine own_row.still_open

-- A row of its key is committed by the one transaction that held it.
added-IsSound :
    (s : System) (i : ℕ) (req : KeyedRequest) (row : IdempotencyRecord)
    (response : Option HttpResponse) (d : IdempotencyRecord)
    → IsSound s
    → s.phase i ≡ returned req row response
    → d.user_id ≡ row.user_id
    → d.key ≡ row.key
    → IsCompleted d
    → IsSound (record (move s i idle) { rows = s.rows ++ d ∷ [] })
added-IsSound s i req row response d h e same_user same_text finished =
    let k = idle-IsSound s i h in
    record {
      done = All-append IsCompleted s.rows (d ∷ []) h.done (finished, tt);
      unique = Unique-append s.rows d h.unique (
          subst (λ u. any (is_row u d.key) s.rows ≡ false) (sym same_user)
            (subst (λ t. any (is_row row.user_id t) s.rows ≡ false) (sym same_text)
              (h.free i row.user_id row.key
                (rw e ((is_row_iff row.user_id row.key row).1 (refl, refl))))));
      own = k.own;
      free = free_after;
      alone = k.alone;
    }
  where
    row_key :
        (user_id : ℕ) (key : String) → is_row user_id key d ≡ true → is_row user_id key row ≡ true
    row_key user_id key k =
        let (a, b) = (is_row_iff user_id key d).0 k in
        (is_row_iff user_id key row).1 (sym same_user ∙ a, sym same_text ∙ b)

    clash : {b : Bool} → b ≡ false → b ≡ true → ⊥
    clash p q = cc

    missing :
        (j user_id : ℕ) (key : String)
        → (i == j) ≡ false
        → holds user_id key (s.phase j) ≡ true
        → any (is_row user_id key) (s.rows ++ d ∷ []) ≡ false
    missing j user_id key apart held =
        any-append (is_row user_id key) s.rows d
        ∙ rw (h.free j user_id key held) (elim (Bool-cases (is_row user_id key d)) [
          | inl hit ↦ absurd (
              clash apart
                ((==_iff i j).1 (h.alone i j user_id key (rw e (row_key user_id key hit)) held)))
          | inr miss ↦ miss
        ])

    free_after :
        (j user_id : ℕ) (key : String)
        → holds user_id key (set_phase s.phase i idle j) ≡ true
        → any (is_row user_id key) (s.rows ++ d ∷ []) ≡ false
    free_after j user_id key =
        set_phase_cases
          (λ q. holds user_id key q ≡ true → any (is_row user_id key) (s.rows ++ d ∷ []) ≡ false)
          s.phase i idle j (λ _ k. cc) (λ apart. missing j user_id key apart)

completed-IsSound :
    (s : System) (i : ℕ) (req : KeyedRequest) (row : IdempotencyRecord)
    (response : Option HttpResponse) (now : ℕ)
    → IsSound s
    → s.phase i ≡ returned req row response
    → IsSound (record (move s i idle) { rows = after_run s.rows row response now })
completed-IsSound s i req row none now h e = idle-IsSound s i h
completed-IsSound s i req row (some response) now h e =
    elim (Bool-cases (leb 500 response.status_code)) [
      | inl failed ↦ rw failed (idle-IsSound s i h)
      | inr fine ↦
          rw fine (
            added-IsSound s i req row (some response) (done_row row response now) h e refl refl
              refl)
    ]

cleaned-IsSound :
    (s : System) (now : ℕ)
    → IsSound s
    → IsSound (record s { rows = (cleanup_expired now s.rows).1 })
unfolding cleanup_expired
cleaned-IsSound s now h =
    let fresh = λ (r : IdempotencyRecord). not (stale_pending now r) in
    let kept = λ (r : IdempotencyRecord). not (stale_completed now r) in
    record {
      done =
          All-select (λ _. true) IsCompleted kept (select fresh s.rows)
            (All-select (λ _. true) IsCompleted fresh s.rows h.done);
      unique = Unique-select kept (select fresh s.rows) (Unique-select fresh s.rows h.unique);
      own = h.own;
      free = λ i user_id key held.
          any-select (is_row user_id key) kept (select fresh s.rows)
            (any-select (is_row user_id key) fresh s.rows (h.free i user_id key held));
      alone = h.alone;
    }

pub Step-IsSound : {s t : System} → Step s t → IsSound s → IsSound t
Step-IsSound {s} (acquire i req id now e no_lock) h = acquired-IsSound s i req id now h no_lock
Step-IsSound {s} (resolve i req e) h = with_history _ (idle-IsSound s i h)
Step-IsSound {s} (respond i req row response e) h =
    with_history _ (returned-IsSound s i req row response h e)
Step-IsSound {s} (complete i req row response now e) h =
    subst (λ l. IsSound (record (move s i idle) { rows = l }))
      (sym (complete_rows s i req row response now h e))
      (completed-IsSound s i req row response now h e)
Step-IsSound {s} (crash i) h = idle-IsSound s i h
Step-IsSound {s} (cleanup now) h = cleaned-IsSound s now h

init-IsSound : IsSound init
init-IsSound = record {
  done = tt;
  unique = tt;
  own = λ i. tt;
  free = λ i user_id key k. refl;
  alone = λ i j user_id key k. cc;
}

pub Reach-IsSound : {s t : System} → Reach s t → IsSound s → IsSound t
Reach-IsSound here h = h
Reach-IsSound (next r st) h = Step-IsSound st (Reach-IsSound r h)

pub reachable-IsSound : {s : System} → Reach init s → IsSound s
reachable-IsSound r = Reach-IsSound r init-IsSound

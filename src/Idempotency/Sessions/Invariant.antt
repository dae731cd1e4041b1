-- ===== src/Idempotency/Sessions/Invariant.antt =====
-- core/idempotency: what holds in every state that the sessions reach.
use household_back.Base.{
  All, any, ◌==◌, ==_iff, Bool-cases, ℕ, String, ◌≡◌, refl, sym, ◌∙◌, ◌⊎◌, inl, inr, Bool, true,
  false, Option, List,
}
use household_back.Idempotency.Store.{
  IdempotencyRecord, KeyedRequest, is_completed, is_row, pending_row, try_acquire,
}
use household_back.Idempotency.Middleware.{HttpResponse}
use mathlib.Core.Path.{subst}
use household_back.Idempotency.Rows.{IsCompleted, is_row_iff, is_row_trans, Unique}
use household_back.Idempotency.Sessions.{
  System, Phase, idle, conflicted, running, returned, Outcome, holds, set_phase, move,
  acquired_phase,
}

-- an open transaction's row is pending, and the row of its request
pub record Belongs (req : KeyedRequest) (row : IdempotencyRecord) : Type 0 where
  pub mine : is_row req.user_id req.key row ≡ true
  pub still_open : is_completed row.status ≡ false
  pub same_method : row.method ≡ req.method
  pub same_path : row.path ≡ req.path
  pub same_print : row.request_fingerprint ≡ req.fingerprint

abbrev pub OwnRow : Phase → Type 0
OwnRow idle = Unit
OwnRow (conflicted req) = Unit
OwnRow (running req row) = Belongs req row
OwnRow (returned req row response) = Belongs req row

pub record IsSound (s : System) : Type 0 where
  pub done : All IsCompleted s.rows
  pub unique : Unique s.rows
  pub own : (i : ℕ) → OwnRow (s.phase i)
  pub free :
      (i user_id : ℕ) (key : String)
      → holds user_id key (s.phase i) ≡ true
      → any (is_row user_id key) s.rows ≡ false
  pub alone :
      (i j user_id : ℕ) (key : String)
      → holds user_id key (s.phase i) ≡ true
      → holds user_id key (s.phase j) ≡ true
      → i ≡ j

-- `set_phase` at an index, by cases on the index
pub set_phase_cases :
    (P : Phase → Type 0) (f : ℕ → Phase) (i : ℕ) (p : Phase) (j : ℕ)
    → (i ≡ j → P p)
    → ((i == j) ≡ false → P (f j))
    → P (set_phase f i p j)
set_phase_cases P f i p j same apart = elim (Bool-cases (i == j)) [
  | inl e ↦ rw e (same ((==_iff i j).0 e))
  | inr e ↦ rw e (apart e)
]

-- A step that moves one handler and leaves the rows.
module _ (s : System) (h : IsSound s) (i : ℕ) (p : Phase) (own_row : OwnRow p) where
  own_move : (j : ℕ) → OwnRow (set_phase s.phase i p j)
  own_move j = set_phase_cases OwnRow s.phase i p j (λ _. own_row) (λ _. h.own j)

  -- what the moved handler holds, if it held nothing before or keeps what it held
  module _
      (fresh : (user_id : ℕ) (key : String)
        → holds user_id key p ≡ true
        → (any (is_row user_id key) s.rows ≡ false)
          × ((j : ℕ) → holds user_id key (s.phase j) ≡ true → i ≡ j)) where
    free_move :
        (j user_id : ℕ) (key : String)
        → holds user_id key (set_phase s.phase i p j) ≡ true
        → any (is_row user_id key) s.rows ≡ false
    free_move j user_id key =
        set_phase_cases (λ q. holds user_id key q ≡ true → any (is_row user_id key) s.rows ≡ false)
          s.phase i p j (λ _ k. (fresh user_id key k).0) (λ _. h.free j user_id key)

    alone_move :
        (j l user_id : ℕ) (key : String)
        → holds user_id key (set_phase s.phase i p j) ≡ true
        → holds user_id key (set_phase s.phase i p l) ≡ true
        → j ≡ l
    alone_move j l user_id key =
        set_phase_cases
          (λ q.
            holds user_id key q ≡ true → holds user_id key (set_phase s.phase i p l) ≡ true → j ≡ l)
          s.phase i p j
          (λ e k.
            set_phase_cases (λ q. holds user_id key q ≡ true → j ≡ l) s.phase i p l
              (λ e' _. sym e ∙ e') (λ _ k'. sym e ∙ (fresh user_id key k).1 l k'))
          (λ _ k.
            set_phase_cases (λ q. holds user_id key q ≡ true → j ≡ l) s.phase i p l
              (λ e' k'. sym ((fresh user_id key k').1 j k) ∙ e')
              (λ _ k'. h.alone j l user_id key k k'))

    move-IsSound : IsSound (move s i p)
    move-IsSound = record {
      done = h.done;
      unique = h.unique;
      own = own_move;
      free = free_move;
      alone = alone_move;
    }

abbrev Fresh : System → ℕ → Phase → Type 0
Fresh s i p =
    (user_id : ℕ) (key : String)
    → holds user_id key p ≡ true
    → (any (is_row user_id key) s.rows ≡ false)
      × ((j : ℕ) → holds user_id key (s.phase j) ≡ true → i ≡ j)

pub with_history : {s : System} (l : List Outcome) → IsSound s → IsSound (record s { history = l })
with_history l h = record {
  done = h.done;
  unique = h.unique;
  own = h.own;
  free = h.free;
  alone = h.alone;
}

-- A handler that holds nothing any more.
pub idle-IsSound : (s : System) (i : ℕ) → IsSound s → IsSound (move s i idle)
idle-IsSound s i h = move-IsSound s h i idle tt (λ user_id key k. cc)

pub conflicted-IsSound :
    (s : System) (i : ℕ) (req : KeyedRequest) → IsSound s → IsSound (move s i (conflicted req))
conflicted-IsSound s i req h = move-IsSound s h i (conflicted req) tt (λ user_id key k. cc)

-- A new row, of a key that no committed row and no open transaction has.
running-IsSound :
    (s : System) (i : ℕ) (req : KeyedRequest) (row : IdempotencyRecord)
    → IsSound s
    → Belongs req row
    → any (is_row req.user_id req.key) s.rows ≡ false
    → ((j : ℕ) → holds req.user_id req.key (s.phase j) ≡ false)
    → IsSound (move s i (running req row))
running-IsSound s i req row h own_row none_there no_lock =
    move-IsSound s h i (running req row) own_row fresh
  where
    clash : {b : Bool} → b ≡ false → b ≡ true → ⊥
    clash e k = cc

    fresh : Fresh s i (running req row)
    fresh user_id key k =
        let (a, b) = is_row_trans req.user_id user_id req.key key row own_row.mine k in
        (
          subst (λ u. any (is_row u key) s.rows ≡ false) a
              (subst (λ t. any (is_row req.user_id t) s.rows ≡ false) b none_there),
          λ j held. absurd (
              clash
                (subst (λ u. holds u key (s.phase j) ≡ false) a
                  (subst (λ t. holds req.user_id t (s.phase j) ≡ false) b (no_lock j)))
                held),
        )

-- A transaction that goes on with the row it holds.
pub returned-IsSound :
    (s : System) (i : ℕ) (req : KeyedRequest) (row : IdempotencyRecord)
    (response : Option HttpResponse)
    → IsSound s
    → s.phase i ≡ running req row
    → IsSound (move s i (returned req row response))
returned-IsSound s i req row response h e =
    move-IsSound s h i (returned req row response) (subst OwnRow e (h.own i)) (λ user_id key k.
      let held : holds user_id key (s.phase i) ≡ true = rw e k in
      (h.free i user_id key held, λ j. h.alone i j user_id key held))

pub acquired_cases :
    (req : KeyedRequest) (id now : ℕ) (rows : List IdempotencyRecord)
    → ((any (is_row req.user_id req.key) rows ≡ true)
        × (acquired_phase req id now (try_acquire req id now rows) ≡ conflicted req))
      ⊎ ((any (is_row req.user_id req.key) rows ≡ false)
          × (acquired_phase req id now (try_acquire req id now rows)
              ≡ running req (pending_row req id now)))
unfolding try_acquire acquired_phase
acquired_cases req id now rows = elim (Bool-cases (any (is_row req.user_id req.key) rows)) [
  | inl e ↦ inl (e, rw e)
  | inr e ↦ inr (e, rw e)
]

pending_row-Belongs : (req : KeyedRequest) (id now : ℕ) → Belongs req (pending_row req id now)
unfolding pending_row
pending_row-Belongs req id now = record {
  mine = (is_row_iff req.user_id req.key (pending_row req id now)).1 (refl, refl);
  still_open = refl;
  same_method = refl;
  same_path = refl;
  same_print = refl;
}

pub acquired-IsSound :
    (s : System) (i : ℕ) (req : KeyedRequest) (id now : ℕ)
    → IsSound s
    → ((j : ℕ) → holds req.user_id req.key (s.phase j) ≡ false)
    → IsSound (move s i (acquired_phase req id now (try_acquire req id now s.rows)))
acquired-IsSound s i req id now h no_lock = elim (acquired_cases req id now s.rows) [
  | inl (_, e) ↦ subst (λ p. IsSound (move s i p)) (sym e) (conflicted-IsSound s i req h)
  | inr (free, e) ↦
      subst (λ p. IsSound (move s i p)) (sym e)
        (running-IsSound s i req (pending_row req id now) h (pending_row-Belongs req id now) free
          no_lock)
]

-- ===== src/Transaction/Rules.antt =====
-- The shape that a stored transaction has: a transfer names another account, and no other type
-- names a receiving account at all.
use household_back.Base.{if◌then◌else◌, is_some, ◌==?◌, ℕ, ◌≡◌, Bool, true, not, ◌&&◌, Option}
use household_back.Model.{Transaction, TxType, is_transfer}

abbrev pub consistent_at : TxType → ℕ → Option ℕ → Bool
consistent_at kind account_id to =
    if is_transfer kind then is_some to && not (to ==? account_id) else not (is_some to)

abbrev pub consistent : Transaction → Bool
consistent t = consistent_at t.tx_type t.account_id t.to_account_id

abbrev pub IsConsistent : Transaction → Type 0
IsConsistent t = consistent t ≡ true

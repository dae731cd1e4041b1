-- ===== src/Household/Closing.antt =====
-- household/service.py: what a deletion, a removal and a creation leave.
use household_back.Base.{elem, ℕ, ◌≡◌, true, false, List}
use household_back.Model.{AccountSnapshot, Household, is_active}

-- the snapshots of the household's accounts
abbrev pub DeadSnapshot : List ℕ → AccountSnapshot → Type 0
DeadSnapshot ids s = elem s.account_id ids ≡ true → is_active s.data_stat_cd ≡ false

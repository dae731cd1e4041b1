-- ===== src/Core/Dates.antt =====
-- Python's `date` and the month arithmetic that the services share.
use household_back.Base.{
  ℕ, ◌+◌, ◌-◌, ◌*◌, ◌/◌, ◌%◌, Bool, not, ◌&&◌, ◌||◌, ℤ, pos_part, neg_part, ltb, ◌==◌,
  if◌then◌else◌,
}

pub record Date : Type 0 where
  pub year : ℕ
  pub month : ℕ
  pub day : ℕ

-- `a < b`, `a <= b`, `a == b` on dates
abbrev pub date_ltb : Date → Date → Bool
date_ltb a b =
    ltb a.year b.year
    || (a.year == b.year && (ltb a.month b.month || (a.month == b.month && ltb a.day b.day)))

abbrev pub date_eqb : Date → Date → Bool
date_eqb a b = a.year == b.year && (a.month == b.month && a.day == b.day)

abbrev pub date_leb : Date → Date → Bool
date_leb a b = date_ltb a b || date_eqb a b

-- calendar.isleap
unfoldable pub is_leap : ℕ → Bool
is_leap y = y % 4 == 0 && (not (y % 100 == 0) || y % 400 == 0)

-- calendar.monthrange(year, month)[1]
unfoldable pub month_days : ℕ → ℕ → ℕ
unfolding is_leap
month_days y m =
    if m == 2
    then (if is_leap y then 29 else 28)
    else if m == 4 || (m == 6 || (m == 9 || m == 11))
    then 30
    else 31

-- `d.replace(day=1)`
abbrev pub month_first : Date → Date
month_first d = record d { day = 1 }

abbrev pub month_of : ℕ → ℕ → Date → Bool
month_of y m d = d.year == y && d.month == m

-- the first day and the last day of a month
abbrev pub first_day : ℕ → ℕ → Date
first_day y m = record { year = y; month = m; day = 1 }

unfoldable pub last_day : ℕ → ℕ → Date
unfolding month_days
last_day y m = record { year = y; month = m; day = month_days y m }

-- `_shift_months`: the first day of the month `delta` months away. `-` stops at 0, where Python's
-- `date` raises because year 0 does not exist.
unfoldable pub shift_months : Date → ℤ → Date
shift_months d delta =
    let total = d.year * 12 + (d.month - 1) + pos_part delta - neg_part delta in
    record { year = total / 12; month = total % 12 + 1; day = 1 }

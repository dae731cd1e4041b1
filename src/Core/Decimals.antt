-- ===== src/Core/Decimals.antt =====
-- Python's `decimal` under its default context: 28 significant digits, rounding half to even.
use household_back.Base.{
  ℤ, pos, negsuc, pos_part, neg_part, sub_ℕ, ◌+ℤ◌, ◌-ℤ◌, ◌*ℤ◌, ltb_ℤ, ltb, ◌==◌, if◌then◌else◌, ℕ,
  zero, suc, ◌+◌, ◌-◌, ◌*◌, ◌/◌, ◌%◌, ◌^◌, Bool, true, false, ◌&&◌, ◌||◌,
}

-- `coefficient` in units of 10 to the minus `scale`.
pub record Decimal : Type 0 where
  pub coefficient : ℤ
  pub scale : ℕ

abbrev pub magnitude : ℤ → ℕ
magnitude a = pos_part a + neg_part a

-- the number `n` with the sign of `a`
abbrev pub with_sign : ℤ → ℕ → ℤ
with_sign (pos m) n = pos n
with_sign (negsuc m) n = sub_ℕ 0 n

-- the number of decimal digits of `n`; `n` itself is fuel enough
unfoldable pub digits_within : ℕ → ℕ → ℕ
digits_within zero n = 0
digits_within (suc fuel) n = elim (n == 0) [ true ↦ 0 | false ↦ suc (digits_within fuel (n / 10)) ]

unfoldable pub digits : ℕ → ℕ
unfolding digits_within
digits n = digits_within n n

-- `n` without its last `d` digits, rounded half to even
unfoldable pub round_half_even : ℕ → ℕ → ℕ
round_half_even n d =
    let unit = 10 ^ d in
    let q = n / unit in
    let twice = 2 * (n % unit) in
    if ltb unit twice || (unit == twice && q % 2 == 1) then q + 1 else q

-- `n` without its last `d` digits, rounded half up
unfoldable pub round_half_up : ℕ → ℕ → ℕ
round_half_up n d = (2 * n + 10 ^ d) / (2 * 10 ^ d)

-- A scale never drops below 0: a number above the precision is written out with its zeros.
abbrev pub make_decimal : ℤ → ℕ → ℕ → Decimal
make_decimal sign n scale = record { coefficient = with_sign sign n; scale = scale }

-- `_fix`: the rounding of every result
unfoldable pub fix : Decimal → Decimal
unfolding digits round_half_even
fix x =
    let n = magnitude x.coefficient in
    let d = digits n - 28 in
    make_decimal x.coefficient (round_half_even n d * 10 ^ (d - x.scale)) (x.scale - d)

abbrev pub integer : ℤ → ℕ → Decimal
integer a scale = record { coefficient = a; scale = scale }

abbrev pub decimal_zero : Decimal
decimal_zero = record { coefficient = pos 0; scale = 0 }

-- the coefficient at a larger scale
unfoldable pub rescaled : Decimal → ℕ → ℤ
unfolding ◌*ℤ◌
rescaled x scale = x.coefficient *ℤ pos (10 ^ (scale - x.scale))

abbrev pub max_ℕ : ℕ → ℕ → ℕ
max_ℕ a b = if ltb a b then b else a

unfoldable pub add_decimal : Decimal → Decimal → Decimal
unfolding ◌+ℤ◌ rescaled fix
add_decimal x y =
    let scale = max_ℕ x.scale y.scale in
    fix (record { coefficient = rescaled x scale +ℤ rescaled y scale; scale = scale })

unfoldable pub sub_decimal : Decimal → Decimal → Decimal
unfolding ◌-ℤ◌ rescaled fix
sub_decimal x y =
    let scale = max_ℕ x.scale y.scale in
    fix (record { coefficient = rescaled x scale -ℤ rescaled y scale; scale = scale })

unfoldable pub mul_decimal : Decimal → Decimal → Decimal
unfolding ◌*ℤ◌ fix
mul_decimal x y =
    fix (record { coefficient = x.coefficient *ℤ y.coefficient; scale = x.scale + y.scale })

-- the quotient with one digit more than the precision; a remainder makes its last digit odd or sets
-- it off 5, so that the rounding of `fix` cannot mistake it for a tie
unfoldable pub sticky : ℕ → ℕ → ℕ
sticky a b = let q = a / b in if a % b == 0 then q else if q % 5 == 0 then q + 1 else q

-- `Decimal.__truediv__` by a number that is not 0
unfoldable pub div_decimal : Decimal → Decimal → Decimal
unfolding ◌*ℤ◌ digits sticky fix
div_decimal x y =
    let a = magnitude x.coefficient in
    let b = magnitude y.coefficient in
    let up = digits b + 29 - digits a in
    let down = digits a - (digits b + 29) in
    let q = sticky (a * 10 ^ up) (b * 10 ^ down) in
    let scale = x.scale + up in
    let less = y.scale + down in
    fix (
      make_decimal (with_sign x.coefficient 1 *ℤ with_sign y.coefficient 1)
        (q * 10 ^ (less - scale)) (scale - less))

-- `x.quantize(Decimal("0.01"), rounding=ROUND_HALF_UP)`, in units of 0.01
unfoldable pub quantize_cents : Decimal → ℤ
unfolding round_half_up
quantize_cents x =
    with_sign x.coefficient
      (round_half_up (magnitude x.coefficient * 10 ^ (2 - x.scale)) (x.scale - 2))

-- `x > 0`
abbrev pub is_positive : Decimal → Bool
is_positive x = ltb_ℤ (pos 0) x.coefficient

-- `part / whole * 100` where `whole > 0`, and 0 otherwise
unfoldable pub percentage : Decimal → Decimal → Decimal
unfolding div_decimal mul_decimal
percentage part whole =
    if is_positive whole
    then mul_decimal (div_decimal part whole) (record { coefficient = pos 100; scale = 0 })
    else decimal_zero

-- ===== src/Decimal.antt =====
-- The part of Python's `decimal` that `billing_runtime.py` computes with: non-negative decimals under
-- the default context, where every result is rounded half-even to 28 significant digits.
pub mod Exact
use customers_manager_hub.Prelude.{
  ℕ, zero, suc, ◌+◌, ◌-◌, ◌*◌, ◌/◌, ◌%◌, ◌^◌, max, ◌==◌, ltb, if◌then◌else◌,
}

-- The number coef / 10 ^ scale.
pub record Decimal : Type 0 where
  pub coef : ℕ
  pub scale : ℕ

abbrev pub precision : ℕ
precision = 28

-- `Decimal(n)` of a whole number
abbrev pub of_ℕ : ℕ → Decimal
of_ℕ n = record { coef = n; scale = 0 }

-- The number of decimal digits of `n`, on fuel; 0 has none.
digits_within : ℕ → ℕ → ℕ
digits_within zero n = 0
digits_within (suc f) n = let rest = digits_within f (n / 10) in if n == 0 then 0 else rest + 1

pub digits : ℕ → ℕ
unfolding digits_within
digits n = digits_within n n

-- `c / 10 ^ k` to the nearest whole number, a tie to the even one.
pub round_half_even : ℕ → ℕ → ℕ
round_half_even c k =
    let half = 2 * (c % 10 ^ k) in
    let q = c / 10 ^ k in
    if ltb half (10 ^ k)
    then q
    else if ltb (10 ^ k) half
    then q + 1
    else if q % 2 == 0
    then q
    else q + 1

-- Rounding to the context's precision; digits that go beyond the point are zeros.
unfoldable pub fix : Decimal → Decimal
unfolding digits round_half_even
fix x =
    let excess = digits x.coef - precision in
    record {
      coef = round_half_even x.coef excess * 10 ^ (excess - x.scale);
      scale = x.scale - excess;
    }

unfoldable pub add : Decimal → Decimal → Decimal
unfolding fix
add x y =
    let s = max x.scale y.scale in
    fix (record { coef = x.coef * 10 ^ (s - x.scale) + y.coef * 10 ^ (s - y.scale); scale = s })

unfoldable pub mul : Decimal → Decimal → Decimal
unfolding fix
mul x y = fix (record { coef = x.coef * y.coef; scale = x.scale + y.scale })

-- A remainder that is dropped must keep the result off a tie.
abbrev sticky : ℕ → ℕ → ℕ
sticky q r = if r == 0 then q else if q % 5 == 0 then q + 1 else q

-- Division by a positive whole number, carried one digit past the precision and then rounded.
unfoldable pub div : Decimal → ℕ → Decimal
unfolding fix
div x d =
    let shift = digits d + precision + 1 - digits x.coef in
    let n = x.coef * 10 ^ shift in
    fix (record { coef = sticky (n / d) (n % d); scale = x.scale + shift })

-- `int(x.to_integral_value(rounding=ROUND_CEILING))`
unfoldable pub ceiling : Decimal → ℕ
ceiling x = x.coef / 10 ^ x.scale + (if x.coef % 10 ^ x.scale == 0 then 0 else 1)

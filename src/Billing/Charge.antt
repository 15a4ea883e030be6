-- ===== src/Billing/Charge.antt =====
-- The charge of a call that used tokens only is the exact cost, rounded up.
use customers_manager_hub.Prelude.{
  ℕ, ◌+◌, ◌*◌, ◌/◌, ◌%◌, ◌^◌, ◌<◌, ◌≡◌, Option, none, arith, ap, ◌∙◌, ◌==◌, if◌then◌else◌,
}
use customers_manager_hub.Decimal.{Decimal, precision, of_ℕ, mul, div}
use customers_manager_hub.Decimal.Exact.{
  IsScaled, mul_exact, add_exact, div_million_exact, div_zero, ceiling_exact,
}
use customers_manager_hub.Billing.{ModelPrice, or_zero, calculate_charge_rial}

-- The cost of the tokens in millionths of a rial.
abbrev pub token_cost : ModelPrice → Option ℕ → Option ℕ → ℕ
token_cost price input output =
    or_zero input * price.input_per_million_rial + or_zero output * price.output_per_million_rial

-- One part of the cost, `Decimal(n) / _MILLION * p`.
part_exact :
    (n p : ℕ)
    → n < 10 ^ precision
    → n * p < 10 ^ precision
    → IsScaled (n * p) 6 (mul (div (of_ℕ n) 1000000) (of_ℕ p))
part_exact n p h k = mul_exact n 6 p (div (of_ℕ n) 1000000) (div_million_exact n h) k

-- With no audio, and while the token counts and the cost in millionths of a rial are below 10 ^
-- 28, `calculate_charge_rial` is the cost of the input and output tokens in rials, rounded up.
pub charge_exact :
    (price : ModelPrice) (input output : Option ℕ)
    → or_zero input < 10 ^ precision
    → or_zero output < 10 ^ precision
    → token_cost price input output < 10 ^ precision
    → calculate_charge_rial price input output none
      ≡ token_cost price input output / 1000000
        + (if token_cost price input output % 1000000 == 0 then 0 else 1)
unfolding calculate_charge_rial
charge_exact price input output h k c =
    let i = or_zero input in
    let o = or_zero output in
    let p = price.input_per_million_rial in
    let q = price.output_per_million_rial in
    let a = price.audio_per_minute_rial in
    let zero_audio : Decimal = record { coef = 0; scale = 1 } in
    let tokens =
      add_exact (i * p) (o * q) 6 _ _ (part_exact i p h (omega arith))
        (part_exact o q k (omega arith)) c in
    let audio = mul_exact 0 6 a (div zero_audio 60) (div_zero 1 60) (omega arith) in
    let total = add_exact (i * p + o * q) (0 * a) 6 _ _ tokens audio (omega arith) in
    let same : i * p + o * q + 0 * a ≡ i * p + o * q = omega arith in
    ceiling_exact (i * p + o * q + 0 * a) 6 _ total
    ∙ ap (λ (n : ℕ). n / 1000000 + (if n % 1000000 == 0 then 0 else 1)) same

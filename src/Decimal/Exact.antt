-- ===== src/Decimal/Exact.antt =====
-- Where the decimals of `Decimal` are exact: numbers below 10 ^ 28 over a power of ten.
use native.Mathlib.Nat.{
  zero-mul, suc-mul, mod-eq-sub-mul-div, div-add-mod, add-zero, add-suc, pow-suc, mul_assoc,
  mul-div_cancel, mul-div-mul_right, mul-mod_left, mul-one,
}
use customers_manager_hub.Prelude.{
  ℕ, zero, suc, ◌+◌, ◌-◌, ◌*◌, ◌/◌, ◌%◌, ◌^◌, ◌≤◌, ◌<◌, max, ◌≡◌, refl, ap, arith, ◌==◌,
  if◌then◌else◌,
}
use customers_manager_hub.Decimal.{
  Decimal, precision, of_ℕ, sticky, digits_within, digits, round_half_even, fix, add, mul, div,
  ceiling,
}

pow-add : (a b : ℕ) → 10 ^ (a + b) ≡ 10 ^ a * 10 ^ b
pow-add a zero = rw (add-zero, mul-one)
pow-add a (suc b) = rw (add-suc, pow-suc, pow-suc, pow-add a b, mul_assoc)

pow_pos : (k : ℕ) → 0 < 10 ^ k
pow_pos zero = omega arith
pow_pos (suc k) = rw pow-suc (omega (arith, pow_pos k))

digits_within-le : (f n k : ℕ) → n < 10 ^ k → digits_within f n ≤ k
unfolding digits_within
digits_within-le zero n k h = omega arith
digits_within-le (suc f) n zero h = ground arith
digits_within-le (suc f) n (suc k) h = ground (arith, digits_within-le f (n / 10) k, pow-suc 10 k)

digits-le : (n k : ℕ) → n < 10 ^ k → digits n ≤ k
unfolding digits
digits-le n k h = digits_within-le n n k h

round_exact : (m k : ℕ) → round_half_even (m * 10 ^ k) k ≡ m
unfolding round_half_even
round_exact m k =
    rw (mul-mod_left m (10 ^ k), mul-div_cancel m (pow_pos k)) (ground (arith, pow_pos k))

-- The decimal is n / 10 ^ m, written with some zeros at its end.
pub IsScaled : ℕ → ℕ → Decimal → Type 0
IsScaled n m x = (j : ℕ) × (x.coef ≡ n * 10 ^ j) × (x.scale ≡ m + j)

scaled-lt : (n j k : ℕ) → n < 10 ^ k → n * 10 ^ j < 10 ^ (k + j)
scaled-lt n j k h = rw pow-add (grind (arith, pow_pos j))

split_zeros : (n e j : ℕ) → e ≤ j → n * 10 ^ j ≡ n * 10 ^ (j - e) * 10 ^ e
split_zeros n e j h = let back : j - e + e ≡ j = omega arith in rw (mul_assoc, ← pow-add, back)

fix_coef :
    (n m j e : ℕ) → e ≤ j → round_half_even (n * 10 ^ j) e * 10 ^ (e - (m + j)) ≡ n * 10 ^ (j - e)
fix_coef n m j e h =
    let none_above : e - (m + j) ≡ 0 = omega arith in
    rw (none_above, split_zeros n e j h, round_exact, mul-one)

fix_exact :
    (n m j : ℕ) {c s : ℕ}
    → n < 10 ^ precision
    → c ≡ n * 10 ^ j
    → s ≡ m + j
    → IsScaled n m (fix (record { coef = c; scale = s }))
unfolding fix IsScaled
fix_exact n m j h p q =
    let e = digits (n * 10 ^ j) - precision in
    let le : e ≤ j =
      omega (arith, digits-le (n * 10 ^ j) (precision + j) (scaled-lt n j precision h)) in
    rw (p, q) (j - e, fix_coef n m j e le, omega arith)

-- A number written with more zeros at its end.
lift :
    (n m i k : ℕ) {c s t : ℕ}
    → c ≡ n * 10 ^ i
    → s ≡ m + i
    → t ≡ m + k
    → i ≤ k
    → c * 10 ^ (t - s) ≡ n * 10 ^ k
lift n m i k p q r h =
    let rest : m + k - (m + i) ≡ k - i = omega arith in
    let whole : i + (k - i) ≡ k = omega arith in rw (p, q, r, rest, mul_assoc, ← pow-add, whole)

-- A sum, a product and a quotient by a million are exact while the number fits the precision.
pub mul_exact :
    (n m p : ℕ) (x : Decimal)
    → IsScaled n m x
    → n * p < 10 ^ precision
    → IsScaled (n * p) m (mul x (of_ℕ p))
unfolding mul IsScaled
mul_exact n m p x (j, c, s) h =
    fix_exact (n * p) m j {c = x.coef * p} h (rw c (omega arith)) (omega arith)

pub add_exact :
    (n k m : ℕ) (x y : Decimal)
    → IsScaled n m x
    → IsScaled k m y
    → n + k < 10 ^ precision
    → IsScaled (n + k) m (add x y)
unfolding add IsScaled
add_exact n k m x y (i, c, s) (j, d, u) h =
    let top_scale : max x.scale y.scale ≡ m + max i j = omega arith in
    let left = lift n m i (max i j) c s top_scale (omega arith) in
    let right = lift k m j (max i j) d u top_scale (omega arith) in
    let t = max x.scale y.scale in
    fix_exact (n + k) m (max i j) {c = x.coef * 10 ^ (t - x.scale) + y.coef * 10 ^ (t - y.scale)} h
      (rw (left, right) (omega arith)) top_scale

digits_million : digits 1000000 ≡ 7
unfolding digits digits_within
digits_million = refl

pub div_million_exact : (n : ℕ) → n < 10 ^ precision → IsScaled n 6 (div (of_ℕ n) 1000000)
unfolding div
div_million_exact n h =
    let shift = digits 1000000 + precision + 1 - digits n in
    let long : 6 ≤ shift = omega (arith, digits_million, digits-le n precision h) in
    let parts : n * 10 ^ shift ≡ n * 10 ^ (shift - 6) * 1000000 = split_zeros n 6 shift long in
    fix_exact n 6 (shift - 6) {c = sticky (n * 10 ^ shift / 1000000) (n * 10 ^ shift % 1000000)} h
      (rw (parts, mul-mod_left (n * 10 ^ (shift - 6)) 1000000)
        (mul-div_cancel (n * 10 ^ (shift - 6)) (omega arith)))
      (omega arith)

pub div_zero : (s d : ℕ) → IsScaled 0 6 (div (record { coef = 0; scale = s }) d)
unfolding div digits digits_within
div_zero s d =
    let shift = digits d + precision + 1 - digits 0 in
    fix_exact 0 6 (s + shift - 6) {c = sticky (0 * 10 ^ shift / d) (0 * 10 ^ shift % d)}
      (omega arith) (ground arith) (omega arith)

sub_multiple : (a b c q r : ℕ) → b * q + r ≡ a → a * c - b * c * q ≡ r * c
sub_multiple a b c q r h = omega (arith, ap (λ (t : ℕ). t * c) h)

mod-mul_right : (a b c : ℕ) → 0 < c → a * c % (b * c) ≡ a % b * c
mod-mul_right a b c h =
    rw (mod-eq-sub-mul-div (a * c) (b * c), mul-div-mul_right a b h)
      (sub_multiple a b c (a / b) (a % b) (div-add-mod a b))

times-eq-zero : (a c : ℕ) → 0 < c → (a * c == 0) ≡ (a == 0)
times-eq-zero zero c h = ground (arith, zero-mul c)
times-eq-zero (suc a) c h = ground (arith, suc-mul a c)

-- The ceiling of n / 10 ^ m, rounded up from the whole part.
pub ceiling_exact :
    (n m : ℕ) (x : Decimal)
    → IsScaled n m x
    → ceiling x ≡ n / 10 ^ m + (if n % 10 ^ m == 0 then 0 else 1)
unfolding ceiling IsScaled
ceiling_exact n m x (j, c, s) =
    rw
      (
        c,
        s,
        pow-add,
        mul-div-mul_right n (10 ^ m) (pow_pos j),
        mod-mul_right n (10 ^ m) (10 ^ j) (pow_pos j),
      )
      (ap (λ b. n / 10 ^ m + (if b then 0 else 1))
        (times-eq-zero (n % 10 ^ m) (10 ^ j) (pow_pos j)))

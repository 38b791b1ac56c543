-- ===== src/Decimal.antt =====
-- Python's `decimal.Decimal` under its default context: 28 significant digits, ROUND_HALF_EVEN.
-- A value is `coef` times ten to the power of `-places`. A value with a positive exponent is kept
-- with no places and a longer coefficient; NaN, the infinities, the sign of zero and the limits on
-- the exponent are left out.
pub mod Round
pub mod Digits
pub mod Sign
pub mod Order
pub mod Quotient
use afterhours.Prelude.{
  ℕ, suc, ◌+◌, ◌-◌, ◌*◌, ◌/◌, ◌%◌, ◌^◌, ◌≡◌, refl, Bool, true, not, Option, none, some, List, [],
  ◌∷◌, foldl, ltb, leb, ◌==◌, if◌then◌else◌,
}
use afterhours.Prelude.Int.{ℤ, pos, negsuc, nat_abs, ◌+ℤ◌, ◌-ℤ◌, ◌*ℤ◌, leb_ℤ, with_sign}
use Round.{div_half_even, digits}

pub record Decimal : Type 0 where
  pub coef : ℤ
  pub places : ℕ

-- The precision of the default context.
abbrev pub precision : ℕ
precision = 28

-- The exact value of an integer.
abbrev pub of_ℕ : ℕ → Decimal
of_ℕ n = record { coef = pos n; places = 0 }

-- `Decimal("0")`
abbrev pub zero_value : Decimal
zero_value = of_ℕ 0

-- `d` with `k` more places, and the same value.
abbrev pub pad : ℕ → Decimal → Decimal
pad k d = record { coef = d.coef *ℤ pos (10 ^ k); places = d.places + k }

-- `d` with its last `k` digits rounded away.
unfoldable pub drop_digits : ℕ → Decimal → Decimal
drop_digits k d =
    let c = with_sign d.coef (div_half_even (nat_abs d.coef) (10 ^ k)) in
    if leb k d.places
    then record { coef = c; places = d.places - k }
    else record { coef = c *ℤ pos (10 ^ (k - d.places)); places = 0 }

-- The rounding of every result to the precision of the context.
unfoldable pub fix : Decimal → Decimal
fix d =
    let n = digits (nat_abs d.coef) in if leb n precision then d else drop_digits (n - precision) d

-- The coefficient at `p` places, where `d` has at most as many.
abbrev pub coef_at : ℕ → Decimal → ℤ
coef_at p d = d.coef *ℤ pos (10 ^ (p - d.places))

abbrev pub max_places : Decimal → Decimal → ℕ
max_places a b = if leb a.places b.places then b.places else a.places

-- a + b
unfoldable pub add : Decimal → Decimal → Decimal
add a b = let p = max_places a b in fix (record { coef = coef_at p a +ℤ coef_at p b; places = p })

-- a - b
unfoldable pub sub : Decimal → Decimal → Decimal
sub a b = let p = max_places a b in fix (record { coef = coef_at p a -ℤ coef_at p b; places = p })

-- a * b
unfoldable pub mul : Decimal → Decimal → Decimal
mul a b = fix (record { coef = a.coef *ℤ b.coef; places = a.places + b.places })

-- -a
unfoldable pub neg : Decimal → Decimal
neg a = fix (record { coef = pos 0 -ℤ a.coef; places = a.places })

-- The quotient of the coefficients at `s` more places, its last digit moved off 0 and 5 where the
-- division leaves a remainder, so that the rounding that follows sees no false tie.
abbrev sticky : ℕ → ℕ → ℕ
sticky n d = let q = n / d in if n % d == 0 then q else if q % 5 == 0 then q + 1 else q

-- a / b; `none` is a division by zero, which Python raises.
unfoldable pub div : Decimal → Decimal → Option Decimal
div a b =
    let s = digits (nat_abs b.coef) + precision + 1 + b.places in
    let q = sticky (nat_abs a.coef * 10 ^ s) (nat_abs b.coef) in
    if nat_abs b.coef == 0
    then none
    else some (
        fix (record {
          coef = with_sign a.coef 1 *ℤ with_sign b.coef 1 *ℤ pos q;
          places = s + a.places - b.places;
        }))

-- `a <= b`
unfoldable pub le_decimal : Decimal → Decimal → Bool
le_decimal a b = leb_ℤ (a.coef *ℤ pos (10 ^ b.places)) (b.coef *ℤ pos (10 ^ a.places))

-- `a < b`
abbrev pub lt_decimal : Decimal → Decimal → Bool
lt_decimal a b = not (le_decimal b a)

-- `not a`: a Decimal is false where it is zero.
unfoldable pub is_zero : Decimal → Bool
is_zero a = nat_abs a.coef == 0

-- `min(a, b)` keeps its first argument unless the second is smaller.
abbrev pub min_decimal : Decimal → Decimal → Decimal
min_decimal a b = if lt_decimal b a then b else a

-- `max(a, b)` keeps its first argument unless the second is greater.
abbrev pub max_decimal : Decimal → Decimal → Decimal
max_decimal a b = if lt_decimal a b then b else a

-- `sum(xs, Decimal("0"))`
abbrev pub sum : List Decimal → Decimal
sum = foldl add zero_value

-- `a.quantize(Decimal(1).scaleb(-p))`; `none` where the result would not fit the precision, which
-- Python raises.
unfoldable pub quantize : ℕ → Decimal → Option Decimal
quantize p a =
    let r = if leb a.places p then pad (p - a.places) a else drop_digits (a.places - p) a in
    if leb (digits (nat_abs r.coef)) precision then some r else none

-- 0.1 + 0.2, 1 / 3, 2.5 and 3.5 to whole numbers.
sums :
    add (record { coef = pos 1; places = 1 }) (record { coef = pos 2; places = 1 })
    ≡ record { coef = pos 3; places = 1 }
unfolding add fix digits ◌+ℤ◌ ◌*ℤ◌
sums = refl

third :
    div (of_ℕ 1) (of_ℕ 3) ≡ some (record { coef = pos 3333333333333333333333333333; places = 28 })
unfolding div fix digits drop_digits div_half_even ◌*ℤ◌
third = refl

halves :
    quantize 0 (record { coef = negsuc 24; places = 1 })
    ≡ some (record { coef = negsuc 1; places = 0 })
unfolding quantize digits drop_digits div_half_even ◌*ℤ◌
halves = refl

-- ===== src/Base/Float.antt =====
-- The conversions of Go between uint64, float64 and int, on numbers without a fraction.
use boxo.Base.Tests.{ltb, if◌then◌else◌}
use Prim.Native.Nat.{ℕ, zero, suc, ◌+◌, ◌*◌, ◌/◌, ◌%◌, ◌<◌}
use mathlib.Core.Path.{◌≡◌, refl, ◌∙◌}
use mathlib.Core.Bool.{true}
use native.Mathlib.Omega.{arith}

-- 2^53: a float64 has 53 bits for the digits of a number.
abbrev pub max_exact : ℕ
max_exact = 9007199254740992

-- the multiple of the unit that is nearest, and the even one of two that are as near
unfoldable pub nearest : ℕ → ℕ → ℕ
nearest unit n =
    if ltb (2 * (n % unit)) unit
    then n / unit * unit
    else if ltb unit (2 * (n % unit))
    then (n / unit + 1) * unit
    else (n / unit + n / unit % 2) * unit

-- `nearest` in the unit of the float64s about the number, from a unit that is fine enough, on fuel
unfoldable pub round_from : ℕ → ℕ → ℕ → ℕ
unfolding nearest
round_from zero unit n = nearest unit n
round_from (suc fuel) unit n =
    let coarser = round_from fuel (2 * unit) n in
    if ltb n (max_exact * unit) then nearest unit n else coarser

-- `float64(n)` of a uint64: units from 1 to 2^11
unfoldable pub to_float64 : ℕ → ℕ
unfolding round_from
to_float64 n = round_from 11 1 n

-- `int(x)` of a float64 that has no fraction and is not negative, for an int of 64 bits. Out of the
-- range of int the platform decides; a negative result is 0 here.
pub record IntOfFloat : Type 0 where
  pub int_of_float : ℕ → ℕ
  pub in_range : (n : ℕ) → n < 9223372036854775808 → int_of_float n ≡ n

nearest-one : (n : ℕ) → nearest 1 n ≡ n
unfolding nearest
nearest-one n = ground arith

round_from_fine :
    (fuel unit n : ℕ)
    → ltb n (max_exact * unit) ≡ true
    → round_from (suc fuel) unit n ≡ nearest unit n
unfolding round_from
round_from_fine fuel unit n h = rw (h, round_from) refl

pub to_float64_exact : (n : ℕ) → n < max_exact → to_float64 n ≡ n
unfolding to_float64
to_float64_exact n h = round_from_fine 10 1 n (ground (arith, h)) ∙ nearest-one n

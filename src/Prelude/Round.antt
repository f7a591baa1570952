-- ===== src/Prelude/Round.antt =====
-- Python's `round`: to the nearest integer, and to the even one of two that are equally near. The
-- argument is the fraction n / d.
use Prim.Native.Nat.{ℕ, ◌+◌, ◌*◌, ◌/◌, ◌%◌, ◌≤◌, ◌<◌}
use native.Mathlib.Omega.{arith}
use mathlib.Core.Path.{◌≡◌}
use native.Mathlib.Nat.{div-add-mod}
use native.Mathlib.Decide.{dec_le}
use image_descriptor.Prelude.Logic.{ltb, ◌==◌, if◌then◌else◌}

unfoldable pub round : ℕ → ℕ → ℕ
round n d =
    if ltb (2 * (n % d)) d
    then n / d
    else if ltb d (2 * (n % d))
    then n / d + 1
    else if n / d % 2 == 0
    then n / d
    else n / d + 1

-- The rounded value is at most half a unit away.
pub round_near :
    (n d : ℕ) → 0 < d → (2 * (round n d * d) ≤ 2 * n + d) × (2 * n ≤ 2 * (round n d * d) + d)
unfolding round
round_near n d h = grind (arith, div-add-mod n d)

past : (r m d : ℕ) → m < r → m * d + d ≤ r * d
past r m d h = grind arith

-- A fraction that is at most m rounds to at most m.
pub round-le : (n d m : ℕ) → 0 < d → n ≤ m * d → round n d ≤ m
round-le n d m h k = elim (dec_le (round n d) m) [
  | yes fits ↦ fits
  | no over ↦ absurd (grind (arith, round_near n d h, past (round n d) m d))
]

-- Rounding keeps the order.
pub round_mono : (n m d : ℕ) → 0 < d → n ≤ m → round n d ≤ round m d
round_mono n m d h k = elim (dec_le (round n d) (round m d)) [
  | yes fits ↦ fits
  | no over ↦ elim (dec_le m n) [
    | yes same ↦ absurd (over (rw (antisym n m k same) (omega arith)))
    | no less ↦ absurd (
        omega
          (arith, round_near n d h, round_near m d h, past (round n d) (round m d) d (omega arith)))
  ]
]
  where
    antisym : (a b : ℕ) → a ≤ b → b ≤ a → a ≡ b
    antisym a b x y = omega arith

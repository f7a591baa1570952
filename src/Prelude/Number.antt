-- ===== src/Prelude/Number.antt =====
-- Python floats where the app orders, stores and rounds them: an infinity, not-a-number, or a whole
-- number of millionths.
use Prim.Native.Nat.{ℕ, suc, ◌+◌, ◌-◌, ◌*◌, ◌≤◌, ◌<◌}
use mathlib.Core.Bool.{Bool, true, false}
use image_descriptor.Prelude.Logic.{ltb, leb, if◌then◌else◌}
use image_descriptor.Prelude.Round.{round}

-- `negsuc n` is -(n + 1).
pub data ℤ : Type 0 where
  pos : ℕ → ℤ
  negsuc : ℕ → ℤ

abbrev pub pos_part : ℤ → ℕ
pos_part (pos n) = n
pos_part (negsuc n) = 0

abbrev pub neg_part : ℤ → ℕ
neg_part (pos n) = 0
neg_part (negsuc n) = suc n

infix 50 ◌≤ℤ◌
abbrev pub ◌≤ℤ◌ : ℤ → ℤ → Type 0
a ≤ℤ b = pos_part a + neg_part b ≤ pos_part b + neg_part a

infix 50 ◌<ℤ◌
abbrev pub ◌<ℤ◌ : ℤ → ℤ → Type 0
a <ℤ b = pos_part a + neg_part b < pos_part b + neg_part a

abbrev pub leb_ℤ : ℤ → ℤ → Bool
leb_ℤ a b = leb (pos_part a + neg_part b) (pos_part b + neg_part a)

-- -n
abbrev pub negated : ℕ → ℤ
negated n = if ltb 0 n then negsuc (n - 1) else pos 0

pub data Number : Type 0 where
  finite : ℤ → Number
  infinity minus_infinity nan : Number

-- `a <= b`; every comparison with nan is false
abbrev pub le_number : Number → Number → Bool
le_number (finite a) (finite b) = leb_ℤ a b
le_number nan b = false
le_number (finite a) nan = false
le_number infinity nan = false
le_number minus_infinity nan = false
le_number minus_infinity b = true
le_number (finite a) infinity = true
le_number infinity infinity = true
le_number (finite a) minus_infinity = false
le_number infinity minus_infinity = false
le_number infinity (finite b) = false

abbrev pub millionths : ℕ
millionths = 1000000

-- the whole number n, and -n
abbrev pub whole : ℕ → Number
whole n = finite (pos (n * millionths))

abbrev pub minus_whole : ℕ → Number
minus_whole n = finite (negated (n * millionths))

-- `round(x, decimals)`, where `unit` millionths make one unit of the last decimal that is kept; the
-- result counts those units
unfoldable pub round_number : ℕ → Number → Number
unfolding round
round_number unit (finite (pos n)) = finite (pos (round n unit))
round_number unit (finite (negsuc n)) = finite (negated (round (suc n) unit))
round_number unit x = x

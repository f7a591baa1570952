-- ===== src/Prelude/Unicode.antt =====
-- The decimal digits of Unicode, which `\d` of re matches in a text.
use image_descriptor.Prelude.{ℕ, ◌≡◌, Bool, false}

-- The character database of Python is an argument: the class `\d`, which is the category Nd, and the
-- value that `int` gives a digit of it. The four laws are what the category says of a letter, of two
-- signs and of a newline.
pub record Decimals : Type 0 where
  pub is_decimal : ℕ → Bool
  pub value : ℕ → ℕ
  pub letter : is_decimal b'Z' ≡ false
  pub plus : is_decimal b'+' ≡ false
  pub minus : is_decimal b'-' ≡ false
  pub newline : is_decimal 10 ≡ false

module _ ⦃unicode : Decimals⦄ where
  abbrev pub is_digit : ℕ → Bool
  is_digit c = unicode.is_decimal c

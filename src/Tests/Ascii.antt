-- ===== src/Tests/Ascii.antt =====
-- A character database with the ASCII digits alone, for the tests.
use image_descriptor.Prelude.{◌-◌, ◌&&◌, refl, leb}
use image_descriptor.Prelude.Unicode.{Decimals}

instance abbrev pub ascii : Decimals
ascii = record {
  is_decimal = λ c. leb b'0' c && leb c b'9';
  value = λ c. c - b'0';
  letter = refl;
  plus = refl;
  minus = refl;
  newline = refl;
}

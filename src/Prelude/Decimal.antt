-- ===== src/Prelude/Decimal.antt =====
-- Whole numbers as Python prints them, and with one decimal.
use image_descriptor.Prelude.Logic.{ltb, ◌==◌, if◌then◌else◌}
use image_descriptor.Prelude.Text.{join}
use Prim.Native.Nat.{ℕ, zero, suc, ◌/◌, ◌%◌}
use Prim.Native.String.{String}
use mathlib.Core.Path.{◌≡◌, refl}

digit : ℕ → String
digit d =
    if d == 0
    then "0"
    else if d == 1
    then "1"
    else if d == 2
    then "2"
    else if d == 3
    then "3"
    else if d == 4
    then "4"
    else if d == 5
    then "5"
    else if d == 6
    then "6"
    else if d == 7
    then "7"
    else if d == 8
    then "8"
    else "9"

-- A number has at most as many digits as its value, so its value is fuel enough.
show_from : ℕ → ℕ → String
unfolding digit
show_from zero n = digit (n % 10)
show_from (suc fuel) n =
    let front = show_from fuel (n / 10) in if ltb n 10 then digit n else join front (digit (n % 10))

unfoldable pub show : ℕ → String
unfolding show_from
show n = show_from n n

-- a number of tenths, with its one decimal
unfoldable pub show_tenths : ℕ → String
unfolding show
show_tenths n = join (show (n / 10)) (join "." (show (n % 10)))

show_runs : show_tenths 1234 ≡ "123.4"
unfolding show_tenths
show_runs = refl

-- ===== src/Schemas/Date.antt =====
-- app/api/schemas.py: `_ISO8601_PATTERN` and `validate_captured_at`. The pattern is matched over code
-- points; its groups are tried in order, and none of its choices overlap, so no match backtracks: what
-- may follow the digits of a fraction is no decimal digit of Unicode (Prelude/Unicode).
pub mod Grammar
pub mod Seconds
pub mod Stamp
use image_descriptor.Prelude.{
  ℕ, zero, suc, String, Bool, true, false, ◌&&◌, ◌||◌, Option, none, some, List, [], ◌∷◌, leb, ◌==◌,
  if◌then◌else◌,
}
use image_descriptor.Prelude.Text.{codes}
use image_descriptor.Prelude.Unicode.{Decimals, is_digit}

infixl 5 ◌>>=◌
abbrev ◌>>=◌ : {A B : Type 0} → Option A → (A → Option B) → Option B
none >>= k = none
some a >>= k = k a

abbrev literal : ℕ → List ℕ → Option (List ℕ)
literal k [] = none
literal k (c ∷ cs) = if c == k then some cs else none

-- `$`: the end, or a newline before it
abbrev at_end : List ℕ → Bool
at_end [] = true
at_end (c ∷ []) = c == 10
at_end (c ∷ d ∷ cs) = false

abbrev is_end : Option (List ℕ) → Bool
is_end none = false
is_end (some cs) = at_end cs

module _ ⦃unicode : Decimals⦄ where
  -- `\d{n}`: what is left behind n digits
  unfoldable pub digits : ℕ → List ℕ → Option (List ℕ)
  digits zero cs = some cs
  digits (suc n) [] = none
  digits (suc n) (c ∷ cs) = if is_digit c then digits n cs else none

  -- `\d{n}` between a separator and what follows
  abbrev field : ℕ → ℕ → List ℕ → Option (List ℕ)
  field k n cs = literal k cs >>= digits n

  -- `(Z|[+-]\d{2}:\d{2})?$`
  unfoldable pub zone : List ℕ → Bool
  zone [] = true
  zone (c ∷ cs) =
      if c == b'Z'
      then at_end cs
      else if c == b'+' || c == b'-'
      then is_end (do r ← digits 2 cs; field b':' 2 r)
      else at_end (c ∷ cs)

  -- `\d*`
  unfoldable pub drop_digits : List ℕ → List ℕ
  drop_digits [] = []
  drop_digits (c ∷ cs) = if is_digit c then drop_digits cs else c ∷ cs

  -- `(\.\d+)?` and the rest
  unfoldable pub fraction : List ℕ → Bool
  fraction [] = true
  fraction (c ∷ []) = zone (c ∷ [])
  fraction (c ∷ d ∷ cs) =
      if c == b'.' then is_digit d && zone (drop_digits cs) else zone (c ∷ d ∷ cs)

  abbrev after_seconds : Option (List ℕ) → Bool
  after_seconds none = false
  after_seconds (some cs) = fraction cs

  -- `(:\d{2}(\.\d+)?)?` and the rest
  unfoldable pub seconds : List ℕ → Bool
  seconds [] = true
  seconds (c ∷ cs) = if c == b':' then after_seconds (digits 2 cs) else zone (c ∷ cs)

  abbrev after_minutes : Option (List ℕ) → Bool
  after_minutes none = false
  after_minutes (some cs) = seconds cs

  -- `(T\d{2}:\d{2}…)?$`
  unfoldable pub time : List ℕ → Bool
  time [] = true
  time (c ∷ cs) =
      if c == b'T' then after_minutes (do r ← digits 2 cs; field b':' 2 r) else at_end (c ∷ cs)

  abbrev after_date : Option (List ℕ) → Bool
  after_date none = false
  after_date (some cs) = time cs

  unfoldable pub matches_iso8601 : String → Bool
  unfolding digits zone drop_digits fraction seconds time
  matches_iso8601 s = after_date (do r ← digits 4 (codes s); r ← field b'-' 2 r; field b'-' 2 r)

  -- `fromisoformat` says whether `datetime.fromisoformat` reads the text, its Z replaced
  unfoldable pub validate_captured_at : (String → Bool) → Option String → Bool
  unfolding matches_iso8601
  validate_captured_at fromisoformat none = true
  validate_captured_at fromisoformat (some v) = matches_iso8601 v && fromisoformat v

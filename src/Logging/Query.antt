-- ===== src/Logging/Query.antt =====
-- app/utils/logging.py: `_safe_query_params`, which hides the values of secret parameters.
--
-- The pattern is a name and an equals sign: `api[_-]?key` and its like are written out as the names
-- that they match. `re.sub` goes through the text from the left, and behind a match it goes on after
-- the value.
pub mod Redaction
use image_descriptor.Prelude.{
  ℕ, zero, suc, ◌+◌, Bool, true, false, ◌&&◌, ◌||◌, Option, none, some, List, [], ◌∷◌, ◌++◌, leb,
  ◌==◌, length, if◌then◌else◌,
}
use image_descriptor.Prelude.Text.{codes}

-- the case folding of `re.IGNORECASE` for the ASCII letters, with the four other characters that it
-- takes for one of them
unfoldable pub lower : ℕ → ℕ
lower c =
    if leb b'A' c && leb c b'Z'
    then c + 32
    else if c == 0x130 || c == 0x131
    then b'i'
    else if c == 0x17f
    then b's'
    else if c == 0x212a
    then b'k'
    else c

-- the names that the pattern's group matches, in its order
abbrev pub secret_names : List (List ℕ)
secret_names =
    codes "api_key"
    ∷ codes "api-key"
    ∷ codes "apikey"
    ∷ codes "access_token"
    ∷ codes "access-token"
    ∷ codes "accesstoken"
    ∷ codes "auth_token"
    ∷ codes "auth-token"
    ∷ codes "authtoken"
    ∷ codes "token"
    ∷ codes "secret"
    ∷ codes "password"
    ∷ []

abbrev pub with_char : ℕ → Option (List ℕ × List ℕ) → Option (List ℕ × List ℕ)
with_char c none = none
with_char c (some (name, rest)) = some (c ∷ name, rest)

-- a name and an equals sign here: the name as it is written, and what follows
unfoldable pub name_at : List ℕ → List ℕ → Option (List ℕ × List ℕ)
unfolding lower
name_at [] [] = none
name_at [] (c ∷ cs) = if c == b'=' then some ([], cs) else none
name_at (p ∷ ps) [] = none
name_at (p ∷ ps) (c ∷ cs) = if lower c == p then with_char c (name_at ps cs) else none

abbrev pub first_of : Option (List ℕ × List ℕ) → Option (List ℕ × List ℕ) → Option (List ℕ × List ℕ)
first_of none other = other
first_of (some m) other = some m

unfoldable pub secret_at : List (List ℕ) → List ℕ → Option (List ℕ × List ℕ)
unfolding name_at
secret_at [] cs = none
secret_at (name ∷ names) cs = first_of (name_at name cs) (secret_at names cs)

-- what is left behind `[^&]*`
unfoldable pub drop_value : List ℕ → List ℕ
drop_value [] = []
drop_value (c ∷ cs) = if c == b'&' then c ∷ cs else drop_value cs

abbrev pub mark : List ℕ
mark = codes "[REDACTED]"

-- `re.sub`, with a bound on its rounds
unfoldable pub redact : ℕ → List ℕ → List ℕ
unfolding secret_at drop_value
redact zero cs = []
redact (suc n) [] = []
redact (suc n) (c ∷ cs) = elim (secret_at secret_names (c ∷ cs)) [
  | none ↦ c ∷ redact n cs
  | some (name, rest) ↦ name ++ (b'=' ∷ (mark ++ redact n (drop_value rest)))
]

-- Each round takes one character at least.
unfoldable pub safe_query_params : List ℕ → List ℕ
unfolding redact
safe_query_params query = redact (length query) query

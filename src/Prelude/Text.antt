-- ===== src/Prelude/Text.antt =====
-- Texts as the source uses them: whole texts are compared and joined, and a pattern walks the code
-- points.
use Prim.Native.Nat.{ℕ}
use Prim.Native.Char.{code}
use Prim.Native.String
use Prim.Native.String.{String}
use mathlib.Core.Bool.{Bool, not}
use mathlib.Core.Option.{Option, none, some}
use mathlib.Core.List.{List, [], ◌∷◌}
use text.Mathlib.Text.{find?}
use image_descriptor.Prelude.Logic.{is_some}
pub use text.Mathlib.Text.{◌==◌ as str_eq}
pub use text.Mathlib.TextEquality.{eq_iff}
pub use text.Mathlib.TextPositions.{eq_refl}

-- `s + t`
abbrev pub join : String → String → String
join s t = String.◌++◌ s t

-- `if s:`
abbrev pub is_truthy : String → Bool
is_truthy s = not (str_eq s "")

-- `needle in s`
abbrev pub contains : String → String → Bool
contains needle s = is_some (find? s needle)

abbrev pub codes : String → List ℕ
codes String.[] = []
codes (String.◌∷◌ c s) = code c ∷ codes s

-- a text that may be missing, as the empty one
abbrev pub text_of : Option String → String
text_of none = ""
text_of (some s) = s

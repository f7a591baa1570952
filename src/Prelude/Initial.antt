-- ===== src/Prelude/Initial.antt =====
-- Texts that begin with different characters.
use Prim.Native.Nat.{ℕ}
use Prim.Native.Char.{Char, code}
use Prim.Native.String.{String}
use Prim.Native.String.append
use image_descriptor.Prelude.{◌≡◌, ap, ◌==◌, false, Bool-cases, inl, inr, arith}
use image_descriptor.Prelude.Text.{join, str_eq, eq_iff}

-- the code point of the first character
pub initial : String → ℕ
initial String.[] = 0
initial (String.◌∷◌ c s) = code c

pub initial-join : (c : Char) (s t : String) → initial (join (String.◌∷◌ c s) t) ≡ code c
unfolding initial
initial-join c s t = ap initial (append.cons c s t)

distinct : {c d : ℕ} → (c == d) ≡ false → c ≡ d → ⊥
distinct h e = absurd (ground arith)

pub initial_ne : (s t : String) → (initial s == initial t) ≡ false → str_eq s t ≡ false
initial_ne s t h = elim (Bool-cases (str_eq s t)) [
  | inl e ↦ absurd (distinct h (ap initial ((eq_iff s t).0 e)))
  | inr e ↦ e
]

-- ===== src/Server/Headers.antt =====
-- The headers of a response, as `response.headers[name] = value` sets them, and
-- `security_headers_middleware` of app/main.py. Names are in lower case.
use image_descriptor.Prelude.{
  ℕ, ◌≡◌, refl, String, false, Option, none, some, List, [], ◌∷◌, arith, if◌then◌else◌, Bool-cases,
  inl, inr,
}
use image_descriptor.Prelude.Text.{codes, str_eq, eq_iff, eq_refl}

module _ {V : Type 0} where
  -- the value of a name, where names are in lower case
  unfoldable pub header : String → List (String × V) → Option V
  header name [] = none
  header name ((k, v) ∷ headers) = if str_eq k name then some v else header name headers

  -- The header of this name is replaced, or a new one added.
  unfoldable pub set_header : String → V → List (String × V) → List (String × V)
  set_header name value [] = (name, value) ∷ []
  set_header name value ((k, v) ∷ headers) =
      if str_eq k name then (name, value) ∷ headers else (k, v) ∷ set_header name value headers

  pub header-set_header :
      (name : String) (value : V) (headers : List (String × V))
      → header name (set_header name value headers) ≡ some value
  unfolding header set_header
  header-set_header name value [] = rw (eq_refl name) refl
  header-set_header name value ((k, v) ∷ headers) = elim (Bool-cases (str_eq k name)) [
    | inl e ↦ rw e (rw (eq_refl name) refl)
    | inr e ↦ rw e (rw e (header-set_header name value headers))
  ]

  pub header-set_header_ne :
      (other name : String) (value : V) (headers : List (String × V))
      → str_eq name other ≡ false
      → header other (set_header name value headers) ≡ header other headers
  unfolding header set_header
  header-set_header_ne other name value [] h = rw h refl
  header-set_header_ne other name value ((k, v) ∷ headers) h = elim (Bool-cases (str_eq k name)) [
    | inl e ↦ rw e (ground (arith, eq_iff k name, h))
    | inr e ↦ rw e (ground (arith, header-set_header_ne other name value headers h))
  ]

-- for the headers of the response that `call_next` gives
unfoldable pub security_headers_middleware : List (String × List ℕ) → List (String × List ℕ)
unfolding set_header
security_headers_middleware headers =
    set_header "strict-transport-security" (codes "max-age=31536000; includeSubDomains") (
      set_header "referrer-policy" (codes "strict-origin-when-cross-origin") (
        set_header "x-frame-options" (codes "DENY")
          (set_header "x-content-type-options" (codes "nosniff") headers)))

-- ===== src/Errors.antt =====
-- Python exceptions as values. The classes are those that the app's `except` clauses tell apart, with
-- the subclass relations that those clauses rely on.
use image_descriptor.Prelude.{ℕ, String, Bool, true, false, ◌≡◌, ◌⊎◌, inl, inr, refl}

pub data ErrorClass : Type 0 where
  timeout_error connection_error os_error : ErrorClass
  value_error json_decode_error validation_error : ErrorClass
  database_error : ErrorClass
  transport_error : ErrorClass
  http_status_error : ℕ → ErrorClass
  jwt_error : ErrorClass
  descriptor_error : ℕ → String → ErrorClass
  other_error : ErrorClass

-- `text` is `str(e)`
pub record Error : Type 0 where
  pub kind : ErrorClass
  pub text : String

-- `except OSError`: `TimeoutError` and `ConnectionError` are subclasses
abbrev pub is_os_error : ErrorClass → Bool
is_os_error timeout_error = true
is_os_error connection_error = true
is_os_error os_error = true
is_os_error _ = false

-- `except ValueError`: JSON decoding and pydantic validation errors are subclasses
abbrev pub is_value_error : ErrorClass → Bool
is_value_error value_error = true
is_value_error json_decode_error = true
is_value_error validation_error = true
is_value_error _ = false

abbrev pub is_database_error : ErrorClass → Bool
is_database_error database_error = true
is_database_error _ = false

abbrev pub is_timeout_error : ErrorClass → Bool
is_timeout_error timeout_error = true
is_timeout_error _ = false

abbrev pub is_connection_error : ErrorClass → Bool
is_connection_error connection_error = true
is_connection_error _ = false

-- `except httpx.HTTPError`: transport errors, timeouts among them, and the errors of
-- `raise_for_status`
abbrev pub is_http_error : ErrorClass → Bool
is_http_error transport_error = true
is_http_error (http_status_error status) = true
is_http_error _ = false

-- `except json.JSONDecodeError`
abbrev pub is_json_error : ErrorClass → Bool
is_json_error json_decode_error = true
is_json_error _ = false

pub data Result {ℓ} (A : Type ℓ) : Type ℓ where
  ok : A → Result A
  err : Error → Result A

pub Result-cases {ℓ} :
    {A : Type ℓ} (r : Result A) → ((a : A) × (r ≡ ok a)) ⊎ ((e : Error) × (r ≡ err e))
Result-cases (ok a) = inl (a, refl)
Result-cases (err e) = inr (e, refl)

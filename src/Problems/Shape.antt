-- ===== src/Problems/Shape.antt =====
-- The shape of every problem document.
use image_descriptor.Prelude.{
  ℕ, ◌≡◌, ◌≢◌, ◌<◌, ◌⊎◌, refl, Option, List, [], ◌∷◌, map, arith, All, All-append,
}
use image_descriptor.Prelude.Text.{codes}
use image_descriptor.Problems.{
  Raised, descriptor_error, http_exception, request_validation_error, timeout_error, other, Reply,
  slug_char, problem_base, handle, title_of, http_exception_handler, validation_error_handler,
  internal_error_handler, timeout_error_handler,
}

-- no upper case letter of ASCII, and no underscore
abbrev pub IsSlugChar : ℕ → Type 0
IsSlugChar c = (c ≢ b'_') × ((c < b'A') ⊎ (b'Z' < c))

slug_char-IsSlugChar : (c : ℕ) → IsSlugChar (slug_char c)
unfolding slug_char
slug_char-IsSlugChar c = ground arith

map-IsSlugChar : (cs : List ℕ) → All IsSlugChar (map slug_char cs)
map-IsSlugChar [] = tt
map-IsSlugChar (c ∷ cs) = (slug_char-IsSlugChar c, map-IsSlugChar cs)

module _ {D : Type 0} where
  abbrev pub status_of : Raised D → ℕ
  status_of (descriptor_error status code message d) = status
  status_of (http_exception status detail) = status
  status_of (request_validation_error errors) = 422
  status_of timeout_error = 504
  status_of (other text) = 500

  -- what every reply has, for an exception with this status
  pub record IsProblem (correlation_id : Option (List ℕ)) (status : ℕ) (r : Reply D) : Type 0 where
    pub code : r.status_code ≡ status
    pub same_status : r.content.status ≡ status
    pub titled : r.content.title ≡ title_of status
    pub traced : r.content.instance_id ≡ correlation_id
    pub typed : All IsSlugChar r.content.kind
    pub media : r.media_type ≡ "application/problem+json"

  -- Whatever exception one of the five handlers takes, the reply is a problem document: its status code
  -- is that of the exception, 422 for a validation error, 504 for a timeout and 500 for any other; its
  -- body repeats the status, with the status's own title and the request's correlation id; and its type
  -- holds no underscore and no upper case letter, whatever the error's code.
  pub handle-IsProblem :
      (correlation_id : Option (List ℕ)) (e : Raised D)
      → IsProblem correlation_id (status_of e) (handle correlation_id e)
  unfolding handle http_exception_handler validation_error_handler internal_error_handler
      timeout_error_handler title_of
  handle-IsProblem correlation_id (descriptor_error status code message d) = record {
    code = refl;
    same_status = refl;
    titled = refl;
    traced = refl;
    typed =
        All-append IsSlugChar problem_base (map slug_char (codes code)) (ground arith)
          (map-IsSlugChar (codes code));
    media = refl;
  }
  handle-IsProblem correlation_id (http_exception status detail) = record {
    code = refl;
    same_status = refl;
    titled = refl;
    traced = refl;
    typed = ground arith;
    media = refl;
  }
  handle-IsProblem correlation_id (request_validation_error errors) = record {
    code = refl;
    same_status = refl;
    titled = refl;
    traced = refl;
    typed = ground arith;
    media = refl;
  }
  handle-IsProblem correlation_id timeout_error = record {
    code = refl;
    same_status = refl;
    titled = refl;
    traced = refl;
    typed = ground arith;
    media = refl;
  }
  handle-IsProblem correlation_id (other text) = record {
    code = refl;
    same_status = refl;
    titled = refl;
    traced = refl;
    typed = ground arith;
    media = refl;
  }

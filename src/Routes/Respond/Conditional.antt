-- ===== src/Routes/Respond/Conditional.antt =====
-- A request for a description with the tag of an earlier answer.
use image_descriptor.Prelude.{
  ℕ, ◌≡◌, ◌≢◌, ◌⊎◌, refl, String, true, none, some, arith, Bool-cases, inl, inr,
}
use image_descriptor.Prelude.Text.{str_eq, is_truthy, eq_iff}
use image_descriptor.Errors.{Result, ok, err}
use image_descriptor.Schemas.{DescribeRequest, DescribeResponse}
use image_descriptor.Routes.Timed.{apply_timeout}
use image_descriptor.Routes.Describe.{App, Env, describe_and_save}
use image_descriptor.Routes.Respond.{
  Codec, Answer, not_modified, content, generate_etag, respond, responded, describe,
}

-- The answer to a request with a tag, by the answer to the same request without one.
abbrev pub IsConditional : String → Result Answer → Result Answer → Type 0
IsConditional tag (err e) answer = answer ≡ err e
IsConditional tag (ok (not_modified etag)) answer = ⊥
IsConditional tag (ok (content r etag cache_control)) answer =
    ((tag ≡ etag) × (answer ≡ ok (not_modified etag)))
    ⊎ ((tag ≢ etag) × (answer ≡ ok (content r etag cache_control)))

respond-IsConditional :
    (codec : Codec) (tag : String) (r : DescribeResponse)
    → is_truthy tag ≡ true
    → IsConditional tag (ok (respond codec none r)) (ok (respond codec (some tag) r))
unfolding respond
respond-IsConditional codec tag r given = elim (Bool-cases (str_eq tag (generate_etag codec r))) [
  | inl e ↦ inl (ground (arith, eq_iff tag (generate_etag codec r)), rw (given, e) refl)
  | inr e ↦ inr (ground (arith, eq_iff tag (generate_etag codec r)), rw (given, e) refl)
]

module _ {W : Type 0} where
  responded-IsConditional :
      (codec : Codec) (tag : String) (q : Result DescribeResponse × App W)
      → is_truthy tag ≡ true
      → IsConditional tag (responded codec none q).0 (responded codec (some tag) q).0
        × ((responded codec (some tag) q).1 ≡ (responded codec none q).1)
  responded-IsConditional codec tag (ok r, app) given =
      (respond-IsConditional codec tag r given, refl)
  responded-IsConditional codec tag (err e, app) given = (refl, refl)

  -- A request for a description with a tag does all the work of the same request without one, time-out
  -- included: it leaves the same state, and fails by the same error. Where that request is answered by a
  -- description, this one is answered by 304 and the description's tag, if the tags are equal, and by the
  -- same answer if they are not.
  pub describe-IsConditional :
      (codec : Codec) (request_timeout : ℕ) (env : Env W) (took : ℕ) (cancelled : App W)
      (path tag : String) (body : DescribeRequest) (app : App W)
      → is_truthy tag ≡ true
      → let plain = describe codec request_timeout env took cancelled path none body app in
        let answer = describe codec request_timeout env took cancelled path (some tag) body app in
        IsConditional tag plain.0 answer.0 × (answer.1 ≡ plain.1)
  unfolding describe
  describe-IsConditional codec request_timeout env took cancelled path tag body app given =
      responded-IsConditional codec tag
        (apply_timeout request_timeout (some path)
          (record { took = took; outcome = describe_and_save env body app; cancelled = cancelled }))
        given

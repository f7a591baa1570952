-- ===== src/Routes/Respond.antt =====
-- app/api/routes.py: the endpoint `describe`.
--
-- `dumps` is `model_dump_json`, and `digest` the hexadecimal MD5 digest of a text's bytes.
pub mod Conditional
use image_descriptor.Prelude.{
  ℕ, String, Bool, true, false, not, ◌&&◌, Option, none, some, if◌then◌else◌, arith, Bool-cases,
  inl, inr,
}
use image_descriptor.Prelude.Text.{str_eq, join, is_truthy, eq_iff, eq_refl}
use image_descriptor.Errors.{Result, ok, err}
use image_descriptor.Schemas.{DescribeRequest, DescribeResponse}
use image_descriptor.Routes.Timed.{Coroutine, apply_timeout}
use image_descriptor.Routes.Describe.{App, Env, describe_and_save, is_given}

pub record Codec : Type 0 where
  pub dumps : DescribeResponse → String
  pub digest : String → String

-- 304 with an ETag, or 200 with a body, an ETag and a Cache-Control
pub data Answer : Type 0 where
  not_modified : String → Answer
  content : DescribeResponse → String → String → Answer

abbrev pub generate_etag : Codec → DescribeResponse → String
generate_etag codec result = join "\"" (join (codec.digest (codec.dumps result)) "\"")

-- `if_none_match and if_none_match == etag`
abbrev pub matches : Option String → String → Bool
matches none etag = false
matches (some tag) etag = is_truthy tag && str_eq tag etag

unfoldable pub respond : Codec → Option String → DescribeResponse → Answer
respond codec if_none_match result =
    let etag = generate_etag codec result in
    if matches if_none_match etag
    then not_modified etag
    else content result etag (if result.cached then "private, max-age=3600" else "no-cache")

abbrev pub responded :
    {W : Type 0} → Codec → Option String → Result DescribeResponse × App W → Result Answer × App W
responded codec if_none_match (ok result, app) = (ok (respond codec if_none_match result), app)
responded codec if_none_match (err e, app) = (err e, app)

-- `took` is the time of `_describe_and_save`, and `cancelled` the state where it is cancelled.
unfoldable pub describe :
    {W : Type 0}
    → Codec
    → ℕ
    → Env W
    → ℕ
    → App W
    → String
    → Option String
    → DescribeRequest
    → App W
    → Result Answer × App W
unfolding respond apply_timeout describe_and_save
describe codec request_timeout env took cancelled path if_none_match body app =
    responded codec if_none_match (
      apply_timeout request_timeout (some path)
        (record { took = took; outcome = describe_and_save env body app; cancelled = cancelled }))

-- ===== src/Tests/Routes.antt =====
-- The endpoints' theorems at concrete requests.
use image_descriptor.Prelude.{
  arith, ℕ, zero, suc, ◌==◌, ◌+◌, ◌≡◌, refl, String, Bool, true, false, none, some, List, [], ◌∷◌,
  All, length,
}
use image_descriptor.Errors.{
  Error, Result, ok, err, connection_error, database_error, timeout_error,
}
use image_descriptor.Schemas.{
  DescribeRequest, BatchDescribeItem, DescribeResponse, BatchDescribeResponse,
}
use image_descriptor.Schemas.Request.{request_of}
use image_descriptor.Supabase.{Client, Settings, Outside}
use image_descriptor.Routes.Batch.{
  Process, describe_batch, results_from, process_one, item_error, interrupt, summary,
}
use image_descriptor.Routes.Batch.Counts.{
  IsIndexed, IsExclusive, describe_batch-accounts, active-describe_batch, miscounted,
}
use image_descriptor.Routes.Health.{Health, report}

abbrev item_named : String → BatchDescribeItem
item_named thumbnail = record {
  thumbnail = thumbnail;
  coordinates = [];
  bbox = none;
  captured_at = none;
  cog_image_id = none;
  stac_id = none;
}

abbrev response : DescribeResponse
response = record {
  description = some "A harbour.";
  location = none;
  land_cover = none;
  context = none;
  mission = none;
  warnings = [];
  cached = false;
  saved = none;
}

abbrev reset : Error
reset = record { kind = connection_error; text = "transfer interrupted" }

abbrev accepts : BatchDescribeItem → Result DescribeRequest
accepts item = ok (request_of item)

-- The state counts the items; the third one is not begun.
abbrev describe_nth : ℕ → Result DescribeResponse × ℕ
describe_nth zero = (ok response, 1)
describe_nth (suc n) = (err (record { kind = timeout_error; text = "" }), n + 2)

abbrev describe : DescribeRequest → Process ℕ → Result DescribeResponse × Process ℕ
describe request p = let (r, n) = describe_nth p.inner in (r, record p { inner = n })

abbrev after_two : Process ℕ → Bool
after_two p = p.inner == 2

abbrev items : List BatchDescribeItem
items = item_named "a" ∷ item_named "b" ∷ item_named "c" ∷ []

abbrev idle : Process ℕ
idle = record { active_batch_jobs = 0; inner = 0 }

abbrev batch : BatchDescribeResponse
unfolding results_from process_one item_error interrupt
batch =
    summary accepts describe after_two items
      (elim (results_from accepts describe after_two 0 items idle).0 [ ok rs ↦ rs | err e ↦ [] ])

describe_batch-accounts_example :
    (length batch.results ≡ 3)
    × IsIndexed 0 batch.results
    × All IsExclusive batch.results
    × (batch.total ≡ 3)
    × (batch.succeeded + batch.failed + batch.interrupted ≡ 3)
unfolding describe_batch results_from process_one item_error interrupt batch
describe_batch-accounts_example =
    describe_batch-accounts accepts describe after_two items idle batch refl

-- The state is the number of other batches, and one of them starts while an item is described.
abbrev joined : DescribeRequest → Process ℕ → Result DescribeResponse × Process ℕ
joined request p = (
  err (record { kind = database_error; text = "" }),
  record { active_batch_jobs = p.active_batch_jobs + 1; inner = p.inner + 1 },
)

abbrev never : Process ℕ → Bool
never p = false

active-describe_batch_example :
    let after = (describe_batch accepts joined never items idle).1 in
    after.active_batch_jobs ≡ after.inner
active-describe_batch_example =
    active-describe_batch accepts joined never (λ n. n) items idle (λ request q h. omega (arith, h))
      refl

abbrev resets : DescribeRequest → Process ℕ → Result DescribeResponse × Process ℕ
resets request p = (err reset, p)

miscounted_example :
    (b : BatchDescribeResponse) × ((describe_batch accepts resets never
        (item_named "a" ∷ [])
        idle).0
      ≡ ok b)
    × (b.interrupted ≡ 1)
    × (b.failed ≡ 0)
miscounted_example =
    miscounted accepts resets never (item_named "a") (request_of (item_named "a")) idle
      (record { active_batch_jobs = 1; inner = 0 }) reset refl refl refl refl refl

abbrev late : Result Bool
late = err (record { kind = timeout_error; text = "" })

abbrev answer : Health
answer = report false false false

abbrev cfg : Settings
cfg = record { backoff_base = 1000000; backoff_max = 60000000 }

abbrev out : Outside
out = record { now = 5; create = none; failed_at = 6 }

abbrev connected : Client
connected = record { connected = true; last_failure_time = 0; consecutive_failures = 0 }

abbrev down : Error
down = record { kind = database_error; text = "the database is starting up" }

abbrev fails : String → Result (List String)
fails id = err down

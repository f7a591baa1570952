-- ===== src/Routes/Batch.antt =====
-- app/api/routes.py: `describe_batch`. The items are taken one after another: each `_limited` is awaited
-- before the next begins, so the semaphore is never contended.
pub mod Counts
use image_descriptor.Prelude.{
  ℕ, suc, ◌+◌, ◌-◌, String, Bool, true, false, ◌&&◌, Option, none, some, List, [], ◌∷◌, ◌++◌,
  length, count_if, is_some, if◌then◌else◌,
}
use image_descriptor.Prelude.Text.{contains, is_truthy}
use image_descriptor.Errors.{
  Error, ErrorClass, Result, ok, err, validation_error, timeout_error, connection_error, os_error,
  descriptor_error, is_os_error,
}
use image_descriptor.Schemas.{
  DescribeRequest, BatchDescribeItem, DescribeResponse, BatchItemResult, BatchItemError,
  BatchDescribeResponse,
}

abbrev pub failed_item : ℕ → String → String → BatchItemResult
failed_item index error_type message = record {
  index = index;
  result = none;
  error = some message;
  error_detail = some (record { error_type = error_type; message = message });
}

-- the `except` clauses of `_process_one`; any other exception leaves it
unfoldable pub item_error : ℕ → Error → ErrorClass → Result BatchItemResult
item_error index e validation_error = ok (failed_item index "validation" e.text)
item_error index e timeout_error = ok (failed_item index "timeout" "Request timed out")
item_error index e connection_error = ok (failed_item index "service" e.text)
item_error index e os_error = ok (failed_item index "service" e.text)
item_error index e (descriptor_error status code) = ok (failed_item index "service" e.text)
item_error index e _ = err e

abbrev pub interrupted_message : String
interrupted_message = "interrupted: server shutting down"

abbrev pub interrupted_item : ℕ → BatchItemResult
interrupted_item index = record {
  index = index;
  result = none;
  error = some interrupted_message;
  error_detail = none;
}

-- `for j in range(i, len(body.items))`, for the items that are left
unfoldable pub interrupt : ℕ → List BatchDescribeItem → List BatchItemResult
interrupt i [] = []
interrupt i (item ∷ items) = interrupted_item i ∷ interrupt (i + 1) items

-- `r.error and "interrupted" in r.error`
abbrev pub is_interrupted : BatchItemResult → Bool
is_interrupted r = elim r.error [
  | none ↦ false
  | some error ↦ is_truthy error && contains "interrupted" error
]

-- the process: the gauge of running batches, and what `describe_and_save` works on
pub record Process (S : Type 0) : Type 0 where
  pub active_batch_jobs : ℕ
  pub inner : S

-- `validate` is `DescribeRequest.model_validate`, `describe` is `_describe_and_save`, and
-- `shutting_down` reads the flag as it stands.
module _ {S : Type 0} (validate : BatchDescribeItem → Result DescribeRequest)
    (describe : DescribeRequest → S → Result DescribeResponse × S) (shutting_down : S → Bool) where
  abbrev item_result : ℕ → Result DescribeResponse × S → Result BatchItemResult × S
  item_result index (ok r, s) =
      (ok (record { index = index; result = some r; error = none; error_detail = none }), s)
  item_result index (err e, s) = (item_error index e e.kind, s)

  abbrev described : ℕ → Result DescribeRequest → S → Result BatchItemResult × S
  described index (ok item) s = item_result index (describe item s)
  described index (err e) s = (item_error index e e.kind, s)

  unfoldable pub process_one : ℕ → BatchDescribeItem → S → Result BatchItemResult × S
  unfolding item_error
  process_one index raw_item s = described index (validate raw_item) s

  abbrev prepend :
      BatchItemResult → Result (List BatchItemResult) × S → Result (List BatchItemResult) × S
  prepend r (ok rs, s) = (ok (r ∷ rs), s)
  prepend r (err e, s) = (err e, s)

  abbrev go_on :
      Result BatchItemResult × S
      → (S → Result (List BatchItemResult) × S)
      → Result (List BatchItemResult) × S
  go_on (err e, s) rest = (err e, s)
  go_on (ok r, s) rest = prepend r (rest s)

  -- The loop, from item i on; an exception that leaves `_process_one` ends it.
  unfoldable pub results_from : ℕ → List BatchDescribeItem → S → Result (List BatchItemResult) × S
  unfolding process_one interrupt
  results_from i [] s = (ok [], s)
  results_from i (item ∷ items) s =
      if shutting_down s
      then (ok (interrupt i (item ∷ items)), s)
      else go_on (process_one i item s) (λ t. results_from (i + 1) items t)

  -- `failed` is a difference of integers; Routes/Batch/Counts shows that it is never negative
  abbrev pub summary : List BatchDescribeItem → List BatchItemResult → BatchDescribeResponse
  summary items results = record {
    results = results;
    total = length items;
    succeeded = count_if (λ r. is_some r.result) results;
    failed =
        length items - count_if (λ r. is_some r.result) results - count_if is_interrupted results;
    interrupted = count_if is_interrupted results;
  }

-- The endpoint: while an item is described, other requests run, which may start and end batches of their
-- own, so that `describe` works on the whole process.
module _ {S : Type 0} (validate : BatchDescribeItem → Result DescribeRequest)
    (describe : DescribeRequest → Process S → Result DescribeResponse × Process S)
    (shutting_down : Process S → Bool) where
  abbrev pub batch_job_inc : Process S → Process S
  batch_job_inc p = record p { active_batch_jobs = p.active_batch_jobs + 1 }

  -- each call of it follows one of `batch_job_inc`, so that the gauge is not zero
  abbrev pub batch_job_dec : Process S → Process S
  batch_job_dec p = record p { active_batch_jobs = p.active_batch_jobs - 1 }

  abbrev summarised :
      List BatchDescribeItem
      → Result (List BatchItemResult) × Process S
      → Result BatchDescribeResponse × Process S
  summarised items (ok results, p) = (ok (summary validate describe shutting_down items results), p)
  summarised items (err e, p) = (err e, p)

  -- the loop between `batch_job_inc` and the `finally`
  abbrev counted : List BatchDescribeItem → Process S → Result (List BatchItemResult) × Process S
  counted items p =
      let (r, q) = results_from validate describe shutting_down 0 items (batch_job_inc p) in
      (r, batch_job_dec q)

  unfoldable pub describe_batch :
      List BatchDescribeItem → Process S → Result BatchDescribeResponse × Process S
  unfolding results_from
  describe_batch items p = summarised items (counted items p)

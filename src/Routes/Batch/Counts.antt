-- ===== src/Routes/Batch/Counts.antt =====
-- What the response of a batch says of its items.
use image_descriptor.Prelude.{
  ℕ, suc, ◌+◌, ◌≤◌, ◌≡◌, refl, ap, Bool, not, true, false, ◌&&◌, List, [], ◌∷◌, arith, All, length,
  count_if, is_some, Bool-cases, inl, inr,
}
use image_descriptor.Prelude.Text.{contains, is_truthy}
use image_descriptor.Errors.{Error, ErrorClass, Result, ok, err, Result-cases, connection_error}
use image_descriptor.Schemas.{
  DescribeRequest, BatchDescribeItem, DescribeResponse, BatchItemResult, BatchDescribeResponse,
}
use image_descriptor.Routes.Batch.{
  item_error, interrupt, process_one, results_from, describe_batch, item_result, described, go_on,
  prepend, summary, Process, is_interrupted, failed_item, batch_job_inc, summarised, counted,
}

-- The results carry the indices from i on, in order.
abbrev pub IsIndexed : ℕ → List BatchItemResult → Type 0
IsIndexed i [] = Unit
IsIndexed i (r ∷ rs) = (r.index ≡ i) × IsIndexed (i + 1) rs

-- An item has a result or an error, never both and never neither.
abbrev pub IsExclusive : BatchItemResult → Type 0
IsExclusive r = is_some r.result ≡ not (is_some r.error)

-- what holds of the results of the items from i on
pub record Answers (i : ℕ) (items : List BatchDescribeItem) (rs : List BatchItemResult)
    : Type 0 where
  pub complete : length rs ≡ length items
  pub indexed : IsIndexed i rs
  pub exclusive : All IsExclusive rs

interrupt-Answers : (i : ℕ) (items : List BatchDescribeItem) → Answers i items (interrupt i items)
unfolding interrupt
interrupt-Answers i [] = record { complete = refl; indexed = tt; exclusive = tt }
interrupt-Answers i (item ∷ items) =
    let h = interrupt-Answers (i + 1) items in
    record {
      complete = ap suc h.complete;
      indexed = (refl, h.indexed);
      exclusive = (refl, h.exclusive);
    }

item_error-Answer :
    (i : ℕ) (e : Error) (k : ErrorClass) (r : BatchItemResult)
    → item_error i e k ≡ ok r
    → (r.index ≡ i) × IsExclusive r
unfolding item_error
item_error-Answer i e k r h = ground arith

disjoint :
    (rs : List BatchItemResult)
    → All IsExclusive rs
    → count_if (λ r. is_some r.result) rs + count_if is_interrupted rs ≤ length rs
disjoint [] h = omega arith
disjoint (r ∷ rs) (x, h) = ground (arith, disjoint rs h)

module _ {S : Type 0} (validate : BatchDescribeItem → Result DescribeRequest)
    (describe : DescribeRequest → S → Result DescribeResponse × S) (shutting_down : S → Bool) where
  process_one-Answer :
      (i : ℕ) (item : BatchDescribeItem) (s : S) (r : BatchItemResult)
      → (process_one validate describe shutting_down i item s).0 ≡ ok r
      → (r.index ≡ i) × IsExclusive r
  unfolding process_one
  process_one-Answer i item s r h = answered (validate item) h
    where
      settled :
          (d : Result DescribeResponse × S)
          → (item_result validate describe shutting_down i d).0 ≡ ok r
          → (r.index ≡ i) × IsExclusive r
      settled (ok x, t) k = ground arith
      settled (err e, t) k = item_error-Answer i e e.kind r k

      answered :
          (v : Result DescribeRequest)
          → (described validate describe shutting_down i v s).0 ≡ ok r
          → (r.index ≡ i) × IsExclusive r
      answered (ok request) k = settled (describe request s) k
      answered (err e) k = item_error-Answer i e e.kind r k

  go_on-Answers :
      (i : ℕ) (item : BatchDescribeItem) (items : List BatchDescribeItem)
      (p : Result BatchItemResult × S) (rest : S → Result (List BatchItemResult) × S)
      (rs : List BatchItemResult)
      → ((r : BatchItemResult) → p.0 ≡ ok r → (r.index ≡ i) × IsExclusive r)
      → ((t : S) (qs : List BatchItemResult) → (rest t).0 ≡ ok qs → Answers (i + 1) items qs)
      → (go_on validate describe shutting_down p rest).0 ≡ ok rs
      → Answers i (item ∷ items) rs
  go_on-Answers i item items (err e, t) rest rs one more h = ground arith
  go_on-Answers i item items (ok r, t) rest rs one more h = joined (rest t) (more t) h
    where
      joined :
          (q : Result (List BatchItemResult) × S)
          → ((qs : List BatchItemResult) → q.0 ≡ ok qs → Answers (i + 1) items qs)
          → (prepend validate describe shutting_down r q).0 ≡ ok rs
          → Answers i (item ∷ items) rs
      joined (err e, u) later k = ground arith
      joined (ok qs, u) later k =
          let e : (r ∷ qs) ≡ rs = cc in
          let (index, exclusive) = one r refl in
          let a = later qs refl in
          rw (← e) (record {
            complete = ap suc a.complete;
            indexed = (index, a.indexed);
            exclusive = (exclusive, a.exclusive);
          })

  results_from-Answers :
      (i : ℕ) (items : List BatchDescribeItem) (s : S) (rs : List BatchItemResult)
      → (results_from validate describe shutting_down i items s).0 ≡ ok rs
      → Answers i items rs
  unfolding results_from
  results_from-Answers i [] s rs h =
      let e : [] ≡ rs = cc in rw (← e) (record { complete = refl; indexed = tt; exclusive = tt })
  results_from-Answers i (item ∷ items) s rs h = elim (Bool-cases (shutting_down s)) [
    | inl down ↦
        let e : interrupt i (item ∷ items) ≡ rs = ground arith in
        rw (← e) (interrupt-Answers i (item ∷ items))
    | inr up ↦
        go_on-Answers i item items (process_one validate describe shutting_down i item s)
          (λ t. results_from validate describe shutting_down (i + 1) items t) rs
          (process_one-Answer i item s) (λ t. results_from-Answers (i + 1) items t)
          (rw (up, results_from) at h)
  ]

  described-keeps :
      (P : S → Type 0) (i : ℕ) (v : Result DescribeRequest) (s : S)
      → ((request : DescribeRequest) (u : S) → P u → P (describe request u).1)
      → P s
      → P (described validate describe shutting_down i v s).1
  described-keeps P i (err e) s keep h = h
  described-keeps P i (ok request) s keep h = settled (describe request s) (keep request s h)
    where
      settled :
          (d : Result DescribeResponse × S)
          → P d.1
          → P (item_result validate describe shutting_down i d).1
      settled (ok r, t) k = k
      settled (err e, t) k = k

  prepend-keeps :
      (P : S → Type 0) (r : BatchItemResult) (q : Result (List BatchItemResult) × S)
      → P q.1
      → P (prepend validate describe shutting_down r q).1
  prepend-keeps P r (ok rs, t) h = h
  prepend-keeps P r (err e, t) h = h

  go_on-keeps :
      (P : S → Type 0) (p : Result BatchItemResult × S)
      (rest : S → Result (List BatchItemResult) × S)
      → P p.1
      → ((t : S) → P t → P (rest t).1)
      → P (go_on validate describe shutting_down p rest).1
  go_on-keeps P (err e, t) rest h more = h
  go_on-keeps P (ok r, t) rest h more = prepend-keeps P r (rest t) (more t h)

  -- What every description keeps, the loop keeps, however it ends.
  results_from-keeps :
      (P : S → Type 0) (i : ℕ) (items : List BatchDescribeItem) (s : S)
      → ((request : DescribeRequest) (u : S) → P u → P (describe request u).1)
      → P s
      → P (results_from validate describe shutting_down i items s).1
  unfolding results_from process_one
  results_from-keeps P i [] s keep h = h
  results_from-keeps P i (item ∷ items) s keep h = elim (Bool-cases (shutting_down s)) [
    | inl down ↦ rw down h
    | inr up ↦ rw up (
        go_on-keeps P (process_one validate describe shutting_down i item s)
          (λ t. results_from validate describe shutting_down (i + 1) items t)
          (described-keeps P i (validate item) s keep h)
          (λ t k. results_from-keeps P (i + 1) items t keep k))
  ]

module _ {S : Type 0} (validate : BatchDescribeItem → Result DescribeRequest)
    (describe : DescribeRequest → Process S → Result DescribeResponse × Process S)
    (shutting_down : Process S → Bool) where
  -- A batch that is answered has one result for each item, in the order of the items and numbered from
  -- 0; each has either a result or an error; and its counts of succeeded, failed and interrupted
  -- items add up to the number of items, so that `failed` is never below zero.
  pub describe_batch-accounts :
      (items : List BatchDescribeItem) (p : Process S) (b : BatchDescribeResponse)
      → (describe_batch validate describe shutting_down items p).0 ≡ ok b
      → (length b.results ≡ length items)
        × IsIndexed 0 b.results
        × All IsExclusive b.results
        × (b.total ≡ length items)
        × (b.succeeded + b.failed + b.interrupted ≡ length items)
  unfolding describe_batch
  describe_batch-accounts items p b h =
      let begun = batch_job_inc validate describe shutting_down p in
      elim (Result-cases (results_from validate describe shutting_down 0 items begun).0) [
        | inl (rs, e) ↦
            let a = results_from-Answers validate describe shutting_down 0 items begun rs e in
            let same : summary validate describe shutting_down items rs ≡ b = ground arith in
            rw (← same) (
              a.complete,
              a.indexed,
              a.exclusive,
              refl,
              omega (arith, disjoint rs a.exclusive, a.complete),
            )
        | inr (x, e) ↦ absurd (ground arith)
      ]

  summarised-state :
      (items : List BatchDescribeItem) (q : Result (List BatchItemResult) × Process S)
      → (summarised validate describe shutting_down items q).1 ≡ q.1
  summarised-state items (ok rs, p) = refl
  summarised-state items (err e, p) = refl

  -- Let `others` count the other batches that run. As long as they start and end properly while an item
  -- is described, so that the gauge is one more than them then, the gauge is again their number once a
  -- batch has ended: after its last item, at a shutdown, and where an exception leaves it.
  pub active-describe_batch :
      (others : S → ℕ) (items : List BatchDescribeItem) (p : Process S)
      → ((request : DescribeRequest) (q : Process S)
          → q.active_batch_jobs ≡ others q.inner + 1
          → (describe request q).1.active_batch_jobs ≡ others (describe request q).1.inner + 1)
      → p.active_batch_jobs ≡ others p.inner
      → let after = (describe_batch validate describe shutting_down items p).1 in
        after.active_batch_jobs ≡ others after.inner
  unfolding describe_batch
  active-describe_batch others items p keep h =
      let begun = batch_job_inc validate describe shutting_down p in
      let kept =
        results_from-keeps validate describe shutting_down
          (λ q. q.active_batch_jobs ≡ others q.inner + 1) 0 items begun keep (omega (arith, h)) in
      rw (summarised-state items (counted validate describe shutting_down items p))
        (omega (arith, kept))

  -- A single item that validates, and fails by a `ConnectionError` whose text happens to hold the
  -- word "interrupted", is counted as interrupted by a shutdown and not as failed, though the
  -- server is not shutting down.
  pub miscounted :
      (item : BatchDescribeItem) (request : DescribeRequest) (p t : Process S) (e : Error)
      → let begun = batch_job_inc validate describe shutting_down p in
        shutting_down begun ≡ false
        → validate item ≡ ok request
        → describe request begun ≡ (err e, t)
        → e.kind ≡ connection_error
        → is_truthy e.text && contains "interrupted" e.text ≡ true
        → (b : BatchDescribeResponse) × ((describe_batch validate describe shutting_down
              (item ∷ [])
              p).0
            ≡ ok b)
          × (b.interrupted ≡ 1)
          × (b.failed ≡ 0)
  unfolding describe_batch
  miscounted item request p t e up valid fails kind word = (
    summary validate describe shutting_down (item ∷ []) (failed_item 0 "service" e.text ∷ []),
    rw (up, valid, fails, kind),
    ground arith,
    ground arith,
  )

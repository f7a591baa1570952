-- ===== src/Server/Lifespan.antt =====
-- app/main.py: `lifespan`, from the start to the end of the process, and the loop that cleans the
-- cache up. Times count from the first wait of the shutdown.
pub mod Graceful
use image_descriptor.Prelude.{
  ℕ, suc, ◌+◌, Bool, true, false, Option, none, some, List, [], ◌∷◌, ◌++◌, ltb, if◌then◌else◌,
}
use image_descriptor.Errors.{Error, Result, ok, err}
use image_descriptor.Cache.{Cache, Fault, cleanup_expired}
use image_descriptor.Server.{Server, started, drain_batches}

-- `batches_waited` has the time that the poll for running batches took.
pub data Step : Type 0 where
  settings_logged cache_opened cleanup_started : Step
  batches_waited : ℕ → Step
  requests_drained drain_timeout : Step
  cleanup_cancelled cache_closed client_closed : Step

-- up to `yield`, by the outcome of the cache's `init`
unfoldable pub startup : Result (Unit {0}) → Result Server × List Step
unfolding started
startup (ok u) = (ok started, settings_logged ∷ cache_opened ∷ cleanup_started ∷ [])
startup (err e) = (err e, settings_logged ∷ [])

-- What the shutdown meets: the settings, the count that each poll of the batches reads, how much later
-- than a given time the drain event is set, if ever, and the outcome of the cache's `close`.
pub record Ending : Type 0 where
  pub poll_interval : ℕ
  pub batch_timeout : ℕ
  pub shutdown_timeout : ℕ
  pub active : ℕ → ℕ
  pub drained : ℕ → Option ℕ
  pub close : Result (Unit {0})

pub record Shutdown : Type 0 where
  pub waited : ℕ
  pub steps : List Step
  pub outcome : Result (Unit {0})

-- what follows the waits; an error of `close` goes on, and the client stays open
unfoldable pub closing : Result (Unit {0}) → List Step
closing (ok u) = cleanup_cancelled ∷ cache_closed ∷ client_closed ∷ []
closing (err e) = cleanup_cancelled ∷ []

-- `wait_for(_drain_event.wait(), timeout=settings.shutdown_timeout)`
unfoldable pub wait_drained : ℕ → Option ℕ → ℕ × Step
wait_drained shutdown_timeout none = (shutdown_timeout, drain_timeout)
wait_drained shutdown_timeout (some t) =
    if ltb t shutdown_timeout then (t, requests_drained) else (shutdown_timeout, drain_timeout)

abbrev pub waited_both : Ending → ℕ → ℕ × Step → Shutdown
waited_both e t (u, step) = record {
  waited = t + u;
  steps = batches_waited t ∷ step ∷ closing e.close;
  outcome = e.close;
}

abbrev pub drained_after : Ending → Option ℕ → Option Shutdown
unfolding wait_drained
drained_after e none = none
drained_after e (some t) = some (waited_both e t (wait_drained e.shutdown_timeout (e.drained t)))

-- from `yield` on; none where the poll runs out of its fuel
unfoldable pub shutdown : Ending → Server → Option Shutdown
unfolding closing drain_batches
shutdown e s =
    if s.shutting_down
    then drained_after e
        (drain_batches (suc e.batch_timeout) e.active e.poll_interval e.batch_timeout 0)
    else some (record { waited = 0; steps = closing e.close; outcome = e.close })

-- `_cache_cleanup_loop`, for some rounds: an error of a round is only logged
unfoldable pub cache_cleanup_loop : List (Fault × ℕ) → Cache → Cache
unfolding cleanup_expired
cache_cleanup_loop [] c = c
cache_cleanup_loop ((f, now) ∷ rounds) c = cache_cleanup_loop rounds (cleanup_expired f now c).1

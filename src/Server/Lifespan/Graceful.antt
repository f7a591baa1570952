-- ===== src/Server/Lifespan/Graceful.antt =====
-- What a graceful shutdown waits for, and that it ends.
use image_descriptor.Prelude.{
  ℕ, ◌+◌, ◌≤◌, ◌<◌, ◌≡◌, ◌⊎◌, inl, inr, refl, String, [], true, Option, none, some, List, ◌∷◌, map,
  arith, ltb, Bool-cases,
}
use image_descriptor.Cache.{Cache, Fault, cleanup_expired}
use image_descriptor.Cache.Ideal.{Op, cleans, apply, run}
use image_descriptor.Server.{Server}
use image_descriptor.Server.Drain.{drain_batches_ends}
use image_descriptor.Server.Lifespan.{
  Step, batches_waited, requests_drained, drain_timeout, Ending, Shutdown, closing, wait_drained,
  waited_both, drained_after, shutdown, cache_cleanup_loop,
}

-- The wait for requests ends by the drain event, or lasts for the whole time-out.
abbrev pub IsWait : Ending → ℕ → ℕ × Step → Type 0
IsWait e t (u, step) =
    ((step ≡ requests_drained) × (e.drained t ≡ some u) × (u < e.shutdown_timeout))
    ⊎ ((step ≡ drain_timeout) × (u ≡ e.shutdown_timeout))

-- The wait for batches, of t, that for requests, and what is closed after both.
abbrev pub IsGraceful : Ending → Shutdown → Type 0
IsGraceful e r =
    (t u : ℕ) × (step : Step) × (r.steps ≡ batches_waited t ∷ step ∷ closing e.close)
    × (r.waited ≡ t + u)
    × ((e.active t ≡ 0) ⊎ (e.batch_timeout ≤ t))
    × (t < e.batch_timeout + e.poll_interval)
    × IsWait e t (u, step)

wait_drained-IsWait :
    (e : Ending) (t : ℕ) (o : Option ℕ)
    → e.drained t ≡ o
    → IsWait e t (wait_drained e.shutdown_timeout o)
unfolding wait_drained
wait_drained-IsWait e t none h = inr (refl, refl)
wait_drained-IsWait e t (some u) h = elim (Bool-cases (ltb u e.shutdown_timeout)) [
  | inl soon ↦ rw soon (inl (refl, h, ground arith))
  | inr late ↦ rw late (inr (refl, refl))
]

waited_both-IsGraceful :
    (e : Ending) (t : ℕ) (w : ℕ × Step)
    → ((e.active t ≡ 0) ⊎ (e.batch_timeout ≤ t))
    → t < e.batch_timeout + e.poll_interval
    → IsWait e t w
    → IsGraceful e (waited_both e t w)
waited_both-IsGraceful e t (u, step) idle soon w = (t, u, step, refl, refl, idle, soon, w)

-- A shutdown by the signal ends. It polls until no batch runs or the batches' time-out has passed, less
-- than one interval after it; then waits for the requests in flight until the drain event is set, or for
-- the whole of the shutdown's time-out; and only after both stops the clean-up and closes the cache, and
-- then, unless the cache's close fails, the client. The interval is taken to be positive.
pub shutdown_ends :
    (e : Ending) (s : Server)
    → 0 < e.poll_interval
    → s.shutting_down ≡ true
    → (r : Shutdown) × (shutdown e s ≡ some r) × IsGraceful e r × (r.outcome ≡ e.close)
unfolding shutdown drained_after
shutdown_ends e s p h =
    let (t, ends, idle, soon) =
      drain_batches_ends e.batch_timeout e.active e.poll_interval e.batch_timeout 0 p (omega arith)
        (omega arith) in
    let w = wait_drained e.shutdown_timeout (e.drained t) in
    (
      waited_both e t w,
      rw (h, ends) refl,
      waited_both-IsGraceful e t w idle soon (wait_drained-IsWait e t (e.drained t) refl),
      refl,
    )

abbrev op_of : {V : Type 0} → Fault × ℕ → Op V
op_of (f, now) = cleans f now

-- The clean-up loop is a run of the store's own operations, so that what holds of every run holds with
-- the loop in between.
pub cache_cleanup_loop_lem :
    {V : Type 0} (loads : String → Option V) (dumps : V → String) (rounds : List (Fault × ℕ))
    (c : Cache)
    → cache_cleanup_loop rounds c ≡ run loads dumps c (map op_of rounds)
unfolding cache_cleanup_loop run apply
cache_cleanup_loop_lem loads dumps [] c = refl
cache_cleanup_loop_lem loads dumps ((f, now) ∷ rounds) c =
    cache_cleanup_loop_lem loads dumps rounds (cleanup_expired f now c).1

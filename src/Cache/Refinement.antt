-- ===== src/Cache/Refinement.antt =====
-- The store implements the ideal one: whatever the faults, its answers are the ideal store's.
use image_descriptor.Prelude.{
  ℕ, ◌≤◌, ◌<◌, ◌≡◌, refl, ap, ◌∙◌, String, Option, none, some, List, [], ◌∷◌, false, arith,
}
use image_descriptor.Errors.{ok}
use image_descriptor.Prelude.Text.{eq_refl}
use image_descriptor.Cache.Rows.{select}
use image_descriptor.Cache.Rows.Lookup.{select-replace}
use image_descriptor.Cache.{Cache, empty, HasCaught, Fault, fine, get, set, expiry, is_expired}
use image_descriptor.Cache.Ideal.{
  Op, gets, sets, cleans, time, IsOrdered, end, live, ideal, ideals, apply, run, read, Refines,
}
use image_descriptor.Cache.Reads.{
  read-get, read-set, read-cleanup, get-IsKeyed, set-IsKeyed, cleanup-IsKeyed, get-IsPositive,
  set-IsPositive, cleanup-IsPositive,
}

module _ {V : Type 0} (loads : String → Option V) (dumps : V → String) where
  module _ (codec : (v : V) → loads (dumps v) ≡ some v) where
    apply-Refines :
        (now : ℕ) (op : Op V) (c : Cache) (s : String → Option (V × Option ℕ))
        → 0 < now
        → now ≤ time op
        → Refines loads dumps now c s
        → Refines loads dumps (time op) (apply loads dumps c op) (ideal s op)
    unfolding apply
    apply-Refines now (gets e f t key) c s h k r = record {
      keyed = get-IsKeyed loads dumps e f t key c r.keyed;
      positive = λ j. get-IsPositive loads dumps e f t key j c (r.positive j);
      agrees = λ u later j. read-get loads dumps e f t u key j c later ∙ r.agrees u (omega arith) j;
    }
    apply-Refines now (cleans f t) c s h k r = record {
      keyed = cleanup-IsKeyed loads dumps f t c r.keyed;
      positive = λ j. cleanup-IsPositive loads dumps f t j c r.keyed (r.positive j);
      agrees = λ u later j.
          read-cleanup loads dumps f t u j c later r.keyed (r.positive j)
          ∙ r.agrees u (omega arith) j;
    }
    apply-Refines now (sets f t key v days seconds) c s h k r = record {
      keyed = set-IsKeyed loads dumps f t key v days seconds c r.keyed;
      positive =
          λ j. set-IsPositive loads dumps f t key j v days seconds c (omega arith) (r.positive j);
      agrees = λ u later j.
          read-set loads dumps f t u key j v days seconds c (codec v)
          ∙ ground (arith, r.agrees u (omega arith) j);
    }

    pub run-Refines :
        (now : ℕ) (ops : List (Op V)) (c : Cache) (s : String → Option (V × Option ℕ))
        → 0 < now
        → IsOrdered now ops
        → Refines loads dumps now c s
        → Refines loads dumps (end now ops) (run loads dumps c ops) (ideals s ops)
    unfolding run
    run-Refines now [] c s h o r = r
    run-Refines now (op ∷ ops) c s h (k, o) r =
        run-Refines (time op) ops (apply loads dumps c op) (ideal s op) (omega arith) o
          (apply-Refines now op c s h k r)

  -- A `get` whose SELECT answers returns what can be read from the row, unless its deletion raises.
  get-read :
      (f : Fault) (now : ℕ) (key : String) (c : Cache)
      → HasCaught f
      → (get loads none f now key c).0 ≡ ok (read loads now (select key c.table))
  unfolding get
  get-read f now key c h = ground arith

  -- After any operations on a new store, at instants that never go back and whatever faults meet them,
  -- a `get` whose SELECT answers returns the value of the last `set` of its key that reached the table,
  -- unless that has expired, in which case it returns None, as it does for a key that was never set.
  -- The JSON codec is taken to give back what it was given, and an error of the deletion to be one that
  -- the handler catches.
  pub get-latest :
      ((v : V) → loads (dumps v) ≡ some v)
      → (start : ℕ) (ops : List (Op V)) (f : Fault) (now : ℕ) (key : String) → 0 < start
      → IsOrdered start ops
      → end start ops ≤ now
      → HasCaught f
      → (get loads none f now key (run loads dumps empty ops)).0
        ≡ ok (live now (ideals (λ k. none) ops key))
  unfolding select
  get-latest codec start ops f now key h o later caught =
      let r = run-Refines codec start ops empty (λ k. none) h o empty-Refines in
      get-read f now key (run loads dumps empty ops) caught ∙ ap ok (r.agrees now later key)
    where
      empty-Refines : Refines loads dumps start empty (λ k. none)
      empty-Refines = record { keyed = tt; positive = λ k. tt; agrees = λ t h k. refl }

  -- what a `set` without a fault stores can be read until its time is over
  pub get-set :
      (f : Fault) (now t : ℕ) (key : String) (v : V) (days seconds : Option ℕ) (c : Cache)
      → loads (dumps v) ≡ some v
      → is_expired (expiry now days seconds) t ≡ false
      → (get loads none f t key (set dumps fine now key v days seconds c).1).0 ≡ ok (some v)
  unfolding get set
  get-set f now t key v days seconds c codec h = ground (
    arith,
    select-replace (record { key = key; value = dumps v; expires_at = expiry now days seconds }) key
        c.table,
    eq_refl key,
  )

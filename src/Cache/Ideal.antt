-- ===== src/Cache/Ideal.antt =====
-- An ideal store that forgets nothing: a map from keys to values with their expiry, and the runs of
-- operations over which the store is held against it.
use image_descriptor.Prelude.{
  ℕ, ◌≤◌, ◌≡◌, ◌≢◌, String, Bool, true, false, Option, none, some, List, [], ◌∷◌, if◌then◌else◌,
}
use image_descriptor.Prelude.Text.{str_eq}
use image_descriptor.Errors.{Error}
use image_descriptor.Cache.Rows.{Row, select}
use image_descriptor.Cache.Rows.Lookup.{IsKeyed}
use image_descriptor.Cache.{
  Cache, Fault, fine, execute_fails, commit_fails, is_expired, get, set, cleanup_expired, expiry,
}

-- `is_expired` and the SQL test differ at 0 alone, an instant that no row carries.
abbrev pub IsPositive : Option Row → Type 0
IsPositive none = Unit
IsPositive (some row) = row.expires_at ≢ some 0

pub data Op (V : Type 0) : Type 0 where
  gets : Option Error → Fault → ℕ → String → Op V
  sets : Fault → ℕ → String → V → Option ℕ → Option ℕ → Op V
  cleans : Fault → ℕ → Op V

abbrev pub is_stored : Fault → Bool
is_stored fine = true
is_stored (execute_fails e) = false
is_stored (commit_fails e) = true

module _ {V : Type 0} where
  abbrev pub time : Op V → ℕ
  time (gets e f now key) = now
  time (sets f now key value days seconds) = now
  time (cleans f now) = now

  -- the operations run at instants that never go back
  abbrev pub IsOrdered : ℕ → List (Op V) → Type 0
  IsOrdered t [] = Unit
  IsOrdered t (op ∷ ops) = (t ≤ time op) × IsOrdered (time op) ops

  abbrev pub end : ℕ → List (Op V) → ℕ
  end t [] = t
  end t (op ∷ ops) = end (time op) ops

  -- what an ideal store answers at the instant t
  abbrev pub live : ℕ → Option (V × Option ℕ) → Option V
  live t none = none
  live t (some (v, expires_at)) = if is_expired expires_at t then none else some v

  abbrev pub ideal : (String → Option (V × Option ℕ)) → Op V → String → Option (V × Option ℕ)
  ideal s (gets e f now key) k = s k
  ideal s (cleans f now) k = s k
  ideal s (sets f now key value days seconds) k =
      if is_stored f
      then (if str_eq key k then some (value, expiry now days seconds) else s k)
      else s k

  abbrev pub ideals :
      (String → Option (V × Option ℕ)) → List (Op V) → String → Option (V × Option ℕ)
  ideals s [] = s
  ideals s (op ∷ ops) = ideals (ideal s op) ops

module _ {V : Type 0} (loads : String → Option V) where
  -- the value that a row gives at the instant t
  abbrev pub read : ℕ → Option Row → Option V
  read t none = none
  read t (some row) = if is_expired row.expires_at t then none else loads row.value

module _ {V : Type 0} (loads : String → Option V) (dumps : V → String) where
  unfoldable pub apply : Cache → Op V → Cache
  apply c (gets e f now key) = (get loads e f now key c).1
  apply c (sets f now key value days seconds) = (set dumps f now key value days seconds c).1
  apply c (cleans f now) = (cleanup_expired f now c).1

  unfoldable pub run : Cache → List (Op V) → Cache
  run c [] = c
  run c (op ∷ ops) = run (apply c op) ops

  pub record Refines (now : ℕ) (c : Cache) (s : String → Option (V × Option ℕ)) : Type 0 where
    pub keyed : IsKeyed c.table
    pub positive : (k : String) → IsPositive (select k c.table)
    pub agrees : (t : ℕ) → now ≤ t → (k : String) → read loads t (select k c.table) ≡ live t (s k)

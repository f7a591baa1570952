-- ===== src/HttpClient/Shared.antt =====
-- The client that every caller gets, while no close is suspended.
use image_descriptor.Prelude.{
  ℕ, ◌≡◌, ◌≢◌, ◌<◌, refl, true, false, Option, none, some, List, [], ◌∷◌, arith, Bool-cases, inl,
  inr, ltb,
}
use image_descriptor.HttpClient.{
  Pool, at_start, get_client, begin_close, end_close, create, unless_open, closed, Event, getting,
  beginning, ending, step, run,
}

-- No client is asked for while a call of `close_client` is suspended.
abbrev pub IsQuiet : List Event → Pool → Type 0
IsQuiet [] p = Unit
IsQuiet (getting ∷ events) p = (p.closing ≡ 0) × IsQuiet events (step getting p)
IsQuiet (beginning ∷ events) p = IsQuiet events (step beginning p)
IsQuiet (ending ∷ events) p = IsQuiet events (step ending p)

-- Every client that is open is the shared one, and none is while a close is suspended.
pub record IsShared (p : Pool) : Type 0 where
  pub shared : (i : ℕ) → i < p.made → p.is_closed i ≡ false → p.client ≡ some i
  pub made : (i : ℕ) → p.client ≡ some i → i < p.made
  pub none_open : (i : ℕ) → p.closing ≢ 0 → i < p.made → p.is_closed i ≡ true

create-IsShared :
    (p : Pool)
    → p.closing ≡ 0
    → ((i : ℕ) → i < p.made → p.is_closed i ≡ true)
    → IsShared (create p).1
create-IsShared p quiet h = record {
  shared = λ i l o. ground (arith, h i);
  made = λ i e. ground arith;
  none_open = λ i n l. absurd (n quiet);
}

-- every client is closed, where the shared one is not open
is_closed_unless_shared :
    (p : Pool) (i : ℕ)
    → IsShared p
    → ((j : ℕ) → p.client ≡ some j → p.is_closed j ≡ true)
    → i < p.made
    → p.is_closed i ≡ true
is_closed_unless_shared p i s h l = elim (Bool-cases (p.is_closed i)) [
  | inl e ↦ e
  | inr e ↦ h i (s.shared i l e)
]

unless_open-IsShared :
    (p : Pool) (c : Option ℕ) (rest : ℕ × Pool)
    → p.client ≡ c
    → IsShared p
    → (((i : ℕ) → i < p.made → p.is_closed i ≡ true) → IsShared rest.1)
    → IsShared (unless_open c p rest).1
unless_open-IsShared p none rest e s k =
    k (λ i. is_closed_unless_shared p i s (λ j h. absurd (ground arith)))
unless_open-IsShared p (some j) rest e s k = elim (Bool-cases (p.is_closed j)) [
  | inl h ↦ rw h (k (λ i. is_closed_unless_shared p i s (λ n g. ground arith)))
  | inr h ↦ rw h s
]

get_client-IsShared : (p : Pool) → p.closing ≡ 0 → IsShared p → IsShared (get_client p).1
unfolding get_client
get_client-IsShared p quiet s =
    unless_open-IsShared p p.client (unless_open p.client p (create p)) refl s
      (λ h. unless_open-IsShared p p.client (create p) refl s (λ g. create-IsShared p quiet g))

closed-IsShared : (p : Pool) (c : Option ℕ) → p.client ≡ c → IsShared p → IsShared (closed c p)
closed-IsShared p none e s = s
closed-IsShared p (some j) e s = elim (Bool-cases (p.is_closed j)) [
  | inl h ↦ rw h s
  | inr h ↦ rw h (record {
    shared = λ i l o. s.shared i l (ground arith);
    made = λ i g. s.made i g;
    none_open = λ i n l. ground (arith, s.shared i l);
  })
]

end_close-IsShared : (p : Pool) → IsShared p → IsShared (end_close p)
unfolding end_close
end_close-IsShared p s = elim (Bool-cases (ltb 0 p.closing)) [
  | inl h ↦ rw h (record {
    shared = λ i l o. ground (arith, s.none_open i);
    made = λ i e. absurd (ground arith);
    none_open = λ i n l. s.none_open i (omega arith) l;
  })
  | inr h ↦ rw h s
]

step-IsShared : (e : Event) (p : Pool) → IsQuiet (e ∷ []) p → IsShared p → IsShared (step e p)
unfolding step
step-IsShared getting p (quiet, u) s = get_client-IsShared p quiet s
step-IsShared beginning p u s = unfold begin_close in closed-IsShared p p.client refl s
step-IsShared ending p u s = end_close-IsShared p s

run-keeps :
    (events : List Event) (p : Pool) → IsQuiet events p → IsShared p → IsShared (run events p)
unfolding run
run-keeps [] p u s = s
run-keeps (getting ∷ events) p (quiet, u) s =
    run-keeps events (step getting p) u (step-IsShared getting p (quiet, tt) s)
run-keeps (beginning ∷ events) p u s =
    run-keeps events (step beginning p) u (step-IsShared beginning p tt s)
run-keeps (ending ∷ events) p u s = run-keeps events (step ending p) u (step-IsShared ending p tt s)

start-IsShared : IsShared at_start
unfolding at_start
start-IsShared = record {
  shared = λ i l o. absurd (omega (arith, l));
  made = λ i e. absurd (ground arith);
  none_open = λ i n l. absurd (omega (arith, l));
}

-- After any calls of `get_client` and `close_client`, of which none asks for a client while a close is
-- suspended: a client that is still open is the shared one, so that at most one is open; and while a
-- close is suspended none is.
pub run-IsShared : (events : List Event) → IsQuiet events at_start → IsShared (run events at_start)
run-IsShared events quiet = run-keeps events at_start quiet start-IsShared

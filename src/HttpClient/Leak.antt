-- ===== src/HttpClient/Leak.antt =====
-- A client that is asked for while a close is suspended.
use image_descriptor.Prelude.{
  ℕ, ◌+◌, ◌≡◌, ◌≢◌, ◌<◌, refl, true, false, Option, none, some, List, [], ◌∷◌, arith, ltb, ◌==◌,
  if◌then◌else◌, Bool-cases, inl, inr, ◌∙◌,
}
use image_descriptor.HttpClient.{
  Pool, get_client, begin_close, end_close, create, unless_open, closed, Event, getting, beginning,
  ending, step, run,
}

-- A client that is open, and is not the shared one.
pub record IsLost (i : ℕ) (p : Pool) : Type 0 where
  pub made : i < p.made
  pub still_open : p.is_closed i ≡ false
  pub not_shared : p.client ≢ some i

create-IsLost : (i : ℕ) (p : Pool) → IsLost i p → IsLost i (create p).1
create-IsLost i p s = record {
  made = omega (arith, s.made);
  still_open = ground (arith, s.made, s.still_open);
  not_shared = λ e. ground (arith, s.made);
}

unless_open-IsLost :
    (i : ℕ) (p : Pool) (c : Option ℕ) (rest : ℕ × Pool)
    → IsLost i p
    → IsLost i rest.1
    → IsLost i (unless_open c p rest).1
unless_open-IsLost i p none rest s r = r
unless_open-IsLost i p (some j) rest s r = elim (Bool-cases (p.is_closed j)) [
  | inl h ↦ rw h r
  | inr h ↦ rw h s
]

closed-IsLost :
    (i : ℕ) (p : Pool) (c : Option ℕ) → p.client ≡ c → IsLost i p → IsLost i (closed c p)
closed-IsLost i p none e s = s
closed-IsLost i p (some j) e s = elim (Bool-cases (p.is_closed j)) [
  | inl h ↦ rw h s
  | inr h ↦ rw h (record {
    made = s.made;
    still_open = ground (arith, s.still_open, s.not_shared);
    not_shared = s.not_shared;
  })
]

step-IsLost : (i : ℕ) (e : Event) (p : Pool) → IsLost i p → IsLost i (step e p)
unfolding step get_client begin_close end_close
step-IsLost i getting p s =
    unless_open-IsLost i p p.client (unless_open p.client p (create p)) s
      (unless_open-IsLost i p p.client (create p) s (create-IsLost i p s))
step-IsLost i beginning p s = closed-IsLost i p p.client refl s
step-IsLost i ending p s = elim (Bool-cases (ltb 0 p.closing)) [
  | inl h ↦
      rw h (record {
        made = s.made;
        still_open = s.still_open;
        not_shared = λ e. absurd (ground arith);
      })
  | inr h ↦ rw h s
]

later-IsLost : (i : ℕ) (events : List Event) (p : Pool) → IsLost i p → IsLost i (run events p)
unfolding run
later-IsLost i [] p s = s
later-IsLost i (e ∷ events) p s = later-IsLost i events (step e p) (step-IsLost i e p s)

-- the pool while the close of the client i is suspended
abbrev suspended : ℕ → Pool → Pool
suspended i p = record p {
  is_closed = λ j. if j == i then true else p.is_closed j;
  closing = p.closing + 1;
}

closed-open :
    (p : Pool) (i : ℕ) (c : Option ℕ)
    → c ≡ some i
    → p.is_closed i ≡ false
    → closed c p ≡ suspended i p
closed-open p i none e o = absurd (ground arith)
closed-open p i (some j) e o = let same : j ≡ i = ground arith in rw (same, o) refl

unless_open-closed :
    (p : Pool) (i : ℕ) (c : Option ℕ) (rest : ℕ × Pool)
    → c ≡ some i
    → p.is_closed i ≡ true
    → unless_open c p rest ≡ rest
unless_open-closed p i none rest e o = refl
unless_open-closed p i (some j) rest e o = let same : j ≡ i = ground arith in rw (same, o) refl

get_client-suspended :
    (p : Pool) (i : ℕ) → p.client ≡ some i → get_client (suspended i p) ≡ create (suspended i p)
unfolding get_client
get_client-suspended p i e =
    let q = suspended i p in
    unless_open-closed q i p.client (unless_open p.client q (create q)) e (ground arith)
    ∙ unless_open-closed q i p.client (create q) e (ground arith)

end_close-IsLost : (p : Pool) (i : ℕ) → IsLost p.made (end_close (create (suspended i p)).1)
unfolding end_close
end_close-IsLost p i = record {
  made = ground arith;
  still_open = ground arith;
  not_shared = λ e. absurd (ground arith);
}

suspended-IsLost :
    (p : Pool) (i : ℕ)
    → p.client ≡ some i
    → p.is_closed i ≡ false
    → IsLost p.made (end_close (get_client (begin_close p)).1)
unfolding begin_close
suspended-IsLost p i e o =
    rw (closed-open p i p.client e o) (rw (get_client-suspended p i e) (end_close-IsLost p i))

-- A client that is asked for while `close_client` is suspended is lost: it is open, it is no longer the
-- shared one once that call ends, and neither is changed by any calls that follow, so that it is never
-- closed.
pub run-IsLost :
    (p : Pool) (i : ℕ) (events : List Event)
    → p.client ≡ some i
    → p.is_closed i ≡ false
    → IsLost p.made (run (beginning ∷ getting ∷ ending ∷ events) p)
unfolding run step
run-IsLost p i events e o =
    later-IsLost p.made events (step ending (step getting (step beginning p)))
      (suspended-IsLost p i e o)

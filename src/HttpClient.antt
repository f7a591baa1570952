-- ===== src/HttpClient.antt =====
-- app/http_client.py: the client that the modules share.
--
-- A client of httpx is a number, in the order in which they are made. `get_client` suspends nowhere: the
-- lock is never held across a suspension, so that its acquisition is immediate. `close_client` suspends
-- once, between `aclose`, which marks the client closed as it begins, and the reset of the global.
pub mod Shared
pub mod Leak
use image_descriptor.Prelude.{
  ℕ, ◌+◌, ◌-◌, Bool, true, false, not, Option, none, some, List, [], ◌∷◌, ltb, ◌==◌, if◌then◌else◌,
}

-- The global `_client`, how many clients have been made, which of them are closed, and how many calls of
-- `close_client` are suspended.
pub record Pool : Type 0 where
  pub client : Option ℕ
  pub made : ℕ
  pub is_closed : ℕ → Bool
  pub closing : ℕ

unfoldable pub at_start : Pool
at_start = record { client = none; made = 0; is_closed = λ i. false; closing = 0 }

-- `httpx.AsyncClient(…)`, as the shared client
abbrev pub create : Pool → ℕ × Pool
create p = (
  p.made,
  record p {
    client = some p.made;
    made = p.made + 1;
    is_closed = λ i. if i == p.made then false else p.is_closed i;
  },
)

-- `if _client is not None and not _client.is_closed: return _client`, and what follows otherwise
abbrev pub unless_open : Option ℕ → Pool → ℕ × Pool → ℕ × Pool
unless_open none p rest = rest
unless_open (some i) p rest = if p.is_closed i then rest else (i, p)

unfoldable pub get_client : Pool → ℕ × Pool
get_client p = unless_open p.client p (unless_open p.client p (create p))

-- `close_client` up to its suspension, which it reaches if there is an open client
abbrev pub closed : Option ℕ → Pool → Pool
closed none p = p
closed (some i) p = if p.is_closed i then p else record p {
  is_closed = λ j. if j == i then true else p.is_closed j;
  closing = p.closing + 1;
}

unfoldable pub begin_close : Pool → Pool
begin_close p = closed p.client p

-- the rest of a call that is suspended
unfoldable pub end_close : Pool → Pool
end_close p = if ltb 0 p.closing then record p { client = none; closing = p.closing - 1 } else p

pub data Event : Type 0 where
  getting beginning ending : Event

unfoldable pub step : Event → Pool → Pool
unfolding get_client begin_close end_close
step getting p = (get_client p).1
step beginning p = begin_close p
step ending p = end_close p

unfoldable pub run : List Event → Pool → Pool
unfolding step
run [] p = p
run (e ∷ events) p = run events (step e p)

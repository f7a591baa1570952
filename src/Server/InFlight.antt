-- ===== src/Server/InFlight.antt =====
-- The requests in flight, over every interleaving of arrivals, departures and the signal.
use image_descriptor.Prelude.{
  ℕ, ◌+◌, ◌-◌, ◌≤◌, ◌<◌, ◌≡◌, ◌↔◌, String, Bool, true, false, arith, if◌then◌else◌,
}
use image_descriptor.Server.{Server, started, handle_sigterm, enter, leave, is_system}

-- The server, and how many requests are between `call_next` and the `finally`: those for a system
-- path and the others.
pub record World : Type 0 where
  pub server : Server
  pub system : ℕ
  pub user : ℕ

abbrev admit : String → Bool × Server → World → World
admit path (false, s) w = record w { server = s }
admit path (true, s) w =
    if is_system path
    then record w { server = s; system = w.system + 1 }
    else record w { server = s; user = w.user + 1 }

pub data Step (w : World) (v : World) : Type 0 where
  arrives : (path : String) → v ≡ admit path (enter path w.server) w → Step w v
  system_leaves :
      0 < w.system → v ≡ record w { server = leave w.server; system = w.system - 1 } → Step w v
  user_leaves : 0 < w.user → v ≡ record w { server = leave w.server; user = w.user - 1 } → Step w v
  signalled : v ≡ record w { server = handle_sigterm w.server } → Step w v

pub data Reach (w : World) : World → Type 0 where
  here : Reach w w
  next : {u v : World} → Reach w u → Step u v → Reach w v

abbrev pub initial : World
initial = record { server = started; system = 0; user = 0 }

-- The counter is the number of requests in flight, and the event is set exactly when it is zero.
pub record IsCounted (w : World) : Type 0 where
  pub counted : w.server.in_flight ≡ w.system + w.user
  pub drained : (w.server.drained ≡ true) ↔ (w.server.in_flight ≡ 0)

arrival-IsCounted :
    (path : String) (w : World) → IsCounted w → IsCounted (admit path (enter path w.server) w)
unfolding enter
arrival-IsCounted path w h = ground arith

Step-IsCounted : {w v : World} → Step w v → IsCounted w → IsCounted v
unfolding leave handle_sigterm
Step-IsCounted {w} (arrives path e) h = rw e (arrival-IsCounted path w h)
Step-IsCounted (system_leaves k e) h = rw e (ground arith)
Step-IsCounted (user_leaves k e) h = rw e (ground arith)
Step-IsCounted (signalled e) h = rw e (ground arith)

-- Whatever requests come and go, the counter equals the number of requests in flight, and the event
-- that shutdown waits for is set exactly when there are none.
pub Reach-IsCounted : {w : World} → Reach initial w → IsCounted w
unfolding started
Reach-IsCounted here = ground arith
Reach-IsCounted (next r st) = Step-IsCounted st (Reach-IsCounted r)

Step-user-le :
    {w v : World}
    → Step w v
    → w.server.shutting_down ≡ true
    → (v.server.shutting_down ≡ true) × (v.user ≤ w.user)
unfolding enter leave handle_sigterm
Step-user-le {w} (arrives path e) h = rw e (ground arith)
Step-user-le (system_leaves k e) h = rw e (ground arith)
Step-user-le (user_leaves k e) h = rw e (ground arith)
Step-user-le (signalled e) h = rw e (ground arith)

-- Once the signal has come, no request but those for system paths is admitted: their number only
-- falls, whatever happens.
pub Reach-user-le :
    {w v : World}
    → Reach w v
    → w.server.shutting_down ≡ true
    → (v.server.shutting_down ≡ true) × (v.user ≤ w.user)
Reach-user-le here h = (h, omega arith)
Reach-user-le (next r st) h =
    let (down, fewer) = Reach-user-le r h in
    let (still, less) = Step-user-le st down in (still, omega arith)

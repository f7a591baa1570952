-- ===== src/Tests/Server.antt =====
-- The server's theorems at concrete runs.
use image_descriptor.Prelude.{ℕ, ◌≤◌, ◌≡◌, refl, true, false, some, arith, ltb, if◌then◌else◌}
use image_descriptor.Server.{Server, started, handle_sigterm, enter, leave, is_system, is_one_of}
use image_descriptor.Server.InFlight.{
  World, Reach, initial, IsCounted, arrives, user_leaves, signalled, here, next, Reach-IsCounted,
  Reach-user-le,
}
use image_descriptor.Errors.{ok}
use image_descriptor.Server.Lifespan.{Ending, Shutdown, shutdown}
use image_descriptor.Server.Lifespan.Graceful.{IsGraceful, shutdown_ends}

abbrev one_user : World
one_user = record {
  server = record { shutting_down = false; in_flight = 1; drained = false };
  system = 0;
  user = 1;
}

abbrev ending : World
ending = record {
  server = record { shutting_down = true; in_flight = 1; drained = false };
  system = 0;
  user = 1;
}

abbrev ended : World
ended = record {
  server = record { shutting_down = true; in_flight = 0; drained = true };
  system = 0;
  user = 0;
}

arrived : Reach initial one_user
unfolding started enter is_system is_one_of
arrived = next here (arrives "/api/v1/describe" refl)

signal : Reach one_user ending
unfolding handle_sigterm
signal = next here (signalled refl)

Reach-IsCounted_example : IsCounted one_user
Reach-IsCounted_example = Reach-IsCounted arrived

finishing : Reach ending ended
unfolding leave
finishing = next here (user_leaves (omega arith) refl)

Reach-user-le_example : (ended.server.shutting_down ≡ true) × (0 ≤ 1)
Reach-user-le_example = Reach-user-le finishing refl

-- a batch that ends after three seconds
abbrev active : ℕ → ℕ
active t = if ltb t 3 then 1 else 0

abbrev leaving : Ending
leaving = record {
  poll_interval = 2;
  batch_timeout = 10;
  shutdown_timeout = 30;
  active = active;
  drained = λ t. some 5;
  close = ok tt;
}

-- a process that was told to end
abbrev told : Server
unfolding started handle_sigterm
told = handle_sigterm started

shutdown_ends_example :
    (r : Shutdown) × (shutdown leaving told ≡ some r)
    × IsGraceful leaving r
    × (r.outcome ≡ leaving.close)
unfolding told started handle_sigterm
shutdown_ends_example = shutdown_ends leaving told (omega arith) refl

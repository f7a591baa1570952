-- ===== src/Supabase/Saved.antt =====
-- When a save of a description answers that it is done.
use image_descriptor.Prelude.{ℕ, ◌≡◌, refl, true, arith}
use image_descriptor.Errors.{Result, ok, err}
use image_descriptor.Supabase.{
  Client, Settings, Outside, DescriptionRow, query, save_handler, save_description, get_client,
}

save_handler-true :
    (failed_at : ℕ) (q : Result (Unit {0}) × Client)
    → (save_handler failed_at q).0 ≡ ok true
    → q.0 ≡ ok tt
save_handler-true failed_at (ok u, s) e = refl
save_handler-true failed_at (err x, s) e = absurd (ground arith)

query-ok :
    (answer : Result (Unit {0})) (g : Result (Unit {0}) × Client)
    → (query answer g).0 ≡ ok tt
    → answer ≡ ok tt
query-ok answer (ok u, s) e = e
query-ok answer (err x, s) e = absurd (ground arith)

-- a save that answers True has run its statement, without an error
pub save_description-true :
    (cfg : Settings) (out : Outside) (execute : DescriptionRow → Result (Unit {0}))
    (row : DescriptionRow) (s : Client)
    → (save_description cfg out execute row s).0 ≡ ok true
    → execute row ≡ ok tt
unfolding save_description
save_description-true cfg out execute row s e =
    query-ok (execute row) (get_client cfg out s)
      (save_handler-true out.failed_at (query (execute row) (get_client cfg out s)) e)

-- ===== src/Wired/Free.antt =====
-- The tasks of a composition over the shared cache, in every order.
use image_descriptor.Prelude.{
  ◌≡◌, refl, sym, ◌∙◌, String, false, List, [], ◌∷◌, Bool-cases, inl, inr,
}
use image_descriptor.Prelude.Text.{str_eq, eq_iff}
use image_descriptor.Prelude.Number.{Number}
use mathlib.Core.List.{Permᴰ}
use image_descriptor.Schemas.{DescribeRequest}
use image_descriptor.Cache.Rows.{select}
use image_descriptor.Cache.Local.{IsLocal}
use image_descriptor.Composer.{
  Service, geocoder, landcover, describer, context, mission, Clock, State,
}
use image_descriptor.Composer.Effect.{same_swap}
use image_descriptor.Composer.Order.{IsIndependent}
use image_descriptor.Composer.Phases.{compose}
use image_descriptor.Composer.Schedule.{Inputs, task, compose_in}
use image_descriptor.Composer.Schedule.Same.{IsFree}
use image_descriptor.Composer.Schedule.Orders.{IsReordered, compose_in-IsReordered}
use image_descriptor.Errors.{Result}
use image_descriptor.Wired.{World, Setup, Calls, wired}
use image_descriptor.Wired.Rows.{rows, key, task-IsLocal, key_ne}

-- Two worlds whose caches hold the same row under every key.
pub record IsAlike (w v : World) : Type 0 where
  pub select_eq : (k : String) → select k (rows w) ≡ select k (rows v)

module _ {A B : Type 0} (ka kb : String) (a : World → Result A × World)
    (b : World → Result B × World) (p : IsLocal rows ka a) (q : IsLocal rows kb b) where
  select_both :
      str_eq ka kb ≡ false
      → str_eq kb ka ≡ false
      → (w : World) (k : String) → select k (rows (b (a w).1).1) ≡ select k (rows (a (b w).1).1)
  select_both differ differ' w k = elim (Bool-cases (str_eq ka k)) [
    | inl e ↦ at_first (((eq_iff ka k).0 e))
    | inr other ↦ elim (Bool-cases (str_eq kb k)) [
      | inl e ↦ at_second ((eq_iff kb k).0 e)
      | inr neither ↦
          q.others k (a w).1 neither
          ∙ p.others k w other
          ∙ sym (q.others k w neither)
          ∙ sym (p.others k (b w).1 other)
    ]
  ]
    where
      at_first : ka ≡ k → select k (rows (b (a w).1).1) ≡ select k (rows (a (b w).1).1)
      at_first e =
          rw (← e) (q.others ka (a w).1 differ' ∙ sym (p.row (b w).1 w (q.others ka w differ')))

      at_second : kb ≡ k → select k (rows (b (a w).1).1) ≡ select k (rows (a (b w).1).1)
      at_second e =
          rw (← e) (q.row (a w).1 w (p.others kb w differ) ∙ sym (p.others kb (b w).1 differ))

  apart-IsIndependent : str_eq ka kb ≡ false → str_eq kb ka ≡ false → IsIndependent IsAlike a b
  apart-IsIndependent differ differ' = record {
    left = λ w. p.answer (b w).1 w (q.others ka w differ');
    right = λ w. q.answer (a w).1 w (p.others kb w differ);
    both = λ w. record { select_eq = select_both differ differ' w };
    reflexive = λ w. record { select_eq = λ k. refl };
  }

local-IsAlike :
    {A : Type 0} (ka : String) (a : World → Result A × World) (w v : World)
    → IsLocal rows ka a
    → IsAlike w v
    → IsAlike (a w).1 (a v).1
local-IsAlike ka a w v p h = record {
  select_eq = λ k. elim (Bool-cases (str_eq ka k)) [
    | inl e ↦ rw (← (eq_iff ka k).0 e) (p.row w v (h.select_eq ka))
    | inr other ↦ p.others k w other ∙ h.select_eq k ∙ sym (p.others k v other)
  ];
}

module _ (setup : Setup) (calls : Calls) (request : DescribeRequest) (lon lat : Number) where
  tasks-IsFree :
      (inputs : Inputs) → IsFree IsAlike (task (wired setup calls) request lon lat inputs)
  tasks-IsFree inputs =
      let at = key setup calls request lon lat inputs in
      let local = task-IsLocal setup calls request lon lat inputs in
      let tasks = task (wired setup calls) request lon lat inputs in
      record {
        alike = λ n w v h. (local n).answer w v (h.select_eq (at n));
        kept = λ n w v h. local-IsAlike (at n) (tasks n) w v (local n) h;
        apart = λ n m h.
            apart-IsIndependent (at n) (at m) (tasks n) (tasks m) (local n) (local m)
              (key_ne setup calls request lon lat inputs n m h)
              (key_ne setup calls request lon lat inputs m n (same_swap n m h));
        transitive = λ u v w h k. record { select_eq = λ j. h.select_eq j ∙ k.select_eq j };
        reflexive = λ w. record { select_eq = λ k. refl };
      }

  -- Whatever the order in which the tasks of each phase run: the five modules, which share the cache,
  -- give the response that they give in the order in which the source creates the tasks, but for the
  -- order of its warnings. The breakers and the counted requests are the same, the labels of the calls
  -- are the same but for their order, and the cache that is left holds the same rows.
  pub compose_in-wired :
      (show : Number → String) (clocks : Service → Clock) (first second : List Service)
      (s : State World)
      → Permᴰ first (geocoder ∷ landcover ∷ mission ∷ [])
      → Permᴰ second (describer ∷ context ∷ [])
      → IsReordered IsAlike
          (compose_in show (wired setup calls) clocks first second request lon lat s)
          (compose show (wired setup calls) clocks request lon lat s)
  compose_in-wired show clocks first second s p q =
      compose_in-IsReordered IsAlike show (wired setup calls) clocks request lon lat tasks-IsFree
        first second s p q

-- ===== src/Composer/Schedule/Swap.antt =====
-- Two tasks of a phase in either order.
use image_descriptor.Prelude.{
  ◌≡◌, refl, sym, true, false, Bool-cases, inl, inr, Option, List, arith,
}
use mathlib.Core.List.Perm
use mathlib.Core.List.{append_assoc, perm_append_comm}
use image_descriptor.Errors.{Result}
use image_descriptor.Schemas.{Warned}
use image_descriptor.Composer.{
  geocoder, landcover, describer, context, mission, Service, Clock, State, safe_call,
}
use image_descriptor.Composer.Calls.{same}
use image_descriptor.Composer.Order.{IsSwapped, safe_call-IsSwapped}
use image_descriptor.Composer.Schedule.{Out, Slots, put_slot, Track, ended, ran}
use image_descriptor.Composer.Schedule.Same.{IsFree, IsSame, IsSame-refl}

same-eq : (n m : Service) → same n m ≡ true → n ≡ m
same-eq n m h = ground arith

put_slot_swap :
    (n m : Service) (x : Option (Out n)) (y : Option (Out m)) (slots : Slots)
    → same n m ≡ false
    → put_slot n x (put_slot m y slots) ≡ put_slot m y (put_slot n x slots)
put_slot_swap geocoder geocoder x y slots h = absurd (ground arith)
put_slot_swap geocoder landcover x y slots h = refl
put_slot_swap geocoder describer x y slots h = refl
put_slot_swap geocoder context x y slots h = refl
put_slot_swap geocoder mission x y slots h = refl
put_slot_swap landcover geocoder x y slots h = refl
put_slot_swap landcover landcover x y slots h = absurd (ground arith)
put_slot_swap landcover describer x y slots h = refl
put_slot_swap landcover context x y slots h = refl
put_slot_swap landcover mission x y slots h = refl
put_slot_swap describer geocoder x y slots h = refl
put_slot_swap describer landcover x y slots h = refl
put_slot_swap describer describer x y slots h = absurd (ground arith)
put_slot_swap describer context x y slots h = refl
put_slot_swap describer mission x y slots h = refl
put_slot_swap context geocoder x y slots h = refl
put_slot_swap context landcover x y slots h = refl
put_slot_swap context describer x y slots h = refl
put_slot_swap context context x y slots h = absurd (ground arith)
put_slot_swap context mission x y slots h = refl
put_slot_swap mission geocoder x y slots h = refl
put_slot_swap mission landcover x y slots h = refl
put_slot_swap mission describer x y slots h = refl
put_slot_swap mission context x y slots h = refl
put_slot_swap mission mission x y slots h = absurd (ground arith)

module _ {W : Type 0} (R : W → W → Type 0) (tasks : (n : Service) → W → Result (Out n) × W)
    (clocks : Service → Clock) (free : IsFree R tasks) where
  swapped-IsSame :
      (n m : Service) (slots : Slots) (ws : List Warned) (s : State W)
      (p : Option (Out n) × List Warned × State W) (q : Option (Out m) × List Warned × State W)
      (q' : Option (Out m) × List Warned × State W) (p' : Option (Out n) × List Warned × State W)
      → same n m ≡ false
      → IsSwapped R ws s p q q' p'
      → IsSame R
          (ended tasks clocks m (put_slot n p.0 slots) q)
          (ended tasks clocks n (put_slot m q'.0 slots) p')
  swapped-IsSame n m slots ws s p q q' p' differ h =
      let (x, y, forth, back) = h.warnings in
      let (a, b, labels_forth, labels_back) = h.labels in
      record {
        slots = rw (h.first, h.second) (sym (put_slot_swap n m p.0 q.0 slots differ));
        breakers = sym h.breakers;
        requests = sym h.requests;
        worlds = h.worlds;
        warnings = rw (forth, back) (Perm.append_left ws (perm_append_comm x y));
        labels =
            rw
              (
                labels_forth,
                labels_back,
                ← append_assoc b a s.api_requests,
                ← append_assoc a b s.api_requests,
              )
              (Perm.append_right s.api_requests (perm_append_comm b a));
      }

  -- Two tasks in either order come to the same.
  pub ran_swap :
      (n m : Service) (t : Track W)
      → IsSame R
          (ran tasks clocks m (ran tasks clocks n t))
          (ran tasks clocks n (ran tasks clocks m t))
  unfolding ran
  ran_swap n m t = elim (Bool-cases (same n m)) [
    | inl e ↦
        rw (same-eq n m e)
          (IsSame-refl R tasks clocks free (ran tasks clocks m (ran tasks clocks m t)))
    | inr e ↦
        let ws = t.warnings in
        let s = t.state in
        let p = safe_call n (clocks n) (tasks n) ws s in
        let q' = safe_call m (clocks m) (tasks m) ws s in
        swapped-IsSame n m t.slots ws s p (safe_call m (clocks m) (tasks m) p.1 p.2) q'
          (safe_call n (clocks n) (tasks n) q'.1 q'.2) e
          (safe_call-IsSwapped R n m (clocks n) (clocks m) (tasks n) (tasks m) (free.apart n m e) ws
            s e)
  ]

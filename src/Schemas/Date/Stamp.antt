-- ===== src/Schemas/Date/Stamp.antt =====
-- The whole pattern against the grammar.
use image_descriptor.Prelude.{
  ℕ, ◌≡◌, ◌∙◌, ◌↔◌, refl, ap, inl, inr, String, true, Option, none, some, List, [], ◌∷◌, ◌++◌, ◌==◌,
  arith, Bool-cases,
}
use image_descriptor.Prelude.Text.{codes}
use image_descriptor.Prelude.Unicode.{Decimals}
use image_descriptor.Schemas.Date.{
  digits, field, seconds, time, after_minutes, after_date, matches_iso8601, ◌>>=◌,
}
use image_descriptor.Schemas.Date.Grammar.{
  IsDigits, IsEnd, Zone, print_zone, IsZone, digits_all, digits_only, at_end_iff, field_all,
  field_only, hours_minutes, hours_minutes_only, hours_minutes_all, bind_some,
}
use image_descriptor.Schemas.Date.Seconds.{
  Seconds, print_seconds, IsSeconds, seconds_all, seconds_only,
}

module _ ⦃unicode : Decimals⦄ where
  pub data Time : Type 0 where
    no_time : Time
    at_time : List ℕ → List ℕ → Seconds → Zone → Time

  abbrev pub print_time : Time → List ℕ → List ℕ
  print_time no_time e = e
  print_time (at_time h m s z) e = b'T' ∷ (h ++ (b':' ∷ (m ++ print_seconds s (print_zone z e))))

  abbrev pub IsTime : Time → Type 0
  IsTime no_time = Unit
  IsTime (at_time h m s z) = IsDigits 2 h × IsDigits 2 m × IsSeconds s × IsZone z

  time_all : (t : Time) (e : List ℕ) → IsTime t → IsEnd e → time (print_time t e) ≡ true
  unfolding time
  time_all no_time e h (inl end) = rw end refl
  time_all no_time e h (inr end) = rw end refl
  time_all (at_time h m s z) e (p, q, good, zoned) end =
      rw (hours_minutes_all h m (print_seconds s (print_zone z e)) p q)
        (seconds_all s z e good zoned end)

  after_minutes_only :
      (o : Option (List ℕ))
      → after_minutes o ≡ true
      → (r : List ℕ) × (o ≡ some r) × (seconds r ≡ true)
  unfolding seconds
  after_minutes_only none h = absurd (ground (arith, h))
  after_minutes_only (some r) h = (r, refl, h)

  abbrev IsWhole : List ℕ → Type 0
  IsWhole cs = (t : Time) × (e : List ℕ) × IsTime t × IsEnd e × (cs ≡ print_time t e)

  t_only : (cs : List ℕ) → after_minutes (hours_minutes cs) ≡ true → IsWhole (b'T' ∷ cs)
  t_only cs h =
      let (r, found, rest) = after_minutes_only (hours_minutes cs) h in
      let (hh, mm, p, q, f) = hours_minutes_only cs r found in
      let (s, z, e, good, zoned, end, g) = seconds_only r rest in
      (
        at_time hh mm s z,
        e,
        (p, q, good, zoned),
        end,
        ap (λ t. b'T' ∷ t) (f ∙ ap (λ t. hh ++ (b':' ∷ (mm ++ t))) g),
      )

  time_only : (cs : List ℕ) → time cs ≡ true → IsWhole cs
  unfolding time
  time_only [] h = (no_time, [], tt, inl refl, refl)
  time_only (c ∷ cs) h = elim (Bool-cases (c == b'T')) [
    | inl letter ↦
        let same : c ≡ b'T' = ground (arith, letter) in rw same (t_only cs (rw letter at h))
    | inr other ↦ (no_time, c ∷ cs, tt, at_end_iff (c ∷ cs) (rw other at h), refl)
  ]

  -- a date of four, two and two digits, with a time or without
  pub record Stamp : Type 0 where
    pub year : List ℕ
    pub month : List ℕ
    pub day : List ℕ
    pub time : Time

  abbrev pub print_stamp : Stamp → List ℕ → List ℕ
  print_stamp s e = s.year ++ (b'-' ∷ (s.month ++ (b'-' ∷ (s.day ++ print_time s.time e))))

  abbrev pub IsStamp : Stamp → Type 0
  IsStamp s = IsDigits 4 s.year × IsDigits 2 s.month × IsDigits 2 s.day × IsTime s.time

  -- the text is a date, with a newline behind it or not
  abbrev pub IsDate : List ℕ → Type 0
  IsDate cs = (s : Stamp) × (e : List ℕ) × IsStamp s × IsEnd e × (cs ≡ print_stamp s e)

  abbrev date_part : List ℕ → Option (List ℕ)
  date_part cs = digits 4 cs >>= (λ r. field b'-' 2 r >>= field b'-' 2)

  date_all :
      (s : Stamp) (e : List ℕ)
      → IsStamp s
      → IsEnd e
      → after_date (date_part (print_stamp s e)) ≡ true
  date_all s e (y, m, d, t) end =
      let after_day = print_time s.time e in
      let after_month = b'-' ∷ (s.day ++ after_day) in
      rw (digits_all 4 s.year (b'-' ∷ (s.month ++ after_month)) y) (
        rw (field_all b'-' 2 s.month after_month m)
          (rw (field_all b'-' 2 s.day after_day d) (time_all s.time e t end)))

  after_date_only :
      (o : Option (List ℕ)) → after_date o ≡ true → (r : List ℕ) × (o ≡ some r) × (time r ≡ true)
  after_date_only none h = absurd (ground (arith, h))
  after_date_only (some r) h = (r, refl, h)

  stamp_only : (cs : List ℕ) → after_date (date_part cs) ≡ true → IsDate cs
  stamp_only cs h =
      let (r, found, rest) = after_date_only (date_part cs) h in
      let (a, first, others) =
        bind_some (digits 4 cs) (λ r. field b'-' 2 r >>= field b'-' 2) r found in
      let (b, second, last) = bind_some (field b'-' 2 a) (field b'-' 2) r others in
      let (y, good_y, f) = digits_only 4 cs a first in
      let (m, good_m, g) = field_only b'-' 2 a b second in
      let (d, good_d, k) = field_only b'-' 2 b r last in
      let (t, e, good_t, end, l) = time_only r rest in
      (
        record { year = y; month = m; day = d; time = t },
        e,
        (good_y, good_m, good_d, good_t),
        end,
        f ∙ ap (λ x. y ++ x) (g ∙ ap (λ x. b'-' ∷ (m ++ x)) (k ∙ ap (λ x. b'-' ∷ (d ++ x)) l)),
      )

  -- The pattern accepts exactly the texts that are a date of the grammar: year, month and day, and
  -- behind a T, where there is one, hours and minutes, with seconds, a fraction of them and a zone or
  -- without; each of them of as many decimal digits of Unicode as it says, the fraction of one or more.
  -- A newline may end the text.
  pub matches_iso8601_iff : (s : String) → (matches_iso8601 s ≡ true) ↔ IsDate (codes s)
  unfolding matches_iso8601
  matches_iso8601_iff s = (
    λ h. stamp_only (codes s) h,
    λ (stamp, e, good, end, same). rw same (date_all stamp e good end),
  )

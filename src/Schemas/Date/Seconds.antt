-- ===== src/Schemas/Date/Seconds.antt =====
-- The seconds of a date against the grammar.
use image_descriptor.Prelude.{
  ℕ, ◌≡◌, ◌∙◌, refl, ap, ◌⊎◌, inl, inr, true, false, Option, none, some, List, [], ◌∷◌, ◌++◌, ◌==◌,
  arith, All, Bool-cases,
}
use image_descriptor.Prelude.Unicode.{Decimals, is_digit}
use image_descriptor.Schemas.Date.{digits, zone, drop_digits, fraction, seconds, after_seconds}
use image_descriptor.Schemas.Date.Grammar.{
  IsDigits, IsEnd, Zone, no_zone, utc, offset, print_zone, IsZone, IsZoned, digits_all, digits_only,
  zone_all, zone_only,
}

module _ ⦃unicode : Decimals⦄ where
  -- seconds, with a fraction or without
  pub data Seconds : Type 0 where
    no_seconds : Seconds
    whole_seconds : List ℕ → Seconds
    part_seconds : List ℕ → ℕ → List ℕ → Seconds

  abbrev pub print_seconds : Seconds → List ℕ → List ℕ
  print_seconds no_seconds r = r
  print_seconds (whole_seconds s) r = b':' ∷ (s ++ r)
  print_seconds (part_seconds s d ds) r = b':' ∷ (s ++ (b'.' ∷ d ∷ (ds ++ r)))

  abbrev pub IsDigit : ℕ → Type 0
  IsDigit c = is_digit c ≡ true

  abbrev pub IsSeconds : Seconds → Type 0
  IsSeconds no_seconds = Unit
  IsSeconds (whole_seconds s) = IsDigits 2 s
  IsSeconds (part_seconds s d ds) = IsDigits 2 s × All IsDigit (d ∷ ds)

  drop_behind : (ds r : List ℕ) → All IsDigit ds → drop_digits (ds ++ r) ≡ drop_digits r
  unfolding drop_digits
  drop_behind [] r h = refl
  drop_behind (d ∷ ds) r h = rw h.0 (drop_behind ds r h.1)

  drop_only : (cs : List ℕ) → (ds : List ℕ) × All IsDigit ds × (cs ≡ ds ++ drop_digits cs)
  unfolding drop_digits
  drop_only [] = ([], tt, refl)
  drop_only (c ∷ cs) = elim (Bool-cases (is_digit c)) [
    | inl d ↦ let (ds, good, e) = drop_only cs in (c ∷ ds, (d, good), rw d (ap (λ t. c ∷ t) e))
    | inr d ↦ ([], tt, rw d refl)
  ]

  drop-print_zone :
      (z : Zone) (e : List ℕ) → IsZone z → IsEnd e → drop_digits (print_zone z e) ≡ print_zone z e
  unfolding drop_digits
  drop-print_zone no_zone e p (inl h) = rw h refl
  drop-print_zone no_zone e p (inr h) = rw h (rw unicode.newline refl)
  drop-print_zone utc e p h = rw unicode.letter refl
  drop-print_zone (offset sign h m) e (inl plus, p, q) end = rw plus (rw unicode.plus refl)
  drop-print_zone (offset sign h m) e (inr minus, p, q) end = rw minus (rw unicode.minus refl)

  -- what does not begin with a point, or with a colon
  fraction_plain : (c : ℕ) (cs : List ℕ) → (c == b'.') ≡ false → fraction (c ∷ cs) ≡ zone (c ∷ cs)
  unfolding fraction
  fraction_plain c [] h = refl
  fraction_plain c (d ∷ cs) h = rw h refl

  fraction-print_zone :
      (z : Zone) (e : List ℕ)
      → IsZone z
      → IsEnd e
      → fraction (print_zone z e) ≡ zone (print_zone z e)
  unfolding fraction zone
  fraction-print_zone no_zone e p (inl h) = rw h refl
  fraction-print_zone no_zone e p (inr h) = rw h refl
  fraction-print_zone utc e p h = fraction_plain b'Z' e refl
  fraction-print_zone (offset sign h m) e (inl plus, p, q) end =
      rw plus (fraction_plain b'+' _ refl)
  fraction-print_zone (offset sign h m) e (inr minus, p, q) end =
      rw minus (fraction_plain b'-' _ refl)

  seconds-print_zone :
      (z : Zone) (e : List ℕ)
      → IsZone z
      → IsEnd e
      → seconds (print_zone z e) ≡ zone (print_zone z e)
  unfolding seconds zone
  seconds-print_zone no_zone e p (inl h) = rw h refl
  seconds-print_zone no_zone e p (inr h) = rw h refl
  seconds-print_zone utc e p h = refl
  seconds-print_zone (offset sign h m) e (inl plus, p, q) end = rw plus refl
  seconds-print_zone (offset sign h m) e (inr minus, p, q) end = rw minus refl

  fraction_back :
      (d : ℕ) (ds : List ℕ) (z : Zone) (e : List ℕ)
      → IsDigit d
      → All IsDigit ds
      → IsZone z
      → IsEnd e
      → fraction (b'.' ∷ d ∷ (ds ++ print_zone z e)) ≡ true
  unfolding fraction
  fraction_back d ds z e good goods p end =
      rw good (
        rw (drop_behind ds (print_zone z e) goods ∙ drop-print_zone z e p end) (zone_all z e p end))

  pub seconds_all :
      (s : Seconds) (z : Zone) (e : List ℕ)
      → IsSeconds s
      → IsZone z
      → IsEnd e
      → seconds (print_seconds s (print_zone z e)) ≡ true
  unfolding seconds
  seconds_all no_seconds z e h p end = seconds-print_zone z e p end ∙ zone_all z e p end
  seconds_all (whole_seconds s) z e h p end =
      rw (digits_all 2 s (print_zone z e) h) (fraction-print_zone z e p end ∙ zone_all z e p end)
  seconds_all (part_seconds s d ds) z e (h, (good, goods)) p end =
      rw (digits_all 2 s (b'.' ∷ d ∷ (ds ++ print_zone z e)) h)
        (fraction_back d ds z e good goods p end)

  -- a fraction and a zone
  abbrev IsFraction : List ℕ → Type 0
  IsFraction r =
      (d : ℕ) × (ds : List ℕ) × (z : Zone) × (e : List ℕ) × All IsDigit (d ∷ ds)
      × IsZone z
      × IsEnd e
      × (r ≡ b'.' ∷ d ∷ (ds ++ print_zone z e))

  fraction_only : (r : List ℕ) → fraction r ≡ true → IsZoned r ⊎ IsFraction r
  unfolding fraction zone
  fraction_only [] h = inl (zone_only [] refl)
  fraction_only (c ∷ []) h = inl (zone_only (c ∷ []) h)
  fraction_only (c ∷ d ∷ cs) h = elim (Bool-cases (c == b'.')) [
    | inl point ↦
        let same : c ≡ b'.' = ground (arith, point) in
        let both = rw point at h in
        let good : is_digit d ≡ true = ground (arith, both) in
        let (ds, goods, f) = drop_only cs in
        let (z, e, p, end, g) = zone_only (drop_digits cs) (ground (arith, both)) in
        inr (
          d,
          ds,
          z,
          e,
          (good, goods),
          p,
          end,
          ap (λ x. x ∷ d ∷ cs) same ∙ ap (λ t. b'.' ∷ d ∷ t) (f ∙ ap (λ t. ds ++ t) g),
        )
    | inr other ↦ inl (zone_only (c ∷ d ∷ cs) (rw other at h))
  ]

  abbrev pub IsTimed : List ℕ → Type 0
  IsTimed cs =
      (s : Seconds) × (z : Zone) × (e : List ℕ) × IsSeconds s
      × IsZone z
      × IsEnd e
      × (cs ≡ print_seconds s (print_zone z e))

  after_seconds_only :
      (o : Option (List ℕ))
      → after_seconds o ≡ true
      → (r : List ℕ) × (o ≡ some r) × (fraction r ≡ true)
  unfolding fraction
  after_seconds_only none h = absurd (ground (arith, h))
  after_seconds_only (some r) h = (r, refl, h)

  colon_only : (cs : List ℕ) → after_seconds (digits 2 cs) ≡ true → IsTimed (b':' ∷ cs)
  colon_only cs h =
      let (r, found, rest) = after_seconds_only (digits 2 cs) h in
      let (s, good, f) = digits_only 2 cs r found in
      elim (fraction_only r rest) [
        | inl (z, e, p, end, g) ↦
            (whole_seconds s, z, e, good, p, end, ap (λ t. b':' ∷ t) (f ∙ ap (λ t. s ++ t) g))
        | inr (d, ds, z, e, goods, p, end, g) ↦ (
          part_seconds s d ds,
          z,
          e,
          (good, goods),
          p,
          end,
          ap (λ t. b':' ∷ t) (f ∙ ap (λ t. s ++ t) g),
        )
      ]

  pub seconds_only : (cs : List ℕ) → seconds cs ≡ true → IsTimed cs
  unfolding seconds
  seconds_only [] h = (no_seconds, no_zone, [], tt, tt, inl refl, refl)
  seconds_only (c ∷ cs) h = elim (Bool-cases (c == b':')) [
    | inl colon ↦
        let same : c ≡ b':' = ground (arith, colon) in rw same (colon_only cs (rw colon at h))
    | inr other ↦
        let (z, e, p, end, g) = zone_only (c ∷ cs) (rw other at h) in
        (no_seconds, z, e, tt, p, end, g)
  ]

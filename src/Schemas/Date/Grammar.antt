-- ===== src/Schemas/Date/Grammar.antt =====
-- A grammar of dates, as what they are made of and how it is written, and the parts of the pattern
-- against it.
use image_descriptor.Prelude.{
  ℕ, zero, suc, ◌≡◌, ◌∙◌, refl, ap, ◌⊎◌, inl, inr, true, ◌||◌, Option, none, some, List, [], ◌∷◌,
  ◌++◌, ◌==◌, arith, Bool-cases,
}
use image_descriptor.Prelude.Unicode.{Decimals, is_digit}
use image_descriptor.Schemas.Date.{digits, field, at_end, is_end, zone, ◌>>=◌}

module _ ⦃unicode : Decimals⦄ where
  -- n digits
  abbrev pub IsDigits : ℕ → List ℕ → Type 0
  IsDigits zero [] = Unit
  IsDigits zero (c ∷ cs) = ⊥
  IsDigits (suc n) [] = ⊥
  IsDigits (suc n) (c ∷ cs) = (is_digit c ≡ true) × IsDigits n cs

  -- nothing, or a newline
  abbrev pub IsEnd : List ℕ → Type 0
  IsEnd e = (e ≡ []) ⊎ (e ≡ 10 ∷ [])

  pub data Zone : Type 0 where
    no_zone utc : Zone
    offset : ℕ → List ℕ → List ℕ → Zone

  -- what is written, in front of the rest
  abbrev pub print_zone : Zone → List ℕ → List ℕ
  print_zone no_zone e = e
  print_zone utc e = b'Z' ∷ e
  print_zone (offset sign h m) e = sign ∷ (h ++ (b':' ∷ (m ++ e)))

  abbrev pub IsZone : Zone → Type 0
  IsZone no_zone = Unit
  IsZone utc = Unit
  IsZone (offset sign h m) = ((sign ≡ b'+') ⊎ (sign ≡ b'-')) × IsDigits 2 h × IsDigits 2 m

  pub digits_all : (n : ℕ) (ds r : List ℕ) → IsDigits n ds → digits n (ds ++ r) ≡ some r
  unfolding digits
  digits_all zero [] r h = refl
  digits_all zero (c ∷ cs) r h = absurd h
  digits_all (suc n) [] r h = absurd h
  digits_all (suc n) (c ∷ cs) r h = rw h.0 (digits_all n cs r h.1)

  pub digits_only :
      (n : ℕ) (cs r : List ℕ)
      → digits n cs ≡ some r
      → (ds : List ℕ) × IsDigits n ds × (cs ≡ ds ++ r)
  unfolding digits
  digits_only zero cs r h = ([], tt, ground (arith, h))
  digits_only (suc n) [] r h = absurd (ground (arith, h))
  digits_only (suc n) (c ∷ cs) r h = elim (Bool-cases (is_digit c)) [
    | inl d ↦
        let (ds, good, e) = digits_only n cs r (rw d at h) in (c ∷ ds, (d, good), ap (λ t. c ∷ t) e)
    | inr d ↦ absurd (ground (arith, h, d))
  ]

  pub at_end_iff : (e : List ℕ) → at_end e ≡ true → IsEnd e
  at_end_iff [] h = inl refl
  at_end_iff (c ∷ []) h = inr (ground (arith, h))
  at_end_iff (c ∷ d ∷ cs) h = absurd (ground (arith, h))

  pub end-at_end : (e : List ℕ) → IsEnd e → at_end e ≡ true
  end-at_end e (inl h) = rw h refl
  end-at_end e (inr h) = rw h refl

  -- hh:mm, and such
  pub field_only :
      (k n : ℕ) (cs r : List ℕ)
      → field k n cs ≡ some r
      → (ds : List ℕ) × IsDigits n ds × (cs ≡ k ∷ (ds ++ r))
  field_only k n [] r h = absurd (ground (arith, h))
  field_only k n (c ∷ cs) r h = elim (Bool-cases (c == k)) [
    | inl d ↦
        let (ds, good, e) = digits_only n cs r (rw d at h) in
        let same : c ≡ k = ground (arith, d) in (ds, good, rw same (ap (λ t. k ∷ t) e))
    | inr d ↦ absurd (ground (arith, rw d at h))
  ]

  pub field_all : (k n : ℕ) (ds r : List ℕ) → IsDigits n ds → field k n (k ∷ (ds ++ r)) ≡ some r
  field_all k n ds r h = let same : (k == k) ≡ true = ground arith in rw same (digits_all n ds r h)

  -- two fields, as hours and minutes
  abbrev pub hours_minutes : List ℕ → Option (List ℕ)
  hours_minutes cs = digits 2 cs >>= field b':' 2

  pub bind_some :
      {A B : Type 0} (o : Option A) (k : A → Option B) (b : B)
      → (o >>= k) ≡ some b
      → (a : A) × (o ≡ some a) × (k a ≡ some b)
  bind_some none k b h = absurd (ground (arith, h))
  bind_some (some a) k b h = (a, refl, h)

  pub hours_minutes_only :
      (cs r : List ℕ)
      → hours_minutes cs ≡ some r
      → (h : List ℕ) × (m : List ℕ) × IsDigits 2 h × IsDigits 2 m × (cs ≡ h ++ (b':' ∷ (m ++ r)))
  hours_minutes_only cs r p =
      let (rest, first, second) = bind_some (digits 2 cs) (field b':' 2) r p in
      let (h, good_h, e) = digits_only 2 cs rest first in
      let (m, good_m, f) = field_only b':' 2 rest r second in
      (h, m, good_h, good_m, e ∙ ap (λ t. h ++ t) f)

  pub hours_minutes_all :
      (h m r : List ℕ)
      → IsDigits 2 h
      → IsDigits 2 m
      → hours_minutes (h ++ (b':' ∷ (m ++ r))) ≡ some r
  hours_minutes_all h m r p q = rw (digits_all 2 h (b':' ∷ (m ++ r)) p) (field_all b':' 2 m r q)

  is_end-some : (o : Option (List ℕ)) → is_end o ≡ true → (t : List ℕ) × (o ≡ some t) × IsEnd t
  is_end-some none h = absurd (ground (arith, h))
  is_end-some (some t) h = (t, refl, at_end_iff t h)

  pub zone_all : (z : Zone) (e : List ℕ) → IsZone z → IsEnd e → zone (print_zone z e) ≡ true
  unfolding zone
  zone_all no_zone e p (inl h) = rw h refl
  zone_all no_zone e p (inr h) = rw h refl
  zone_all utc e p h = end-at_end e h
  zone_all (offset sign h m) e (inl plus, p, q) end =
      rw plus (rw (hours_minutes_all h m e p q) (end-at_end e end))
  zone_all (offset sign h m) e (inr minus, p, q) end =
      rw minus (rw (hours_minutes_all h m e p q) (end-at_end e end))

  abbrev pub IsZoned : List ℕ → Type 0
  IsZoned cs = (z : Zone) × (e : List ℕ) × IsZone z × IsEnd e × (cs ≡ print_zone z e)

  offset_only :
      (c : ℕ) (cs : List ℕ)
      → (c ≡ b'+') ⊎ (c ≡ b'-')
      → is_end (hours_minutes cs) ≡ true
      → IsZoned (c ∷ cs)
  offset_only c cs sign h =
      let (t, found, end) = is_end-some (hours_minutes cs) h in
      let (hh, mm, p, q, e) = hours_minutes_only cs t found in
      (offset c hh mm, t, (sign, p, q), end, ap (λ r. c ∷ r) e)

  pub zone_only : (cs : List ℕ) → zone cs ≡ true → IsZoned cs
  unfolding zone
  zone_only [] h = (no_zone, [], tt, inl refl, refl)
  zone_only (c ∷ cs) h = elim (Bool-cases (c == b'Z')) [
    | inl z ↦
        let same : c ≡ b'Z' = ground (arith, z) in
        (utc, cs, tt, at_end_iff cs (rw z at h), ap (λ x. x ∷ cs) same)
    | inr z ↦ elim (Bool-cases (c == b'+' || c == b'-')) [
      | inl s ↦ offset_only c cs (ground (arith, s)) (rw s at (rw z at h))
      | inr s ↦ (no_zone, c ∷ cs, tt, at_end_iff (c ∷ cs) (rw s at (rw z at h)), refl)
    ]
  ]

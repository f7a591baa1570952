-- ===== src/Config/Masked.antt =====
-- What the log shows of the keys.
use image_descriptor.Prelude.{
  ℕ, zero, suc, ◌≡◌, ◌≤◌, ◌<◌, refl, ap, sym, ◌∙◌, List, [], ◌∷◌, ◌++◌, length, length-append, take,
  arith, false, leb,
}
use image_descriptor.Prelude.Text.{codes}
use mathlib.Core.List.{append_assoc}
use image_descriptor.Config.{Settings}
use image_descriptor.Config.Summary.{last, mask, log_settings_summary}

-- Two keys that are both short, or differ only between their first and their last four characters.
pub data IsAlike : List ℕ → List ℕ → Type 0 where
  short : {v w : List ℕ} → length v ≤ 8 → length w ≤ 8 → IsAlike v w
  long :
      {v w : List ℕ} (front middle other back : List ℕ)
      → length front ≡ 4
      → length back ≡ 4
      → 0 < length middle
      → 0 < length other
      → v ≡ front ++ (middle ++ back)
      → w ≡ front ++ (other ++ back)
      → IsAlike v w

take-append : (n : ℕ) (xs ys : List ℕ) → length xs ≡ n → take n (xs ++ ys) ≡ xs
take-append zero [] ys h = refl
take-append zero (x ∷ xs) ys h = ground (arith, h)
take-append (suc n) [] ys h = ground (arith, h)
take-append (suc n) (x ∷ xs) ys h = ap (λ (l : List ℕ). x ∷ l) (take-append n xs ys (omega arith))

last-all : (n : ℕ) (xs : List ℕ) → length xs ≡ n → last n xs ≡ xs
unfolding last
last-all n [] h = refl
last-all n (x ∷ xs) h = ground arith

last-cons : (n c : ℕ) (cs : List ℕ) → n ≤ length cs → last n (c ∷ cs) ≡ last n cs
unfolding last
last-cons n c cs h = ground arith

last-append : (n : ℕ) (xs ys : List ℕ) → length ys ≡ n → last n (xs ++ ys) ≡ ys
last-append n [] ys h = last-all n ys h
last-append n (x ∷ xs) ys h =
    last-cons n x (xs ++ ys) (omega (arith, length-append xs ys, h)) ∙ last-append n xs ys h

last-ends :
    (front middle back : List ℕ) → length back ≡ 4 → last 4 (front ++ (middle ++ back)) ≡ back
last-ends front middle back hb =
    rw (sym (append_assoc front middle back)) (last-append 4 (front ++ middle) back hb)

is_long :
    (front middle back : List ℕ)
    → length front ≡ 4
    → length back ≡ 4
    → 0 < length middle
    → leb (length (front ++ (middle ++ back))) 8 ≡ false
is_long front middle back hf hb hm =
    ground (arith, length-append front (middle ++ back), length-append middle back)

mask-long :
    (front middle back : List ℕ)
    → length front ≡ 4
    → length back ≡ 4
    → 0 < length middle
    → mask (front ++ (middle ++ back)) ≡ front ++ (codes "***" ++ back)
unfolding mask
mask-long front middle back hf hb hm =
    rw
      (
        is_long front middle back hf hb hm,
        take-append 4 front (middle ++ back) hf,
        last-ends front middle back hb,
      )
      refl

mask-short : (v w : List ℕ) → length v ≤ 8 → length w ≤ 8 → mask v ≡ mask w
unfolding mask
mask-short v w hv hw = ground arith

mask-IsAlike : {v w : List ℕ} → IsAlike v w → mask v ≡ mask w
mask-IsAlike (IsAlike.short {v} {w} hv hw) = mask-short v w hv hw
mask-IsAlike (IsAlike.long front middle other back hf hb hm ho ev ew) =
    rw (ev, ew) (mask-long front middle back hf hb hm ∙ sym (mask-long front other back hf hb ho))

-- Two starts with the same settings but for the three keys, each of which is short in both or differs
-- only between its first and its last four characters, log the same summary: no more of a key than
-- these eight characters can be learned from the log.
pub log_settings_summary-IsAlike :
    (s : Settings) (google google' supabase supabase' own own' : List ℕ)
    → IsAlike google google'
    → IsAlike supabase supabase'
    → IsAlike own own'
    → log_settings_summary
        (record s { google_ai_api_key = google; supabase_service_key = supabase; api_key = own })
      ≡ log_settings_summary (record s {
        google_ai_api_key = google';
        supabase_service_key = supabase';
        api_key = own';
      })
unfolding log_settings_summary
log_settings_summary-IsAlike s google google' supabase supabase' own own' hg hs ho =
    rw (mask-IsAlike hg, mask-IsAlike hs, mask-IsAlike ho) refl

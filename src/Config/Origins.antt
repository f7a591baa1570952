-- ===== src/Config/Origins.antt =====
-- The origins that are validated are those that CORS allows.
use image_descriptor.Prelude.{
  ℕ, ◌≡◌, refl, false, ◌≢◌, Bool-cases, inl, inr, List, [], ◌∷◌, All, All-append, arith,
}
use image_descriptor.Prelude.Blank.{is_space, lstrip, strip}
use mathlib.Core.List.{reverse, reverse-reverse, reverse-cons}
use image_descriptor.Config.{
  Words, words_of, put, split_from, split, stripped, all_origins, origins_pass, valid_cors_origins,
  cors_origins_list,
}

abbrev pub IsWord : List ℕ → Type 0
IsWord = All (λ c. is_space c ≡ false)

All-reverse : (P : ℕ → Type 0) (cs : List ℕ) → All P cs → All P (reverse cs)
All-reverse P [] h = tt
All-reverse P (c ∷ cs) (h, hs) =
    rw (reverse-cons c cs) (All-append P (reverse cs) (c ∷ []) (All-reverse P cs hs) (h, tt))

lstrip-IsWord : (cs : List ℕ) → IsWord cs → lstrip cs ≡ cs
unfolding lstrip
lstrip-IsWord [] h = refl
lstrip-IsWord (c ∷ cs) (h, hs) = rw h refl

strip-IsWord : (cs : List ℕ) → IsWord cs → strip cs ≡ cs
unfolding strip
strip-IsWord cs h =
    rw (lstrip-IsWord cs h, lstrip-IsWord (reverse cs) (All-reverse (λ c. is_space c ≡ false) cs h))
      (reverse-reverse cs)

-- words of a text: not empty, and with no white space in them
abbrev pub AreWords : List (List ℕ) → Type 0
AreWords = All (λ s. (s ≢ []) × IsWord s)

abbrev IsSplit : Words → Type 0
IsSplit (word, words) = IsWord word × AreWords words

words_of-AreWords : (r : Words) → IsSplit r → AreWords (words_of r)
words_of-AreWords ([], words) (h, hs) = hs
words_of-AreWords (c ∷ word, words) (h, hs) = ((cc, h), hs)

put-IsSplit : (c : ℕ) (r : Words) → is_space c ≡ false → IsSplit r → IsSplit (put c r)
put-IsSplit c (word, words) e (h, hs) = ((e, h), hs)

split_from-step : (c : ℕ) (cs : List ℕ) → IsSplit (split_from cs) → IsSplit (split_from (c ∷ cs))
unfolding split_from
split_from-step c cs h = elim (Bool-cases (is_space c)) [
  | inl e ↦ rw e (tt, words_of-AreWords (split_from cs) h)
  | inr e ↦ rw e (put-IsSplit c (split_from cs) e h)
]

split_from-IsSplit : (v : List ℕ) → IsSplit (split_from v)
split_from-IsSplit [] = unfold split_from in (tt, tt)
split_from-IsSplit (c ∷ cs) = split_from-step c cs (split_from-IsSplit cs)

split-AreWords : (v : List ℕ) → AreWords (split v)
unfolding split
split-AreWords v = words_of-AreWords (split_from v) (split_from-IsSplit v)

stripped-AreWords : (words : List (List ℕ)) → AreWords words → stripped words ≡ words
unfolding stripped
stripped-AreWords [] h = refl
stripped-AreWords ([] ∷ words) ((n, h), hs) = absurd (n refl)
stripped-AreWords ((c ∷ cs) ∷ words) ((n, h), hs) =
    rw (strip-IsWord (c ∷ cs) h, stripped-AreWords words hs) refl

origins_pass-AreWords :
    (words : List (List ℕ)) → AreWords words → origins_pass words ≡ all_origins words
unfolding origins_pass
origins_pass-AreWords [] h = refl
origins_pass-AreWords ([] ∷ words) ((n, h), hs) = absurd (n refl)
origins_pass-AreWords ((c ∷ cs) ∷ words) ((n, h), hs) =
    rw (strip-IsWord (c ∷ cs) h, origins_pass-AreWords words hs) (ground arith)

-- The origins that CORS allows are the words of the setting between its white space: none is empty,
-- none holds white space, and stripping them changes nothing. The validator accepts the setting exactly
-- when each of them begins with http:// or https://.
pub cors_origins_list_lem :
    (v : List ℕ)
    → (cors_origins_list v ≡ split v)
      × AreWords (cors_origins_list v)
      × (valid_cors_origins v ≡ all_origins (cors_origins_list v))
unfolding cors_origins_list valid_cors_origins
cors_origins_list_lem v =
    let e = stripped-AreWords (split v) (split-AreWords v) in
    rw e (refl, split-AreWords v, origins_pass-AreWords (split v) (split-AreWords v))

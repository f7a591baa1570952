-- ===== src/Logging/Query/Redaction.antt =====
-- What is left of a query string: parameter by parameter, its secrets are hidden.
use image_descriptor.Prelude.{
  ℕ, zero, suc, ◌≤◌, ◌≡◌, ◌≢◌, refl, ap, ◌∙◌, Bool, true, false, ◌&&◌, ◌||◌, none, some, List, [],
  ◌∷◌, ◌++◌, arith, All, length, length-append, ◌==◌, if◌then◌else◌, Bool-cases, inl, inr,
}
use image_descriptor.Logging.Query.{
  lower, secret_names, name_at, secret_at, drop_value, mark, redact, safe_query_params,
}

abbrev pub Lacks : ℕ → List ℕ → Type 0
Lacks b = All (λ c. c ≢ b)

-- a name, in whatever case
abbrev pub name_is : List ℕ → List ℕ → Bool
name_is [] [] = true
name_is [] (c ∷ k) = false
name_is (p ∷ ps) [] = false
name_is (p ∷ ps) (c ∷ k) = lower c == p && name_is ps k

abbrev pub is_secret_name : List (List ℕ) → List ℕ → Bool
is_secret_name [] k = false
is_secret_name (name ∷ names) k = name_is name k || is_secret_name names k

-- A key is secret if it ends in one of the names.
abbrev pub is_secret_key : List ℕ → Bool
is_secret_key [] = false
is_secret_key (c ∷ k) = is_secret_name secret_names (c ∷ k) || is_secret_key k

-- what stands behind a parameter: nothing, or the next one
abbrev pub IsNext : List ℕ → Type 0
IsNext [] = Unit
IsNext (c ∷ cs) = c ≡ b'&'

lower_equals : lower b'=' ≡ b'='
unfolding lower
lower_equals = refl

lower_and : lower b'&' ≡ b'&'
unfolding lower
lower_and = refl

name_at-key :
    (p k w : List ℕ)
    → Lacks b'=' p
    → Lacks b'=' k
    → name_at p (k ++ (b'=' ∷ w)) ≡ (if name_is p k then some (k, w) else none)
unfolding name_at
name_at-key [] [] w hp hk = refl
name_at-key [] (c ∷ k) w hp hk = ground arith
name_at-key (p ∷ ps) [] w hp hk = ground (arith, lower_equals)
name_at-key (p ∷ ps) (c ∷ k) w (h, hp) (g, hk) = ground (arith, name_at-key ps k w hp hk)

-- no equals sign before the next parameter
name_at-value :
    (p v rest : List ℕ) → Lacks b'&' p → Lacks b'=' v → IsNext rest → name_at p (v ++ rest) ≡ none
unfolding name_at
name_at-value [] [] [] hp hv hr = refl
name_at-value [] [] (c ∷ rest) hp hv hr = ground arith
name_at-value [] (c ∷ v) rest hp hv hr = ground arith
name_at-value (p ∷ ps) [] [] hp hv hr = refl
name_at-value (p ∷ ps) [] (c ∷ rest) (h, hp) hv hr = ground (arith, lower_and)
name_at-value (p ∷ ps) (c ∷ v) rest (h, hp) (g, hv) hr =
    ground (arith, name_at-value ps v rest hp hv hr)

secret_at-key :
    (names : List (List ℕ)) (k w : List ℕ)
    → All (Lacks b'=') names
    → Lacks b'=' k
    → secret_at names (k ++ (b'=' ∷ w)) ≡ (if is_secret_name names k then some (k, w) else none)
unfolding secret_at
secret_at-key [] k w hn hk = refl
secret_at-key (name ∷ names) k w (h, hn) hk =
    ground (arith, name_at-key name k w h hk, secret_at-key names k w hn hk)

secret_at-value :
    (names : List (List ℕ)) (v rest : List ℕ)
    → All (Lacks b'&') names
    → Lacks b'=' v
    → IsNext rest
    → secret_at names (v ++ rest) ≡ none
unfolding secret_at
secret_at-value [] v rest hn hv hr = refl
secret_at-value (name ∷ names) v rest (h, hn) hv hr =
    rw (name_at-value name v rest h hv hr) (secret_at-value names v rest hn hv hr)

drop-value : (v rest : List ℕ) → Lacks b'&' v → IsNext rest → drop_value (v ++ rest) ≡ rest
unfolding drop_value
drop-value [] [] h r = refl
drop-value [] (c ∷ rest) h r = ground arith
drop-value (c ∷ v) rest (g, h) r = ground (arith, drop-value v rest h r)

-- a round at which no name stands
redact-none :
    (n c : ℕ) (cs : List ℕ)
    → secret_at secret_names (c ∷ cs) ≡ none
    → redact (suc n) (c ∷ cs) ≡ c ∷ redact n cs
unfolding redact
redact-none n c cs h = rw (h, redact)

redact-some :
    (n c : ℕ) (cs name rest : List ℕ)
    → secret_at secret_names (c ∷ cs) ≡ some (name, rest)
    → redact (suc n) (c ∷ cs) ≡ name ++ (b'=' ∷ (mark ++ redact n (drop_value rest)))
unfolding redact
redact-some n c cs name rest h = rw (h, redact)

-- the rest of a text, whatever fuel is left for it
abbrev Leaves : List ℕ → List ℕ → Type 0
Leaves rest out = (m : ℕ) → length rest ≤ m → redact m rest ≡ out

redact-value :
    (n : ℕ) (v rest out : List ℕ)
    → length (v ++ rest) ≤ n
    → Lacks b'=' v
    → IsNext rest
    → Leaves rest out
    → redact n (v ++ rest) ≡ v ++ out
redact-value n [] rest out l hv hr next = next n l
redact-value zero (c ∷ v) rest out l hv hr next = absurd (omega arith)
redact-value (suc n) (c ∷ v) rest out l hv hr next =
    redact-none n c (v ++ rest) (secret_at-value secret_names (c ∷ v) rest (omega arith) hv hr)
    ∙ ap (◌∷◌ c) (redact-value n v rest out (omega arith) hv.1 hr next)

module _ (v rest out : List ℕ) (lacks_equals : Lacks b'=' v) (lacks_and : Lacks b'&' v)
    (follows : IsNext rest) (next : Leaves rest out) where
  redact-key :
      (n : ℕ) (k : List ℕ)
      → length (k ++ (b'=' ∷ (v ++ rest))) ≤ n
      → Lacks b'=' k
      → redact n (k ++ (b'=' ∷ (v ++ rest)))
        ≡ k ++ (b'=' ∷ ((if is_secret_key k then mark else v) ++ out))
  redact-key zero k l hk = absurd (omega (arith, length-append k (b'=' ∷ (v ++ rest))))
  redact-key (suc n) [] l hk =
      redact-none n b'=' (v ++ rest) (secret_at-key secret_names [] (v ++ rest) (omega arith) tt)
      ∙ ap (◌∷◌ b'=') (redact-value n v rest out (omega arith) lacks_equals follows next)
  redact-key (suc n) (c ∷ k) l (h, hk) =
      let w = v ++ rest in
      let here = secret_at-key secret_names (c ∷ k) w (omega arith) (h, hk) in
      elim (Bool-cases (is_secret_name secret_names (c ∷ k))) [
        | inl secret ↦ rw secret (
            redact-some n c (k ++ (b'=' ∷ w)) (c ∷ k) w (rw secret at here)
            ∙ rw (drop-value v rest lacks_and follows) (
                ap (λ o. (c ∷ k) ++ (b'=' ∷ (mark ++ o)))
                  (next n (omega (arith, length-append k (b'=' ∷ w), length-append v rest)))))
        | inr plain ↦ rw plain (
            redact-none n c (k ++ (b'=' ∷ w)) (rw plain at here)
            ∙ ap (◌∷◌ c) (redact-key n k (omega arith) hk))
      ]

abbrev pub Param : Type 0
Param = List ℕ × List ℕ

-- `&` before each parameter, and the query string
abbrev pub behind : List Param → List ℕ
behind [] = []
behind ((k, v) ∷ params) = b'&' ∷ (k ++ (b'=' ∷ (v ++ behind params)))

abbrev pub query_string : List Param → List ℕ
query_string [] = []
query_string ((k, v) ∷ params) = k ++ (b'=' ∷ (v ++ behind params))

-- neither a key nor a value holds a separator, as `urlencode` leaves them
abbrev pub IsEncoded : List Param → Type 0
IsEncoded [] = Unit
IsEncoded ((k, v) ∷ params) = Lacks b'=' k × Lacks b'=' v × Lacks b'&' v × IsEncoded params

abbrev pub hidden : List Param → List Param
hidden [] = []
hidden ((k, v) ∷ params) = (k, if is_secret_key k then mark else v) ∷ hidden params

behind-IsNext : (params : List Param) → IsNext (behind params)
behind-IsNext [] = tt
behind-IsNext ((k, v) ∷ params) = refl

redact-behind :
    (params : List Param) → IsEncoded params → Leaves (behind params) (behind (hidden params))
unfolding redact
redact-behind [] h zero l = refl
redact-behind [] h (suc m) l = refl
redact-behind ((k, v) ∷ params) h zero l = absurd (omega arith)
redact-behind ((k, v) ∷ params) (hk, hv, ha, h) (suc m) l =
    let w = v ++ behind params in
    let here = secret_at-key secret_names (b'&' ∷ k) w (omega arith) (omega arith, hk) in
    redact-none m b'&' (k ++ (b'=' ∷ w)) here
    ∙ ap (◌∷◌ b'&') (
        redact-key v (behind params) (behind (hidden params)) hv ha (behind-IsNext params)
          (redact-behind params h) m k (omega arith) hk)

-- A query string whose keys and values hold no separator comes out parameter by parameter, in the same
-- order: the value of a key that ends in one of the secret names, in any case, is replaced by
-- [REDACTED], and all else is as it was.
pub safe_query_params_lem :
    (params : List Param)
    → IsEncoded params
    → safe_query_params (query_string params) ≡ query_string (hidden params)
unfolding safe_query_params
safe_query_params_lem [] h = unfold redact in refl
safe_query_params_lem ((k, v) ∷ params) (hk, hv, ha, h) =
    redact-key v (behind params) (behind (hidden params)) hv ha (behind-IsNext params)
      (redact-behind params h) (length (query_string ((k, v) ∷ params))) k (omega arith) hk

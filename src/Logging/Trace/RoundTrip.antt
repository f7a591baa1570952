-- ===== src/Logging/Trace/RoundTrip.antt =====
-- `parse_traceparent` against the printed form of a trace context.
use mathlib.Core.List.{append-nil, reverse, reverse-append, reverse-reverse, reverse-cons}
use image_descriptor.Prelude.{
  ℕ, zero, suc, ◌≡◌, refl, true, false, Option, none, some, List, [], ◌∷◌, ◌++◌, arith, All,
  All-append, length, Bool-cases, inl, inr,
}
use image_descriptor.Prelude.Blank.{is_space, lstrip, strip}
use image_descriptor.Logging.Trace
use image_descriptor.Logging.Trace.{
  is_hex, with_char, hex, dash, TraceContext, match_traceparent, parse_traceparent, stripped, flags,
  span, trace,
}

abbrev pub IsHex : ℕ → List ℕ → Type 0
IsHex n cs = (length cs ≡ n) × (All (λ c. is_hex c ≡ true) cs)

abbrev pub IsBlank : List ℕ → Type 0
IsBlank = All (λ c. is_space c ≡ true)

abbrev StartsPlain : List ℕ → Type 0
StartsPlain [] = ⊥
StartsPlain (c ∷ cs) = is_space c ≡ false

hex-append :
    (n : ℕ) (group rest : List ℕ) → IsHex n group → hex n (group ++ rest) ≡ some (group, rest)
unfolding hex
hex-append zero [] rest h = refl
hex-append zero (c ∷ group) rest h = absurd (omega arith)
hex-append (suc n) [] rest h = absurd (omega arith)
hex-append (suc n) (c ∷ group) rest (l, (h, hs)) =
    ground (arith, hex-append n group rest (omega arith, hs))

-- version-trace_id-span_id-flags
abbrev pub format_traceparent : List ℕ → TraceContext → List ℕ → List ℕ
format_traceparent version t flags =
    version ++ (b'-' ∷ (t.trace_id ++ (b'-' ∷ (t.span_id ++ (b'-' ∷ flags)))))

module _ (version flags : List ℕ) (t : TraceContext) (hv : IsHex 2 version)
    (ht : IsHex 32 t.trace_id) (hs : IsHex 16 t.span_id) (hf : IsHex 2 flags) where
  match-format : match_traceparent (format_traceparent version t flags) ≡ some t
  unfolding match_traceparent
  match-format =
      let last : hex 2 flags ≡ some (flags, []) =
        rw (append-nil flags) at (hex-append 2 flags [] hf) in
      rw (
        hex-append 2 version (b'-' ∷ (t.trace_id ++ (b'-' ∷ (t.span_id ++ (b'-' ∷ flags))))) hv,
        hex-append 32 t.trace_id (b'-' ∷ (t.span_id ++ (b'-' ∷ flags))) ht,
        hex-append 16 t.span_id (b'-' ∷ flags) hs,
        last,
      )

lstrip-append : (before x : List ℕ) → IsBlank before → StartsPlain x → lstrip (before ++ x) ≡ x
unfolding lstrip
lstrip-append [] [] h p = absurd p
lstrip-append [] (c ∷ x) h p = ground arith
lstrip-append (b ∷ before) x (g, h) p = ground (arith, lstrip-append before x h p)

IsBlank-reverse : (cs : List ℕ) → IsBlank cs → IsBlank (reverse cs)
IsBlank-reverse [] h = tt
IsBlank-reverse (c ∷ cs) (g, h) =
    rw (reverse-cons c cs)
      (All-append (λ d. is_space d ≡ true) (reverse cs) (c ∷ []) (IsBlank-reverse cs h) (g, tt))

StartsPlain-append : (x y : List ℕ) → StartsPlain x → StartsPlain (x ++ y)
StartsPlain-append [] y p = absurd p
StartsPlain-append (c ∷ x) y p = p

strip-append :
    (before x after : List ℕ)
    → IsBlank before
    → IsBlank after
    → StartsPlain x
    → StartsPlain (reverse x)
    → strip (before ++ (x ++ after)) ≡ x
unfolding strip
strip-append before x after hb ha first last = rw (
  lstrip-append before (x ++ after) hb (StartsPlain-append x after first),
  reverse-append x after,
  lstrip-append (reverse after) (reverse x) (IsBlank-reverse after ha) last,
  reverse-reverse x,
)

hex-plain : (c : ℕ) → is_hex c ≡ true → is_space c ≡ false
unfolding is_space
hex-plain c h = ground arith

IsHex-first : (n : ℕ) (cs : List ℕ) → IsHex (suc n) cs → StartsPlain cs
IsHex-first n [] h = absurd (omega arith)
IsHex-first n (c ∷ cs) (l, (h, hs)) = hex-plain c h

IsHex-last : (cs : List ℕ) → IsHex 2 cs → StartsPlain (reverse cs)
IsHex-last [] h = absurd (omega arith)
IsHex-last (c ∷ []) h = absurd (omega arith)
IsHex-last (c ∷ d ∷ []) (l, (h, (g, k))) = hex-plain d g
IsHex-last (c ∷ d ∷ e ∷ cs) h = absurd (omega arith)

reverse-append-first :
    (xs ys : List ℕ) → StartsPlain (reverse ys) → StartsPlain (reverse (xs ++ ys))
reverse-append-first xs ys p =
    rw (reverse-append xs ys) (StartsPlain-append (reverse ys) (reverse xs) p)

stripped-strip :
    (value : List ℕ) (t : TraceContext)
    → match_traceparent (strip value) ≡ some t
    → stripped value ≡ some t
unfolding match_traceparent strip
stripped-strip [] t h = absurd (unfold hex lstrip in ground arith)
stripped-strip (c ∷ cs) t h = h

-- A printed header, with any white space round it, is parsed to the context that was printed, whatever
-- its version and flags: a version and flags of two, a trace id of 32 and a span id of 16 hexadecimal
-- digits, in lower case.
pub parse-format_traceparent :
    (before version flags after : List ℕ) (t : TraceContext)
    → IsBlank before
    → IsBlank after
    → IsHex 2 version
    → IsHex 32 t.trace_id
    → IsHex 16 t.span_id
    → IsHex 2 flags
    → parse_traceparent (some (before ++ (format_traceparent version t flags ++ after))) ≡ some t
unfolding parse_traceparent
parse-format_traceparent before version flags after t hb ha hv ht hs hf =
    let x = format_traceparent version t flags in
    let first =
      StartsPlain-append version (b'-' ∷ (t.trace_id ++ (b'-' ∷ (t.span_id ++ (b'-' ∷ flags)))))
        (IsHex-first 1 version hv) in
    let last =
      reverse-append-first version (b'-' ∷ (t.trace_id ++ (b'-' ∷ (t.span_id ++ (b'-' ∷ flags))))) (
        reverse-append-first (b'-' ∷ t.trace_id) (b'-' ∷ (t.span_id ++ (b'-' ∷ flags))) (
          reverse-append-first (b'-' ∷ t.span_id) (b'-' ∷ flags)
            (reverse-append-first (b'-' ∷ []) flags (IsHex-last flags hf)))) in
    stripped-strip (before ++ (x ++ after)) t
      (rw (strip-append before x after hb ha first last) (match-format version flags t hv ht hs hf))

with_char-IsHex :
    (n c : ℕ) (m : Option (List ℕ × List ℕ)) (group rest : List ℕ)
    → is_hex c ≡ true
    → ((g r : List ℕ) → m ≡ some (g, r) → IsHex n g)
    → with_char c m ≡ some (group, rest)
    → IsHex (suc n) group
with_char-IsHex n c none group rest h ih e = absurd (ground arith)
with_char-IsHex n c (some (g, r)) group rest h ih e =
    let (l, hs) = ih g r refl in
    let same : (c ∷ g) ≡ group = ground arith in rw (← same) (omega arith, (h, hs))

hex-IsHex : (n : ℕ) (cs group rest : List ℕ) → hex n cs ≡ some (group, rest) → IsHex n group
unfolding hex
hex-IsHex zero cs group rest e = let same : [] ≡ group = ground arith in rw (← same) (refl, tt)
hex-IsHex (suc n) [] group rest e = absurd (ground arith)
hex-IsHex (suc n) (c ∷ cs) group rest e = elim (Bool-cases (is_hex c)) [
  | inl digit ↦ with_char-IsHex n c (hex n cs) group rest digit (hex-IsHex n cs) (rw digit at e)
  | inr other ↦ absurd (ground arith)
]

dash-some :
    (m : Option (List ℕ × List ℕ)) (g r : List ℕ)
    → dash m ≡ some (g, r)
    → (r' : List ℕ) × (m ≡ some (g, r'))
dash-some none g r e = absurd (ground arith)
dash-some (some (h, [])) g r e = absurd (ground arith)
dash-some (some (h, c ∷ cs)) g r e = (c ∷ cs, ground arith)

dashed-IsHex : (n : ℕ) (cs g r : List ℕ) → dash (hex n cs) ≡ some (g, r) → IsHex n g
dashed-IsHex n cs g r e = let (r', found) = dash-some (hex n cs) g r e in hex-IsHex n cs g r' found

-- the two ids are as long as they should be, and of hexadecimal digits alone
abbrev pub IsTraceContext : TraceContext → Type 0
IsTraceContext t = IsHex 32 t.trace_id × IsHex 16 t.span_id

flags-some :
    (trace_id span_id : List ℕ) (m : Option (List ℕ × List ℕ)) (t : TraceContext)
    → flags trace_id span_id m ≡ some t
    → (t.trace_id ≡ trace_id) × (t.span_id ≡ span_id)
flags-some trace_id span_id none t e = absurd (ground arith)
flags-some trace_id span_id (some (g, r)) t e = ground arith

span-IsTraceContext :
    (trace_id : List ℕ) (m : Option (List ℕ × List ℕ)) (t : TraceContext)
    → IsHex 32 trace_id
    → ((g r : List ℕ) → m ≡ some (g, r) → IsHex 16 g)
    → span trace_id m ≡ some t
    → IsTraceContext t
span-IsTraceContext trace_id none t h ih e = absurd (ground arith)
span-IsTraceContext trace_id (some (g, r)) t h ih e =
    let (x, y) = flags-some trace_id g (hex 2 r) t e in rw (x, y) (h, ih g r refl)

trace-IsTraceContext :
    (m : Option (List ℕ × List ℕ)) (t : TraceContext)
    → ((g r : List ℕ) → m ≡ some (g, r) → IsHex 32 g)
    → trace m ≡ some t
    → IsTraceContext t
trace-IsTraceContext none t ih e = absurd (ground arith)
trace-IsTraceContext (some (g, r)) t ih e =
    span-IsTraceContext g (dash (hex 16 r)) t (ih g r refl) (dashed-IsHex 16 r) e

match-IsTraceContext :
    (cs : List ℕ) (t : TraceContext) → match_traceparent cs ≡ some t → IsTraceContext t
unfolding match_traceparent
match-IsTraceContext cs t e = begun (dash (hex 2 cs)) e
  where
    begun : (m : Option (List ℕ × List ℕ)) → Trace.version m ≡ some t → IsTraceContext t
    begun none k = absurd (ground arith)
    begun (some (g, r)) k = trace-IsTraceContext (dash (hex 32 r)) t (dashed-IsHex 32 r) k

-- Whatever the header, the ids that are taken from it are 32 and 16 hexadecimal digits.
pub parse_traceparent-IsTraceContext :
    (value : Option (List ℕ)) (t : TraceContext)
    → parse_traceparent value ≡ some t
    → IsTraceContext t
unfolding parse_traceparent
parse_traceparent-IsTraceContext none t e = absurd (ground arith)
parse_traceparent-IsTraceContext (some []) t e = absurd (ground arith)
parse_traceparent-IsTraceContext (some (c ∷ cs)) t e = match-IsTraceContext (strip (c ∷ cs)) t e

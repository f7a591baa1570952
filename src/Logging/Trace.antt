-- ===== src/Logging/Trace.antt =====
-- app/utils/logging.py: `parse_traceparent` with its pattern.
pub mod RoundTrip
use image_descriptor.Prelude.{
  ℕ, zero, suc, Bool, true, false, not, ◌&&◌, ◌||◌, Option, none, some, List, [], ◌∷◌, leb, ◌==◌,
  if◌then◌else◌,
}
use image_descriptor.Prelude.Blank.{strip}

-- `[0-9a-f]`
abbrev pub is_hex : ℕ → Bool
is_hex c = (leb b'0' c && leb c b'9') || (leb b'a' c && leb c b'f')

abbrev pub with_char : ℕ → Option (List ℕ × List ℕ) → Option (List ℕ × List ℕ)
with_char c none = none
with_char c (some (group, rest)) = some (c ∷ group, rest)

-- `([0-9a-f]{n})`: the group, and what follows
unfoldable pub hex : ℕ → List ℕ → Option (List ℕ × List ℕ)
hex zero cs = some ([], cs)
hex (suc n) [] = none
hex (suc n) (c ∷ cs) = if is_hex c then with_char c (hex n cs) else none

abbrev pub dash : Option (List ℕ × List ℕ) → Option (List ℕ × List ℕ)
dash none = none
dash (some (group, [])) = none
dash (some (group, c ∷ rest)) = if c == b'-' then some (group, rest) else none

-- `$`: the end, or a newline before it
abbrev at_end : List ℕ → Bool
at_end [] = true
at_end (c ∷ []) = c == 10
at_end (c ∷ d ∷ cs) = false

-- `trace_id` and `span_id`
pub record TraceContext : Type 0 where
  pub trace_id : List ℕ
  pub span_id : List ℕ

abbrev flags : List ℕ → List ℕ → Option (List ℕ × List ℕ) → Option TraceContext
flags trace_id span_id none = none
flags trace_id span_id (some (group, rest)) =
    if at_end rest then some (record { trace_id = trace_id; span_id = span_id }) else none

abbrev span : List ℕ → Option (List ℕ × List ℕ) → Option TraceContext
span trace_id none = none
span trace_id (some (span_id, rest)) = flags trace_id span_id (hex 2 rest)

abbrev trace : Option (List ℕ × List ℕ) → Option TraceContext
trace none = none
trace (some (trace_id, rest)) = span trace_id (dash (hex 16 rest))

abbrev version : Option (List ℕ × List ℕ) → Option TraceContext
version none = none
version (some (group, rest)) = trace (dash (hex 32 rest))

-- `_TRACEPARENT_RE.match` and the two groups
unfoldable pub match_traceparent : List ℕ → Option TraceContext
unfolding hex
match_traceparent cs = version (dash (hex 2 cs))

abbrev stripped : List ℕ → Option TraceContext
unfolding match_traceparent strip
stripped [] = none
stripped (c ∷ cs) = match_traceparent (strip (c ∷ cs))

-- `if not value: return None`
unfoldable pub parse_traceparent : Option (List ℕ) → Option TraceContext
unfolding match_traceparent strip
parse_traceparent none = none
parse_traceparent (some value) = stripped value

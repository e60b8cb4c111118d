-- ===== src/Static/Ranges.antt =====
-- internal/static/ranges.go: what a range field asks for. An int64 that is not negative is a natural
-- number; the running sum of `evaluateRange` is the two's complement of one.
pub mod Bounds
use zerodeps_hackk.Base.{
  ℕ, zero, suc, ◌+◌, ◌-◌, ◌%◌, ◌^◌, min, Bool, true, false, ◌&&◌, ◌||◌, not, ◌==◌, ltb, leb,
  eq_octets, if◌then◌else◌, List, [], ◌∷◌, ◌++◌, Option, none, some, length, All,
}
use zerodeps_hackk.Base.Text.{codes, cut, cut_prefix, trim, equal_fold, is_digit, value, format}
use zerodeps_hackk.H2.{Field}
use zerodeps_hackk.Static.Request.{Request, EntityTag, method_get, lookup, split_entity_tag}

abbrev pub max_int64 : ℕ
max_int64 = 2 ^ 63 - 1

abbrev pub max_ranges : ℕ
max_ranges = 16

pub record Span : Type 0 where
  pub first : ℕ
  pub last : ℕ

-- `span.length`; `last` is not below `first` in a span that this file makes.
abbrev pub span_length : Span → ℕ
span_length s = suc s.last - s.first

unfoldable pub content_range : Span → ℕ → List ℕ
unfolding format
content_range s size =
    codes "bytes " ++ format s.first ++ b'-' ∷ format s.last ++ b'/' ∷ format size

unfoldable pub unsatisfied_range : ℕ → List ℕ
unfolding format
unsatisfied_range size = codes "bytes */" ++ format size

pub data RangeVerdict : Type 0 where
  range_ignore : RangeVerdict
  range_partial : RangeVerdict
  range_not_satisfiable : RangeVerdict

all_digits : List ℕ → Bool
all_digits [] = true
all_digits (c ∷ s) = is_digit c && all_digits s

-- `none` is text that is no number; a number above an int64 is the largest one.
unfoldable pub parse_pos : List ℕ → Option ℕ
unfolding all_digits
parse_pos [] = none
parse_pos (c ∷ s) =
    if all_digits (c ∷ s)
    then (if ltb max_int64 (value 0 (c ∷ s)) then some max_int64 else some (value 0 (c ∷ s)))
    else none

-- A range-spec: not one, one that no octet of the file satisfies, or the span it asks for.
pub data Spec : Type 0 where
  invalid : Spec
  unsatisfiable : Spec
  satisfiable : Span → Spec

-- "-n": the last `n` octets.
suffix_spec : ℕ → ℕ → Spec
suffix_spec n size =
    if n == 0
    then unsatisfiable
    else if leb size n
    then satisfiable (record { first = 0; last = size - 1 })
    else satisfiable (record { first = size - n; last = size - 1 })

clip : ℕ → ℕ → ℕ → Spec
clip first last size =
    if leb size first
    then unsatisfiable
    else satisfiable (record { first = first; last = min last (size - 1) })

-- "first-last", where both have been read.
closed_spec : ℕ → Option ℕ → ℕ → Spec
unfolding clip
closed_spec first none size = invalid
closed_spec first (some last) size = if ltb last first then invalid else clip first last size

-- "first-" or "first-last", where `first` has been read.
int_spec : ℕ → List ℕ → ℕ → Spec
unfolding clip closed_spec
int_spec first [] size = clip first max_int64 size
int_spec first (c ∷ to) size = closed_spec first (parse_pos (c ∷ to)) size

unfoldable pub parse_range_spec : List ℕ → ℕ → Spec
unfolding suffix_spec int_spec
parse_range_spec spec size = elim (cut_prefix spec (codes "-")) [
  | some n ↦ elim (parse_pos n) [ none ↦ invalid | some k ↦ suffix_spec k size ]
  | none ↦
      (let (from, to, found) = cut spec b'-' in
        if found
        then elim (parse_pos from) [ none ↦ invalid | some first ↦ int_spec first to size ]
        else invalid)
]

-- What `parseRangeSet` returns; `too_many` and `bad` are its early returns, and the count is theirs.
pub data RangeSet : Type 0 where
  spans_of : List Span → ℕ → RangeSet
  too_many : ℕ → RangeSet
  bad : ℕ → RangeSet

-- The loop of `parseRangeSet`, whose rounds the first argument bounds.
parse_range_set_in : ℕ → List ℕ → ℕ → List Span → ℕ → RangeSet
unfolding cut trim parse_range_spec
parse_range_set_in fuel [] size spans specs = spans_of spans specs
parse_range_set_in zero (c ∷ s) size spans specs = spans_of spans specs
parse_range_set_in (suc fuel) (c ∷ s) size spans specs =
    let spec = trim (cut (c ∷ s) b',').0 in
    let set = (cut (c ∷ s) b',').1 in
    let skip = parse_range_set_in fuel set size spans specs in
    let over = parse_range_set_in fuel set size spans (suc specs) in
    if eq_octets spec []
    then skip
    else if ltb max_ranges (suc specs)
    then too_many (suc specs)
    else elim (parse_range_spec spec size) [
      | invalid ↦ bad (suc specs)
      | unsatisfiable ↦ over
      | satisfiable s ↦ parse_range_set_in fuel set size (spans ++ s ∷ []) (suc specs)
    ]

unfoldable pub parse_range_set : List ℕ → ℕ → RangeSet
unfolding parse_range_set_in
parse_range_set set size = parse_range_set_in (length set) set size [] 0

-- `total > size` of two int64, the first as its two's complement.
over_size : ℕ → ℕ → Bool
over_size total size = ltb total (2 ^ 63) && ltb size total

-- The loop over the spans: whether their sum stays within the size.
sum_fits : List Span → ℕ → ℕ → Bool
unfolding over_size
sum_fits [] size total = true
sum_fits (s ∷ spans) size total =
    let sum = (total + span_length s) % 2 ^ 64 in
    let rest = sum_fits spans size sum in if over_size sum size then false else rest

unfoldable pub if_range_is_false : Request → List ℕ → Bool
unfolding lookup split_entity_tag
if_range_is_false r tag =
    let (value, lines) = lookup r.fields (codes "if-range") in
    if lines == 0 then false else if ltb 1 lines then true else elim (split_entity_tag value) [
      | none ↦ true
      | some t ↦
          t.weak
          || not (eq_octets t.rest [])
          || eq_octets tag []
          || not (eq_octets t.opaque_tag tag)
    ]

-- The verdict on a range-set that has been read.
judge : RangeSet → ℕ → List Span × RangeVerdict
unfolding sum_fits
judge (bad specs) size = ([], range_ignore)
judge (too_many specs) size = ([], range_not_satisfiable)
judge (spans_of spans zero) size = ([], range_ignore)
judge (spans_of [] (suc specs)) size = ([], range_not_satisfiable)
judge (spans_of (s ∷ spans) (suc specs)) size =
    if sum_fits (s ∷ spans) size 0 then (s ∷ spans, range_partial) else ([], range_ignore)

unfoldable pub evaluate_range : Request → List ℕ → ℕ → List Span × RangeVerdict
unfolding lookup if_range_is_false cut equal_fold parse_range_set judge
evaluate_range r tag size =
    let (value, lines) = lookup r.fields (codes "range") in
    if not (lines == 1)
      || not (eq_octets r.method method_get)
      || size == 0
      || if_range_is_false r tag
    then ([], range_ignore)
    else (let (unit, set, found) = cut value b'=' in
        if not found || not (equal_fold unit (codes "bytes"))
        then ([], range_ignore)
        else judge (parse_range_set set size) size)

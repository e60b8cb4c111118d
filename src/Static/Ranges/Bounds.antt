-- ===== src/Static/Ranges/Bounds.antt =====
-- The spans that internal/static/ranges.go makes, within the file they are of.
use zerodeps_hackk.Base.{
  ℕ, zero, suc, ◌+◌, ◌%◌, ◌^◌, ◌≤◌, ◌<◌, ◌≡◌, refl, Bool, true, false, not, ◌||◌, ltb, eq_octets,
  if◌then◌else◌, Bool-cases, inl, inr, List, [], ◌∷◌, ◌++◌, Option, none, some, Option-cases,
  length, length-append, All, All-snoc, arith,
}
use zerodeps_hackk.Base.Text.{codes, cut, cut_prefix, trim, equal_fold, value}
use zerodeps_hackk.Static.Request.{Request, lookup}
use zerodeps_hackk.Static.Ranges.{
  max_int64, max_ranges, Span, span_length, RangeVerdict, range_ignore, range_partial,
  range_not_satisfiable, parse_pos, Spec, invalid, unsatisfiable, satisfiable, suffix_spec, clip,
  closed_spec, int_spec, parse_range_spec, RangeSet, spans_of, too_many, bad, parse_range_set_in,
  parse_range_set, over_size, sum_fits, judge, evaluate_range,
}

-- A span that is not empty and ends within the file.
abbrev pub InFile : ℕ → Span → Type 0
InFile size s = (s.first ≤ s.last) × (s.last < size)

abbrev SpecIn : ℕ → Spec → Type 0
SpecIn size invalid = Unit {0}
SpecIn size unsatisfiable = Unit {0}
SpecIn size (satisfiable s) = InFile size s

parse_pos-le : (s : List ℕ) (n : ℕ) → parse_pos s ≡ some n → n ≤ max_int64
unfolding parse_pos
parse_pos-le [] n e = absurd (cc)
parse_pos-le (c ∷ s) n e = ground arith

suffix_spec-SpecIn : (n size : ℕ) → 0 < size → SpecIn size (suffix_spec n size)
unfolding suffix_spec
suffix_spec-SpecIn n size h = ground arith

clip-SpecIn : (first last size : ℕ) → first ≤ last → SpecIn size (clip first last size)
unfolding clip
clip-SpecIn first last size h = ground arith

closed_spec-SpecIn : (first : ℕ) (o : Option ℕ) (size : ℕ) → SpecIn size (closed_spec first o size)
unfolding closed_spec
closed_spec-SpecIn first none size = tt
closed_spec-SpecIn first (some last) size = ground (arith, clip-SpecIn first last size)

int_spec-SpecIn :
    (first : ℕ) (to : List ℕ) (size : ℕ) → first ≤ max_int64 → SpecIn size (int_spec first to size)
unfolding int_spec
int_spec-SpecIn first [] size h = clip-SpecIn first max_int64 size h
int_spec-SpecIn first (c ∷ to) size h = closed_spec-SpecIn first (parse_pos (c ∷ to)) size

parse_range_spec-SpecIn :
    (spec : List ℕ) (size : ℕ) → 0 < size → SpecIn size (parse_range_spec spec size)
unfolding parse_range_spec cut_prefix
parse_range_spec-SpecIn spec size h = elim (Option-cases (cut_prefix spec (codes "-"))) [
  | inr (n, e) ↦ rw e (elim (Option-cases (parse_pos n)) [
    | inl bad_pos ↦ rw bad_pos tt
    | inr (k, pos) ↦ rw pos (suffix_spec-SpecIn k size h)
  ])
  | inl e ↦ rw e (elim (Bool-cases (cut spec b'-').2) [
    | inr missing ↦ rw missing tt
    | inl found ↦ rw found (elim (Option-cases (parse_pos (cut spec b'-').0)) [
      | inl bad_pos ↦ rw bad_pos tt
      | inr (k, pos) ↦ rw pos (int_spec-SpecIn k (cut spec b'-').1 size (parse_pos-le _ k pos))
    ])
  ])
]

-- What is known of a range-set that has been read: its spans are in the file, and are not more than
-- its specs, of which there are at most the limit.
SetIn : ℕ → RangeSet → Type 0
SetIn size (spans_of spans specs) =
    All (InFile size) spans × (length spans ≤ specs) × (specs ≤ max_ranges)
SetIn size (too_many specs) = Unit {0}
SetIn size (bad specs) = Unit {0}

add_spec-SetIn :
    (size : ℕ) (spec : Spec) (specs : ℕ) (over : RangeSet) (with_span : Span → RangeSet)
    → SpecIn size spec
    → SetIn size over
    → ((s : Span) → InFile size s → SetIn size (with_span s))
    → SetIn size
        (elim spec [ invalid ↦ bad specs | unsatisfiable ↦ over | satisfiable s ↦ with_span s ])
unfolding SetIn
add_spec-SetIn size invalid specs over with_span h o w = tt
add_spec-SetIn size unsatisfiable specs over with_span h o w = o
add_spec-SetIn size (satisfiable s) specs over with_span h o w = w s h

SetIn-if :
    (size : ℕ) (b : Bool) (p q : RangeSet)
    → SetIn size p
    → (b ≡ false → SetIn size q)
    → SetIn size (if b then p else q)
SetIn-if size true p q h k = h
SetIn-if size false p q h k = k refl

parse_range_set_in-SetIn :
    (fuel : ℕ) (set : List ℕ) (size : ℕ) (spans : List Span) (specs : ℕ)
    → 0 < size
    → SetIn size (spans_of spans specs)
    → SetIn size (parse_range_set_in fuel set size spans specs)
unfolding parse_range_set_in SetIn
parse_range_set_in-SetIn fuel [] size spans specs pos h = h
parse_range_set_in-SetIn zero (c ∷ set) size spans specs pos h = h
parse_range_set_in-SetIn (suc fuel) (c ∷ set) size spans specs pos h =
    let spec = trim (cut (c ∷ set) b',').0 in
    let rest = (cut (c ∷ set) b',').1 in
    SetIn-if size (eq_octets spec []) _ _
      (parse_range_set_in-SetIn fuel rest size spans specs pos h)
      λ _. SetIn-if size (ltb max_ranges (suc specs)) _ _ tt λ few.
        add_spec-SetIn size (parse_range_spec spec size) (suc specs) _ _
          (parse_range_spec-SpecIn spec size pos)
          (parse_range_set_in-SetIn fuel rest size spans (suc specs) pos
            (h.0, omega (arith, h), ground arith))
          λ s in_file. parse_range_set_in-SetIn fuel rest size (spans ++ s ∷ []) (suc specs) pos (
            All-snoc (InFile size) spans s h.0 in_file,
            omega (arith, h, length-append spans (s ∷ [])),
            ground arith,
          )

abbrev pub total : List Span → ℕ
total [] = 0
total (s ∷ spans) = span_length s + total spans

sum_fits-le :
    (spans : List Span) (size sum : ℕ)
    → size < 2 ^ 62
    → sum ≤ size
    → All (InFile size) spans
    → sum_fits spans size sum ≡ true
    → sum + total spans ≤ size
unfolding sum_fits over_size
sum_fits-le [] size sum small h in_file e = omega (arith, h)
sum_fits-le (s ∷ spans) size sum small h in_file e =
    let keep = sum_fits-le spans size ((sum + span_length s) % 2 ^ 64) small in
    ground (arith, keep, in_file)

-- What a part of the file is: spans in it, some, few, and not longer together than it is. With any
-- other verdict no span comes back.
unfoldable pub Answered : ℕ → List Span × RangeVerdict → Type 0
Answered size (spans, range_partial) =
    (1 ≤ length spans)
    × (length spans ≤ max_ranges)
    × All (InFile size) spans
    × (total spans ≤ size)
Answered size (spans, range_ignore) = spans ≡ []
Answered size (spans, range_not_satisfiable) = spans ≡ []

judge-Answered :
    (set : RangeSet) (size : ℕ) → size < 2 ^ 62 → SetIn size set → Answered size (judge set size)
unfolding judge SetIn Answered
judge-Answered (bad specs) size small h = refl
judge-Answered (too_many specs) size small h = refl
judge-Answered (spans_of spans zero) size small h = refl
judge-Answered (spans_of [] (suc specs)) size small h = refl
judge-Answered (spans_of (s ∷ spans) (suc specs)) size small (in_file, few, most) =
    elim (Bool-cases (sum_fits (s ∷ spans) size 0)) [
      | inl fits ↦ rw fits (
        omega arith,
        omega (arith, few, most),
        in_file,
        omega (arith, sum_fits-le (s ∷ spans) size 0 small (omega arith) in_file fits),
      )
      | inr over ↦ rw over refl
    ]

Answered-if :
    (size : ℕ) (b : Bool) (p : List Span × RangeVerdict)
    → (b ≡ false → Answered size p)
    → Answered size (if b then ([], range_ignore) else p)
unfolding Answered
Answered-if size true p h = refl
Answered-if size false p h = h refl

parse_range_set-SetIn : (set : List ℕ) (size : ℕ) → 0 < size → SetIn size (parse_range_set set size)
unfolding parse_range_set SetIn
parse_range_set-SetIn set size pos =
    parse_range_set_in-SetIn (length set) set size [] 0 pos (tt, omega arith, omega arith)

-- Whatever the request, its fields and the entity tag, for a file of fewer than 2^62 octets: an answer
-- of parts has at least one span and at most sixteen, each of them not empty and within the file,
-- and together they are not longer than it; every other verdict comes without spans.
pub evaluate_range-Answered :
    (r : Request) (tag : List ℕ) (size : ℕ)
    → size < 2 ^ 62
    → Answered size (evaluate_range r tag size)
unfolding evaluate_range
evaluate_range-Answered r tag size small =
    let (value, lines) = lookup r.fields (codes "range") in
    let (unit, set, found) = cut value b'=' in
    Answered-if size _ _ λ kept.
      Answered-if size (not found || not (equal_fold unit (codes "bytes"))) _ λ _.
        judge-Answered (parse_range_set set size) size small
          (parse_range_set-SetIn set size (ground arith))

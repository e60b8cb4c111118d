-- ===== src/Tests/Statics.antt =====
-- internal/static at concrete inputs.
use zerodeps_hackk.Base.{ℕ, ◌^◌, ◌-◌, ◌≡◌, refl, true, false, List, [], ◌∷◌, none, some, arith}
use zerodeps_hackk.Base.Text.{codes, index_byte, split, join, cut, cut_prefix, trim, equal_fold}
use zerodeps_hackk.H2.{Field}
use zerodeps_hackk.Static.Request.{Request, lookup, split_entity_tag}
use zerodeps_hackk.Static.Ranges.{
  Span, range_partial, range_ignore, range_not_satisfiable, parse_pos, parse_range_spec,
  parse_range_set, if_range_is_false, evaluate_range,
}
use zerodeps_hackk.Static.Ranges.Bounds.{Answered, evaluate_range-Answered}
use zerodeps_hackk.Static.Path.{resolve, before, unescape, unhex, safe_segment, reserved, to_upper}
use zerodeps_hackk.Static.Path.Safety.{Below, resolve-Below}

abbrev escaped_target : List ℕ
escaped_target = codes "/a/%2e%2E/b/./c.txt?x=/.."

resolve_escapes :
    (resolve (codes "/a/%2e%2e/b%20c.txt") ≡ none)
    × (resolve escaped_target ≡ some (codes "b/c.txt", false))
    × (resolve (codes "/../..//") ≡ some (codes ".", true))
    × (resolve (codes "/x/com1.txt") ≡ none)
unfolding resolve before index_byte split unescape unhex safe_segment reserved to_upper join
resolve_escapes = (refl, refl, refl, refl)

resolve-Below_example : Below (codes "b/c.txt")
resolve-Below_example = resolve-Below escaped_target (codes "b/c.txt") false resolve_escapes.1

abbrev field : List ℕ → List ℕ → Field
field name value = record { name = name; value = value; sensitive = false }

abbrev asking : List ℕ → Request
asking set = record {
  method = codes "GET";
  path = codes "/";
  fields = field (codes "range") set ∷ [];
}

abbrev span : ℕ → ℕ → Span
span first last = record { first = first; last = last }

-- A file of 100 octets.
parts :
    (evaluate_range (asking (codes "bytes=0-9, 50-,-5")) [] 100
      ≡ (span 0 9 ∷ span 50 99 ∷ span 95 99 ∷ [], range_partial))
    × (evaluate_range (asking (codes "bytes=0-9,9-8")) [] 100 ≡ ([], range_ignore))
    × (evaluate_range (asking (codes "bytes=100-")) [] 100 ≡ ([], range_not_satisfiable))
    × (evaluate_range (asking (codes "bytes=0-,0-")) [] 100 ≡ ([], range_ignore))
unfolding evaluate_range lookup if_range_is_false cut equal_fold parse_range_set trim
    parse_range_spec cut_prefix parse_pos split_entity_tag
parts = (refl, refl, refl, refl)

-- Twice the whole of a file of 2^63 - 1 octets: the running sum passes 2^63 and counts as negative.
overflow :
    evaluate_range (asking (codes "bytes=0-,0-")) [] (2 ^ 63 - 1)
    ≡ (span 0 (2 ^ 63 - 2) ∷ span 0 (2 ^ 63 - 2) ∷ [], range_partial)
unfolding evaluate_range lookup if_range_is_false cut equal_fold parse_range_set trim
    parse_range_spec cut_prefix parse_pos split_entity_tag
overflow = refl

evaluate_range-Answered_example :
    Answered 100 (evaluate_range (asking (codes "bytes=0-9, 50-,-5")) [] 100)
evaluate_range-Answered_example =
    evaluate_range-Answered (asking (codes "bytes=0-9, 50-,-5")) [] 100 (omega arith)

-- ===== src/Static/Request.antt =====
-- What internal/static reads of a request, and the entity tags of etag.go.
use zerodeps_hackk.Base.{
  ℕ, suc, ◌+◌, Bool, true, false, eq_octets, ◌==◌, if◌then◌else◌, List, [], ◌∷◌, Option, none, some,
  take, drop,
}
use zerodeps_hackk.Base.Text.{codes, cut_prefix, index_byte}
use zerodeps_hackk.H2.{Field}

pub record Request : Type 0 where
  pub method : List ℕ
  pub path : List ℕ
  pub fields : List Field

abbrev pub method_get : List ℕ
method_get = codes "GET"

-- The round of `lookup` on the value and the count so far.
lookup_from : List Field → List ℕ → List ℕ → ℕ → List ℕ × ℕ
lookup_from [] name value lines = (value, lines)
lookup_from (f ∷ fields) name value lines =
    let found = lookup_from fields name f.value (suc lines) in
    let passed = lookup_from fields name value lines in
    if eq_octets f.name name then found else passed

-- The value of the last field of that name, and how many there are.
unfoldable pub lookup : List Field → List ℕ → List ℕ × ℕ
unfolding lookup_from
lookup fields name = lookup_from fields name [] 0

pub record EntityTag : Type 0 where
  pub opaque_tag : List ℕ
  pub weak : Bool
  pub rest : List ℕ

-- The tag behind the weakness prefix, from its quote.
split_quoted : Bool → List ℕ → Option EntityTag
unfolding index_byte
split_quoted weak [] = none
split_quoted weak (c ∷ s) =
    if c == b'"'
    then elim (index_byte s b'"') [
      | none ↦ none
      | some i ↦
          some
            (record { opaque_tag = take (i + 2) (c ∷ s); weak = weak; rest = drop (i + 2) (c ∷ s) })
    ]
    else none

unfoldable pub split_entity_tag : List ℕ → Option EntityTag
unfolding cut_prefix split_quoted
split_entity_tag s = elim (cut_prefix s (codes "W/")) [
  | some after ↦ split_quoted true after
  | none ↦ split_quoted false s
]

-- ===== src/Base/Text.antt =====
-- The functions of Go's strings package that the program calls, on lists of octets.
pub mod Split
use Prim.Native.Nat.{ℕ, zero, suc, ◌+◌, ◌-◌, ◌*◌, ◌/◌, ◌%◌}
use Prim.Native.Char.{code}
use Prim.Native.String.{String}
use mathlib.Core.Bool.{Bool, true, false, ◌&&◌, ◌||◌}
use mathlib.Core.Option.{Option, none, some}
use mathlib.Core.List.{List, [], ◌∷◌, ◌++◌}
use zerodeps_hackk.Base.Tests.{◌==◌, leb, if◌then◌else◌}

-- The octets of an ASCII literal.
abbrev pub codes : String → List ℕ
codes String.[] = []
codes (String.◌∷◌ c s) = code c ∷ codes s

-- strings.IndexByte
unfoldable pub index_byte : List ℕ → ℕ → Option ℕ
index_byte [] c = none
index_byte (x ∷ s) c =
    let rest = index_byte s c in
    if x == c then some 0 else elim rest [ none ↦ none | some i ↦ some (suc i) ]

-- strings.Cut at one octet: what is before it, what is after it, and whether it is there.
unfoldable pub cut : List ℕ → ℕ → List ℕ × List ℕ × Bool
cut [] c = ([], [], false)
cut (x ∷ s) c = let rest = cut s c in if x == c then ([], s, true) else (x ∷ rest.0, rest.1, rest.2)

-- strings.Split at one octet.
unfoldable pub split : List ℕ → ℕ → List (List ℕ)
split [] c = [] ∷ []
split (x ∷ s) c =
    let rest = split s c in
    if x == c then [] ∷ rest else elim rest [ [] ↦ (x ∷ []) ∷ [] | p ∷ ps ↦ (x ∷ p) ∷ ps ]

-- strings.Join with one octet between.
unfoldable pub join : List (List ℕ) → ℕ → List ℕ
join [] c = []
join (p ∷ []) c = p
join (p ∷ q ∷ ps) c = p ++ c ∷ join (q ∷ ps) c

-- strings.CutPrefix
unfoldable pub cut_prefix : List ℕ → List ℕ → Option (List ℕ)
cut_prefix s [] = some s
cut_prefix [] (p ∷ ps) = none
cut_prefix (x ∷ s) (p ∷ ps) = let rest = cut_prefix s ps in if x == p then rest else none

abbrev pub is_blank : ℕ → Bool
is_blank c = c == b' ' || c == 9

-- strings.TrimLeft of spaces and tabs.
unfoldable pub trim_left : List ℕ → List ℕ
trim_left [] = []
trim_left (x ∷ s) = let rest = trim_left s in if is_blank x then rest else x ∷ s

-- strings.TrimRight of spaces and tabs.
unfoldable pub trim_right : List ℕ → List ℕ
trim_right [] = []
trim_right (x ∷ s) = elim (trim_right s) [
  | [] ↦ (if is_blank x then [] else x ∷ [])
  | y ∷ t ↦ x ∷ y ∷ t
]

-- strings.Trim of spaces and tabs.
unfoldable pub trim : List ℕ → List ℕ
unfolding trim_left trim_right
trim s = trim_right (trim_left s)

abbrev pub to_lower_octet : ℕ → ℕ
to_lower_octet c = if leb b'A' c && leb c b'Z' then c + 32 else c

abbrev pub to_upper_octet : ℕ → ℕ
to_upper_octet c = if leb b'a' c && leb c b'z' then c - 32 else c

-- The next character of a text in lower case, and what is behind it. Two characters outside ASCII
-- fold into it: U+017F (octets 0xc5, 0xbf) to s, and U+212A (0xe2, 0x84, 0xaa) to k; another is its first octet here.
fold_next : List ℕ → Option (ℕ × List ℕ)
unfolding cut_prefix
fold_next [] = none
fold_next (a ∷ s) = some (elim (cut_prefix (a ∷ s) (0xc5 ∷ 0xbf ∷ [])) [
  | some rest ↦ (b's', rest)
  | none ↦ elim (cut_prefix (a ∷ s) (0xe2 ∷ 0x84 ∷ 0xaa ∷ [])) [
    | some rest ↦ (b'k', rest)
    | none ↦ (to_lower_octet a, s)
  ]
])

-- strings.EqualFold against a text in ASCII.
unfoldable pub equal_fold : List ℕ → List ℕ → Bool
unfolding fold_next
equal_fold [] [] = true
equal_fold (a ∷ s) [] = false
equal_fold s (b ∷ t) = elim (fold_next s) [
  | none ↦ false
  | some (c, rest) ↦ c == to_lower_octet b && equal_fold rest t
]

abbrev pub is_digit : ℕ → Bool
is_digit c = leb b'0' c && leb c b'9'

-- The number that decimal digits spell behind `n`, with no bound.
abbrev pub value : ℕ → List ℕ → ℕ
value n [] = n
value n (c ∷ s) = value (n * 10 + (c - b'0')) s

-- strconv.FormatInt of a number that is not negative; the first argument bounds the digits.
format_in : ℕ → ℕ → List ℕ → List ℕ
format_in zero n out = out
format_in (suc k) n out =
    let rest = format_in k (n / 10) ((b'0' + n % 10) ∷ out) in
    if leb n 9 then (b'0' + n) ∷ out else rest

unfoldable pub format : ℕ → List ℕ
unfolding format_in
format n = format_in (suc n) n []

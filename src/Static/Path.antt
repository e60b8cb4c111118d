-- ===== src/Static/Path.antt =====
-- internal/static/path.go: the name of a file in a request target.
pub mod Safety
use zerodeps_hackk.Base.{
  ℕ, ◌+◌, ◌-◌, ◌*◌, Bool, true, false, ◌&&◌, ◌||◌, not, ◌==◌, ltb, leb, eq_octets, if◌then◌else◌,
  List, [], ◌∷◌, ◌++◌, Option, none, some, is_some, take, get_or, length,
}
use zerodeps_hackk.Base.Text.{codes, index_byte, split, join, to_upper_octet}

abbrev pub index_file : List ℕ
index_file = codes "index.html"

abbrev pub max_target_length : ℕ
max_target_length = 4096

abbrev pub bad_octets : List ℕ
bad_octets = codes "/\\:*?\"<>|"

abbrev pub name_octet : ℕ → Bool
name_octet c = ltb 0x20 c && not (c == 0x7f) && not (is_some (index_byte bad_octets c))

unfoldable pub unhex : ℕ → Option ℕ
unhex c =
    if leb b'0' c && leb c b'9'
    then some (c - b'0')
    else if leb b'a' c && leb c b'f'
    then some (c - b'a' + 10)
    else if leb b'A' c && leb c b'F'
    then some (c - b'A' + 10)
    else none

-- Two digits as one octet. The second is below 16, so `|` is a sum.
escaped : ℕ → ℕ → Option ℕ
unfolding unhex
escaped a b = elim (unhex a) [
  | none ↦ none
  | some hi ↦ elim (unhex b) [
    | none ↦ none
    | some lo ↦ if name_octet (hi * 16 + lo) then some (hi * 16 + lo) else none
  ]
]

push : ℕ → Option (List ℕ) → Option (List ℕ)
push c none = none
push c (some s) = some (c ∷ s)

-- The octet that is written, or not allowed, before the rest.
unescape_plain : ℕ → Option (List ℕ) → Option (List ℕ)
unfolding push
unescape_plain c rest = if name_octet c then push c rest else none

push_escaped : Option ℕ → Option (List ℕ) → Option (List ℕ)
unfolding push
push_escaped none rest = none
push_escaped (some d) rest = push d rest

unfoldable pub unescape : List ℕ → Option (List ℕ)
unfolding unescape_plain push_escaped escaped
unescape [] = some []
unescape (c ∷ []) = elim (c == b'%') [ true ↦ none | false ↦ unescape_plain c (some []) ]
unescape (c ∷ a ∷ []) = elim (c == b'%') [
  | true ↦ none
  | false ↦ unescape_plain c (unescape (a ∷ []))
]
unescape (c ∷ a ∷ b ∷ s) = elim (c == b'%') [
  | true ↦ push_escaped (escaped a b) (unescape s)
  | false ↦ unescape_plain c (unescape (a ∷ b ∷ s))
]

abbrev pub reserved_names : List (List ℕ)
reserved_names =
    codes "CON"
    ∷ codes "PRN"
    ∷ codes "AUX"
    ∷ codes "NUL"
    ∷ codes "COM1"
    ∷ codes "COM2"
    ∷ codes "COM3"
    ∷ codes "COM4"
    ∷ codes "COM5"
    ∷ codes "COM6"
    ∷ codes "COM7"
    ∷ codes "COM8"
    ∷ codes "COM9"
    ∷ codes "LPT1"
    ∷ codes "LPT2"
    ∷ codes "LPT3"
    ∷ codes "LPT4"
    ∷ codes "LPT5"
    ∷ codes "LPT6"
    ∷ codes "LPT7"
    ∷ codes "LPT8"
    ∷ codes "LPT9"
    ∷ codes "CONIN$"
    ∷ codes "CONOUT$"
    ∷ []

is_among : List ℕ → List (List ℕ) → Bool
is_among s [] = false
is_among s (name ∷ names) = eq_octets s name || is_among s names

-- strings.ToUpper as far as it makes ASCII: of the characters outside it, U+0131 (0xc4, 0xb1) becomes I
-- and U+017F (0xc5, 0xbf) becomes S. The others stay outside, whatever they become.
unfoldable pub to_upper : List ℕ → List ℕ
to_upper [] = []
to_upper (c ∷ []) = to_upper_octet c ∷ []
to_upper (c ∷ d ∷ s) = elim (c == 0xc4 && d == 0xb1) [
  | true ↦ b'I' ∷ to_upper s
  | false ↦ elim (c == 0xc5 && d == 0xbf) [
    | true ↦ b'S' ∷ to_upper s
    | false ↦ to_upper_octet c ∷ to_upper (d ∷ s)
  ]
]

-- `s[:i]` at the first `c`, or all of `s`.
unfoldable pub before : List ℕ → ℕ → List ℕ
unfolding index_byte
before s c = elim (index_byte s c) [ none ↦ s | some i ↦ take i s ]

unfoldable pub reserved : List ℕ → Bool
unfolding before to_upper is_among
reserved s = is_among (to_upper (before s b'.')) reserved_names

-- The caller's segment is not empty, so its first and its last octet are there.
unfoldable pub safe_segment : List ℕ → Bool
unfolding reserved
safe_segment s =
    if get_or s 0 0 == b'.'
    then false
    else if get_or s (length s - 1) 0 == b'.'
    then false
    else not (reserved s)

drop_last : List (List ℕ) → List (List ℕ)
drop_last out = take (length out - 1) out

-- The loop over the segments, with those kept so far.
walk : List (List ℕ) → List (List ℕ) → Option (List (List ℕ))
unfolding unescape safe_segment drop_last
walk [] out = some out
walk (seg ∷ raw) out = elim (unescape seg) [
  | none ↦ none
  | some s ↦ elim (eq_octets s [] || eq_octets s (codes ".")) [
    | true ↦ walk raw out
    | false ↦ elim (eq_octets s (codes "..")) [
      | true ↦ walk raw (drop_last out)
      | false ↦ elim (safe_segment s) [ true ↦ walk raw (out ++ s ∷ []) | false ↦ none ]
    ]
  ]
]

-- The name of the segments that are left.
name_of : List (List ℕ) → List ℕ
unfolding join
name_of [] = codes "."
name_of (s ∷ out) = join (s ∷ out) b'/'

ends_empty : List (List ℕ) → Bool
ends_empty raw = eq_octets (get_or raw (length raw - 1) []) []

-- The target behind its first octet.
resolve_rooted : List ℕ → Option (List ℕ × Bool)
unfolding split walk name_of ends_empty
resolve_rooted path = elim (walk (split path b'/') []) [
  | none ↦ none
  | some out ↦ some (name_of out, ends_empty (split path b'/'))
]

-- The name and whether the target ends in a slash.
unfoldable pub resolve : List ℕ → Option (List ℕ × Bool)
unfolding before resolve_rooted
resolve target = elim (before target b'?') [
  | [] ↦ none
  | c ∷ path ↦ if c == b'/' then resolve_rooted path else none
]

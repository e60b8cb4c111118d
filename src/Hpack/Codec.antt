-- ===== src/Hpack/Codec.antt =====
-- internal/hpack/primitives.go, encoder.go and decoder.go: strings and header blocks. A block that
-- stands at `pos` is the octets from there on. Every error is ErrCompression, which is `none`.
pub mod Strings
pub mod Index
pub mod Exact
pub mod Literals
use zerodeps_hackk.Base.{
  ℕ, zero, suc, ◌+◌, ◌-◌, ◌%◌, Bool, true, false, ◌==◌, ltb, leb, ◌&&◌, eq_octets, if◌then◌else◌,
  List, [], ◌∷◌, ◌++◌, Option, none, some, length, take, drop, get_elem?,
}
use zerodeps_hackk.H2.{Error, Field, HeaderCodec}
use zerodeps_hackk.Hpack.Dynamic.{DynamicTable, set_max, add, get, find, find_name}
use zerodeps_hackk.Hpack.Static.{static_table, static_name_index}
use zerodeps_hackk.Hpack.Integer.{max_string_len, append_int, decode_int}

-- internal/huffman as these files use it.
pub record Huffman : Type 0 where
  pub encoded_len : List ℕ → ℕ
  pub encode : List ℕ → List ℕ
  pub decode : List ℕ → Option (List ℕ)

module _ (huffman : Huffman) where
  unfoldable pub append_string : List ℕ → List ℕ
  append_string s =
      let hlen = huffman.encoded_len s in
      if ltb hlen (length s)
      then append_int 0x80 7 hlen ++ huffman.encode s
      else append_int 0 7 (length s) ++ s

  -- The octets of a string of `len` octets behind the `n` octets of its length.
  unfoldable pub string_data : Bool → List ℕ → ℕ → ℕ → Option (List ℕ × ℕ)
  string_data coded src n len =
      if ltb max_string_len len
      then none
      else if ltb (length src - n) len
      then none
      else if coded
      then elim (huffman.decode (take len (drop n src))) [
        | none ↦ none
        | some s ↦ some (s, n + len)
      ]
      else some (take len (drop n src), n + len)

  -- The string and how many octets were consumed.
  unfoldable pub decode_string : List ℕ → Option (List ℕ × ℕ)
  unfolding string_data
  decode_string [] = none
  decode_string (b ∷ src) = elim (decode_int (b ∷ src) 7) [
    | none ↦ none
    | some (len, n) ↦ string_data (leb 0x80 (b % 256)) (b ∷ src) n len
  ]

unfoldable pub lookup_indexed : DynamicTable → ℕ → Option Field
lookup_indexed dt zero = none
lookup_indexed dt (suc i) =
    if leb (suc i) (length static_table)
    then get_elem? static_table i
    else get dt (suc i - length static_table)

-- The loop of `findExact` over the static table, from the entry at index `i` on.
unfoldable pub find_static : List ℕ → List ℕ → List Field → ℕ → Option ℕ
find_static name value [] i = none
find_static name value (f ∷ fields) i =
    let rest = find_static name value fields (suc i) in
    if eq_octets f.name name && eq_octets f.value value then some (suc i) else rest

unfoldable pub find_exact : DynamicTable → List ℕ → List ℕ → Option ℕ
unfolding find_static
find_exact dt name value = elim (find_static name value static_table 0) [
  | some i ↦ some i
  | none ↦
      (let (off, exact) = find dt name value in
        if exact then some (length static_table + off) else none)
]

-- The method `findName` of the codec.
unfoldable pub find_name_index : DynamicTable → List ℕ → Option ℕ
find_name_index dt name =
    if ltb 0 (static_name_index name)
    then some (static_name_index name)
    else if ltb 0 (find_name dt name)
    then some (length static_table + find_name dt name)
    else none

module _ (huffman : Huffman) where
  unfoldable pub encode_literal : DynamicTable → Field → ℕ → ℕ → List ℕ
  encode_literal dt f flag n = elim (find_name_index dt f.name) [
    | some i ↦ append_int flag n i ++ append_string huffman f.value
    | none ↦ append_int flag n 0 ++ append_string huffman f.name ++ append_string huffman f.value
  ]

  -- One round of `Encode`: the octets it appends, and the table behind it.
  unfoldable pub encode_field : DynamicTable → Field → List ℕ × DynamicTable
  encode_field dt f =
      if f.sensitive
      then (encode_literal dt f 0x10 4, dt)
      else elim (find_exact dt f.name f.value) [
        | some i ↦ (append_int 0x80 7 i, dt)
        | none ↦ (encode_literal dt f 0x40 6, add dt f)
      ]

  unfoldable pub encode : DynamicTable → List Field → List ℕ × DynamicTable
  encode dt [] = ([], dt)
  encode dt (f ∷ fields) =
      let (octets, next) = encode_field dt f in
      let (more, last) = encode next fields in (octets ++ more, last)

  -- The value that follows the name, and the octets before it.
  unfoldable pub literal_value : List ℕ → List ℕ → ℕ → Option (Field × ℕ)
  literal_value src name pos = elim (decode_string huffman (drop pos src)) [
    | none ↦ none
    | some (value, m) ↦ some (record { name = name; value = value; sensitive = false }, pos + m)
  ]

  -- The name at an index, or spelled out where the index is 0, and the value.
  unfoldable pub literal_name : DynamicTable → List ℕ → ℕ → ℕ → Option (Field × ℕ)
  unfolding literal_value
  literal_name dt src zero n = elim (decode_string huffman (drop n src)) [
    | none ↦ none
    | some (name, m) ↦ literal_value src name (n + m)
  ]
  literal_name dt src (suc i) n = elim (lookup_indexed dt (suc i)) [
    | none ↦ none
    | some f ↦ literal_value src f.name n
  ]

  unfoldable pub decode_literal : DynamicTable → List ℕ → ℕ → Option (Field × ℕ)
  unfolding literal_name
  decode_literal dt src n = elim (decode_int src n) [
    | none ↦ none
    | some (i, consumed) ↦ literal_name dt src i consumed
  ]

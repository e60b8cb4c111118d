-- ===== src/Hpack/Codec/Literals.antt =====
-- Literals of internal/hpack, written and read with the same table.
use zerodeps_hackk.Base.{
  ℕ, zero, suc, ◌+◌, ◌^◌, ◌≤◌, ◌<◌, ◌≡◌, refl, ap, ◌∙◌, sym, subst, List, ◌++◌, append_assoc,
  Option, none, some, length, length-append, drop, arith,
}
use zerodeps_hackk.H2.{Field}
use zerodeps_hackk.Hpack.Dynamic.{DynamicTable}
use zerodeps_hackk.Hpack.Integer.{append_int, decode_int, max_int_value}
use zerodeps_hackk.Hpack.Integer.RoundTrip.{Clear, decode_int-append_int}
use zerodeps_hackk.Hpack.Codec.{
  Huffman, append_string, decode_string, lookup_indexed, find_name_index, encode_literal,
  literal_value, literal_name, decode_literal,
}
use zerodeps_hackk.Hpack.Codec.Strings.{
  Lossless, Short, Starts, append_int-Starts, drop_append, decode_string-append_string,
}
use zerodeps_hackk.Hpack.Codec.Index.{MayPoint, find_name_index-Points}
use zerodeps_hackk.Hpack.Codec.Exact.{plain_field}

module _ (huffman : Huffman) (lossless : Lossless huffman) where
  value_read :
      (head value rest name : List ℕ)
      → Short value
      → (let octets = head ++ append_string huffman value in
          literal_value huffman (octets ++ rest) name (length head)
          ≡ some (plain_field name value, length octets))
  unfolding literal_value
  value_read head value rest name short =
      rw
        (
          drop_append head (append_string huffman value) rest,
          decode_string-append_string huffman value rest lossless short,
          length-append head (append_string huffman value),
          literal_value,
        )
        refl

  named_read :
      (dt : DynamicTable) (src : List ℕ) (i n : ℕ) (f : Field)
      → 0 < i
      → lookup_indexed dt i ≡ some f
      → literal_name huffman dt src i n ≡ literal_value huffman src f.name n
  unfolding literal_name
  named_read dt src zero n f pos e = absurd (omega (arith, pos))
  named_read dt src (suc i) n f pos e = rw (e, literal_name) refl

  spelled_read :
      (dt : DynamicTable) (head name value rest : List ℕ)
      → Short name
      → Short value
      → (let octets = head ++ append_string huffman name ++ append_string huffman value in
          literal_name huffman dt (octets ++ rest) zero (length head)
          ≡ some (plain_field name value, length octets))
  unfolding literal_name
  spelled_read dt head name value rest short_name short_value =
      spelled _ (length (append_string huffman name)) (
        ap (λ src. decode_string huffman (drop (length head) src))
          (append_assoc (head ++ append_string huffman name) (append_string huffman value) rest)
        ∙ ap (decode_string huffman)
            (drop_append head (append_string huffman name) (append_string huffman value ++ rest))
        ∙ decode_string-append_string huffman name _ lossless short_name)
      ∙ ap (literal_value huffman _ name) (sym (length-append head (append_string huffman name)))
      ∙ value_read (head ++ append_string huffman name) value rest name short_value
    where
      spelled :
          (src : List ℕ) (m : ℕ)
          → decode_string huffman (drop (length head) src) ≡ some (name, m)
          → literal_name huffman dt src zero (length head)
            ≡ literal_value huffman src name (length head + m)
      spelled src m e = rw (e, literal_name) refl

  decoded :
      (dt : DynamicTable) (n i consumed : ℕ) (src : List ℕ)
      → decode_int src n ≡ some (i, consumed)
      → decode_literal huffman dt src n ≡ literal_name huffman dt src i consumed
  unfolding decode_literal literal_name
  decoded dt n i consumed src e = rw (e, decode_literal) refl

  -- The decoder reads the index that octets start with.
  index_read :
      (dt : DynamicTable) (flag n i : ℕ) (src tail : List ℕ)
      → Clear flag n
      → i ≤ max_int_value
      → src ≡ append_int flag n i ++ tail
      → decode_literal huffman dt src n
        ≡ literal_name huffman dt src i (length (append_int flag n i))
  index_read dt flag n i src tail clear fits e =
      decoded dt n i (length (append_int flag n i)) src
        (ap (λ src. decode_int src n) e ∙ decode_int-append_int flag n i tail clear fits)

  -- What `encodeLiteral` writes is read as a field of that name and value.
  pub decode_literal-encode_literal :
      (dt : DynamicTable) (f : Field) (flag n : ℕ) (rest : List ℕ)
      → Clear flag n
      → 61 + length dt.entries ≤ max_int_value
      → Short f.name
      → Short f.value
      → decode_literal huffman dt (encode_literal huffman dt f flag n ++ rest) n
        ≡ some (plain_field f.name f.value, length (encode_literal huffman dt f flag n))
  unfolding encode_literal
  decode_literal-encode_literal dt f flag n rest clear fits short_name short_value =
      read (find_name_index dt f.name) (find_name_index-Points dt f.name)
    where
      value : List ℕ
      value = append_string huffman f.value

      read :
          (o : Option ℕ)
          → MayPoint dt f.name o
          → (let octets : List ℕ = elim o [
            | some i ↦ append_int flag n i ++ value
            | none ↦ append_int flag n 0 ++ append_string huffman f.name ++ value
          ] in
              decode_literal huffman dt (octets ++ rest) n
              ≡ some (plain_field f.name f.value, length octets))
      read none nowhere =
          index_read dt flag n 0 _ _ clear (omega arith) (
            append_assoc (append_int flag n 0 ++ append_string huffman f.name) value rest
            ∙ append_assoc (append_int flag n 0) (append_string huffman f.name) (value ++ rest))
          ∙ spelled_read dt (append_int flag n 0) f.name f.value rest short_name short_value
      read (some i) there =
          index_read dt flag n i _ _ clear (omega (arith, there.bounded, fits))
            (append_assoc (append_int flag n i) value rest)
          ∙ named_read dt _ i (length (append_int flag n i)) there.field there.positive
              there.looked_up
          ∙ ap (λ name. literal_value huffman _ name (length (append_int flag n i))) there.named
          ∙ value_read (append_int flag n i) f.value rest f.name short_value

  pub encode_literal-Starts :
      (dt : DynamicTable) (f : Field) (flag n : ℕ) (rest : List ℕ)
      → Clear flag n
      → Starts flag (flag + 2 ^ n) (encode_literal huffman dt f flag n ++ rest)
  unfolding encode_literal
  encode_literal-Starts dt f flag n rest clear = starts (find_name_index dt f.name)
    where
      value : List ℕ
      value = append_string huffman f.value

      starts :
          (o : Option ℕ)
          → Starts flag (flag + 2 ^ n) (
              elim o [
                | some i ↦ append_int flag n i ++ value
                | none ↦ append_int flag n 0 ++ append_string huffman f.name ++ value
              ]
              ++ rest)
      starts none =
          subst (Starts flag (flag + 2 ^ n))
            (sym (
              append_assoc (append_int flag n 0 ++ append_string huffman f.name) value rest
              ∙ append_assoc (append_int flag n 0) (append_string huffman f.name) (value ++ rest)))
            (append_int-Starts flag n 0 _ clear.some_bits clear.one_octet)
      starts (some i) =
          subst (Starts flag (flag + 2 ^ n)) (sym (append_assoc (append_int flag n i) value rest))
            (append_int-Starts flag n i _ clear.some_bits clear.one_octet)

-- ===== src/Hpack/Decode.antt =====
-- internal/hpack/decoder.go: the loop of `Decode`. Its rounds are bounded by the octets of the block,
-- since each takes at least one. A mask of an octet is a comparison, in the order of the cases.
pub mod Rounds
use zerodeps_hackk.Base.{
  ℕ, zero, suc, ◌%◌, Bool, true, false, leb, if◌then◌else◌, List, [], ◌∷◌, ◌++◌, Option, none, some,
  length, drop,
}
use zerodeps_hackk.H2.{Error, Field, HeaderCodec}
use zerodeps_hackk.Hpack.Dynamic.{DynamicTable, set_max, add}
use zerodeps_hackk.Hpack.Integer.{decode_int}
use zerodeps_hackk.Hpack.Codec.{Huffman, lookup_indexed, decode_literal}

-- The variables of the loop: `c.dyn`, `block[pos:]`, `fields` and `sawHeaderField`.
pub record Decoding : Type 0 where
  pub dyn : DynamicTable
  pub src : List ℕ
  pub fields : List Field
  pub saw_header_field : Bool

-- The return of an error, with the table as it is then, or the next round.
pub data Step : Type 0 where
  refused : DynamicTable → Step
  next : Decoding → Step

-- A field is appended, and the octets it took are passed.
unfoldable pub took_field : Decoding → DynamicTable → Field → ℕ → Step
took_field d dyn f n =
    next (record {
      dyn = dyn;
      src = drop n d.src;
      fields = d.fields ++ f ∷ [];
      saw_header_field = true;
    })

unfoldable pub indexed_field : Decoding → Step
unfolding took_field
indexed_field d = elim (decode_int d.src 7) [
  | none ↦ refused d.dyn
  | some (i, n) ↦ elim (lookup_indexed d.dyn i) [
    | none ↦ refused d.dyn
    | some f ↦ took_field d d.dyn f n
  ]
]

unfoldable pub resized : Decoding → ℕ → DynamicTable × Option Error → Step
resized d n (dyn, some e) = refused dyn
resized d n (dyn, none) = next (record d { dyn = dyn; src = drop n d.src })

unfoldable pub size_update : Decoding → Step
unfolding resized
size_update d = if d.saw_header_field then refused d.dyn else elim (decode_int d.src 5) [
  | none ↦ refused d.dyn
  | some (size, n) ↦ resized d n (set_max d.dyn size)
]

module _ (huffman : Huffman) where
  -- A literal whose index has `n` bits: what becomes of the field and of the table.
  unfoldable pub literal_field : Decoding → ℕ → (Field → Field) → (Field → DynamicTable) → Step
  unfolding took_field
  literal_field d n mark table = elim (decode_literal huffman d.dyn d.src n) [
    | none ↦ refused d.dyn
    | some (f, m) ↦ took_field d (table f) (mark f) m
  ]

  -- One round of the loop on a block that starts with `b`.
  unfoldable pub decode_step : Decoding → ℕ → Step
  unfolding indexed_field size_update literal_field
  decode_step d b =
      if leb 0x80 (b % 256)
      then indexed_field d
      else if leb 0x40 (b % 256)
      then literal_field d 6 (λ f. f) (add d.dyn)
      else if leb 0x20 (b % 256)
      then size_update d
      else if leb 0x10 (b % 256)
      then literal_field d 4 (λ f. record f { sensitive = true }) (λ f. d.dyn)
      else literal_field d 4 (λ f. f) (λ f. d.dyn)

  unfoldable pub decode_from : ℕ → Decoding → DynamicTable × Option (List Field)
  decode_from zero d = (d.dyn, some d.fields)
  decode_from (suc fuel) d = elim d.src [
    | [] ↦ (d.dyn, some d.fields)
    | b ∷ src ↦ elim (decode_step d b) [ refused dyn ↦ (dyn, none) | next e ↦ decode_from fuel e ]
  ]

  unfoldable pub decode : DynamicTable → List ℕ → DynamicTable × Option (List Field)
  unfolding decode_from
  decode dyn block =
      decode_from (length block)
        (record { dyn = dyn; src = block; fields = []; saw_header_field = false })

  -- The codec as the stream table drives it.
  unfoldable pub codec : HeaderCodec DynamicTable
  codec = record { decode = decode }

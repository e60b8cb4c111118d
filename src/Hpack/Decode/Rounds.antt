-- ===== src/Hpack/Decode/Rounds.antt =====
-- One field of internal/hpack, encoded, and decoded with a table that agrees.
use zerodeps_hackk.Base.{
  ℕ, suc, ◌+◌, ◌-◌, ◌%◌, ◌^◌, ◌≤◌, ◌<◌, ◌≡◌, refl, ap, ◌∙◌, sym, subst, Bool, true, false, ltb, leb,
  Bool-cases, inl, inr, List, [], ◌∷◌, ◌++◌, Option, none, some, length, drop_append_length, arith,
}
use zerodeps_hackk.H2.{Field}
use zerodeps_hackk.Hpack.Dynamic.{DynamicTable, add, entry_size}
use zerodeps_hackk.Hpack.Dynamic.Eviction.{total, keep}
use zerodeps_hackk.Hpack.Dynamic.History.{Held, Agrees, added, changed_all-Agrees}
use zerodeps_hackk.Hpack.Integer.{append_int, decode_int, max_int_value}
use zerodeps_hackk.Hpack.Integer.RoundTrip.{Clear, decode_int-append_int}
use zerodeps_hackk.Hpack.Codec.{
  Huffman, lookup_indexed, find_exact, decode_literal, encode_literal, encode_field,
}
use zerodeps_hackk.Hpack.Codec.Strings.{Lossless, Short, Starts, append_int-Starts}
use zerodeps_hackk.Hpack.Codec.Exact.{Plain, plain_field, MayHold, find_exact-Holds}
use zerodeps_hackk.Hpack.Codec.Literals.{decode_literal-encode_literal, encode_literal-Starts}
use zerodeps_hackk.Hpack.Decode.{
  Decoding, next, took_field, indexed_field, literal_field, decode_step, decode_from,
}

-- The largest table whose indices are all within what an integer of a block may be.
abbrev pub max_table : ℕ
max_table = 2 ^ 32 - 61

-- A table that holds what RFC 7541 says, in that size, and no field that must never be indexed.
pub record Ready (dt : DynamicTable) : Type 0 where
  pub spec : Held
  pub agrees : Agrees dt spec
  pub plain : Plain dt.entries
  pub bounded : dt.max ≤ max_table

length-total : (es : List Field) → length es ≤ total es
length-total [] = omega arith
length-total (e ∷ es) = omega (arith, length-total es)

Plain-keep : (room : ℕ) (es : List Field) → Plain es → Plain (keep room es)
Plain-keep room [] h = tt
Plain-keep room (e ∷ es) (p, h) = elim (Bool-cases (ltb room (entry_size e))) [
  | inl large ↦ rw large tt
  | inr small ↦ rw small (p, Plain-keep (room - entry_size e) es h)
]

pub Ready-add : (dt : DynamicTable) (f : Field) → f.sensitive ≡ false → Ready dt → Ready (add dt f)
Ready-add dt f plain ready =
    let agrees = changed_all-Agrees (added f ∷ []) dt ready.spec ready.agrees in
    record {
      spec = record ready.spec { fields = keep ready.spec.max (f ∷ ready.spec.fields) };
      agrees = agrees;
      plain = subst Plain (sym agrees.same_fields) (
          Plain-keep ready.spec.max (f ∷ ready.spec.fields)
            (plain, subst Plain ready.agrees.same_fields ready.plain));
      bounded = omega (arith, ready.bounded, ready.agrees.same_max, agrees.same_max);
    }

Ready-few : (dt : DynamicTable) → Ready dt → 61 + length dt.entries ≤ max_int_value
Ready-few dt ready =
    let agrees = ready.agrees in
    omega (
      arith,
      ready.bounded,
      ap length agrees.same_fields,
      agrees.same_max,
      agrees.size_fits,
      length-total ready.spec.fields,
    )

pub Clear-0x10 : Clear 0x10 4
Clear-0x10 = record {
  low = λ j h. omega (arith, h);
  some_bits = omega arith;
  one_octet = omega arith;
}

pub Clear-0x40 : Clear 0x40 6
Clear-0x40 = record {
  low = λ j h. omega (arith, h);
  some_bits = omega arith;
  one_octet = omega arith;
}

pub Clear-0x80 : Clear 0x80 7
Clear-0x80 = record {
  low = λ j h. omega (arith, h);
  some_bits = omega arith;
  one_octet = omega arith;
}

module _ (huffman : Huffman) where
  -- A round on a block whose first octet is in the range of one representation.
  one_round :
      (low high fuel : ℕ) (dyn : DynamicTable) (src : List ℕ) (fields : List Field) (saw : Bool)
      (e : Decoding)
      → Starts low high src
      → ((b : ℕ)
          → low ≤ b
          → b < high
          → decode_step huffman
              (record { dyn = dyn; src = src; fields = fields; saw_header_field = saw })
              b
            ≡ next e)
      → decode_from huffman
          (suc fuel)
          (record { dyn = dyn; src = src; fields = fields; saw_header_field = saw })
        ≡ decode_from huffman fuel e
  unfolding decode_from Starts
  one_round low high fuel dyn [] fields saw e starts h = absurd starts
  one_round low high fuel dyn (b ∷ src) fields saw e (l, u) h = rw (h b l u, decode_from) refl

  indexed_step :
      (d : Decoding) (b i n : ℕ) (f : Field)
      → 0x80 ≤ b
      → b < 0x100
      → decode_int d.src 7 ≡ some (i, n)
      → lookup_indexed d.dyn i ≡ some f
      → decode_step huffman d b ≡ took_field d d.dyn f n
  unfolding decode_step indexed_field
  indexed_step d b i n f low high e g = rw top (rw (e, indexed_field) (rw g refl))
    where
      top : leb 0x80 (b % 256) ≡ true
      top = ground arith

  added_step :
      (d : Decoding) (b n : ℕ) (f : Field)
      → 0x40 ≤ b
      → b < 0x80
      → decode_literal huffman d.dyn d.src 6 ≡ some (f, n)
      → decode_step huffman d b ≡ took_field d (add d.dyn f) f n
  unfolding decode_step literal_field
  added_step d b n f low high e = rw (top, second) (rw (e, literal_field) refl)
    where
      top : leb 0x80 (b % 256) ≡ false
      top = ground arith

      second : leb 0x40 (b % 256) ≡ true
      second = ground arith

  never_step :
      (d : Decoding) (b n : ℕ) (f : Field)
      → 0x10 ≤ b
      → b < 0x20
      → decode_literal huffman d.dyn d.src 4 ≡ some (f, n)
      → decode_step huffman d b ≡ took_field d d.dyn (record f { sensitive = true }) n
  unfolding decode_step literal_field
  never_step d b n f low high e = rw (top, second, third, fourth) (rw (e, literal_field) refl)
    where
      top : leb 0x80 (b % 256) ≡ false
      top = ground arith

      second : leb 0x40 (b % 256) ≡ false
      second = ground arith

      third : leb 0x20 (b % 256) ≡ false
      third = ground arith

      fourth : leb 0x10 (b % 256) ≡ true
      fourth = ground arith

  -- The table after the field, and the rest of the block, after one round.
  unfoldable pub after : DynamicTable → List ℕ → List Field → Field → Decoding
  after dyn src fields f = record {
    dyn = dyn;
    src = src;
    fields = fields ++ f ∷ [];
    saw_header_field = true;
  }

  -- A round that takes the octets in front.
  read_round :
      (low high fuel : ℕ) (dt dt' : DynamicTable) (octets more : List ℕ) (fields : List Field)
      (saw : Bool) (f : Field)
      → Starts low high (octets ++ more)
      → (let d : Decoding = record {
        dyn = dt;
        src = octets ++ more;
        fields = fields;
        saw_header_field = saw;
      } in
          ((b : ℕ)
            → low ≤ b
            → b < high
            → decode_step huffman d b ≡ took_field d dt' f (length octets))
          → decode_from huffman (suc fuel) d ≡ decode_from huffman fuel (after dt' more fields f))
  unfolding after took_field
  read_round low high fuel dt dt' octets more fields saw f starts step =
      one_round low high fuel dt (octets ++ more) fields saw _ starts step
      ∙ ap (λ src. decode_from huffman fuel (after dt' src fields f))
          (drop_append_length octets more)

  module _ (lossless : Lossless huffman) (fuel : ℕ) (dt : DynamicTable) (ready : Ready dt)
      (more : List ℕ) (fields : List Field) (saw : Bool) where
    secret_read :
        (name value : List ℕ)
        → Short name
        → Short value
        → (let f : Field = record { name = name; value = value; sensitive = true } in
            decode_from huffman (suc fuel) (record {
              dyn = dt;
              src = encode_literal huffman dt f 0x10 4 ++ more;
              fields = fields;
              saw_header_field = saw;
            })
            ≡ decode_from huffman fuel (after dt more fields f))
    secret_read name value short_name short_value =
        let f : Field = record { name = name; value = value; sensitive = true } in
        read_round 0x10 0x20 fuel dt dt (encode_literal huffman dt f 0x10 4) more fields saw f
          (encode_literal-Starts huffman lossless dt f 0x10 4 more Clear-0x10)
          (λ b low high. never_step _ b _ (plain_field name value) low high (
            decode_literal-encode_literal huffman lossless dt f 0x10 4 more Clear-0x10
              (Ready-few dt ready) short_name short_value))

    plain_read :
        (name value : List ℕ) (o : Option ℕ)
        → Short name
        → Short value
        → MayHold dt name value o
        → (let f = plain_field name value in
            let r : List ℕ × DynamicTable = elim o [
              | some i ↦ (append_int 0x80 7 i, dt)
              | none ↦ (encode_literal huffman dt f 0x40 6, add dt f)
            ] in
            decode_from huffman
              (suc fuel)
              (record { dyn = dt; src = r.0 ++ more; fields = fields; saw_header_field = saw })
            ≡ decode_from huffman fuel (after r.1 more fields f))
    plain_read name value none short_name short_value nowhere =
        let f = plain_field name value in
        read_round 0x40 0x80 fuel dt (add dt f) (encode_literal huffman dt f 0x40 6) more fields saw
          f (encode_literal-Starts huffman lossless dt f 0x40 6 more Clear-0x40)
          (λ b low high. added_step _ b _ f low high (
            decode_literal-encode_literal huffman lossless dt f 0x40 6 more Clear-0x40
              (Ready-few dt ready) short_name short_value))
    plain_read name value (some i) short_name short_value there =
        read_round 0x80 0x100 fuel dt dt (append_int 0x80 7 i) more fields saw
          (plain_field name value) (append_int-Starts 0x80 7 i more (omega arith) (omega arith))
          (λ b low high.
            indexed_step _ b i _ (plain_field name value) low high
              (decode_int-append_int 0x80 7 i more Clear-0x80
                (omega (arith, there.bounded, Ready-few dt ready)))
              there.looked_up)

    abbrev pub IsRead : Field → Type 0
    IsRead f =
        (let (octets, next_table) = encode_field huffman dt f in
          decode_from huffman (suc fuel)
            (record { dyn = dt; src = octets ++ more; fields = fields; saw_header_field = saw })
          ≡ decode_from huffman fuel (after next_table more fields f))

    field-IsRead_at :
        (name value : List ℕ) (sensitive : Bool)
        → Short name
        → Short value
        → IsRead (record { name = name; value = value; sensitive = sensitive })
    unfolding encode_field
    field-IsRead_at name value true = secret_read name value
    field-IsRead_at name value false = λ short_name short_value.
        plain_read name value (find_exact dt name value) short_name short_value
          (find_exact-Holds dt name value ready.plain)

    -- A field that the encoder writes is read in one round, and changes the decoder's table as it
    -- does the encoder's.
    pub field-IsRead : (f : Field) → Short f.name → Short f.value → IsRead f
    field-IsRead f = field-IsRead_at f.name f.value f.sensitive

-- ===== src/Hpack/RoundTrip.antt =====
-- Header blocks of internal/hpack, encoded and decoded with tables that agree.
use zerodeps_hackk.Base.{ℕ, List, [], ◌∷◌, Option, none, some, All}
use zerodeps_hackk.H2.{Field}
use zerodeps_hackk.Hpack.Dynamic.{DynamicTable}
use zerodeps_hackk.Hpack.Codec.{Huffman, encode}
use zerodeps_hackk.Hpack.Codec.Strings.{Short}
use zerodeps_hackk.Hpack.Decode.{decode}

-- Fields whose names and values a header block can carry.
abbrev pub Sendable : List Field → Type 0
Sendable = All (λ f. Short f.name × Short f.value)

module _ (huffman : Huffman) where
  -- The blocks of a connection in order, as one side writes them, and as the other reads them until
  -- one is refused.
  unfoldable pub encode_all : DynamicTable → List (List Field) → List (List ℕ)
  encode_all dt [] = []
  encode_all dt (fields ∷ sections) =
      (encode huffman dt fields).0 ∷ encode_all (encode huffman dt fields).1 sections

  unfoldable pub encoder_after : DynamicTable → List (List Field) → DynamicTable
  encoder_after dt [] = dt
  encoder_after dt (fields ∷ sections) = encoder_after (encode huffman dt fields).1 sections

  gathered : Option (List Field) → Option (List (List Field)) → Option (List (List Field))
  gathered none rest = none
  gathered (some fields) none = none
  gathered (some fields) (some sections) = some (fields ∷ sections)

  unfoldable pub decode_all : DynamicTable → List (List ℕ) → Option (List (List Field))
  unfolding gathered
  decode_all dt [] = some []
  decode_all dt (block ∷ blocks) =
      let (table, read) = decode huffman dt block in gathered read (decode_all table blocks)

  unfoldable pub decoder_after : DynamicTable → List (List ℕ) → DynamicTable
  decoder_after dt [] = dt
  decoder_after dt (block ∷ blocks) = decoder_after (decode huffman dt block).0 blocks

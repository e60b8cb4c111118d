-- ===== src/Tests/Compression.antt =====
-- internal/hpack at concrete inputs.
use zerodeps_hackk.Base.{
  ℕ, zero, suc, ◌≡◌, refl, [], ◌∷◌, ◌++◌, List, true, false, Option, none, some, length,
}
use zerodeps_hackk.Base.Text.{codes}
use zerodeps_hackk.H2.{Field}
use zerodeps_hackk.Hpack.Dynamic.{DynamicTable, new_dynamic_table, add, find, find_name}
use zerodeps_hackk.Hpack.Dynamic.Search.{FoundIn, find-FoundIn}
use zerodeps_hackk.Hpack.Integer.{append_int}
use zerodeps_hackk.Hpack.Static.{static_table, static_name_index}
use zerodeps_hackk.Hpack.Codec.{
  Huffman, append_string, encode, encode_field, encode_literal, find_exact, find_name_index,
}
use zerodeps_hackk.Hpack.RoundTrip.{encode_all}
use zerodeps_hackk.Hpack.Dynamic.History.{
  Change, added, max_set, ceiling_set, changed_all, held_all, Agrees, new_dynamic_table-Agrees,
}

abbrev short_field : Field
short_field = record { name = 97 ∷ []; value = 98 ∷ 99 ∷ []; sensitive = false }

-- Room for two fields, then for one.
abbrev changes : List Change
changes =
    added short_field
    ∷ max_set 70
    ∷ added short_field
    ∷ added short_field
    ∷ ceiling_set 40
    ∷ max_set 41
    ∷ []

new_dynamic_table-Agrees_example :
    Agrees
      (changed_all changes new_dynamic_table)
      (held_all changes (record { fields = []; max = 4096; ceiling = 4096 }))
new_dynamic_table-Agrees_example = new_dynamic_table-Agrees changes

abbrev small_table : DynamicTable
small_table = record { entries = short_field ∷ []; size = 35; max = 4096; ceiling = 4096 }

find-FoundIn_example :
    FoundIn small_table (97 ∷ []) (98 ∷ 99 ∷ []) (find small_table (97 ∷ []) (98 ∷ 99 ∷ []))
find-FoundIn_example = find-FoundIn small_table (97 ∷ []) (98 ∷ 99 ∷ [])

-- A code of one octet for three zero octets, and of one more octet for all else.
shortened : List ℕ → List ℕ
shortened (zero ∷ zero ∷ zero ∷ []) = 1 ∷ []
shortened s = 0 ∷ s

restored : List ℕ → Option (List ℕ)
restored [] = none
restored (zero ∷ s) = some s
restored (suc n ∷ s) = some (0 ∷ 0 ∷ 0 ∷ [])

abbrev zeros_code : Huffman
zeros_code = record {
  encoded_len = λ s. length (shortened s);
  encode = shortened;
  decode = restored;
}

abbrev x_key : Field
x_key = record { name = codes "x-key"; value = codes "abc"; sensitive = false }

abbrev sections : List (List Field)
sections =
    (record { name = codes ":method"; value = codes "GET"; sensitive = false }
      ∷ x_key
      ∷ record { name = codes "cookie"; value = codes "secret"; sensitive = true }
      ∷ [])
    ∷ (x_key ∷ record { name = codes "x-zeros"; value = 0 ∷ 0 ∷ 0 ∷ []; sensitive = false } ∷ [])
    ∷ []

-- The string that is coded takes one octet behind its length.
coded : append_string zeros_code (0 ∷ 0 ∷ 0 ∷ []) ≡ 0x81 ∷ 1 ∷ []
unfolding append_string append_int shortened
coded = refl

-- The second time, the field is an index into the dynamic table.
indexed :
    encode_all zeros_code new_dynamic_table ((x_key ∷ []) ∷ (x_key ∷ []) ∷ [])
    ≡ ((0x40 ∷ 5 ∷ codes "x-key") ++ 3 ∷ codes "abc") ∷ (0xbe ∷ []) ∷ []
unfolding shortened encode_all encode encode_field encode_literal find_exact find_name_index
    static_table static_name_index append_string append_int new_dynamic_table add find find_name
indexed = refl

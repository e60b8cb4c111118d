-- ===== src/Hpack/Codec/Strings.antt =====
-- Strings and literals of internal/hpack, written and read.
use zerodeps_hackk.Base.{
  IsOctets, ℕ, ◌+◌, ◌-◌, ◌%◌, ◌^◌, ◌≤◌, ◌<◌, ◌≡◌, refl, ◌∙◌, sym, Bool, true, false, ltb, leb,
  Bool-cases, inl, inr, if◌then◌else◌, List, [], ◌∷◌, ◌++◌, append_assoc, Option, none, some,
  length, length-append, drop, take_append_length, drop_append_length, arith,
}
use zerodeps_hackk.Hpack.Integer.{append_int, decode_int, max_string_len}
use zerodeps_hackk.Hpack.Integer.RoundTrip.{Clear, decode_int-append_int}
use zerodeps_hackk.Hpack.Codec.{Huffman, append_string, string_data, decode_string}

-- What the codec relies on: a text of octets is decoded from its code, whose length is foretold.
pub record Lossless (huffman : Huffman) : Type 0 where
  pub decode-encode : (s : List ℕ) → IsOctets s → huffman.decode (huffman.encode s) ≡ some s
  pub length-encode : (s : List ℕ) → length (huffman.encode s) ≡ huffman.encoded_len s

-- The first octet carries the flags.
unfoldable pub Starts : ℕ → ℕ → List ℕ → Type 0
Starts low high [] = ⊥
Starts low high (b ∷ s) = (low ≤ b) × (b < high)

pub append_int-Starts :
    (flags n i : ℕ) (src : List ℕ)
    → 2 ≤ 2 ^ n
    → 2 ^ n ≤ 256
    → Starts flags (flags + 2 ^ n) (append_int flags n i ++ src)
unfolding append_int Starts
append_int-Starts flags n i src two octet = elim (Bool-cases (ltb i (2 ^ n - 1))) [
  | inl short ↦ rw short (omega arith, ground arith)
  | inr long ↦ rw long (omega arith, omega arith)
]

-- The flag of a string in Huffman code: the top bit of the octet that its length starts with.
flag_of : Bool → ℕ
flag_of true = 0x80
flag_of false = 0

Clear-flag_of : (coded : Bool) → Clear (flag_of coded) 7
unfolding flag_of
Clear-flag_of true = record {
  low = λ j h. omega (arith, h);
  some_bits = omega arith;
  one_octet = omega arith;
}
Clear-flag_of false = record {
  low = λ j h. omega (arith, h);
  some_bits = omega arith;
  one_octet = omega arith;
}

flag_read :
    (coded : Bool) (b : ℕ)
    → flag_of coded ≤ b
    → b < flag_of coded + 128
    → leb 0x80 (b % 256) ≡ coded
unfolding flag_of
flag_read true b low high = ground arith
flag_read false b low high = ground arith

pub drop_append : (xs ys zs : List ℕ) → drop (length xs) ((xs ++ ys) ++ zs) ≡ ys ++ zs
drop_append xs ys zs = rw append_assoc (drop_append_length xs (ys ++ zs))

-- A string that may be sent in a header block.
abbrev pub Short : List ℕ → Type 0
Short s = IsOctets s × (length s ≤ max_string_len)

module _ (huffman : Huffman) where
  headed :
      (coded : Bool) (src : List ℕ) (len n : ℕ)
      → Starts (flag_of coded) (flag_of coded + 128) src
      → decode_int src 7 ≡ some (len, n)
      → decode_string huffman src ≡ string_data huffman coded src n len
  unfolding decode_string Starts
  headed coded [] len n starts e = absurd starts
  headed coded (b ∷ src) len n (low, high) e =
      rw (e, decode_string) (rw (flag_read coded b low high) refl)

  string_data_read :
      (coded : Bool) (head data' s src : List ℕ)
      → length data' ≤ max_string_len
      → (if coded then huffman.decode data' else some data') ≡ some s
      → string_data huffman coded (head ++ (data' ++ src)) (length head) (length data')
        ≡ some (s, length (head ++ data'))
  unfolding string_data
  string_data_read coded head data' s src short e =
      rw
        (
          not_long,
          enough,
          drop_append_length head (data' ++ src),
          take_append_length data' src,
          length-append head data',
        )
        (by_flag coded e)
    where
      not_long : ltb max_string_len (length data') ≡ false
      not_long = ground (arith, short)

      enough : ltb (length (head ++ (data' ++ src)) - length head) (length data') ≡ false
      enough = ground (arith, length-append head (data' ++ src), length-append data' src)

      by_flag :
          (coded : Bool)
          → (if coded then huffman.decode data' else some data') ≡ some s
          → if◌then◌else◌ {A = Option (List ℕ × ℕ)} coded
              (elim (huffman.decode data') [
                | none ↦ none
                | some t ↦ some (t, length head + length data')
              ])
              (some (data', length head + length data'))
            ≡ some (s, length head + length data')
      by_flag true e = rw e refl
      by_flag false e = cc

  -- A length and as many octets are read as the string that those octets are for.
  framed :
      (coded : Bool) (data' s src : List ℕ)
      → length data' ≤ max_string_len
      → (if coded then huffman.decode data' else some data') ≡ some s
      → (let written = append_int (flag_of coded) 7 (length data') ++ data' in
          decode_string huffman (written ++ src) ≡ some (s, length written))
  framed coded data' s src short e = rw append_assoc (
      headed coded _ (length data') (length written)
        (append_int-Starts (flag_of coded) 7 (length data') (data' ++ src) (omega arith)
          (omega arith))
        (decode_int-append_int (flag_of coded) 7 (length data') (data' ++ src) (Clear-flag_of coded)
          (omega (arith, short)))
      ∙ string_data_read coded written data' s src short e)
    where
      written : List ℕ
      written = append_int (flag_of coded) 7 (length data')

  pub decode_string-append_string :
      (s src : List ℕ)
      → Lossless huffman
      → Short s
      → decode_string huffman (append_string huffman s ++ src)
        ≡ some (s, length (append_string huffman s))
  unfolding append_string flag_of
  decode_string-append_string s src lossless (octets, short) =
      elim (Bool-cases (ltb (huffman.encoded_len s) (length s))) [
        | inl shorter ↦
            rw (shorter, sym (lossless.length-encode s))
              (framed true (huffman.encode s) s src
                (ground (arith, short, lossless.length-encode s)) (lossless.decode-encode s octets))
        | inr longer ↦ rw longer (framed false s s src short refl)
      ]

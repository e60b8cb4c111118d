-- ===== src/Hpack/Integer.antt =====
-- internal/hpack/primitives.go: integers and strings of header blocks. A `uint64` is a natural number,
-- and no sum here passes 64 bits; `wrap` makes the one error there is, which is `none`.
pub mod RoundTrip
use zerodeps_hackk.Base.{
  ℕ, zero, suc, ◌+◌, ◌-◌, ◌*◌, ◌/◌, ◌%◌, ◌^◌, Bool, true, false, ltb, leb, if◌then◌else◌, List, [],
  ◌∷◌, ◌++◌, Option, none, some, length, take, drop,
}

abbrev pub max_continuation_bytes : ℕ
max_continuation_bytes = 5

abbrev pub max_int_value : ℕ
max_int_value = 2 ^ 32

abbrev pub max_string_len : ℕ
max_string_len = 2 ^ 24

-- `for i >= 128`, on as many rounds as the first argument says, and the last octet.
unfoldable pub append_rest : ℕ → ℕ → List ℕ
append_rest zero i = i % 256 ∷ []
append_rest (suc k) i =
    let rest = append_rest k (i / 128) in if ltb i 128 then i % 256 ∷ [] else (i % 128 + 128) ∷ rest

-- A uint64 has at most ten groups of seven bits.
abbrev pub rounds : ℕ
rounds = 10

-- What is appended to `dst`. The low `n` bits of `flags` are clear, so `|` is a sum.
unfoldable pub append_int : ℕ → ℕ → ℕ → List ℕ
unfolding append_rest
append_int flags n i =
    let max = 2 ^ n - 1 in
    if ltb i max then (flags + i % 256) ∷ [] else (flags + max % 256) ∷ append_rest rounds (i - max)

-- The octets behind the first, after `count` of them, so that `shift` is 7 · count: the value, and how many were consumed.
unfoldable pub decode_rest : List ℕ → ℕ → ℕ → Option (ℕ × ℕ)
decode_rest [] count value = none
decode_rest (b ∷ src) count value =
    let sum = value + (b % 128) * 128 ^ count in
    let rest = decode_rest src (suc count) sum in
    if leb max_continuation_bytes count
    then none
    else if ltb max_int_value sum
    then none
    else if ltb (b % 256) 128
    then some (sum, suc (suc count))
    else rest

unfoldable pub decode_int : List ℕ → ℕ → Option (ℕ × ℕ)
unfolding decode_rest
decode_int [] n = none
decode_int (b ∷ src) n =
    let max = 2 ^ n - 1 in
    let v = b % 2 ^ n in let rest = decode_rest src 0 max in if ltb v max then some (v, 1) else rest

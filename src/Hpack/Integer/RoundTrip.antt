-- ===== src/Hpack/Integer/RoundTrip.antt =====
-- Integers of internal/hpack/primitives.go, written and read.
use zerodeps_hackk.Base.{
  ℕ, zero, suc, ◌+◌, ◌-◌, ◌*◌, ◌/◌, ◌%◌, ◌^◌, ◌≤◌, ◌<◌, ◌≡◌, refl, ap, ◌∙◌, false, ltb, Bool-cases,
  inl, inr, List, ◌∷◌, ◌++◌, some, length, arith,
}
use native.Mathlib.Nat.{add-mul, mul_assoc}
use zerodeps_hackk.Hpack.Integer.{
  max_int_value, append_rest, rounds, append_int, decode_rest, decode_int,
}

pairs : {a b c d : ℕ} → a ≡ b → c ≡ d → Path (ℕ × ℕ) (a, c) (b, d)
pairs e f = cc

-- One group of seven bits and the rest of the number, at the group's weight.
seven_bits : (i w : ℕ) → i * w ≡ (i % 128) * w + (i / 128) * (128 * w)
seven_bits i w =
    ap (λ z. z * w) (omega arith)
    ∙ add-mul (i % 128) (i / 128 * 128) w
    ∙ ap (λ z. (i % 128) * w + z) (mul_assoc (i / 128) 128 w)

-- A group that more follow is not the last that may be read.
few_groups : (i count : ℕ) → count ≤ 4 → 128 ≤ i → i * 128 ^ count ≤ max_int_value → suc count ≤ 4
few_groups i zero few more fits = omega arith
few_groups i (suc zero) few more fits = omega arith
few_groups i (suc (suc zero)) few more fits = omega arith
few_groups i (suc (suc (suc zero))) few more fits = omega arith
few_groups i (suc (suc (suc (suc zero)))) few more fits = absurd (omega arith)
few_groups i (suc (suc (suc (suc (suc count))))) few more fits = absurd (omega arith)

below_rest : (i k : ℕ) → i < 128 ^ suc (suc k) → i / 128 < 128 ^ suc k
below_rest i k h = omega (arith, h)

decode_rest_last :
    (b count value : ℕ) (src : List ℕ)
    → count ≤ 4
    → b < 128
    → value + b * 128 ^ count ≤ max_int_value
    → decode_rest (b ∷ src) count value ≡ some (value + b * 128 ^ count, suc (suc count))
unfolding decode_rest
decode_rest_last b count value src few small fits = rw same (ground arith)
  where
    same : b % 128 ≡ b
    same = omega arith

decode_rest_more :
    (b count value : ℕ) (src : List ℕ)
    → count ≤ 4
    → b < 128
    → value + b * 128 ^ count ≤ max_int_value
    → decode_rest ((b + 128) ∷ src) count value
      ≡ decode_rest src (suc count) (value + b * 128 ^ count)
unfolding decode_rest
decode_rest_more b count value src few small fits = rw same (ground arith)
  where
    same : (b + 128) % 128 ≡ b
    same = omega arith

-- With `k` rounds left and `i` below 128 ^ (k + 1), the groups of `i` behind `count` others are read
-- back.
decode_rest-append_rest :
    (k i count value : ℕ) (src : List ℕ)
    → count ≤ 4
    → i < 128 ^ suc k
    → value + i * 128 ^ count ≤ max_int_value
    → decode_rest (append_rest k i ++ src) count value
      ≡ some (value + i * 128 ^ count, count + suc (length (append_rest k i)))
unfolding append_rest
decode_rest-append_rest zero i count value src few below fits = rw same (
    decode_rest_last i count value src few (omega arith) fits
    ∙ ap some (ap (λ n. (value + i * 128 ^ count, n)) (omega arith)))
  where
    same : i % 256 ≡ i
    same = omega arith
decode_rest-append_rest (suc k) i count value src few below fits = elim (Bool-cases (ltb i 128)) [
  | inl less ↦
      rw (less, same (ground arith))
        (decode_rest_last i count value src few (ground arith) fits
          ∙ ap (λ n. some (value + i * 128 ^ count, n)) (omega arith))
  | inr more ↦ rw more (
      decode_rest_more (i % 128) count value (append_rest k (i / 128) ++ src) few (omega arith)
        (omega (arith, fits, parts))
      ∙ decode_rest-append_rest k (i / 128) (suc count) (value + (i % 128) * 128 ^ count) src
          (few_groups i count few (ground arith) (omega (arith, fits))) (below_rest i k below)
          (omega (arith, fits, parts))
      ∙ ap some (pairs (omega (arith, parts)) (omega arith)))
]
  where
    same : i < 128 → i % 256 ≡ i
    same h = omega (arith, h)

    parts : i * 128 ^ count ≡ (i % 128) * 128 ^ count + (i / 128) * 128 ^ suc count
    parts =
        seven_bits i (128 ^ count) ∙ ap (λ w. (i % 128) * 128 ^ count + (i / 128) * w) (omega arith)

-- The low `n` bits of the flags are clear, beside which the prefix stands.
pub record Clear (flags n : ℕ) : Type 0 where
  pub low : (j : ℕ) → j < 2 ^ n → (flags + j) % 2 ^ n ≡ j
  pub some_bits : 2 ≤ 2 ^ n
  pub one_octet : 2 ^ n ≤ 256

pub decode_int-append_int :
    (flags n i : ℕ) (src : List ℕ)
    → Clear flags n
    → i ≤ max_int_value
    → decode_int (append_int flags n i ++ src) n ≡ some (i, length (append_int flags n i))
unfolding append_int decode_int
decode_int-append_int flags n i src clear fits = elim (Bool-cases (ltb i (2 ^ n - 1))) [
  | inl short ↦
      rw (short, octet i (ground (arith, clear.one_octet)), clear.low i (ground arith))
        (rw short refl)
  | inr long ↦
      rw
        (
          long,
          octet (2 ^ n - 1) (omega (arith, clear.one_octet)),
          clear.low (2 ^ n - 1) (omega (arith, clear.some_bits)),
        )
        (rw irrefl (
          decode_rest-append_rest rounds (i - (2 ^ n - 1)) 0 (2 ^ n - 1) src (omega arith)
            (omega (arith, fits)) (ground (arith, fits))
          ∙ ap some (pairs (ground arith) (omega arith))))
]
  where
    octet : (j : ℕ) → j < 256 → j % 256 ≡ j
    octet j h = omega (arith, h)

    irrefl : ltb (2 ^ n - 1) (2 ^ n - 1) ≡ false
    irrefl = ground arith

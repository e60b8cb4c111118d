-- ===== src/Frame/Wire.antt =====
-- Octets on the wire, as internal/frame reads and writes them with encoding/binary and slices. A
-- slice or an index out of range makes Go panic; here that is `none` or `crashed`.
use zerodeps_hackk.Base.{
  ℕ, ◌+◌, ◌*◌, ◌/◌, ◌%◌, ◌^◌, ◌<◌, ◌≡◌, leb, ◌&&◌, if◌then◌else◌, List, ◌∷◌, Option, none, some,
  length, take, drop, arith,
}
use zerodeps_hackk.H2.{Error}

-- What a parser returns: a value, an error, or a panic.
pub data Parsed {ℓ} (A : Type ℓ) : Type ℓ where
  parsed : A → Parsed A
  refused : Error → Parsed A
  crashed : Parsed A

-- A parser that goes on with what another returned, and one that goes on with what it indexed.
infixl 5 ◌>>◌ ◌>?◌
abbrev pub ◌>>◌ {ℓ κ} : {A : Type ℓ} {B : Type κ} → Parsed A → (A → Parsed B) → Parsed B
parsed a >> f = f a
refused e >> f = refused e
crashed >> f = crashed

abbrev pub ◌>?◌ {ℓ κ} : {A : Type ℓ} {B : Type κ} → Option A → (A → Parsed B) → Parsed B
some a >? f = f a
none >? f = crashed

-- `xs[i:j]`
abbrev pub slice {ℓ} : {A : Type ℓ} → ℕ → ℕ → List A → Option (List A)
slice i j xs = if leb i j && leb j (length xs) then some (drop i (take j xs)) else none

abbrev pub byte : ℕ → ℕ
byte n = n % 2 ^ 8

-- `x & streamIDMask`, that is x & (1<<31 - 1)
abbrev pub mask_stream_id : ℕ → ℕ
mask_stream_id n = n % 2 ^ 31

abbrev pub append_uint16 : ℕ → List ℕ → List ℕ
append_uint16 n rest = byte (n / 2 ^ 8) ∷ byte n ∷ rest

abbrev pub append_uint32 : ℕ → List ℕ → List ℕ
append_uint32 n rest = byte (n / 2 ^ 24) ∷ byte (n / 2 ^ 16) ∷ byte (n / 2 ^ 8) ∷ byte n ∷ rest

-- `binary.BigEndian.Uint16(b)` and `Uint32(b)`
abbrev pub uint16 : List ℕ → Option ℕ
uint16 (a ∷ b ∷ bs) = some (a * 2 ^ 8 + b)
uint16 _ = none

abbrev pub uint32 : List ℕ → Option ℕ
uint32 (a ∷ b ∷ c ∷ d ∷ bs) = some (a * 2 ^ 24 + b * 2 ^ 16 + c * 2 ^ 8 + d)
uint32 _ = none

pub uint16-append : (n : ℕ) (bs : List ℕ) → n < 2 ^ 16 → uint16 (append_uint16 n bs) ≡ some n
uint16-append n bs lt = ground arith

pub uint32-append : (n : ℕ) (bs : List ℕ) → n < 2 ^ 32 → uint32 (append_uint32 n bs) ≡ some n
uint32-append n bs lt = ground arith

-- ===== src/Base/Octets.antt =====
-- Octets, and Go's `==` on strings, which are lists of them.
use Prim.Native.Nat.{ℕ, zero, suc, ◌<◌, ◌^◌}
use mathlib.Core.Path.{◌≡◌, refl, ap, ◌∙◌}
use mathlib.Core.Bool.{Bool, true, false, ◌&&◌}
use mathlib.Core.List.{List, [], ◌∷◌}
use native.Mathlib.Omega.{arith}
use zerodeps_hackk.Base.Lists.{All, take, drop}
use zerodeps_hackk.Base.Tests.{◌==◌}

abbrev pub IsOctets : List ℕ → Type 0
IsOctets = All (λ b. b < 2 ^ 8)

pub IsOctets-take : (n : ℕ) (xs : List ℕ) → IsOctets xs → IsOctets (take n xs)
IsOctets-take zero xs v = tt
IsOctets-take (suc n) [] v = tt
IsOctets-take (suc n) (x ∷ xs) (v, vs) = (v, IsOctets-take n xs vs)

pub IsOctets-drop : (n : ℕ) (xs : List ℕ) → IsOctets xs → IsOctets (drop n xs)
IsOctets-drop zero xs v = v
IsOctets-drop (suc n) [] v = tt
IsOctets-drop (suc n) (x ∷ xs) (v, vs) = IsOctets-drop n xs vs

abbrev pub eq_octets : List ℕ → List ℕ → Bool
eq_octets [] [] = true
eq_octets (a ∷ xs) (b ∷ ys) = a == b && eq_octets xs ys
eq_octets _ _ = false

pub eq_octets_same : (xs ys : List ℕ) → eq_octets xs ys ≡ true → xs ≡ ys
eq_octets_same [] [] e = refl
eq_octets_same [] (y ∷ ys) e = cc
eq_octets_same (x ∷ xs) [] e = cc
eq_octets_same (x ∷ xs) (y ∷ ys) e =
    ap (λ z. z ∷ xs) (ground arith) ∙ ap (◌∷◌ y) (eq_octets_same xs ys (ground arith))

pub eq_octets_refl : (xs : List ℕ) → eq_octets xs xs ≡ true
eq_octets_refl [] = refl
eq_octets_refl (x ∷ xs) = ground (arith, eq_octets_refl xs)

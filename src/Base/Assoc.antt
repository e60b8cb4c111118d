-- ===== src/Base/Assoc.antt =====
-- Go's `map[uint32]V` as an association list with one entry for a key.
use Prim.Native.Nat.{ℕ, suc, ◌≤◌}
use mathlib.Core.Path.{◌≡◌, refl}
use mathlib.Core.Option.{Option, none, some}
use mathlib.Core.List.{List, [], ◌∷◌}
use native.Mathlib.Omega.{arith}
use zerodeps_hackk.Base.Tests.{◌==◌, if◌then◌else◌}
use zerodeps_hackk.Base.Lists.{length}

abbrev pub Assoc {ℓ} : Type ℓ → Type ℓ
Assoc V = List (ℕ × V)

module _ {ℓ} {V : Type ℓ} where
  -- `delete(m, k)`.
  unfoldable pub delete : ℕ → Assoc V → Assoc V
  delete gone [] = []
  delete gone ((key, at_key) ∷ rest) =
      if key == gone then delete gone rest else (key, at_key) ∷ delete gone rest

  -- `m[k] = v`, in the place that the key has or at the end.
  unfoldable pub insert : ℕ → V → Assoc V → Assoc V
  insert new at_new [] = (new, at_new) ∷ []
  insert new at_new ((key, at_key) ∷ rest) =
      if key == new then (new, at_new) ∷ rest else (key, at_key) ∷ insert new at_new rest

  unfoldable pub lookup : ℕ → Assoc V → Option V
  lookup wanted [] = none
  lookup wanted ((key, at_key) ∷ rest) = if key == wanted then some at_key else lookup wanted rest

  pub lookup-delete :
      (gone wanted : ℕ) (entries : Assoc V)
      → lookup wanted (delete gone entries)
        ≡ (if gone == wanted then none else lookup wanted entries)
  unfolding lookup delete
  lookup-delete gone wanted [] = ground arith
  lookup-delete gone wanted ((key, at_key) ∷ rest) = ground (arith, lookup-delete gone wanted rest)

  pub lookup-insert :
      (new wanted : ℕ) (at_new : V) (entries : Assoc V)
      → lookup wanted (insert new at_new entries)
        ≡ (if new == wanted then some at_new else lookup wanted entries)
  unfolding lookup insert
  lookup-insert new wanted at_new [] = refl
  lookup-insert new wanted at_new ((key, at_key) ∷ rest) =
      ground (arith, lookup-insert new wanted at_new rest)

  pub length-delete : (gone : ℕ) (entries : Assoc V) → length (delete gone entries) ≤ length entries
  unfolding delete
  length-delete gone [] = omega arith
  length-delete gone ((key, at_key) ∷ rest) = ground (arith, length-delete gone rest)

  pub length-insert :
      (new : ℕ) (at_new : V) (entries : Assoc V)
      → length (insert new at_new entries) ≤ suc (length entries)
  unfolding insert
  length-insert new at_new [] = omega arith
  length-insert new at_new ((key, at_key) ∷ rest) = ground (arith, length-insert new at_new rest)

  -- An update of a key that is there adds no entry.
  pub length-insert_present :
      (new : ℕ) (at_new old : V) (entries : Assoc V)
      → lookup new entries ≡ some old
      → length (insert new at_new entries) ≡ length entries
  unfolding lookup insert
  length-insert_present new at_new old [] h = ground arith
  length-insert_present new at_new old ((key, at_key) ∷ rest) h =
      ground (arith, length-insert_present new at_new old rest)

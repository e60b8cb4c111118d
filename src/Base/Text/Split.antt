-- ===== src/Base/Text/Split.antt =====
-- Splitting a text at an octet, and joining the parts again.
use Prim.Native.Nat.{ℕ}
use mathlib.Core.Path.{◌≡◌, refl, ap, ◌∙◌}
use mathlib.Core.Logic.{◌≢◌}
use mathlib.Core.List.{List, [], ◌∷◌, ◌++◌, append-nil}
use native.Mathlib.Omega.{arith}
use zerodeps_hackk.Base.Lists.{All}
use zerodeps_hackk.Base.Text.{split, join}

abbrev pub Lacks : ℕ → List ℕ → Type 0
Lacks c = All (λ x. x ≢ c)

split_at : (c : ℕ) (s : List ℕ) → split (c ∷ s) c ≡ [] ∷ split s c
unfolding split
split_at c s = ground arith

split_past :
    (c x : ℕ) (s p : List ℕ) (ps : List (List ℕ))
    → x ≢ c
    → split s c ≡ p ∷ ps
    → split (x ∷ s) c ≡ (x ∷ p) ∷ ps
unfolding split
split_past c x s p ps h e = rw e (ground arith)

split-append :
    (c : ℕ) (p s q : List ℕ) (qs : List (List ℕ))
    → Lacks c p
    → split s c ≡ q ∷ qs
    → split (p ++ s) c ≡ (p ++ q) ∷ qs
split-append c [] s q qs h e = e
split-append c (x ∷ p) s q qs (h, k) e =
    split_past c x (p ++ s) (p ++ q) qs h (split-append c p s q qs k e)

split_lacking : (c : ℕ) (p : List ℕ) → Lacks c p → split p c ≡ p ∷ []
unfolding split
split_lacking c [] h = refl
split_lacking c (x ∷ p) (h, k) = split_past c x p p [] h (split_lacking c p k)

pub split-join :
    (c : ℕ) (p : List ℕ) (ps : List (List ℕ))
    → All (Lacks c) (p ∷ ps)
    → split (join (p ∷ ps) c) c ≡ p ∷ ps
unfolding join
split-join c p [] (h, k) = split_lacking c p h
split-join c p (q ∷ ps) (h, k) =
    split-append c p (c ∷ join (q ∷ ps) c) [] (q ∷ ps) h
      (split_at c (join (q ∷ ps) c) ∙ ap (◌∷◌ []) (split-join c q ps k))
    ∙ ap (λ z. z ∷ q ∷ ps) (append-nil p)

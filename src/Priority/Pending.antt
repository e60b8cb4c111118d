-- ===== src/Priority/Pending.antt =====
-- internal/priority/pending.go: priorities of streams that are not open yet.
pub mod Ahead
use zerodeps_hackk.Base.{
  ℕ, suc, Bool, ltb, if◌then◌else◌, [], ◌∷◌, Option, none, some, is_some, length,
}
use zerodeps_hackk.Base.Assoc.{Assoc, lookup, insert, delete}

abbrev pub Pending : Type 0 → Type 0
Pending P = Assoc P

module _ {P : Type 0} where
  unfoldable pub put : Pending P → ℕ → P → Pending P
  put p id params = insert id params p

  unfoldable pub take : Pending P → ℕ → Pending P × Option P
  take p id = elim (lookup id p) [ some params ↦ (delete id p, some params) | none ↦ (p, none) ]

  unfoldable pub held : Pending P → ℕ → Bool
  held p id = is_some (lookup id p)

  abbrev pub len : Pending P → ℕ
  len p = length p

  -- What is left, and how many are gone.
  unfoldable pub prune : Pending P → ℕ → Pending P × ℕ
  prune [] below = ([], 0)
  prune ((id, params) ∷ p) below =
      let (rest, n) = prune p below in
      if ltb id below then (rest, suc n) else ((id, params) ∷ rest, n)

-- ===== src/Priority/Pending/Ahead.antt =====
-- Which streams the priorities of internal/priority/pending.go are for, and how many they are.
use zerodeps_hackk.Base.{
  ℕ, ◌≤◌, ◌<◌, ◌≡◌, ◌≢◌, refl, false, ◌==◌, ltb, leb, ◌+◌, not, ◌&&◌, Option-cases, Bool-cases, inl,
  inr, [], ◌∷◌, Option, none, some, length, All, arith,
}
use zerodeps_hackk.Base.Assoc.{
  lookup, insert, delete, length-delete, length-insert, length-insert_present,
}
use zerodeps_hackk.Priority.Pending.{Pending, put, take, held, prune}

module _ {P : Type 0} where
  -- All are of streams above that one.
  abbrev pub Ahead : ℕ → Pending P → Type 0
  Ahead last = All (λ e. last < e.0)

  abbrev Apart : ℕ → Pending P → Type 0
  Apart id = All (λ e. e.0 ≢ id)

  pub put-Ahead :
      (last id : ℕ) (params : P) (p : Pending P)
      → last < id
      → Ahead last p
      → Ahead last (put p id params)
  unfolding put insert
  put-Ahead last id params [] above h = (above, tt)
  put-Ahead last id params ((key, at_key) ∷ p) above (k, h) = elim (Bool-cases (key == id)) [
    | inl same ↦ rw same (above, h)
    | inr other ↦ rw other (k, put-Ahead last id params p above h)
  ]

  delete-Apart : (id : ℕ) (p : Pending P) → Apart id (delete id p)
  unfolding delete
  delete-Apart id [] = tt
  delete-Apart id ((key, at_key) ∷ p) = elim (Bool-cases (key == id)) [
    | inl same ↦ rw same (delete-Apart id p)
    | inr other ↦ rw other (ground arith, delete-Apart id p)
  ]

  lookup-Apart : (id : ℕ) (p : Pending P) → lookup id p ≡ none → Apart id p
  unfolding lookup
  lookup-Apart id [] e = tt
  lookup-Apart id ((key, at_key) ∷ p) e = (ground arith, lookup-Apart id p (ground arith))

  take-Apart : (id : ℕ) (p : Pending P) → Apart id (take p id).0
  unfolding take
  take-Apart id p = by_lookup (lookup id p) (lookup-Apart id p)
    where
      by_lookup :
          (o : Option P)
          → (o ≡ none → Apart id p)
          → (let r : Pending P × Option P = elim o [
            | some params ↦ (delete id p, some params)
            | none ↦ (p, none)
          ] in
              Apart id r.0)
      by_lookup none k = k refl
      by_lookup (some params) k = delete-Apart id p

  pub length-take : (id : ℕ) (p : Pending P) → length (take p id).0 ≤ length p
  unfolding take
  length-take id p = by_lookup (lookup id p)
    where
      by_lookup :
          (o : Option P)
          → (let r : Pending P × Option P = elim o [
            | some params ↦ (delete id p, some params)
            | none ↦ (p, none)
          ] in
              length r.0 ≤ length p)
      by_lookup none = omega arith
      by_lookup (some params) = length-delete id p

  pub prune-Ahead : (id : ℕ) (p : Pending P) → Apart id p → Ahead id (prune p id).0
  unfolding prune
  prune-Ahead id [] h = tt
  prune-Ahead id ((key, at_key) ∷ p) (k, h) = elim (Bool-cases (ltb key id)) [
    | inl below ↦ rw below (prune-Ahead id p h)
    | inr above ↦ rw above (ground arith, prune-Ahead id p h)
  ]

  pub length-prune : (id : ℕ) (p : Pending P) → length (prune p id).0 ≤ length p
  unfolding prune
  length-prune id [] = omega arith
  length-prune id ((key, at_key) ∷ p) = elim (Bool-cases (ltb key id)) [
    | inl below ↦ rw below (omega (arith, length-prune id p))
    | inr above ↦ rw above (omega (arith, length-prune id p))
  ]

  -- What is left when a stream is taken out and all below it are dropped.
  pub left-Ahead : (id : ℕ) (p : Pending P) → Ahead id (prune (take p id).0 id).0
  left-Ahead id p = prune-Ahead id (take p id).0 (take-Apart id p)

  -- A priority enters where its stream has one, or where there is room beside the others.
  pub put-few :
      (id : ℕ) (params : P) (p : Pending P) (others limit : ℕ)
      → length p ≤ limit
      → (not (held p id) && leb limit (length p + others)) ≡ false
      → length (put p id params) ≤ limit
  unfolding put held
  put-few id params p others limit few room = elim (Option-cases (lookup id p)) [
    | inl absent ↦ omega (arith, length-insert id params p, space absent)
    | inr (old, there) ↦ rw (length-insert_present id params old p there) few
  ]
    where
      space : lookup id p ≡ none → length p < limit
      space absent = ground (arith, (rw absent at room))

-- ===== src/Hpack/Dynamic/Eviction.antt =====
-- The size accounting of internal/hpack/dynamic.go, and which entries the table holds.
use zerodeps_hackk.Base.{
  ℕ, zero, suc, ◌+◌, ◌-◌, ◌≤◌, ◌<◌, ◌≡◌, refl, ap, ltb, if◌then◌else◌, List, [], ◌∷◌, length, take,
  arith, inl, inr, Bool-cases, length-take,
}
use zerodeps_hackk.H2.{Field}
use zerodeps_hackk.Hpack.Dynamic.{entry_size, last_size, evict}

-- The sum of the sizes of all entries.
abbrev pub total : List Field → ℕ
total [] = 0
total (e ∷ es) = entry_size e + total es

-- The longest run of the newest entries that fits: what RFC 7541 section 4 says that a table holds.
abbrev pub keep : ℕ → List Field → List Field
keep room [] = []
keep room (e ∷ es) =
    let rest = keep (room - entry_size e) es in if ltb room (entry_size e) then [] else e ∷ rest

keep_all : (room : ℕ) (es : List Field) → total es ≤ room → keep room es ≡ es
keep_all room [] fits = refl
keep_all room (e ∷ es) fits =
    ground (arith, keep_all (room - entry_size e) es (omega (arith, fits)))

-- Where not all fits, the last entry is not kept.
keep_but_last :
    (n room : ℕ) (es : List Field)
    → length es ≡ suc n
    → room < total es
    → keep room (take n es) ≡ keep room es
keep_but_last n room [] len over = absurd (omega (arith, len))
keep_but_last zero room (e ∷ []) len over = ground arith
keep_but_last zero room (e ∷ d ∷ es) len over = absurd (omega (arith, len))
keep_but_last (suc n) room (e ∷ es) len over = elim (Bool-cases (ltb room (entry_size e))) [
  | inl large ↦ rw large refl
  | inr small ↦ rw small (
      ap (◌∷◌ e)
        (keep_but_last n (room - entry_size e) es (omega (arith, len)) (ground (arith, over))))
]

total-take :
    (n : ℕ) (es : List Field) → length es ≡ suc n → total (take n es) + last_size es n ≡ total es
total-take n [] len = absurd (omega (arith, len))
total-take zero (e ∷ []) len = omega arith
total-take zero (e ∷ d ∷ es) len = absurd (omega (arith, len))
total-take (suc n) (e ∷ es) len = omega (arith, total-take n es (omega (arith, len)))

-- The loop leaves the longest run of entries that fits, and its size.
pub evict-keep :
    (n extra max : ℕ) (es : List Field)
    → length es ≡ n
    → extra ≤ max
    → evict n extra max es (total es) ≡ (keep (max - extra) es, total (keep (max - extra) es))
unfolding evict
evict-keep zero extra max [] len le = refl
evict-keep zero extra max (e ∷ es) len le = absurd (omega (arith, len))
evict-keep (suc n) extra max es len le = elim (Bool-cases (ltb max (total es + extra))) [
  | inl over ↦
      rw (over, size)
        (rw
          (
            evict-keep n extra max (take n es) shorter le,
            keep_but_last n (max - extra) es len (ground arith),
          )
          refl)
  | inr fits ↦ rw (fits, keep_all (max - extra) es (ground arith)) refl
]
  where
    size : total es - last_size es n ≡ total (take n es)
    size = omega (arith, total-take n es len)

    shorter : length (take n es) ≡ n
    shorter = omega (arith, length-take n es)

pub total-keep : (room : ℕ) (es : List Field) → total (keep room es) ≤ room
total-keep room [] = omega arith
total-keep room (e ∷ es) = ground (arith, total-keep (room - entry_size e) es)

-- ===== src/Hpack/Dynamic/Search.antt =====
-- The search of internal/hpack/dynamic.go for a field.
use zerodeps_hackk.Base.{
  eq_octets, eq_octets_same, ℕ, suc, ◌+◌, ◌≡◌, refl, Bool, true, false, ◌==◌, ◌&&◌, if◌then◌else◌,
  List, [], ◌∷◌, some, get_elem?, All, arith, inl, inr, Bool-cases, ap, ◌∙◌,
}
use zerodeps_hackk.H2.{Field}
use zerodeps_hackk.Hpack.Dynamic.{DynamicTable, find_from, find, get}

-- What `find` answers of the entries from index `i` on.
abbrev pub Found : List ℕ → List ℕ → List Field → ℕ → ℕ × Bool → Type 0
Found name value es i (k, true) =
    (j : ℕ) × (f : Field) × (k ≡ suc (i + j))
    × (get_elem? es j ≡ some f)
    × (eq_octets f.name name ≡ true)
    × (eq_octets f.value value ≡ true)
Found name value es i (k, false) =
    All (λ e. (eq_octets e.name name && eq_octets e.value value) ≡ false) es

find_from-Found :
    (name value : List ℕ) (es : List Field) (i offset : ℕ)
    → Found name value es i (find_from name value es i offset)
unfolding find_from
find_from-Found name value [] i offset = tt
find_from-Found name value (e ∷ es) i offset = elim (Bool-cases (eq_octets e.name name)) [
  | inr other ↦ rw other (
      later (find_from name value es (suc i) offset) (find_from-Found name value es (suc i) offset)
        (ground arith))
  | inl named ↦ elim (Bool-cases (eq_octets e.value value)) [
    | inl same ↦ rw (named, same) (0, e, omega arith, refl, named, same)
    | inr different ↦
        rw (named, different)
          (later (find_from name value es (suc i) (if offset == 0 then suc i else offset))
            (find_from-Found name value es (suc i) (if offset == 0 then suc i else offset))
            (ground arith))
  ]
]
  where
    later :
        (r : ℕ × Bool)
        → Found name value es (suc i) r
        → (eq_octets e.name name && eq_octets e.value value) ≡ false
        → Found name value (e ∷ es) i r
    later (k, true) (j, f, at, there, named, same) differs =
        (suc j, f, at ∙ omega arith, there, named, same)
    later (k, false) v differs = (differs, v)

-- What `find` answers of a table: the offset of a field of that name and value, or that there is
-- none.
abbrev pub FoundIn : DynamicTable → List ℕ → List ℕ → ℕ × Bool → Type 0
FoundIn dt name value (k, true) =
    (f : Field) × (get dt k ≡ some f) × (f.name ≡ name) × (f.value ≡ value)
FoundIn dt name value (k, false) =
    All (λ e. (eq_octets e.name name && eq_octets e.value value) ≡ false) dt.entries

-- `find` reports an exact match only where there is one, at an offset where `get` returns the field
-- itself; and where it reports none, no entry has that name and that value.
pub find-FoundIn :
    (dt : DynamicTable) (name value : List ℕ) → FoundIn dt name value (find dt name value)
unfolding find get
find-FoundIn dt name value =
    go (find_from name value dt.entries 0 0) (find_from-Found name value dt.entries 0 0)
  where
    next : {k j : ℕ} → k ≡ suc (0 + j) → k ≡ suc j
    next e = omega (arith, e)

    go : (r : ℕ × Bool) → Found name value dt.entries 0 r → FoundIn dt name value r
    go (k, true) (j, f, at, there, named, same) = (
      f,
      ap (get dt) (next at) ∙ there,
      eq_octets_same f.name name named,
      eq_octets_same f.value value same,
    )
    go (k, false) v = v

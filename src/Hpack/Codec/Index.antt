-- ===== src/Hpack/Codec/Index.antt =====
-- The indices that the encoder of internal/hpack picks, and the fields that the decoder finds there.
use zerodeps_hackk.Base.{
  ℕ, zero, suc, ◌+◌, ◌-◌, ◌≤◌, ◌<◌, ◌≡◌, refl, sym, subst, ◌⊎◌, inl, inr, true, false, ltb, leb,
  Bool-cases, eq_octets, eq_octets_same, if◌then◌else◌, List, [], ◌∷◌, Option, none, some, length,
  get_elem?, arith,
}
use zerodeps_hackk.H2.{Field}
use zerodeps_hackk.Hpack.Dynamic.{DynamicTable, get, find_name, find_name_from}
use zerodeps_hackk.Hpack.Static.{static_table, static_name_index, name_index_from}
use zerodeps_hackk.Hpack.Codec.{lookup_indexed, find_name_index}

-- No field, or the place of one of that name.
abbrev Named : List ℕ → List Field → ℕ → ℕ → Type 0
Named name es i k =
    (k ≡ 0)
    ⊎ ((j : ℕ) × (f : Field) × (k ≡ suc (i + j)) × (get_elem? es j ≡ some f) × (f.name ≡ name))

Named-cons :
    (name : List ℕ) (e : Field) (es : List Field) (i k : ℕ)
    → Named name es (suc i) k
    → Named name (e ∷ es) i k
Named-cons name e es i k (inl nothing) = inl nothing
Named-cons name e es i k (inr (j, f, at, there, named)) =
    inr (suc j, f, omega (arith, at), there, named)

find_name_from-Named :
    (name : List ℕ) (es : List Field) (i : ℕ) → Named name es i (find_name_from name es i)
unfolding find_name_from
find_name_from-Named name [] i = inl refl
find_name_from-Named name (e ∷ es) i = elim (Bool-cases (eq_octets e.name name)) [
  | inl same ↦ rw same (inr (0, e, omega arith, refl, eq_octets_same e.name name same))
  | inr other ↦ rw other (Named-cons name e es i _ (find_name_from-Named name es (suc i)))
]

name_index_from_same :
    (name : List ℕ) (es : List Field) (i : ℕ) → name_index_from name es i ≡ find_name_from name es i
unfolding name_index_from find_name_from
name_index_from_same name [] i = refl
name_index_from_same name (e ∷ es) i = rw (name_index_from_same name es (suc i)) refl

pub get_elem-lt : (es : List Field) (j : ℕ) (f : Field) → get_elem? es j ≡ some f → j < length es
get_elem-lt [] j f e = absurd (cc)
get_elem-lt (x ∷ es) zero f e = omega arith
get_elem-lt (x ∷ es) (suc j) f e = omega (arith, get_elem-lt es j f e)

pub length-static_table : length static_table ≡ 61
unfolding static_table
length-static_table = refl

pub lookup_static :
    (dt : DynamicTable) (j : ℕ) (f : Field)
    → get_elem? static_table j ≡ some f
    → lookup_indexed dt (suc j) ≡ some f
unfolding lookup_indexed
lookup_static dt j f e = rw within e
  where
    within : leb (suc j) (length static_table) ≡ true
    within = ground (arith, get_elem-lt static_table j f e)

lookup_above :
    (dt : DynamicTable) (i j : ℕ) (f : Field)
    → i ≡ length static_table + j
    → get dt (suc j) ≡ some f
    → lookup_indexed dt (suc i) ≡ some f
unfolding lookup_indexed
lookup_above dt i j f at e = rw (above, offset) e
  where
    above : leb (suc i) (length static_table) ≡ false
    above = ground (arith, at)

    offset : suc i - length static_table ≡ suc j
    offset = omega (arith, at)

pub lookup_dynamic :
    (dt : DynamicTable) (j : ℕ) (f : Field)
    → get dt (suc j) ≡ some f
    → lookup_indexed dt (length static_table + suc j) ≡ some f
lookup_dynamic dt j f e =
    subst (λ i. lookup_indexed dt i ≡ some f) (omega arith)
      (lookup_above dt (length static_table + j) j f refl e)

-- An index behind which a field of that name stands.
pub record Points (dt : DynamicTable) (name : List ℕ) (i : ℕ) : Type 0 where
  pub field : Field
  pub looked_up : lookup_indexed dt i ≡ some field
  pub named : field.name ≡ name
  pub positive : 0 < i
  pub bounded : i ≤ 61 + length dt.entries

at_static :
    (dt : DynamicTable) (name : List ℕ) (k : ℕ)
    → Named name static_table 0 k
    → 0 < k
    → Points dt name k
at_static dt name k (inl nothing) pos = absurd (omega (arith, nothing))
at_static dt name k (inr (j, f, at, there, named)) pos =
    subst (Points dt name) (omega (arith, at)) (record {
      field = f;
      looked_up = lookup_static dt j f there;
      named = named;
      positive = omega arith;
      bounded = omega (arith, get_elem-lt static_table j f there, length-static_table);
    })

at_dynamic :
    (dt : DynamicTable) (name : List ℕ) (k : ℕ)
    → Named name dt.entries 0 k
    → 0 < k
    → Points dt name (length static_table + k)
unfolding get
at_dynamic dt name k (inl nothing) pos = absurd (omega (arith, nothing))
at_dynamic dt name k (inr (j, f, at, there, named)) pos =
    subst (λ i. Points dt name (length static_table + i)) (omega (arith, at))
      (record {
        field = f;
        looked_up = lookup_dynamic dt j f there;
        named = named;
        positive = omega arith;
        bounded = omega (arith, get_elem-lt dt.entries j f there, length-static_table);
      })

abbrev pub MayPoint : DynamicTable → List ℕ → Option ℕ → Type 0
MayPoint dt name none = Unit {0}
MayPoint dt name (some i) = Points dt name i

-- A name's index, if there is one, is that of a field of that name.
pub find_name_index-Points :
    (dt : DynamicTable) (name : List ℕ) → MayPoint dt name (find_name_index dt name)
unfolding find_name_index static_name_index find_name
find_name_index-Points dt name =
    chosen (static_name_index name) (find_name dt name)
      (subst (Named name static_table 0) (sym (name_index_from_same name static_table 0))
        (find_name_from-Named name static_table 0))
      (find_name_from-Named name dt.entries 0)
  where
    chosen :
        (i k : ℕ)
        → Named name static_table 0 i
        → Named name dt.entries 0 k
        → MayPoint dt name
            (if ltb 0 i then some i else if ltb 0 k then some (length static_table + k) else none)
    chosen i k fixed moving = elim (Bool-cases (ltb 0 i)) [
      | inl here ↦ rw here (at_static dt name i fixed (ground arith))
      | inr absent ↦ rw absent (elim (Bool-cases (ltb 0 k)) [
        | inl there ↦ rw there (at_dynamic dt name k moving (ground arith))
        | inr nowhere ↦ rw nowhere tt
      ])
    ]

-- ===== src/Hpack/Codec/Exact.antt =====
-- The indices of whole fields that the encoder of internal/hpack picks.
use zerodeps_hackk.Base.{
  ℕ, zero, suc, ◌+◌, ◌≤◌, ◌<◌, ◌≡◌, refl, subst, inl, inr, Bool, true, false, ◌&&◌, not, Bool-cases,
  eq_octets, eq_octets_same, if◌then◌else◌, List, [], ◌∷◌, Option, none, some, length, get_elem?,
  All, arith,
}
use zerodeps_hackk.H2.{Field}
use zerodeps_hackk.Hpack.Dynamic.{DynamicTable, get, find}
use zerodeps_hackk.Hpack.Dynamic.Search.{FoundIn, find-FoundIn}
use zerodeps_hackk.Hpack.Static.{static_table}
use zerodeps_hackk.Hpack.Codec.{lookup_indexed, find_static, find_exact}
use zerodeps_hackk.Hpack.Codec.Index.{
  get_elem-lt, length-static_table, lookup_static, lookup_dynamic,
}

-- No entry is one that must never be indexed.
abbrev pub Plain : List Field → Type 0
Plain = All (λ e. e.sensitive ≡ false)

abbrev pub plain_field : List ℕ → List ℕ → Field
plain_field name value = record { name = name; value = value; sensitive = false }

-- The index of that field.
pub record Holds (dt : DynamicTable) (name value : List ℕ) (i : ℕ) : Type 0 where
  pub looked_up : lookup_indexed dt i ≡ some (plain_field name value)
  pub positive : 0 < i
  pub bounded : i ≤ 61 + length dt.entries

Plain-get :
    (es : List Field) (j : ℕ) (f : Field) → Plain es → get_elem? es j ≡ some f → f.sensitive ≡ false
Plain-get [] j f h e = absurd (cc)
Plain-get (x ∷ es) zero f (p, h) e = cc
Plain-get (x ∷ es) (suc j) f (p, h) e = Plain-get es j f h e

all_plain : List Field → Bool
all_plain [] = true
all_plain (e ∷ es) = not e.sensitive && all_plain es

all_plain-Plain : (es : List Field) → all_plain es ≡ true → Plain es
unfolding all_plain
all_plain-Plain [] h = tt
all_plain-Plain (e ∷ es) h = (ground arith, all_plain-Plain es (ground arith))

static_table-Plain : Plain static_table
unfolding static_table all_plain
static_table-Plain = all_plain-Plain static_table refl

-- The two fields agree in all parts.
same_field :
    (f : Field) (name value : List ℕ)
    → f.name ≡ name
    → f.value ≡ value
    → f.sensitive ≡ false
    → f ≡ plain_field name value
same_field f name value n v p i = record { name = n i; value = v i; sensitive = p i }

abbrev FoundStatic : List ℕ → List ℕ → List Field → ℕ → Option ℕ → Type 0
FoundStatic name value es i none = Unit {0}
FoundStatic name value es i (some k) =
    (j : ℕ) × (f : Field) × (k ≡ suc (i + j))
    × (get_elem? es j ≡ some f)
    × (f.name ≡ name)
    × (f.value ≡ value)

FoundStatic-cons :
    (name value : List ℕ) (e : Field) (es : List Field) (i : ℕ) (o : Option ℕ)
    → FoundStatic name value es (suc i) o
    → FoundStatic name value (e ∷ es) i o
FoundStatic-cons name value e es i none h = tt
FoundStatic-cons name value e es i (some k) (j, f, at, there, n, v) =
    (suc j, f, omega (arith, at), there, n, v)

find_static-FoundStatic :
    (name value : List ℕ) (es : List Field) (i : ℕ)
    → FoundStatic name value es i (find_static name value es i)
unfolding find_static
find_static-FoundStatic name value [] i = tt
find_static-FoundStatic name value (e ∷ es) i =
    elim (Bool-cases (eq_octets e.name name && eq_octets e.value value)) [
      | inl same ↦ rw same (
        0,
        e,
        omega arith,
        refl,
        eq_octets_same e.name name (ground arith),
        eq_octets_same e.value value (ground arith),
      )
      | inr other ↦
          rw other
            (FoundStatic-cons name value e es i _ (find_static-FoundStatic name value es (suc i)))
    ]

abbrev pub MayHold : DynamicTable → List ℕ → List ℕ → Option ℕ → Type 0
MayHold dt name value none = Unit {0}
MayHold dt name value (some i) = Holds dt name value i

-- The index that `findExact` answers, if it does, is that of the field itself.
pub find_exact-Holds :
    (dt : DynamicTable) (name value : List ℕ)
    → Plain dt.entries
    → MayHold dt name value (find_exact dt name value)
unfolding find_exact get
find_exact-Holds dt name value plain =
    chosen (find_static name value static_table 0) (find dt name value)
      (find_static-FoundStatic name value static_table 0) (find-FoundIn dt name value)
  where
    at_offset :
        (k : ℕ) (f : Field)
        → get dt k ≡ some f
        → f.name ≡ name
        → f.value ≡ value
        → Holds dt name value (length static_table + k)
    at_offset zero f there n v = absurd (cc)
    at_offset (suc j) f there n v = record {
      looked_up =
          subst (λ g. lookup_indexed dt (length static_table + suc j) ≡ some g)
            (same_field f name value n v (Plain-get dt.entries j f plain there))
            (lookup_dynamic dt j f there);
      positive = omega arith;
      bounded = omega (arith, get_elem-lt dt.entries j f there, length-static_table);
    }

    moving :
        (r : ℕ × Bool)
        → FoundIn dt name value r
        → MayHold dt name value (if r.1 then some (length static_table + r.0) else none)
    moving (k, false) h = tt
    moving (k, true) (f, there, n, v) = at_offset k f there n v

    chosen :
        (o : Option ℕ) (r : ℕ × Bool)
        → FoundStatic name value static_table 0 o
        → FoundIn dt name value r
        → MayHold dt name value (elim o [
          | some i ↦ some i
          | none ↦
              (let (off, exact) = r in if exact then some (length static_table + off) else none)
        ])
    chosen none r fixed found = moving r found
    chosen (some k) r (j, f, at, there, n, v) found =
        subst (Holds dt name value) (omega (arith, at)) (record {
          looked_up =
              subst (λ g. lookup_indexed dt (suc j) ≡ some g)
                (same_field f name value n v (Plain-get static_table j f static_table-Plain there))
                (lookup_static dt j f there);
          positive = omega arith;
          bounded = omega (arith, get_elem-lt static_table j f there, length-static_table);
        })

-- ===== src/Request/Parse/Gathering.antt =====
-- The fields that the loop of Parse in internal/request/request.go gathers.
use zerodeps_hackk.Base.{
  ◌<◌, ◌≡◌, refl, sym, ap, ◌∙◌, subst, ◌⊎◌, inl, inr, Bool, true, false, ◌&&◌, not, eq_octets,
  if◌then◌else◌, List, [], ◌∷◌, ◌++◌, append_assoc, append-nil, Option, none, some, is_some, length,
  All, All-snoc, arith,
}
use zerodeps_hackk.Base.Text.{codes}
use zerodeps_hackk.H2.{Field}
use zerodeps_hackk.Response.Fields.{value_octet, is_among}
use zerodeps_hackk.Response.Fields.Shape.{
  NameOctet, ValueOctet, all_octets-All, value_octet-ValueOctet, check_name-octets, both,
}
use zerodeps_hackk.Request.Fields.{check_field, check_regular, hop_fields, ascii_equal_fold}
use zerodeps_hackk.Request.Parse.{
  Gathered, pseudo, noted, keep, is_pseudo, gather, gather_all, validate_trailers,
}

-- A field that is not about the hop it came over, and whose name and value stay within their line.
pub record Carried (f : Field) : Type 0 where
  pub named : 0 < length f.name
  pub name_octets : All NameOctet f.name
  pub value_octets : All ValueOctet f.value
  pub no_hop : is_among f.name hop_fields ≡ false
  pub trailers_only : f.name ≡ codes "te" → ascii_equal_fold f.value (codes "trailers") ≡ true

-- The fields of a section that are no pseudo-header fields.
unfoldable pub regular_of : List Field → List Field
regular_of [] = []
regular_of (f ∷ fields) = let rest = regular_of fields in if is_pseudo f then rest else f ∷ rest

check_regular-Carried :
    (f : Field) → check_field f ≡ true → is_pseudo f ≡ false → check_regular f ≡ true → Carried f
unfolding check_field check_regular
check_regular-Carried f line plain regular = record {
  named = names.0;
  name_octets = names.1;
  value_octets =
      all_octets-All value_octet ValueOctet f.value value_octet-ValueOctet (ground arith);
  no_hop = ground arith;
  trailers_only = λ te. ground (arith, named_te te);
}
  where
    named_te : f.name ≡ codes "te" → eq_octets f.name (codes "te") ≡ true
    named_te te = rw te refl

    names : (0 < length f.name) × All NameOctet f.name
    names = check_name-octets f.name (ground arith) plain

-- What holds of both arms of a test.
arms {ℓ κ} : {X : Type ℓ} (P : X → Type κ) (b : Bool) (x y : X) → P x → P y → P (if b then x else y)
arms P true x y p q = p
arms P false x y p q = q

-- A step that leaves the regular fields alone, where it makes no error.
abbrev Leaves : Gathered → Option Gathered → Type 0
Leaves g o = (next : Gathered) → o ≡ some next → next.fields ≡ g.fields

none-Leaves : (g : Gathered) → Leaves g none
none-Leaves g next h = absurd (cc)

some-Leaves : (g g' : Gathered) → g'.fields ≡ g.fields → Leaves g (some g')
some-Leaves g g' e next h = sym (ap (λ o. elim o [ none ↦ g.fields | some n ↦ n.fields ]) h) ∙ e

once-Leaves :
    (g g' : Gathered) (b : Bool) → g'.fields ≡ g.fields → Leaves g (if b then none else some g')
once-Leaves g g' b e = arms (Leaves g) b none (some g') (none-Leaves g) (some-Leaves g g' e)

pseudo-Leaves : (g : Gathered) (f : Field) → Leaves g (pseudo g f)
unfolding pseudo
pseudo-Leaves g f =
    arms (Leaves g) (eq_octets f.name (codes ":method")) _ _
      (once-Leaves g (record g { method = some f.value }) (is_some g.method) refl)
      (arms (Leaves g) (eq_octets f.name (codes ":scheme")) _ _
        (once-Leaves g (record g { scheme = some f.value }) (is_some g.scheme) refl)
        (arms (Leaves g) (eq_octets f.name (codes ":authority")) _ _
          (once-Leaves g (record g { authority = some f.value }) (is_some g.authority) refl)
          (arms (Leaves g) (eq_octets f.name (codes ":path")) _ _
            (once-Leaves g (record g { path = some f.value }) (is_some g.path) refl)
            (none-Leaves g))))

noted-fields : (g : Gathered) (f : Field) → (noted g f).fields ≡ g.fields
unfolding noted
noted-fields g f =
    arms (λ (n : Gathered). n.fields ≡ g.fields) (eq_octets f.name (codes "content-length")) _ _
      refl
      (arms (λ (n : Gathered). n.fields ≡ g.fields) (eq_octets f.name (codes "host")) _ _ refl
        (arms (λ (n : Gathered). n.fields ≡ g.fields) (eq_octets f.name (codes "priority")) _ _ refl
          refl))

-- What a test that may be an error was, where there is no error.
pub past {ℓ} :
    {X : Type ℓ} (b : Bool) (o : Option X) (x : X)
    → (if b then none else o) ≡ some x
    → (b ≡ false) × (o ≡ some x)
past true o x h = absurd (cc)
past false o x h = (refl, h)

pub chosen {ℓ} :
    {X : Type ℓ} (b : Bool) (x y z : X)
    → (if b then x else y) ≡ z
    → ((b ≡ true) × (x ≡ z)) ⊎ ((b ≡ false) × (y ≡ z))
chosen true x y z h = inl (refl, h)
chosen false x y z h = inr (refl, h)

pub double_negation : (b : Bool) → not b ≡ false → b ≡ true
double_negation true h = refl
double_negation false h = sym h

gather-cases :
    (g next : Gathered) (f : Field)
    → gather g f ≡ some next
    → ((is_pseudo f ≡ true) × (next.fields ≡ g.fields))
      ⊎ ((is_pseudo f ≡ false) × (next.fields ≡ g.fields ++ f ∷ []) × Carried f)
unfolding gather
gather-cases g next f h =
    let (line, rest) =
      past (not (check_field f))
        (if is_pseudo f
          then (if g.regular then none else pseudo g f)
          else (if not (check_regular f) then none else some (keep (noted g f) f)))
        next h in
    elim (chosen (is_pseudo f) (if g.regular then none else pseudo g f)
      (if not (check_regular f) then none else some (keep (noted g f) f)) (some next) rest) [
        | inl (early, h1) ↦
            inl (early, pseudo-Leaves g f next (past g.regular (pseudo g f) next h1).1)
        | inr (plain, h2) ↦
            let (allowed, kept) =
              past (not (check_regular f)) (some (keep (noted g f) f)) next h2 in
            inr (
              plain,
              sym (ap (λ o. elim o [ none ↦ [] | some n ↦ n.fields ]) kept)
                  ∙ ap (λ fs. fs ++ f ∷ []) (noted-fields g f),
              check_regular-Carried f (double_negation (check_field f) line) plain
                  (double_negation (check_regular f) allowed),
            )
      ]

pub bound {ℓ κ} :
    {X : Type ℓ} {Y : Type κ} (o : Option X) (k : X → Option Y) (y : Y)
    → (elim o [ none ↦ none | some x ↦ k x ]) ≡ some y
    → (x : X) × (o ≡ some x) × (k x ≡ some y)
bound none k y h = absurd (cc)
bound (some x) k y h = (x, refl, h)

regular_of_pseudo :
    (f : Field) (fields : List Field)
    → is_pseudo f ≡ true
    → regular_of (f ∷ fields) ≡ regular_of fields
unfolding regular_of
regular_of_pseudo f fields h = rw h refl

regular_of_plain :
    (f : Field) (fields : List Field)
    → is_pseudo f ≡ false
    → regular_of (f ∷ fields) ≡ f ∷ regular_of fields
unfolding regular_of
regular_of_plain f fields h = rw h refl

-- The regular fields of the rest of a section are added behind those that are gathered.
pub gather_all-fields :
    (g last : Gathered) (fields : List Field)
    → gather_all g fields ≡ some last
    → All Carried g.fields
    → (last.fields ≡ g.fields ++ regular_of fields) × All Carried last.fields
unfolding gather_all regular_of
gather_all-fields g last [] h carried =
    (sym (same last h) ∙ sym (append-nil g.fields), subst (All Carried) (same last h) carried)
  where
    same : (last : Gathered) → some g ≡ some last → g.fields ≡ last.fields
    same last h = ap (λ o. elim o [ none ↦ [] | some n ↦ n.fields ]) h
gather_all-fields g last (f ∷ fields) h carried =
    let (next, taken, rest) = bound (gather g f) (λ next. gather_all next fields) last h in
    elim (gather-cases g next f taken) [
      | inl (early, same) ↦
          let (later, all) =
            gather_all-fields next last fields rest (subst (All Carried) (sym same) carried) in
          (
            later
                ∙ ap (λ fs. fs ++ regular_of fields) same
                ∙ ap (λ fs. g.fields ++ fs) (sym (regular_of_pseudo f fields early)),
            all,
          )
      | inr (plain, added, one) ↦
          let (later, all) =
            gather_all-fields next last fields rest
              (subst (All Carried) (sym added) (All-snoc Carried g.fields f carried one)) in
          (
            later
                ∙ ap (λ fs. fs ++ regular_of fields) added
                ∙ append_assoc g.fields (f ∷ []) (regular_of fields)
                ∙ ap (λ fs. g.fields ++ fs) (sym (regular_of_plain f fields plain)),
            all,
          )
    ]

-- A trailer section that is let through has no pseudo-header field, and each of its fields has a name and a
-- value that stay within their line and is not about the hop.
pub validate_trailers-Carried :
    (fields : List Field)
    → validate_trailers fields ≡ true
    → (regular_of fields ≡ fields) × All Carried fields
unfolding validate_trailers regular_of
validate_trailers-Carried [] h = (refl, tt)
validate_trailers-Carried (f ∷ fields) h =
    let (front, rest) = both (check_field f && not (is_pseudo f) && check_regular f) _ h in
    let (same, all) = validate_trailers-Carried fields rest in
    let plain : is_pseudo f ≡ false = ground (arith, front) in
    (
      regular_of_plain f fields plain ∙ ap (◌∷◌ f) same,
      (check_regular-Carried f (ground (arith, front)) plain (ground (arith, front)), all),
    )

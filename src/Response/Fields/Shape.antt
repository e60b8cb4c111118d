-- ===== src/Response/Fields/Shape.antt =====
-- The shape of the field sections that internal/response/fields.go lets through.
use zerodeps_hackk.Base.{
  ◌-◌, suc, subst, ℕ, ◌≤◌, ◌<◌, ◌≡◌, ◌≢◌, refl, ◌⊎◌, inl, inr, Bool, true, false, ◌&&◌, not, ◌==◌,
  eq_octets, eq_octets_same, if◌then◌else◌, Bool-cases, List, [], ◌∷◌, length, get_or, All, arith,
}
use zerodeps_hackk.Base.Text.{is_digit, is_blank}
use zerodeps_hackk.H2.{Field}
use zerodeps_hackk.Response.Fields.{
  check_ends, Section, section_header, section_trailer, is_header, pseudo_status, name_octet,
  value_octet, all_octets, check_name, check_field_line, is_among, connection_fields, check_regular,
  check_status, is_pseudo, check_fields, check_section,
}

-- A visible octet of ASCII that is no capital letter and no colon.
abbrev pub NameOctet : ℕ → Type 0
NameOctet c = (0x20 < c) × (c < 0x7f) × ((c < b'A') ⊎ (b'Z' < c)) × (c ≢ b':')

-- No octet that ends a line or a text.
abbrev pub ValueOctet : ℕ → Type 0
ValueOctet c = (c ≢ 0x00) × (c ≢ 0x0a) × (c ≢ 0x0d)

abbrev pub NotBlank : ℕ → Type 0
NotBlank c = (c ≢ 0x20) × (c ≢ 0x09)

-- A field that is not about the connection, and whose name and value stay within their line.
pub record Regular (f : Field) : Type 0 where
  pub named : 0 < length f.name
  pub name_octets : All NameOctet f.name
  pub value_octets : All ValueOctet f.value
  pub value_ends :
      0 < length f.value
      → NotBlank (get_or f.value 0 0) × NotBlank (get_or f.value (length f.value - 1) 0)
  pub no_connection : is_among f.name connection_fields ≡ false

abbrev pub DigitOctet : ℕ → Type 0
DigitOctet c = (b'0' ≤ c) × (c ≤ b'9')

-- Three digits, of a class from 1 to 5.
pub record Status (f : Field) : Type 0 where
  pub named : f.name ≡ pseudo_status
  pub three : length f.value ≡ 3
  pub digits : All DigitOctet f.value
  pub class_from : b'1' ≤ get_or f.value 0 0
  pub class_to : get_or f.value 0 0 ≤ b'5'

-- A header section is a status and regular fields behind it; a trailer section is regular fields.
unfoldable pub Shape : Section → List Field → Type 0
Shape section_header [] = ⊥
Shape section_header (f ∷ fields) = Status f × All Regular fields
Shape section_trailer fields = All Regular fields

pub all_octets-All :
    (ok : ℕ → Bool) (P : ℕ → Type 0) (s : List ℕ)
    → ((c : ℕ) → ok c ≡ true → P c)
    → all_octets ok s ≡ true
    → All P s
unfolding all_octets
all_octets-All ok P [] k h = tt
all_octets-All ok P (c ∷ s) k h = (k c (ground arith), all_octets-All ok P s k (ground arith))

name_octet-NameOctet : (c : ℕ) → name_octet c ≡ true → NameOctet c
name_octet-NameOctet c h = ground arith

pub value_octet-ValueOctet : (c : ℕ) → value_octet c ≡ true → ValueOctet c
value_octet-ValueOctet c h = ground arith

is_digit-DigitOctet : (c : ℕ) → is_digit c ≡ true → DigitOctet c
is_digit-DigitOctet c h = ground arith

second : (b x y : Bool) → b ≡ false → (if b then x else y) ≡ true → y ≡ true
second true x y e h = absurd (cc)
second false x y e h = h

first : (b x y : Bool) → b ≡ true → (if b then x else y) ≡ true → x ≡ true
first true x y e h = h
first false x y e h = absurd (cc)

pub both : (x y : Bool) → (x && y) ≡ true → (x ≡ true) × (y ≡ true)
both true true h = (refl, refl)
both true false h = absurd (cc)
both false y h = absurd (cc)

pub check_name-octets :
    (name : List ℕ)
    → check_name name ≡ true
    → (get_or name 0 0 == b':') ≡ false
    → (0 < length name) × All NameOctet name
unfolding check_name
check_name-octets [] h plain = absurd (cc)
check_name-octets (c ∷ s) h plain = (
  omega arith,
  all_octets-All name_octet NameOctet (c ∷ s) name_octet-NameOctet (second _ _ _ plain h),
)

check_ends-NotBlank :
    (s : List ℕ)
    → check_ends s ≡ true
    → 0 < length s
    → NotBlank (get_or s 0 0) × NotBlank (get_or s (length s - 1) 0)
unfolding check_ends
check_ends-NotBlank [] h positive = absurd (omega arith)
check_ends-NotBlank (c ∷ s) h positive =
    subst (λ n. NotBlank c × NotBlank (get_or (c ∷ s) n 0)) (before_last (length s)) (first_last h)
  where
    before_last : (n : ℕ) → n ≡ suc n - 1
    before_last n = omega arith

    first_last :
        (not (is_blank c) && not (is_blank (get_or (c ∷ s) (length s) 0))) ≡ true
        → NotBlank c × NotBlank (get_or (c ∷ s) (length s) 0)
    first_last h = ((ground arith, ground arith), (ground arith, ground arith))

check_regular-Regular :
    (f : Field)
    → check_field_line f ≡ true
    → is_pseudo f ≡ false
    → check_regular f ≡ true
    → Regular f
unfolding check_field_line check_regular
check_regular-Regular f line plain regular = record {
  named = names.0;
  name_octets = names.1;
  value_octets =
      all_octets-All value_octet ValueOctet f.value value_octet-ValueOctet (ground arith);
  value_ends = check_ends-NotBlank f.value (ground arith);
  no_connection = ground arith;
}
  where
    names : (0 < length f.name) × All NameOctet f.name
    names = check_name-octets f.name (ground arith) plain

check_status-Status :
    (f : Field) → eq_octets f.name pseudo_status ≡ true → check_status f.value ≡ true → Status f
unfolding check_status
check_status-Status f named h = record {
  named = eq_octets_same f.name pseudo_status named;
  three = ground arith;
  digits = all_octets-All is_digit DigitOctet f.value is_digit-DigitOctet (ground arith);
  class_from = ground arith;
  class_to = ground arith;
}

-- A header section has no field before its status that is no status.
late-header : (fields : List Field) → check_fields section_header fields false true ≡ true → ⊥
unfolding check_fields
late-header [] h = cc
late-header (f ∷ fields) h = elim (Bool-cases (is_pseudo f)) [
  | inl pseudo ↦
      let (_, rest) = both (check_field_line f) _ h in
      cc (
        second (not (is_pseudo f))
          (check_regular f && check_fields section_header fields false true) false (ground arith)
          rest)
  | inr plain ↦
      let (_, rest) = both (check_field_line f) _ h in
      let (_, later) = both (check_regular f) _ (
        first (not (is_pseudo f)) (check_regular f && check_fields section_header fields false true)
          false (ground arith) rest) in
      late-header fields later
]

-- The rest of a section, behind a regular field or in trailers with none before.
check_fields-Regular :
    (kind : Section) (fields : List Field) (status regular : Bool)
    → (regular ≡ true) ⊎ ((is_header kind ≡ false) ⊎ (status ≡ true))
    → check_fields kind fields status regular ≡ true
    → All Regular fields
unfolding check_fields
check_fields-Regular kind [] status regular no_more h = tt
check_fields-Regular kind (f ∷ fields) status regular no_more h = elim (Bool-cases (is_pseudo f)) [
  | inl pseudo ↦ absurd (ground (arith, no_more, pseudo, both (check_field_line f) _ h))
  | inr plain ↦
      let (line, rest) = both (check_field_line f) _ h in
      let (allowed, later) = both (check_regular f) _ (
        first (not (is_pseudo f)) (check_regular f && check_fields kind fields status true)
          (not regular
            && is_header kind
            && eq_octets f.name pseudo_status
            && not status
            && check_status f.value
            && check_fields kind fields true regular)
          (ground arith) rest) in
      (
        check_regular-Regular f line plain allowed,
        check_fields-Regular kind fields status true (inl refl) later,
      )
]

check_fields-Shape :
    (f : Field) (fields : List Field)
    → (eq_octets f.name pseudo_status
        && true
        && check_status f.value
        && check_fields section_header fields true false)
      ≡ true
    → Shape section_header (f ∷ fields)
unfolding Shape
check_fields-Shape f fields h =
    let (head, later) = both (eq_octets f.name pseudo_status && true && check_status f.value) _ h in
    let (front, status) = both (eq_octets f.name pseudo_status && true) _ head in
    let (named, _) = both (eq_octets f.name pseudo_status) _ front in
    (
      check_status-Status f named status,
      check_fields-Regular section_header fields true false (inr (inr refl)) later,
    )

pub check_section-Shape :
    (kind : Section) (fields : List Field) → check_section kind fields ≡ true → Shape kind fields
unfolding check_section check_fields Shape
check_section-Shape section_trailer fields h =
    check_fields-Regular section_trailer fields false false (inr (inl refl)) h
check_section-Shape section_header [] h = absurd (cc)
check_section-Shape section_header (f ∷ fields) h =
    let (_, rest) = both (check_field_line f) _ h in
    elim (Bool-cases (is_pseudo f)) [
      | inl pseudo ↦ check_fields-Shape f fields (
          second (not (is_pseudo f))
            (check_regular f && check_fields section_header fields false true)
            (eq_octets f.name pseudo_status
              && true
              && check_status f.value
              && check_fields section_header fields true false)
            (ground arith) rest)
      | inr plain ↦
          let (_, later) = both (check_regular f) _ (
            first (not (is_pseudo f))
              (check_regular f && check_fields section_header fields false true)
              (eq_octets f.name pseudo_status
                && true
                && check_status f.value
                && check_fields section_header fields true false)
              (ground arith) rest) in
          absurd (late-header fields later)
    ]

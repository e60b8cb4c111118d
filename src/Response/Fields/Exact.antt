-- ===== src/Response/Fields/Exact.antt =====
-- The field sections that internal/response/fields.go lets through, and no others.
use zerodeps_hackk.Base.{
  ℕ, suc, ◌-◌, ◌<◌, ◌≡◌, ◌↔◌, refl, sym, subst, Bool, true, false, ◌&&◌, not, ◌==◌, eq_octets, List,
  [], ◌∷◌, length, get_or, All, arith,
}
use zerodeps_hackk.Base.Text.{is_digit, is_blank}
use zerodeps_hackk.H2.{Field}
use zerodeps_hackk.Response.Fields.{
  Section, section_header, section_trailer, is_header, pseudo_status, name_octet, value_octet,
  all_octets, check_name, check_ends, check_field_line, check_regular, check_status, is_pseudo,
  check_fields, check_section,
}
use zerodeps_hackk.Response.Fields.Shape.{
  NameOctet, ValueOctet, NotBlank, DigitOctet, Regular, Status, Shape, check_section-Shape,
}

All-all_octets :
    (ok : ℕ → Bool) (P : ℕ → Type 0) (s : List ℕ)
    → ((c : ℕ) → P c → ok c ≡ true)
    → All P s
    → all_octets ok s ≡ true
unfolding all_octets
All-all_octets ok P [] k h = refl
All-all_octets ok P (c ∷ s) k (p, h) = ground (arith, k c p, All-all_octets ok P s k h)

NameOctet-name_octet : (c : ℕ) → NameOctet c → name_octet c ≡ true
NameOctet-name_octet c (above, below, small, plain) = ground (arith, above, below, small, plain)

ValueOctet-value_octet : (c : ℕ) → ValueOctet c → value_octet c ≡ true
ValueOctet-value_octet c (nul, lf, cr) = ground (arith, nul, lf, cr)

NotBlank-is_blank : (c : ℕ) → NotBlank c → is_blank c ≡ false
NotBlank-is_blank c (space, tab) = ground (arith, space, tab)

ends-check_ends :
    (s : List ℕ)
    → (0 < length s → NotBlank (get_or s 0 0) × NotBlank (get_or s (length s - 1) 0))
    → check_ends s ≡ true
unfolding check_ends
ends-check_ends [] h = refl
ends-check_ends (c ∷ s) h =
    let (front, back) = h (omega arith) in
    ground (
      arith,
      NotBlank-is_blank c front,
      NotBlank-is_blank (get_or (c ∷ s) (length s) 0)
          (subst (λ n. NotBlank (get_or (c ∷ s) n 0)) (before_last (length s)) back),
    )
  where
    before_last : (n : ℕ) → suc n - 1 ≡ n
    before_last n = omega arith

no_colon : (c : ℕ) → NameOctet c → (c == b':') ≡ false
no_colon c (above, below, small, plain) = ground (arith, plain)

octets-check_name :
    (s : List ℕ)
    → 0 < length s
    → All NameOctet s
    → (check_name s ≡ true) × ((get_or s 0 0 == b':') ≡ false)
unfolding check_name
octets-check_name [] given h = absurd (omega arith)
octets-check_name (c ∷ s) given h =
    let all : all_octets name_octet (c ∷ s) ≡ true =
      All-all_octets name_octet NameOctet (c ∷ s) NameOctet-name_octet h in
    (ground (arith, no_colon c h.0, all), no_colon c h.0)

Regular-checked :
    (f : Field)
    → Regular f
    → (check_field_line f ≡ true) × (is_pseudo f ≡ false) × (check_regular f ≡ true)
unfolding check_field_line check_regular
Regular-checked f h =
    let (name, plain) = octets-check_name f.name h.named h.name_octets in
    (
      ground (
        arith,
        name,
        All-all_octets value_octet ValueOctet f.value ValueOctet-value_octet h.value_octets,
        ends-check_ends f.value h.value_ends,
      ),
      plain,
      ground (arith, h.no_connection),
    )

Regular-check_fields :
    (kind : Section) (fields : List Field) (status regular : Bool)
    → (is_header kind && not status) ≡ false
    → All Regular fields
    → check_fields kind fields status regular ≡ true
unfolding check_fields
Regular-check_fields kind [] status regular seen h = ground (arith, seen)
Regular-check_fields kind (f ∷ fields) status regular seen (one, h) =
    let (line, plain, allowed) = Regular-checked f one in
    rw (line, plain, allowed, check_fields) (Regular-check_fields kind fields status true seen h)

DigitOctet-is_digit : (c : ℕ) → DigitOctet c → is_digit c ≡ true
DigitOctet-is_digit c (from, to) = ground (arith, from, to)

DigitOctet-value_octet : (c : ℕ) → DigitOctet c → value_octet c ≡ true
DigitOctet-value_octet c (from, to) = ground (arith, from, to)

digits-check_ends : (s : List ℕ) → length s ≡ 3 → All DigitOctet s → check_ends s ≡ true
unfolding check_ends
digits-check_ends (a ∷ b ∷ c ∷ []) three (p, (q, (r, h))) = ground (arith, p, r)
digits-check_ends _ three h = ground arith

Status-checked :
    (f : Field)
    → Status f
    → (check_field_line f ≡ true)
      × (is_pseudo f ≡ true)
      × (eq_octets f.name pseudo_status ≡ true)
      × (check_status f.value ≡ true)
unfolding check_field_line check_status check_name all_octets
Status-checked f h = (
  ground (
    arith,
    subst (λ s. check_name s ≡ true) (sym h.named) refl,
    All-all_octets value_octet DigitOctet f.value DigitOctet-value_octet h.digits,
    digits-check_ends f.value h.three h.digits,
  ),
  subst (λ s. (get_or s 0 0 == b':') ≡ true) (sym h.named) refl,
  subst (λ s. eq_octets s pseudo_status ≡ true) (sym h.named) refl,
  ground (
    arith,
    All-all_octets is_digit DigitOctet f.value DigitOctet-is_digit h.digits,
    h.three,
    h.class_from,
    h.class_to,
  ),
)

Shape-check_section :
    (kind : Section) (fields : List Field) → Shape kind fields → check_section kind fields ≡ true
unfolding Shape check_section check_fields
Shape-check_section section_trailer fields h =
    Regular-check_fields section_trailer fields false false refl h
Shape-check_section section_header [] h = absurd h
Shape-check_section section_header (f ∷ fields) (one, h) =
    let (line, pseudo, named, status) = Status-checked f one in
    rw (line, pseudo, named, status, check_section, check_fields)
      (Regular-check_fields section_header fields true false refl h)

-- A section is let through exactly when it has the shape that section 8 of RFC 9113 gives to its kind: a
-- header section is a :status of three digits from 100 to 599 and then regular fields, a trailer section
-- is regular fields. A regular field has a name of visible ASCII, without capital letters and colons, is
-- not about the connection, and has a value without NUL, LF and CR that neither starts nor ends with a
-- space or a tab.
pub check_section_iff :
    (kind : Section) (fields : List Field) → (check_section kind fields ≡ true) ↔ Shape kind fields
check_section_iff kind fields = (check_section-Shape kind fields, Shape-check_section kind fields)

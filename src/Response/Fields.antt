-- ===== src/Response/Fields.antt =====
-- internal/response/fields.go: which field sections may be sent. Every error is ErrMalformedResponse,
-- so a check is whether there is none.
pub mod Shape
pub mod Exact
use zerodeps_hackk.Base.{
  ℕ, zero, suc, ◌-◌, Bool, true, false, ◌&&◌, ◌||◌, not, ◌==◌, ltb, leb, eq_octets, if◌then◌else◌,
  List, [], ◌∷◌, is_some, length, get_or,
}
use zerodeps_hackk.Base.Text.{codes, cut_prefix, is_blank, is_digit}
use zerodeps_hackk.H2.{Field}

pub data Section : Type 0 where
  section_header : Section
  section_trailer : Section

abbrev pub is_header : Section → Bool
is_header section_header = true
is_header section_trailer = false

abbrev pub pseudo_status : List ℕ
pseudo_status = codes ":status"

-- An octet of a name behind its first colon.
abbrev pub name_octet : ℕ → Bool
name_octet c = not (leb b'A' c && leb c b'Z') && not (leb c 0x20 || leb 0x7f c) && not (c == b':')

abbrev pub value_octet : ℕ → Bool
value_octet c = not (c == 0x00 || c == 0x0a || c == 0x0d)

unfoldable pub all_octets : (ℕ → Bool) → List ℕ → Bool
all_octets ok [] = true
all_octets ok (c ∷ s) = ok c && all_octets ok s

unfoldable pub check_name : List ℕ → Bool
unfolding all_octets
check_name [] = false
check_name (c ∷ s) = if c == b':' then all_octets name_octet s else all_octets name_octet (c ∷ s)

unfoldable pub check_ends : List ℕ → Bool
check_ends [] = true
check_ends (c ∷ s) = not (is_blank c) && not (is_blank (get_or (c ∷ s) (length s) 0))

unfoldable pub check_field_line : Field → Bool
unfolding check_name check_ends all_octets
check_field_line f = check_name f.name && all_octets value_octet f.value && check_ends f.value

abbrev pub is_among : List ℕ → List (List ℕ) → Bool
is_among s [] = false
is_among s (name ∷ names) = eq_octets s name || is_among s names

abbrev pub connection_fields : List (List ℕ)
connection_fields =
    codes "connection"
    ∷ codes "proxy-connection"
    ∷ codes "keep-alive"
    ∷ codes "transfer-encoding"
    ∷ codes "upgrade"
    ∷ codes "te"
    ∷ []

unfoldable pub check_regular : Field → Bool
check_regular f = not (is_among f.name connection_fields)

unfoldable pub check_status : List ℕ → Bool
unfolding all_octets
check_status v =
    length v == 3 && all_octets is_digit v && leb b'1' (get_or v 0 0) && leb (get_or v 0 0) b'5'

abbrev pub is_pseudo : Field → Bool
is_pseudo f = get_or f.name 0 0 == b':'

-- The loop, with what it has seen so far: a status, and a regular field.
unfoldable pub check_fields : Section → List Field → Bool → Bool → Bool
check_fields kind [] status regular = not (is_header kind && not status)
check_fields kind (f ∷ fields) status regular =
    check_field_line f
    && (if not (is_pseudo f)
        then check_regular f && check_fields kind fields status true
        else not regular
          && is_header kind
          && eq_octets f.name pseudo_status
          && not status
          && check_status f.value
          && check_fields kind fields true regular)

unfoldable pub check_section : Section → List Field → Bool
unfolding check_fields
check_section kind fields = check_fields kind fields false false

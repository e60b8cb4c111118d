-- ===== src/Request/Fields.antt =====
-- internal/request/fields.go: the tests of fields and of their parts. Every error there is a stream
-- error of PROTOCOL_ERROR, so a check is whether there is none. The tests of octets are those that
-- response/fields.go has as well.
use zerodeps_hackk.Base.{
  ℕ, ◌-◌, ◌^◌, Bool, false, ◌&&◌, ◌||◌, not, ◌==◌, leb, eq_octets, if◌then◌else◌, List, [], ◌∷◌,
  Option, none, some, length, take, drop,
}
use zerodeps_hackk.Base.Text.{codes, is_digit, to_lower_octet, value}
use zerodeps_hackk.H2.{Field}
use zerodeps_hackk.Response.Fields.{value_octet, all_octets, check_name, check_ends, is_among}

unfoldable pub check_field : Field → Bool
unfolding all_octets check_name check_ends
check_field f = check_name f.name && all_octets value_octet f.value && check_ends f.value

unfoldable pub ascii_lower : List ℕ → List ℕ
ascii_lower [] = []
ascii_lower (c ∷ s) = to_lower_octet c ∷ ascii_lower s

unfoldable pub ascii_equal_fold : List ℕ → List ℕ → Bool
unfolding ascii_lower
ascii_equal_fold s t = eq_octets (ascii_lower s) (ascii_lower t)

abbrev pub hop_fields : List (List ℕ)
hop_fields =
    codes "connection"
    ∷ codes "proxy-connection"
    ∷ codes "keep-alive"
    ∷ codes "transfer-encoding"
    ∷ codes "upgrade"
    ∷ []

unfoldable pub check_regular : Field → Bool
unfolding ascii_equal_fold
check_regular f =
    not (is_among f.name hop_fields)
    && not (eq_octets f.name (codes "te") && not (ascii_equal_fold f.value (codes "trailers")))

abbrev pub is_letter : ℕ → Bool
is_letter c = leb b'a' c && leb c b'z' || leb b'A' c && leb c b'Z'

abbrev pub is_octet_of : ℕ → List ℕ → Bool
is_octet_of c [] = false
is_octet_of c (b ∷ s) = c == b || is_octet_of c s

abbrev pub token_char : ℕ → Bool
token_char c = is_letter c || is_digit c || is_octet_of c (codes "!#$%&'*+-.^_`|~")

unfoldable pub valid_token : List ℕ → Bool
unfolding all_octets
valid_token [] = false
valid_token (c ∷ s) = all_octets token_char (c ∷ s)

abbrev pub scheme_octet : ℕ → Bool
scheme_octet c = is_letter c || is_digit c || c == b'+' || c == b'-' || c == b'.'

unfoldable pub valid_scheme : List ℕ → Bool
unfolding all_octets
valid_scheme [] = false
valid_scheme (c ∷ s) = is_letter c && all_octets scheme_octet s

abbrev pub plain_octet : ℕ → Bool
plain_octet c = not (leb c 0x20 || c == 0x7f)

-- `controlOctet` finds none.
unfoldable pub no_control_octet : List ℕ → Bool
unfolding all_octets
no_control_octet s = all_octets plain_octet s

unfoldable pub is_http_scheme : List ℕ → Bool
unfolding ascii_equal_fold
is_http_scheme scheme =
    ascii_equal_fold scheme (codes "http") || ascii_equal_fold scheme (codes "https")

-- `strings.TrimSuffix`.
abbrev pub trim_suffix : List ℕ → List ℕ → List ℕ
trim_suffix s suffix =
    if leb (length suffix) (length s) && eq_octets (drop (length s - length suffix) s) suffix
    then take (length s - length suffix) s
    else s

unfoldable pub normalize_authority : List ℕ → List ℕ → List ℕ
unfolding ascii_lower ascii_equal_fold
normalize_authority scheme authority =
    if ascii_equal_fold scheme (codes "http")
    then trim_suffix (ascii_lower authority) (codes ":80")
    else if ascii_equal_fold scheme (codes "https")
    then trim_suffix (ascii_lower authority) (codes ":443")
    else ascii_lower authority

unfoldable pub same_authority : List ℕ → List ℕ → List ℕ → Bool
unfolding normalize_authority
same_authority scheme authority host =
    eq_octets (normalize_authority scheme authority) (normalize_authority scheme host)

unfoldable pub parse_content_length : List ℕ → Option ℕ
unfolding all_octets
parse_content_length [] = none
parse_content_length (c ∷ s) =
    if not (all_octets is_digit (c ∷ s))
    then none
    else if leb (2 ^ 63) (value 0 (c ∷ s))
    then none
    else some (value 0 (c ∷ s))

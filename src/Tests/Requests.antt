-- ===== src/Tests/Requests.antt =====
-- internal/request at concrete inputs.
use zerodeps_hackk.Base.{ℕ, ◌≡◌, refl, Bool, true, false, List, [], ◌∷◌, Option, none, some, All}
use zerodeps_hackk.Base.Text.{codes}
use zerodeps_hackk.H2.{Field}
use zerodeps_hackk.Response.Fields.{all_octets, check_name, check_ends}
use zerodeps_hackk.Request.Fields.{
  check_field, check_regular, ascii_lower, ascii_equal_fold, valid_token, valid_scheme,
  no_control_octet, is_http_scheme, normalize_authority, same_authority, parse_content_length,
}
use zerodeps_hackk.Request.Parse.{
  Request, pseudo, noted, gather, gather_all, check_authority, check_path, check_connect,
  check_control_data, resolve_authority, set_content_length, set_priority, finish, parse,
  validate_trailers,
}
use zerodeps_hackk.Request.Parse.Gathering.{Carried, regular_of, validate_trailers-Carried}
use zerodeps_hackk.Request.Parse.Sound.{ValidRequest, parse-ValidRequest}

abbrev line : List ℕ → List ℕ → Field
line name value = record { name = name; value = value; sensitive = false }

abbrev control : List Field
control =
    line (codes ":method") (codes "GET")
    ∷ line (codes ":scheme") (codes "https")
    ∷ line (codes ":path") (codes "/a")
    ∷ []

abbrev post : List Field
post =
    line (codes ":method") (codes "POST")
    ∷ line (codes ":path") (codes "/")
    ∷ line (codes ":authority") (codes "Example.org:443")
    ∷ line (codes ":scheme") (codes "HTTPS")
    ∷ line (codes "host") (codes "example.org")
    ∷ line (codes "content-length") (codes "012")
    ∷ line (codes "priority") (codes "u=1")
    ∷ line (codes "priority") (codes "i")
    ∷ []

-- The priority field is kept as it is.
abbrev read : List Field → Bool → Option (Request (List ℕ))
read fields end_stream = parse [] (λ s. s) fields end_stream

abbrev posted : Request (List ℕ)
posted = record {
  method = codes "POST";
  scheme = codes "HTTPS";
  authority = codes "Example.org:443";
  path = codes "/";
  fields =
      line (codes "host") (codes "example.org")
      ∷ line (codes "content-length") (codes "012")
      ∷ line (codes "priority") (codes "u=1")
      ∷ line (codes "priority") (codes "i")
      ∷ [];
  content_length = some 12;
  priority = codes "u=1, i";
}

requests :
    (read post false ≡ some posted)
    × (read post true ≡ none)
    × (read (line (codes ":method") (codes "GET") ∷ control) true ≡ none)
    × (read (line (codes "te") (codes "Trailers") ∷ control) true ≡ none)
    × (read
          (line (codes ":method") (codes "CONNECT") ∷ line (codes ":authority") (codes "a") ∷ [])
          true
        ≡ some (record {
          method = codes "CONNECT";
          scheme = [];
          authority = codes "a";
          path = [];
          fields = [];
          content_length = none;
          priority = [];
        }))
unfolding check_field check_regular ascii_lower ascii_equal_fold valid_token valid_scheme
    no_control_octet is_http_scheme normalize_authority same_authority parse_content_length pseudo
    noted gather gather_all check_authority check_path check_connect check_control_data
    resolve_authority set_content_length set_priority finish parse all_octets check_name check_ends
requests = (refl, refl, refl, refl, refl)

parse-ValidRequest_example : ValidRequest post false posted
parse-ValidRequest_example = parse-ValidRequest [] (λ s. s) post false posted requests.0

abbrev trailing : List Field
trailing = line (codes "te") (codes "Trailers") ∷ line (codes "x") [] ∷ []

trailers_fine : validate_trailers trailing ≡ true
unfolding validate_trailers check_field check_regular ascii_lower ascii_equal_fold all_octets
    check_name check_ends
trailers_fine = refl

validate_trailers-Carried_example : (regular_of trailing ≡ trailing) × All Carried trailing
validate_trailers-Carried_example = validate_trailers-Carried trailing trailers_fine

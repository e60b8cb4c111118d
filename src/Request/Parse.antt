-- ===== src/Request/Parse.antt =====
-- internal/request/request.go: Parse and ValidateTrailers. Every error there is a stream error of
-- PROTOCOL_ERROR, and is `none`. The parser of the priority field is a parameter.
pub mod Gathering
pub mod Sources
pub mod Target
pub mod Sound
use zerodeps_hackk.Base.{
  ℕ, zero, suc, ◌+◌, Bool, true, false, ◌&&◌, ◌||◌, not, ◌==◌, ltb, leb, eq_octets, if◌then◌else◌,
  List, [], ◌∷◌, ◌++◌, Option, none, some, is_some, get_or,
}
use zerodeps_hackk.Base.Text.{codes}
use zerodeps_hackk.H2.{Field}
use zerodeps_hackk.Request.Fields.{
  check_field, check_regular, valid_token, valid_scheme, no_control_octet, is_http_scheme,
  is_octet_of, same_authority, parse_content_length,
}

-- `content_length` is none for NoContentLength.
pub record Request (P : Type 0) : Type 0 where
  pub method : List ℕ
  pub scheme : List ℕ
  pub authority : List ℕ
  pub path : List ℕ
  pub fields : List Field
  pub content_length : Option ℕ
  pub priority : P

-- What the loop has gathered. A pseudo-header field is none until its bit of `seen` is set.
pub record Gathered : Type 0 where
  pub method : Option (List ℕ)
  pub scheme : Option (List ℕ)
  pub authority : Option (List ℕ)
  pub path : Option (List ℕ)
  pub regular : Bool
  pub clen : List ℕ
  pub clens : ℕ
  pub host : List ℕ
  pub hosts : ℕ
  pub prio : List ℕ
  pub prios : ℕ
  pub fields : List Field

abbrev pub nothing : Gathered
nothing = record {
  method = none;
  scheme = none;
  authority = none;
  path = none;
  regular = false;
  clen = [];
  clens = 0;
  host = [];
  hosts = 0;
  prio = [];
  prios = 0;
  fields = [];
}

abbrev pub text : Option (List ℕ) → List ℕ
text none = []
text (some s) = s

-- `pseudo`, and the setting of what it points at.
unfoldable pub pseudo : Gathered → Field → Option Gathered
pseudo g f =
    if eq_octets f.name (codes ":method")
    then (if is_some g.method then none else some (record g { method = some f.value }))
    else if eq_octets f.name (codes ":scheme")
    then (if is_some g.scheme then none else some (record g { scheme = some f.value }))
    else if eq_octets f.name (codes ":authority")
    then (if is_some g.authority then none else some (record g { authority = some f.value }))
    else if eq_octets f.name (codes ":path")
    then (if is_some g.path then none else some (record g { path = some f.value }))
    else none

abbrev pub separated : ℕ → List ℕ → List ℕ
separated prios prio = if prios == 0 then prio else prio ++ codes ", "

-- The switch on the names of regular fields.
unfoldable pub noted : Gathered → Field → Gathered
noted g f =
    if eq_octets f.name (codes "content-length")
    then record g { clen = f.value; clens = g.clens + 1 }
    else if eq_octets f.name (codes "host")
    then record g { host = f.value; hosts = g.hosts + 1 }
    else if eq_octets f.name (codes "priority")
    then record g { prio = separated g.prios g.prio ++ f.value; prios = g.prios + 1 }
    else g

abbrev pub keep : Gathered → Field → Gathered
keep g f = record g { regular = true; fields = g.fields ++ f ∷ [] }

abbrev pub is_pseudo : Field → Bool
is_pseudo f = get_or f.name 0 0 == b':'

unfoldable pub gather : Gathered → Field → Option Gathered
unfolding pseudo noted
gather g f =
    if not (check_field f)
    then none
    else if is_pseudo f
    then (if g.regular then none else pseudo g f)
    else if not (check_regular f)
    then none
    else some (keep (noted g f) f)

unfoldable pub gather_all : Gathered → List Field → Option Gathered
unfolding gather
gather_all g [] = some g
gather_all g (f ∷ fields) = elim (gather g f) [ none ↦ none | some next ↦ gather_all next fields ]

unfoldable pub check_authority : List ℕ → List ℕ → Bool
check_authority scheme [] = true
check_authority scheme (c ∷ s) =
    no_control_octet (c ∷ s)
    && not (is_octet_of b'/' (c ∷ s) || is_octet_of b'?' (c ∷ s) || is_octet_of b'#' (c ∷ s))
    && not (is_http_scheme scheme && is_octet_of b'@' (c ∷ s))

unfoldable pub check_path : List ℕ → List ℕ → List ℕ → Bool
check_path method scheme [] = false
check_path method scheme (c ∷ s) =
    no_control_octet (c ∷ s)
    && (not (is_http_scheme scheme)
        || (if eq_octets (c ∷ s) (codes "*")
            then eq_octets method (codes "OPTIONS")
            else c == b'/'))

unfoldable pub check_connect : Gathered → Bool
unfolding check_authority
check_connect g =
    not (is_some g.scheme)
    && not (is_some g.path)
    && not (eq_octets (text g.authority) [])
    && check_authority (text g.scheme) (text g.authority)

unfoldable pub check_control_data : Gathered → Bool
unfolding check_connect check_path check_authority
check_control_data g =
    is_some g.method
    && valid_token (text g.method)
    && (if eq_octets (text g.method) (codes "CONNECT")
        then check_connect g
        else is_some g.scheme
          && valid_scheme (text g.scheme)
          && is_some g.path
          && check_path (text g.method) (text g.scheme) (text g.path)
          && check_authority (text g.scheme) (text g.authority))

unfoldable pub resolve_authority : Gathered → Option (List ℕ)
unfolding check_authority
resolve_authority g =
    if ltb 1 g.hosts
    then none
    else if not (is_some g.authority)
    then (if check_authority (text g.scheme) g.host then some g.host else none)
    else if g.hosts == 1 && not (same_authority (text g.scheme) (text g.authority) g.host)
    then none
    else some (text g.authority)

-- none is an error, and a nothing inside of it is NoContentLength.
unfoldable pub set_content_length : Gathered → Bool → Option (Option ℕ)
set_content_length g end_stream =
    if g.clens == 0
    then some none
    else if ltb 1 g.clens
    then none
    else elim (parse_content_length g.clen) [
      | none ↦ none
      | some n ↦ if end_stream && not (n == 0) then none else some (some n)
    ]

module _ {P : Type 0} where
  unfoldable pub set_priority : P → (List ℕ → P) → Gathered → P
  set_priority default parse_priority g = if g.prios == 0 then default else parse_priority g.prio

  -- The first two arguments are the zero of priority.Params and priority.Parse.
  unfoldable pub finish : P → (List ℕ → P) → Gathered → Bool → Option (Request P)
  unfolding check_control_data resolve_authority set_content_length set_priority
  finish default parse_priority g end_stream =
      if not (check_control_data g) then none else elim (resolve_authority g) [
        | none ↦ none
        | some authority ↦ elim (set_content_length g end_stream) [
          | none ↦ none
          | some n ↦ some (record {
            method = text g.method;
            scheme = text g.scheme;
            authority = authority;
            path = text g.path;
            fields = g.fields;
            content_length = n;
            priority = set_priority default parse_priority g;
          })
        ]
      ]

  unfoldable pub parse : P → (List ℕ → P) → List Field → Bool → Option (Request P)
  unfolding gather_all finish
  parse default parse_priority fields end_stream = elim (gather_all nothing fields) [
    | none ↦ none
    | some g ↦ finish default parse_priority g end_stream
  ]

unfoldable pub validate_trailers : List Field → Bool
validate_trailers [] = true
validate_trailers (f ∷ fields) =
    check_field f && not (is_pseudo f) && check_regular f && validate_trailers fields

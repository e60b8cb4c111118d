-- ===== src/Request/Parse/Target.antt =====
-- What the control data of a request says, where internal/request/request.go lets it through.
use zerodeps_hackk.Base.{
  ◌∙◌, ℕ, ◌^◌, ◌<◌, ◌≡◌, ◌≢◌, refl, sym, ap, subst, ◌⊎◌, inl, inr, Bool, true, false, ◌&&◌, not,
  ◌==◌, ltb, leb, eq_octets, eq_octets_same, if◌then◌else◌, Bool-cases, List, [], ◌∷◌, Option, none,
  some, is_some, length, get_or, All, arith,
}
use zerodeps_hackk.Base.Text.{codes, is_digit, value}
use zerodeps_hackk.Response.Fields.{all_octets}
use zerodeps_hackk.Response.Fields.Shape.{all_octets-All, both}
use zerodeps_hackk.Request.Fields.{
  token_char, scheme_octet, is_letter, plain_octet, valid_token, valid_scheme, no_control_octet,
  is_http_scheme, is_octet_of, same_authority, parse_content_length,
}
use zerodeps_hackk.Request.Parse.{
  Gathered, text, check_authority, check_path, check_connect, check_control_data, resolve_authority,
  set_content_length,
}
use zerodeps_hackk.Request.Parse.Gathering.{past, bound, chosen}

abbrev pub PlainOctet : ℕ → Type 0
PlainOctet c = (0x20 < c) × (c ≢ 0x7f)

-- No octet that ends an authority, and no userinfo where the scheme is http or https.
pub record AuthorityOf (scheme authority : List ℕ) : Type 0 where
  pub plain : All PlainOctet authority
  pub no_slash : All (λ c. c ≢ b'/') authority
  pub no_question : All (λ c. c ≢ b'?') authority
  pub no_hash : All (λ c. c ≢ b'#') authority
  pub no_userinfo : is_http_scheme scheme ≡ true → All (λ c. c ≢ b'@') authority

pub record PathOf (method scheme path : List ℕ) : Type 0 where
  pub given : 0 < length path
  pub plain : All PlainOctet path
  pub rooted :
      is_http_scheme scheme ≡ true
      → (get_or path 0 0 ≡ b'/') ⊎ ((path ≡ codes "*") × (method ≡ codes "OPTIONS"))

-- What a request is for: a host to connect to, or a path of a scheme.
pub data Target : (method scheme authority path : List ℕ) → Type 0 where
  host_of : (authority : List ℕ) → 0 < length authority → Target (codes "CONNECT") [] authority []
  path_of :
      (method scheme authority path : List ℕ)
      → eq_octets method (codes "CONNECT") ≡ false
      → 0 < length scheme
      → All (λ c. scheme_octet c ≡ true) scheme
      → PathOf method scheme path
      → Target method scheme authority path

plain_octet-PlainOctet : (c : ℕ) → plain_octet c ≡ true → PlainOctet c
plain_octet-PlainOctet c h = ground arith

absent : (b : ℕ) (s : List ℕ) → is_octet_of b s ≡ false → All (λ c. c ≢ b) s
absent b [] h = tt
absent b (c ∷ s) h = (ground arith, absent b s (ground arith))

no_control_octet-plain : (s : List ℕ) → no_control_octet s ≡ true → All PlainOctet s
unfolding no_control_octet
no_control_octet-plain s h = all_octets-All plain_octet PlainOctet s plain_octet-PlainOctet h

pub valid_token-octets :
    (s : List ℕ) → valid_token s ≡ true → (0 < length s) × All (λ c. token_char c ≡ true) s
unfolding valid_token
valid_token-octets [] h = absurd (cc)
valid_token-octets (c ∷ s) h =
    (omega arith, all_octets-All token_char (λ c. token_char c ≡ true) (c ∷ s) (λ c h. h) h)

valid_scheme-octets :
    (s : List ℕ) → valid_scheme s ≡ true → (0 < length s) × All (λ c. scheme_octet c ≡ true) s
unfolding valid_scheme
valid_scheme-octets [] h = absurd (cc)
valid_scheme-octets (c ∷ s) h =
    let (letter, rest) = both (is_letter c) _ h in
    (
      omega arith,
      (ground arith, all_octets-All scheme_octet (λ c. scheme_octet c ≡ true) s (λ c h. h) rest),
    )

check_authority-AuthorityOf :
    (scheme s : List ℕ) → check_authority scheme s ≡ true → AuthorityOf scheme s
unfolding check_authority
check_authority-AuthorityOf scheme [] h = record {
  plain = tt;
  no_slash = tt;
  no_question = tt;
  no_hash = tt;
  no_userinfo = λ http. tt;
}
check_authority-AuthorityOf scheme (c ∷ s) h = record {
  plain = no_control_octet-plain (c ∷ s) (ground arith);
  no_slash = absent b'/' (c ∷ s) (ground arith);
  no_question = absent b'?' (c ∷ s) (ground arith);
  no_hash = absent b'#' (c ∷ s) (ground arith);
  no_userinfo = λ http. absent b'@' (c ∷ s) (ground arith);
}

check_path-PathOf :
    (method scheme s : List ℕ) → check_path method scheme s ≡ true → PathOf method scheme s
unfolding check_path
check_path-PathOf method scheme [] h = absurd (cc)
check_path-PathOf method scheme (c ∷ s) h = record {
  given = omega arith;
  plain = no_control_octet-plain (c ∷ s) (ground arith);
  rooted = λ http. elim (Bool-cases (eq_octets (c ∷ s) (codes "*"))) [
    | inl star ↦ inr (
      eq_octets_same (c ∷ s) (codes "*") star,
      eq_octets_same method (codes "OPTIONS") (ground arith),
    )
    | inr path ↦ inl (ground arith)
  ];
}

nonempty : (s : List ℕ) → eq_octets s [] ≡ false → 0 < length s
nonempty [] h = absurd (cc)
nonempty (c ∷ s) h = omega arith

absent_text : (o : Option (List ℕ)) → is_some o ≡ false → text o ≡ []
absent_text none h = refl
absent_text (some s) h = absurd (cc)

connect_to :
    (method scheme authority path : List ℕ)
    → method ≡ codes "CONNECT"
    → scheme ≡ []
    → path ≡ []
    → 0 < length authority
    → Target method scheme authority path
connect_to method scheme authority path m s p given = rw (m, s, p) (host_of authority given)

pub has_method : (g : Gathered) → check_control_data g ≡ true → is_some g.method ≡ true
unfolding check_control_data
has_method g h = ground arith

pub method_of : (g : Gathered) → check_control_data g ≡ true → valid_token (text g.method) ≡ true
unfolding check_control_data
method_of g h = ground arith

-- What the control data says, before a Host field is looked at.
pub check_control_data-Target :
    (g : Gathered) (authority : List ℕ)
    → check_control_data g ≡ true
    → (0 < length (text g.authority) → authority ≡ text g.authority)
    → Target (text g.method) (text g.scheme) authority (text g.path)
unfolding check_control_data check_connect
check_control_data-Target g authority h kept =
    elim (Bool-cases (eq_octets (text g.method) (codes "CONNECT"))) [
      | inl connect ↦
          let given : 0 < length (text g.authority) = nonempty (text g.authority) (ground arith) in
          connect_to (text g.method) (text g.scheme) authority (text g.path)
            (eq_octets_same (text g.method) (codes "CONNECT") connect)
            (absent_text g.scheme (ground arith)) (absent_text g.path (ground arith))
            (subst (λ a. 0 < length a) (sym (kept given)) given)
      | inr other ↦
          let (named, octets) = valid_scheme-octets (text g.scheme) (ground arith) in
          path_of (text g.method) (text g.scheme) authority (text g.path) other named octets
            (check_path-PathOf (text g.method) (text g.scheme) (text g.path) (ground arith))
    ]

pub check_control_data-AuthorityOf :
    (g : Gathered) → check_control_data g ≡ true → AuthorityOf (text g.scheme) (text g.authority)
unfolding check_control_data check_connect
check_control_data-AuthorityOf g h =
    check_authority-AuthorityOf (text g.scheme) (text g.authority) (ground arith)

missing_text : (o : Option (List ℕ)) → is_some o ≡ false → 0 < length (text o) → ⊥
missing_text none h given = omega arith
missing_text (some s) h given = cc

pub resolve_authority-AuthorityOf :
    (g : Gathered) (authority : List ℕ)
    → resolve_authority g ≡ some authority
    → AuthorityOf (text g.scheme) (text g.authority)
    → AuthorityOf (text g.scheme) authority
      × (0 < length (text g.authority) → authority ≡ text g.authority)
      × ((authority ≡ g.host) ⊎ (authority ≡ text g.authority))
unfolding resolve_authority
resolve_authority-AuthorityOf g authority h ok =
    let (few, rest) =
      past (ltb 1 g.hosts)
        (if not (is_some g.authority)
          then (if check_authority (text g.scheme) g.host then some g.host else none)
          else if g.hosts == 1 && not (same_authority (text g.scheme) (text g.authority) g.host)
          then none
          else some (text g.authority))
        authority h in
    elim (chosen (not (is_some g.authority))
      (if check_authority (text g.scheme) g.host then some g.host else none)
      (if g.hosts == 1 && not (same_authority (text g.scheme) (text g.authority) g.host)
        then none
        else some (text g.authority))
      (some authority) rest) [
        | inl (missing, taken) ↦
            elim (chosen (check_authority (text g.scheme) g.host) (some g.host) none
              (some authority) taken) [
                | inl (fine, host) ↦ (
                  subst (AuthorityOf (text g.scheme)) (ap text host)
                      (check_authority-AuthorityOf (text g.scheme) g.host fine),
                  λ given. absurd (missing_text g.authority (ground arith) given),
                  inl (sym (ap text host)),
                )
                | inr (_, failed) ↦ absurd (cc)
              ]
        | inr (present, compared) ↦
            let (_, same) =
              past (g.hosts == 1 && not (same_authority (text g.scheme) (text g.authority) g.host))
                (some (text g.authority)) authority compared in
            (
              subst (AuthorityOf (text g.scheme)) (ap text same) ok,
              λ given. sym (ap text same),
              inr (sym (ap text same)),
            )
      ]

unset_length :
    (o : Option ℕ) (n : ℕ) → o ≡ some n → ◌≡◌ {A = Option (Option ℕ)} (some none) (some o) → ⊥
unset_length none n e h = cc
unset_length (some m) n e h = cc

length_of :
    (m n : ℕ) (o : Option ℕ)
    → ◌≡◌ {A = Option (Option ℕ)} (some (some m)) (some o)
    → o ≡ some n
    → m ≡ n
length_of m n none h e = absurd (cc)
length_of m n (some k) h e = cc

fitting :
    (end_stream : Bool) (m n : ℕ)
    → m < 2 ^ 63
    → (end_stream && not (m == 0)) ≡ false
    → m ≡ n
    → (n < 2 ^ 63) × (end_stream ≡ true → n ≡ 0)
fitting end_stream m n fits fine same = (omega (arith, fits, same), λ ended. ground arith)

parse_content_length-fits :
    (s : List ℕ) (n : ℕ) → parse_content_length s ≡ some n → (n < 2 ^ 63) × (value 0 s ≡ n)
unfolding parse_content_length
parse_content_length-fits [] n h = absurd (cc)
parse_content_length-fits (c ∷ s) n h =
    let (_, rest) =
      past (not (all_octets is_digit (c ∷ s)))
        (if leb (2 ^ 63) (value 0 (c ∷ s)) then none else some (value 0 (c ∷ s))) n h in
    let (fits, same) = past (leb (2 ^ 63) (value 0 (c ∷ s))) (some (value 0 (c ∷ s))) n rest in
    let decimal : value 0 (c ∷ s) ≡ n = ap (λ o. elim o [ none ↦ 0 | some n ↦ n ]) same in
    (subst (λ n. n < 2 ^ 63) decimal (ground arith), decimal)

pub set_content_length-fits :
    (g : Gathered) (end_stream : Bool) (o : Option ℕ)
    → set_content_length g end_stream ≡ some o
    → (n : ℕ) → o ≡ some n
    → ((n < 2 ^ 63) × (end_stream ≡ true → n ≡ 0)) × ((g.clens == 0) ≡ false) × (value 0 g.clen ≡ n)
unfolding set_content_length
set_content_length-fits g end_stream o h n e =
    elim (chosen (g.clens == 0) (some none) counted (some o) h) [
      | inl (_, unset) ↦ absurd (unset_length o n e unset)
      | inr (given, rest) ↦
          let (_, single) = past (ltb 1 g.clens) measured o rest in
          let (m, parsed, tested) =
            bound (parse_content_length g.clen)
              (λ n. if end_stream && not (n == 0) then none else some (some n)) o single in
          let (fine, same) = past (end_stream && not (m == 0)) (some (some m)) o tested in
          let (fits, decimal) = parse_content_length-fits g.clen m parsed in
          (
            fitting end_stream m n fits fine (length_of m n o same e),
            given,
            decimal ∙ length_of m n o same e,
          )
    ]
  where
    measured : Option (Option ℕ)
    measured = elim (parse_content_length g.clen) [
      | none ↦ none
      | some n ↦ if end_stream && not (n == 0) then none else some (some n)
    ]

    counted : Option (Option ℕ)
    counted = if ltb 1 g.clens then none else measured

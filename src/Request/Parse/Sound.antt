-- ===== src/Request/Parse/Sound.antt =====
-- The requests that internal/request lets through.
use zerodeps_hackk.Base.{
  ◌⊎◌, ℕ, ◌^◌, ◌<◌, ◌≡◌, ap, subst, Bool, true, not, List, Option, none, some, length, All,
}
use zerodeps_hackk.Base.Text.{codes, value}
use zerodeps_hackk.H2.{Field}
use zerodeps_hackk.Request.Fields.{token_char}
use zerodeps_hackk.Request.Parse.{
  Request, Gathered, nothing, text, gather_all, check_control_data, resolve_authority,
  set_content_length, set_priority, finish, parse,
}
use zerodeps_hackk.Request.Parse.Gathering.{
  Carried, regular_of, past, bound, double_negation, gather_all-fields,
}
use zerodeps_hackk.Request.Parse.Sources.{
  Sent, SentIfAny, Sourced, gather_all-Sourced, text-Sent, text-SentIfAny, authority_from,
  length_from,
}
use zerodeps_hackk.Request.Parse.Target.{
  has_method, AuthorityOf, Target, valid_token-octets, check_control_data-Target,
  check_control_data-AuthorityOf, resolve_authority-AuthorityOf, set_content_length-fits, method_of,
}

module _ {P : Type 0} where
  pub record ValidRequest (fields : List Field) (end_stream : Bool) (r : Request P) : Type 0 where
    pub kept : r.fields ≡ regular_of fields
    pub carried : All Carried r.fields
    pub method_given : 0 < length r.method
    pub method_token : All (λ c. token_char c ≡ true) r.method
    pub target : Target r.method r.scheme r.authority r.path
    pub authority : AuthorityOf r.scheme r.authority
    pub length_fits :
        (n : ℕ) → r.content_length ≡ some n → (n < 2 ^ 63) × (end_stream ≡ true → n ≡ 0)
    pub method_sent : Sent (codes ":method") r.method fields
    pub scheme_sent : SentIfAny (codes ":scheme") r.scheme fields
    pub path_sent : SentIfAny (codes ":path") r.path fields
    pub authority_sent :
        SentIfAny (codes "host") r.authority fields
        ⊎ SentIfAny (codes ":authority") r.authority fields
    pub length_sent :
        (n : ℕ)
        → r.content_length ≡ some n
        → (v : List ℕ) × Sent (codes "content-length") v fields × (value 0 v ≡ n)

module _ {P : Type 0} where
  finish-ValidRequest :
      (default : P) (parse_priority : List ℕ → P) (g : Gathered) (fields : List Field)
      (end_stream : Bool) (r : Request P)
      → finish default parse_priority g end_stream ≡ some r
      → g.fields ≡ regular_of fields
      → All Carried g.fields
      → Sourced fields g
      → ValidRequest fields end_stream r
  unfolding finish
  finish-ValidRequest default parse_priority g fields end_stream r h kept carried sourced =
      let (good, rest) = past (not (check_control_data g)) _ r h in
      let control : check_control_data g ≡ true = double_negation (check_control_data g) good in
      let (authority, resolved, rest2) = bound (resolve_authority g) _ r rest in
      let (n, measured, made) = bound (set_content_length g end_stream) _ r rest2 in
      let (fine, known, source) =
        resolve_authority-AuthorityOf g authority resolved
          (check_control_data-AuthorityOf g control) in
      let (given, octets) = valid_token-octets (text g.method) (method_of g control) in
      subst (ValidRequest fields end_stream) (the_request (finished g authority n) r made) (record {
        kept = kept;
        carried = carried;
        method_given = given;
        method_token = octets;
        target = check_control_data-Target g authority control known;
        authority = fine;
        length_fits = λ k e. (set_content_length-fits g end_stream n measured k e).0;
        method_sent =
            text-Sent fields (codes ":method") g.method sourced.method (has_method g control);
        scheme_sent = text-SentIfAny fields (codes ":scheme") g.scheme sourced.scheme;
        path_sent = text-SentIfAny fields (codes ":path") g.path sourced.path;
        authority_sent = authority_from fields g authority sourced source;
        length_sent = λ k e.
            let (_, given, decimal) = set_content_length-fits g end_stream n measured k e in
            length_from fields g k sourced given decimal;
      })
    where
      finished : Gathered → List ℕ → Option ℕ → Request P
      finished g authority n = record {
        method = text g.method;
        scheme = text g.scheme;
        authority = authority;
        path = text g.path;
        fields = g.fields;
        content_length = n;
        priority = set_priority default parse_priority g;
      }

      the_request : (a b : Request P) → some a ≡ some b → a ≡ b
      the_request a b h = ap (λ o. elim o [ none ↦ a | some r ↦ r ]) h

  -- A request that Parse lets through has as its fields the regular fields of the section, in their order,
  -- none of them about the hop and none with an octet that ends its line. Its method is a token. Its target
  -- is, for CONNECT, a host with neither scheme nor path, and else a scheme with a path that is not empty
  -- and, where the scheme is http or https, starts with "/" or is the "*" of OPTIONS. Its authority has no
  -- octet that ends one, and no userinfo where the scheme is http or https. Its content length, if it has
  -- one, is below 2^63, and is 0 where the section ends the stream. Its method, scheme and path are the
  -- values of the pseudo-header fields of these names, its authority that of :authority or of Host, and
  -- its content length is what the digits of a content-length field say; scheme, path and authority may be
  -- empty instead.
  pub parse-ValidRequest :
      (default : P) (parse_priority : List ℕ → P) (fields : List Field) (end_stream : Bool)
      (r : Request P)
      → parse default parse_priority fields end_stream ≡ some r
      → ValidRequest fields end_stream r
  unfolding parse
  parse-ValidRequest default parse_priority fields end_stream r h =
      let (g, gathered, rest) =
        bound (gather_all nothing fields) (λ g. finish default parse_priority g end_stream) r h in
      let (kept, carried) = gather_all-fields nothing g fields gathered tt in
      finish-ValidRequest default parse_priority g fields end_stream r rest kept carried
        (gather_all-Sourced g fields gathered)

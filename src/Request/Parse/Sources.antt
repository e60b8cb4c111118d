-- ===== src/Request/Parse/Sources.antt =====
-- From which fields of its section internal/request/request.go takes the parts of a request.
use zerodeps_hackk.Base.{
  ℕ, ◌≡◌, refl, sym, ap, subst, ◌⊎◌, inl, inr, Bool, true, false, not, ◌==◌, eq_octets,
  eq_octets_same, if◌then◌else◌, elim-Bool, List, [], ◌∷◌, Option, none, some, is_some, arith,
}
use zerodeps_hackk.Base.Text.{codes, value}
use zerodeps_hackk.H2.{Field}
use zerodeps_hackk.Request.Fields.{check_field, check_regular}
use zerodeps_hackk.Request.Parse.{
  Gathered, nothing, text, pseudo, noted, keep, is_pseudo, gather, gather_all,
}
use zerodeps_hackk.Request.Parse.Gathering.{bound}

-- The section has a field with this name and this value.
abbrev pub Sent : List ℕ → List ℕ → List Field → Type 0
Sent name v [] = ⊥
Sent name v (f ∷ fields) = ((f.name ≡ name) × (f.value ≡ v)) ⊎ Sent name v fields

abbrev pub Within : List Field → List Field → Type 0
Within part all = (name v : List ℕ) → Sent name v part → Sent name v all

-- What the loop has gathered comes from fields of the section that have its name.
pub record Sourced (all : List Field) (g : Gathered) : Type 0 where
  pub method : (v : List ℕ) → g.method ≡ some v → Sent (codes ":method") v all
  pub scheme : (v : List ℕ) → g.scheme ≡ some v → Sent (codes ":scheme") v all
  pub authority : (v : List ℕ) → g.authority ≡ some v → Sent (codes ":authority") v all
  pub path : (v : List ℕ) → g.path ≡ some v → Sent (codes ":path") v all
  pub host : (g.host ≡ []) ⊎ Sent (codes "host") g.host all
  pub clen : (g.clens ≡ 0) ⊎ Sent (codes "content-length") g.clen all

taken :
    (all : List Field) (f : Field) (name v : List ℕ)
    → Sent f.name f.value all
    → eq_octets f.name name ≡ true
    → some f.value ≡ some v
    → Sent name v all
taken all f name v here same e =
    subst (λ s. Sent s v all) (eq_octets_same f.name name same)
      (subst (λ s. Sent f.name s all) (ap text e) here)

named :
    (all : List Field) (f : Field) (name : List ℕ)
    → Sent f.name f.value all
    → eq_octets f.name name ≡ true
    → Sent name f.value all
named all f name here same = subst (λ s. Sent s f.value all) (eq_octets_same f.name name same) here

-- A step whose result, where there is one, is from the section.
abbrev Yields : List Field → Option Gathered → Type 0
Yields all o = (next : Gathered) → o ≡ some next → Sourced all next

none-Yields : (all : List Field) → Yields all none
none-Yields all next h = absurd (cc)

some-Yields : (all : List Field) (g : Gathered) → Sourced all g → Yields all (some g)
some-Yields all g ok next h = subst (Sourced all) (ap (λ o. elim o [ none ↦ g | some n ↦ n ]) h) ok

once-Yields :
    (all : List Field) (b : Bool) (g : Gathered)
    → Sourced all g
    → Yields all (if b then none else some g)
once-Yields all b g ok =
    elim-Bool (Yields all) b none (some g) (λ h. none-Yields all) (λ h. some-Yields all g ok)

pseudo-Yields :
    (all : List Field) (g : Gathered) (f : Field)
    → Sourced all g
    → Sent f.name f.value all
    → Yields all (pseudo g f)
unfolding pseudo
pseudo-Yields all g f ok here =
    elim-Bool (Yields all) (eq_octets f.name (codes ":method")) _ _
      (λ same.
        once-Yields all (is_some g.method) (record g { method = some f.value })
          (record {
            method = λ v. taken all f _ v here same;
            scheme = ok.scheme;
            authority = ok.authority;
            path = ok.path;
            host = ok.host;
            clen = ok.clen;
          }))
      (λ other.
        elim-Bool (Yields all) (eq_octets f.name (codes ":scheme")) _ _
          (λ same.
            once-Yields all (is_some g.scheme) (record g { scheme = some f.value })
              (record {
                method = ok.method;
                scheme = λ v. taken all f _ v here same;
                authority = ok.authority;
                path = ok.path;
                host = ok.host;
                clen = ok.clen;
              }))
          (λ other.
            elim-Bool (Yields all) (eq_octets f.name (codes ":authority")) _ _
              (λ same.
                once-Yields all (is_some g.authority) (record g { authority = some f.value })
                  (record {
                    method = ok.method;
                    scheme = ok.scheme;
                    authority = λ v. taken all f _ v here same;
                    path = ok.path;
                    host = ok.host;
                    clen = ok.clen;
                  }))
              (λ other.
                elim-Bool (Yields all) (eq_octets f.name (codes ":path")) _ _
                  (λ same.
                    once-Yields all (is_some g.path) (record g { path = some f.value })
                      (record {
                        method = ok.method;
                        scheme = ok.scheme;
                        authority = ok.authority;
                        path = λ v. taken all f _ v here same;
                        host = ok.host;
                        clen = ok.clen;
                      }))
                  (λ other. none-Yields all))))

noted-Sourced :
    (all : List Field) (g : Gathered) (f : Field)
    → Sourced all g
    → Sent f.name f.value all
    → Sourced all (noted g f)
unfolding noted
noted-Sourced all g f ok here =
    elim-Bool (Sourced all) (eq_octets f.name (codes "content-length")) _ _
      (λ same. record {
        method = ok.method;
        scheme = ok.scheme;
        authority = ok.authority;
        path = ok.path;
        host = ok.host;
        clen = inr (named all f _ here same);
      })
      (λ other.
        elim-Bool (Sourced all) (eq_octets f.name (codes "host")) _ _
          (λ same. record {
            method = ok.method;
            scheme = ok.scheme;
            authority = ok.authority;
            path = ok.path;
            host = inr (named all f _ here same);
            clen = ok.clen;
          })
          (λ other.
            elim-Bool (Sourced all) (eq_octets f.name (codes "priority")) _ _
              (λ same. record {
                method = ok.method;
                scheme = ok.scheme;
                authority = ok.authority;
                path = ok.path;
                host = ok.host;
                clen = ok.clen;
              })
              (λ other. ok)))

kept-Sourced :
    (all : List Field) (g : Gathered) (f : Field) → Sourced all g → Sourced all (keep g f)
kept-Sourced all g f ok = record {
  method = ok.method;
  scheme = ok.scheme;
  authority = ok.authority;
  path = ok.path;
  host = ok.host;
  clen = ok.clen;
}

gather-Yields :
    (all : List Field) (g : Gathered) (f : Field)
    → Sourced all g
    → Sent f.name f.value all
    → Yields all (gather g f)
unfolding gather
gather-Yields all g f ok here =
    elim-Bool (Yields all) (not (check_field f)) _ _ (λ h. none-Yields all)
      (λ h.
        elim-Bool (Yields all) (is_pseudo f) _ _
          (λ h.
            elim-Bool (Yields all) g.regular _ _ (λ h. none-Yields all)
              (λ h. pseudo-Yields all g f ok here))
          (λ h.
            elim-Bool (Yields all) (not (check_regular f)) _ _ (λ h. none-Yields all)
              (λ h.
                some-Yields all (keep (noted g f) f)
                  (kept-Sourced all (noted g f) f (noted-Sourced all g f ok here)))))

gather_all-Yields :
    (all : List Field) (g last : Gathered) (fields : List Field)
    → Sourced all g
    → Within fields all
    → gather_all g fields ≡ some last
    → Sourced all last
unfolding gather_all
gather_all-Yields all g last [] ok within h = some-Yields all g ok last h
gather_all-Yields all g last (f ∷ fields) ok within h =
    let (next, step, rest) = bound (gather g f) (λ next. gather_all next fields) last h in
    gather_all-Yields all next last fields
      (gather-Yields all g f ok (within f.name f.value (inl (refl, refl))) next step)
      (λ name v here. within name v (inr here)) rest

pub gather_all-Sourced :
    (last : Gathered) (fields : List Field)
    → gather_all nothing fields ≡ some last
    → Sourced fields last
gather_all-Sourced last fields h =
    gather_all-Yields fields nothing last fields
      (record {
        method = λ v e. absurd (cc);
        scheme = λ v e. absurd (cc);
        authority = λ v e. absurd (cc);
        path = λ v e. absurd (cc);
        host = inl refl;
        clen = inl refl;
      })
      (λ name v here. here) h

-- A part of a request that is empty or is the value of a field with this name.
abbrev pub SentIfAny : List ℕ → List ℕ → List Field → Type 0
SentIfAny name v all = (v ≡ []) ⊎ Sent name v all

pub text-SentIfAny :
    (all : List Field) (name : List ℕ) (o : Option (List ℕ))
    → ((v : List ℕ) → o ≡ some v → Sent name v all)
    → SentIfAny name (text o) all
text-SentIfAny all name none h = inl refl
text-SentIfAny all name (some v) h = inr (h v refl)

pub text-Sent :
    (all : List Field) (name : List ℕ) (o : Option (List ℕ))
    → ((v : List ℕ) → o ≡ some v → Sent name v all)
    → is_some o ≡ true
    → Sent name (text o) all
text-Sent all name none h given = absurd (cc)
text-Sent all name (some v) h given = h v refl

-- The authority comes from the Host field, or from the pseudo-header field.
pub authority_from :
    (all : List Field) (g : Gathered) (authority : List ℕ)
    → Sourced all g
    → (authority ≡ g.host) ⊎ (authority ≡ text g.authority)
    → SentIfAny (codes "host") authority all ⊎ SentIfAny (codes ":authority") authority all
authority_from all g authority ok (inl host) =
    inl (subst (λ a. SentIfAny (codes "host") a all) (sym host) ok.host)
authority_from all g authority ok (inr given) = inr (
    subst (λ a. SentIfAny (codes ":authority") a all) (sym given)
      (text-SentIfAny all (codes ":authority") g.authority ok.authority))

pub length_from :
    (all : List Field) (g : Gathered) (n : ℕ)
    → Sourced all g
    → (g.clens == 0) ≡ false
    → value 0 g.clen ≡ n
    → (v : List ℕ) × Sent (codes "content-length") v all × (value 0 v ≡ n)
length_from all g n ok given decimal = elim ok.clen [
  | inl missing ↦ absurd (ground (arith, missing))
  | inr here ↦ (g.clen, here, decimal)
]

-- ===== src/Frame/Reader/Preface.antt =====
-- ReadPreface of internal/frame/reader.go (RFC 9113 section 3.4). What a preface of another kind
-- looks like goes into the error's text alone.
use zerodeps_hackk.Base.{
  IsOctets, IsOctets-drop, Bool, ℕ, ◌≡◌, ◌⊎◌, refl, sym, ap, ◌∙◌, true, false, leb, if◌then◌else◌,
  List, [], ◌∷◌, ◌++◌, Option, none, some, length, eq_octets, eq_octets_same, arith, inl, inr,
  Bool-cases, append-take-drop,
}
use zerodeps_hackk.H2.{Error, conn_error, protocol_error}
use zerodeps_hackk.Frame.Reader.{Reader, Filled, filled, ended, read_full}

-- "PRI * HTTP/2.0\r\n\r\nSM\r\n\r\n"
abbrev pub client_preface : List ℕ
client_preface =
    80 ∷ 82 ∷ 73 ∷ 32 ∷ 42 ∷ 32 ∷ 72 ∷ 84 ∷ 84 ∷ 80 ∷ 47 ∷ 50 ∷ 46 ∷ 48 ∷ 13 ∷ 10 ∷ 13 ∷ 10 ∷ 83
    ∷ 77 ∷ 13 ∷ 10 ∷ 13 ∷ 10 ∷ []

unfoldable pub read_preface : Reader → Reader × Option Error
read_preface rd = elim (read_full 24 rd.input) [
  | ended e ↦ (record rd { input = [] }, some e)
  | filled got rest ↦
      if eq_octets got client_preface
      then (record rd { input = rest }, none)
      else (record rd { input = rest }, some (conn_error protocol_error))
]

-- Where the reader stands after the preface, if it was one.
abbrev pub Prefaced : Reader → Reader × Option Error → Type 0
Prefaced rd (rd', none) = rd.input ≡ client_preface ++ rd'.input
Prefaced rd (rd', some e) = Unit {0}

-- Only the octets change, and those left were there before.
abbrev pub PastOctets : Reader → Reader × Option Error → Type 0
PastOctets rd (rd', o) = (rest : List ℕ) × IsOctets rest × (rd' ≡ record rd { input = rest })

abbrev RestOctets : Filled → Type 0
RestOctets (filled got rest) = IsOctets rest
RestOctets (ended e) = Unit {0}

read_full-RestOctets : (n : ℕ) (input : List ℕ) → IsOctets input → RestOctets (read_full n input)
read_full-RestOctets n input octets = elim (Bool-cases (leb n (length input))) [
  | inl enough ↦ rw enough (IsOctets-drop n input octets)
  | inr short ↦ rw short (ground arith)
]

pub read_preface-PastOctets : (rd : Reader) → IsOctets rd.input → PastOctets rd (read_preface rd)
unfolding read_preface
read_preface-PastOctets rd octets =
    from (read_full 24 rd.input) (read_full-RestOctets 24 rd.input octets)
  where
    tested :
        (b : Bool) (rest : List ℕ)
        → IsOctets rest
        → (let r : Reader × Option Error =
              if b
              then (record rd { input = rest }, none)
              else (record rd { input = rest }, some (conn_error protocol_error)) in
            PastOctets rd r)
    tested true rest h = (rest, h, refl)
    tested false rest h = (rest, h, refl)

    from :
        (r : Filled)
        → RestOctets r
        → PastOctets rd (elim r as (λ r. Reader × Option Error) [
          | ended e ↦ (record rd { input = [] }, some e)
          | filled got rest ↦
              if eq_octets got client_preface
              then (record rd { input = rest }, none)
              else (record rd { input = rest }, some (conn_error protocol_error))
        ])
    from (ended e) h = ([], tt, refl)
    from (filled got rest) h = tested (eq_octets got client_preface) rest h

-- `ReadPreface` accepts the 24 octets of the client preface and nothing else, and leaves the reader
-- at the octet that follows them.
pub read_preface-Prefaced :
    (rd : Reader) (rest : List ℕ)
    → Prefaced rd (read_preface rd)
      × (read_preface (record rd { input = client_preface ++ rest })
          ≡ (record rd { input = rest }, none))
unfolding read_preface
read_preface-Prefaced rd rest = (
  only (read_full 24 rd.input) (parts (Bool-cases (leb 24 (length rd.input)))),
  rw (long, read_preface) refl,
)
  where
    long : leb 24 (length (client_preface ++ rest)) ≡ true
    long = ground arith

    Parts : Filled → Type 0
    Parts (filled got left) = got ++ left ≡ rd.input
    Parts (ended e) = Unit {0}

    parts :
        (leb 24 (length rd.input) ≡ true) ⊎ (leb 24 (length rd.input) ≡ false)
        → Parts (read_full 24 rd.input)
    parts (inl enough) = rw enough (append-take-drop 24 rd.input)
    parts (inr short) = rw short (ground arith)

    only :
        (r : Filled)
        → Parts r
        → Prefaced rd (elim r as (λ r. Reader × Option Error) [
          | ended e ↦ (record rd { input = [] }, some e)
          | filled got left ↦
              if eq_octets got client_preface
              then (record rd { input = left }, none)
              else (record rd { input = left }, some (conn_error protocol_error))
        ])
    only (ended e) k = tt
    only (filled got left) k = elim (Bool-cases (eq_octets got client_preface)) [
      | inl same ↦ rw same (sym k ∙ ap (λ b. b ++ left) (eq_octets_same got client_preface same))
      | inr other ↦ rw other tt
    ]

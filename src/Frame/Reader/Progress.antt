-- ===== src/Frame/Reader/Progress.antt =====
-- The loop of ReadFrame in internal/frame/reader.go: what ends it, on any octets.
use zerodeps_hackk.Base.{
  IsOctets, IsOctets-take, IsOctets-drop, ℕ, zero, suc, ◌+◌, ◌%◌, ◌^◌, ◌<◌, ◌≡◌, refl, Bool, true,
  false, ltb, leb, if◌then◌else◌, List, [], ◌∷◌, Option, none, some, length, take, drop, arith, inl,
  inr, Bool-cases, length-take, length-drop,
}
use zerodeps_hackk.H2.{Error}
use zerodeps_hackk.Frame.Types.{Frame, headers, push_promise, continuation}
use zerodeps_hackk.Frame.Wire.{Parsed, parsed, refused, crashed}
use zerodeps_hackk.Frame.Header.{Header, parse_header}
use zerodeps_hackk.Frame.Parse.{parsers}
use zerodeps_hackk.Frame.WellFormed.{WellFormed}
use zerodeps_hackk.Frame.ParseSafety.{Yields}
use zerodeps_hackk.Frame.ParseSafety.Settings.{parsers-Yields}
use zerodeps_hackk.Frame.Reader.{
  Reader, header_len, Round, arrived, stopped, crash, again, Filled, filled, ended, read_full,
  tracked, track_block, begin_block, extend_block, finish_frame, check_block_limits, take_payload,
  take_header, check_continuity, read_round, read_frame_in, read_frame, unexpected_eof,
}

-- A round from `n` octets: a frame that keeps the rules of its type, an error, or another round
-- with fewer octets; and what is left is octets.
abbrev pub Advances : ℕ → Round → Type 0
Advances n (arrived f rd) = WellFormed f × IsOctets rd.input × (length rd.input < n)
Advances n (stopped e rd) = Unit {0}
Advances n crash = ⊥
Advances n (again rd) = IsOctets rd.input × (length rd.input < n)

-- The octets that a fill takes are as many as it was asked for.
abbrev Fills : ℕ → List ℕ → Filled → Type 0
Fills n input (filled b rest) =
    (length b ≡ n) × IsOctets b × IsOctets rest × (length rest + n ≡ length input)
Fills n input (ended e) = Unit {0}

read_full-Fills : (n : ℕ) (input : List ℕ) → IsOctets input → Fills n input (read_full n input)
read_full-Fills n input v = elim (Bool-cases (leb n (length input))) [
  | inl enough ↦
      rw enough (taken enough, IsOctets-take n input v, IsOctets-drop n input v, left enough)
  | inr short ↦ rw short (ground arith)
]
  where
    taken : leb n (length input) ≡ true → length (take n input) ≡ n
    taken e = ground (arith, length-take n input)

    left : leb n (length input) ≡ true → length (drop n input) + n ≡ length input
    left e = ground (arith, length-drop n input)

finish_frame-Advances :
    (n : ℕ) (rd : Reader) (f : Frame) (end_headers : Bool)
    → WellFormed f
    → IsOctets rd.input
    → length rd.input < n
    → Advances n (tracked f (finish_frame rd end_headers))
unfolding finish_frame
finish_frame-Advances n rd f end_headers v octets less = go end_headers (check_block_limits rd)
  where
    go :
        (b : Bool) (o : Option Error)
        → Advances n (
            tracked f (
              if b then record rd { block_stream = 0; block_size = 0; continuations = 0 } else rd,
              o,
            ))
    go true none = (v, octets, less)
    go false none = (v, octets, less)
    go b (some e) = tt

tracked-Advances :
    (n : ℕ) (rd : Reader) (f : Frame)
    → WellFormed f
    → IsOctets rd.input
    → length rd.input < n
    → Advances n (tracked f (track_block rd f))
unfolding track_block begin_block extend_block
tracked-Advances n rd (headers f) v octets less =
    finish_frame-Advances n
      (record rd { block_stream = f.stream_id; block_size = length f.fragment; continuations = 0 })
      (headers f) f.end_headers v octets less
tracked-Advances n rd (push_promise f) v octets less =
    finish_frame-Advances n
      (record rd { block_stream = f.stream_id; block_size = length f.fragment; continuations = 0 })
      (push_promise f) f.end_headers v octets less
tracked-Advances n rd (continuation f) v octets less =
    finish_frame-Advances n
      (record rd {
        block_size = (rd.block_size + length f.fragment) % 2 ^ 64;
        continuations = suc rd.continuations;
      })
      (continuation f) f.end_headers v octets less
tracked-Advances n rd _ v octets less = (v, octets, less)

take_payload-Advances :
    (n : ℕ) (rd : Reader) (h : Header) (payload : List ℕ)
    → length payload ≡ h.len
    → IsOctets payload
    → h.stream_id < 2 ^ 31
    → IsOctets rd.input
    → length rd.input < n
    → Advances n (take_payload rd h payload)
unfolding take_payload
take_payload-Advances n rd h payload len v id octets less =
    go (parsers h.kind) (parsers-Yields h payload len v id)
  where
    answered :
        (p : Parsed Frame)
        → Yields WellFormed p
        → Advances n (elim p [
          | parsed f ↦ tracked f (track_block rd f)
          | refused e ↦ stopped e rd
          | crashed ↦ crash
        ])
    answered (parsed f) y = tracked-Advances n rd f y octets less
    answered (refused e) y = tt
    answered crashed y = y

    go :
        (o : Option (Header → List ℕ → Parsed Frame))
        → ((parse : Header → List ℕ → Parsed Frame)
            → o ≡ some parse
            → Yields WellFormed (parse h payload))
        → Advances n (elim o [
          | none ↦ again rd
          | some parse ↦ elim (parse h payload) [
            | parsed f ↦ tracked f (track_block rd f)
            | refused e ↦ stopped e rd
            | crashed ↦ crash
          ]
        ])
    go none k = (octets, less)
    go (some parse) k = answered (parse h payload) (k parse refl)

take_header-Advances :
    (n : ℕ) (rd : Reader) (h : Header)
    → h.stream_id < 2 ^ 31
    → IsOctets rd.input
    → length rd.input < n
    → Advances n (take_header rd h)
unfolding take_header
take_header-Advances n rd h id octets less = elim (Bool-cases (ltb rd.max_frame_size h.len)) [
  | inl large ↦ rw large tt
  | inr apt ↦ rw apt (go (check_continuity rd h))
]
  where
    from :
        (r : Filled)
        → Fills h.len rd.input r
        → Advances n (elim r [
          | filled payload rest ↦ take_payload (record rd { input = rest }) h payload
          | ended e ↦ stopped unexpected_eof (record rd { input = [] })
        ])
    from (filled b rest) (len, v, w, left) =
        take_payload-Advances n (record rd { input = rest }) h b len v id w (omega arith)
    from (ended e) k = tt

    go :
        (o : Option Error)
        → Advances n (elim o [
          | some e ↦ stopped e rd
          | none ↦ elim (read_full h.len rd.input) [
            | filled payload rest ↦ take_payload (record rd { input = rest }) h payload
            | ended e ↦ stopped unexpected_eof (record rd { input = [] })
          ]
        ])
    go (some e) = tt
    go none = from (read_full h.len rd.input) (read_full-Fills h.len rd.input octets)

-- Nine octets are a header whose stream identifier is in range.
parse_header-fits :
    (b : List ℕ) → length b ≡ 9 → (h : Header) × (parse_header b ≡ some h) × (h.stream_id < 2 ^ 31)
unfolding parse_header
parse_header-fits (a ∷ b ∷ c ∷ k ∷ f ∷ s ∷ t ∷ u ∷ v ∷ bs) e = (_, refl, omega arith)
parse_header-fits _ e = absurd (ground arith)

read_round-Advances : (rd : Reader) → IsOctets rd.input → Advances (length rd.input) (read_round rd)
unfolding read_round
read_round-Advances rd octets =
    from (read_full header_len rd.input) (read_full-Fills header_len rd.input octets)
  where
    from :
        (r : Filled)
        → Fills header_len rd.input r
        → Advances (length rd.input) (elim r [
          | ended e ↦ stopped e (record rd { input = [] })
          | filled hdr rest ↦ elim (parse_header hdr) [
            | none ↦ crash
            | some h ↦ take_header (record rd { input = rest }) h
          ]
        ])
    from (ended e) k = tt
    from (filled b rest) (len, v, w, left) =
        let (h, e, id) = parse_header-fits b len in
        rw e
          (take_header-Advances (length rd.input) (record rd { input = rest }) h id w (omega arith))

-- What the loop may answer: no panic, and no more rounds to come.
abbrev pub Answers : Round → Type 0
Answers (arrived f rd) = WellFormed f × IsOctets rd.input
Answers (stopped e rd) = Unit {0}
Answers crash = ⊥
Answers (again rd) = ⊥

read_frame_in-Answers :
    (fuel : ℕ) (rd : Reader)
    → IsOctets rd.input
    → length rd.input < fuel
    → Answers (read_frame_in fuel rd)
unfolding read_frame_in
read_frame_in-Answers zero rd v enough = absurd (omega arith)
read_frame_in-Answers (suc fuel) rd v enough =
    go (λ rd' w less. read_frame_in-Answers fuel rd' w (omega arith)) (read_round rd)
      (read_round-Advances rd v)
  where
    go :
        ((rd' : Reader)
          → IsOctets rd'.input
          → length rd'.input < length rd.input
          → Answers (read_frame_in fuel rd'))
        → (r : Round) → Advances (length rd.input) r
        → Answers (elim r [
          | again rd' ↦ read_frame_in fuel rd'
          | arrived f rd' ↦ arrived f rd'
          | stopped e rd' ↦ stopped e rd'
          | crash ↦ crash
        ])
    go k (arrived f rd') a = (a.0, a.1)
    go k (stopped e rd') a = tt
    go k crash a = a
    go k (again rd') a = k rd' a.0 a.1

-- Whatever octets the peer sends, and whatever state the reader is in, `ReadFrame` returns and does
-- not panic: with an error, or with a frame whose fields are in range and keep the rules of its
-- type.
pub read_frame-Answers : (rd : Reader) → IsOctets rd.input → Answers (read_frame rd)
read_frame-Answers rd v = read_frame_in-Answers (suc (length rd.input)) rd v (omega arith)

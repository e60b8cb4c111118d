-- ===== src/Frame/Reader/Continuity.antt =====
-- The rule on header blocks over the loop of ReadFrame in internal/frame/reader.go.
use zerodeps_hackk.Base.{
  ℕ, zero, suc, ◌≤◌, ◌≡◌, ◌≢◌, refl, sym, subst, true, false, ◌==◌, ltb, List, [], Option, none,
  some, length, arith, inl, inr, Bool-cases, length-take,
}
use zerodeps_hackk.H2.{Error}
use zerodeps_hackk.Frame.Types.{Frame, headers, push_promise, continuation}
use zerodeps_hackk.Frame.Wire.{Parsed, parsed, refused, crashed}
use zerodeps_hackk.Frame.Header.{Header, parse_header, type_continuation}
use zerodeps_hackk.Frame.Payload.{type_of, stream_of}
use zerodeps_hackk.Frame.Parse.{parsers, parse_continuation}
use zerodeps_hackk.Frame.Reader.{
  Reader, header_len, Round, arrived, stopped, crash, again, Filled, filled, ended, read_full,
  tracked, track_block, take_payload, take_header, check_continuity, read_round, read_frame_in,
  read_frame, unexpected_eof,
}
use zerodeps_hackk.Frame.Reader.Names.{May, Names, parsers-Names}
use zerodeps_hackk.Frame.Reader.Blocks.{Reads, Steps, Admitted, tracked-Reads}

-- The fragment of a CONTINUATION is no longer than its header says.
abbrev Short : Header → Frame → Type 0
Short h (continuation f) = length f.fragment ≤ h.len
Short h _ = Unit {0}

other-Short : (h : Header) (f : Frame) → Names h h.kind f → h.kind ≢ type_continuation → Short h f
unfolding type_of
other-Short h (continuation f) n other = absurd (other (sym n.0))
other-Short h _ n other = tt

parse_continuation-Short :
    (h : Header) (b : List ℕ)
    → May (λ f. Names h type_continuation f × Short h f) (parse_continuation h b)
unfolding parse_continuation type_of stream_of
parse_continuation-Short h b = ground (arith, length-take h.len b)

parse-Short :
    (h : Header) (b : List ℕ) (parse : Header → List ℕ → Parsed Frame)
    → parsers h.kind ≡ some parse
    → May (λ f. Names h h.kind f × Short h f) (parse h b)
unfolding parsers parse_continuation
parse-Short h b parse e = elim (Bool-cases (h.kind == type_continuation)) [
  | inl same ↦ rw e at (known (kind same))
  | inr other ↦ short (parse h b) (parsers-Names h b parse e) (differs other)
]
  where
    Known : Option (Header → List ℕ → Parsed Frame) → Type 0
    Known none = Unit {0}
    Known (some p) = May (λ f. Names h h.kind f × Short h f) (p h b)

    kind : (h.kind == type_continuation) ≡ true → h.kind ≡ type_continuation
    kind q = ground arith

    differs : (h.kind == type_continuation) ≡ false → h.kind ≢ type_continuation
    differs q same = ground arith

    known : h.kind ≡ type_continuation → Known (parsers h.kind)
    known q = rw (q, parsers) (parse_continuation-Short h b)

    short :
        (p : Parsed Frame)
        → May (Names h h.kind) p
        → h.kind ≢ type_continuation
        → May (λ f. Names h h.kind f × Short h f) p
    short (parsed f) n other = (n, other-Short h f n other)
    short (refused x) n other = tt
    short crashed n other = tt

-- From the check on a header to what it says of the frame.
admits :
    (rd : Reader) (h : Header) (f : Frame)
    → check_continuity rd h ≡ none
    → h.len ≤ rd.max_frame_size
    → Names h h.kind f
    → Short h f
    → Admitted rd f
unfolding check_continuity type_of stream_of
admits rd h (continuation f) e le n k = ground (arith, n.0, n.1)
admits rd h _ e le n k = ground (arith, n.0)

take_payload-Reads :
    (rd : Reader) (h : Header) (b : List ℕ)
    → check_continuity rd h ≡ none
    → h.len ≤ rd.max_frame_size
    → Reads rd (take_payload rd h b)
unfolding take_payload
take_payload-Reads rd h b e le = go (parsers h.kind) (parse-Short h b)
  where
    answered :
        (p : Parsed Frame)
        → May (λ f. Names h h.kind f × Short h f) p
        → Reads rd (elim p [
          | parsed f ↦ tracked f (track_block rd f)
          | refused x ↦ stopped x rd
          | crashed ↦ crash
        ])
    answered (parsed f) (n, k) = tracked-Reads rd f (admits rd h f e le n k)
    answered (refused x) n = tt
    answered crashed n = tt

    go :
        (o : Option (Header → List ℕ → Parsed Frame))
        → ((parse : Header → List ℕ → Parsed Frame)
            → o ≡ some parse
            → May (λ f. Names h h.kind f × Short h f) (parse h b))
        → Reads rd (elim o [
          | none ↦ again rd
          | some parse ↦ elim (parse h b) [
            | parsed f ↦ tracked f (track_block rd f)
            | refused x ↦ stopped x rd
            | crashed ↦ crash
          ]
        ])
    go none k = refl
    go (some parse) k = answered (parse h b) (k parse refl)

Reads-input :
    (rd : Reader) (input : List ℕ) (r : Round) → Reads (record rd { input = input }) r → Reads rd r
Reads-input rd input (arrived f rd') (v, same) = (go f v, same)
  where
    go : (f : Frame) → Steps (record rd { input = input }) f rd' → Steps rd f rd'
    go (headers f) v = v
    go (push_promise f) v = v
    go (continuation f) v = v
    go _ v = v
Reads-input rd input (stopped e rd') v = tt
Reads-input rd input crash v = tt
Reads-input rd input (again rd') v = v

-- The check reads nothing of the octets to come.
unread :
    (rd : Reader) (h : Header) (rest : List ℕ)
    → check_continuity rd h ≡ none
    → check_continuity (record rd { input = rest }) h ≡ none
unfolding check_continuity
unread rd h rest e = e

take_header-Reads : (rd : Reader) (h : Header) → Reads rd (take_header rd h)
unfolding take_header
take_header-Reads rd h = elim (Bool-cases (ltb rd.max_frame_size h.len)) [
  | inl large ↦ rw large tt
  | inr apt ↦ rw apt (go (check_continuity rd h) refl (ground arith))
]
  where
    from :
        check_continuity rd h ≡ none
        → h.len ≤ rd.max_frame_size
        → (r : Filled)
        → Reads rd (elim r [
          | filled payload rest ↦ take_payload (record rd { input = rest }) h payload
          | ended e ↦ stopped unexpected_eof (record rd { input = [] })
        ])
    from ok le (filled b rest) =
        Reads-input rd rest _
          (take_payload-Reads (record rd { input = rest }) h b (unread rd h rest ok) le)
    from ok le (ended e) = tt

    go :
        (o : Option Error)
        → check_continuity rd h ≡ o
        → h.len ≤ rd.max_frame_size
        → Reads rd (elim o [
          | some e ↦ stopped e rd
          | none ↦ elim (read_full h.len rd.input) [
            | filled payload rest ↦ take_payload (record rd { input = rest }) h payload
            | ended e ↦ stopped unexpected_eof (record rd { input = [] })
          ]
        ])
    go (some e) q le = tt
    go none q le = from q le (read_full h.len rd.input)

read_round-Reads : (rd : Reader) → Reads rd (read_round rd)
unfolding read_round
read_round-Reads rd = from (read_full header_len rd.input)
  where
    under :
        (rest : List ℕ) (o : Option Header)
        → Reads rd (elim o [ none ↦ crash | some h ↦ take_header (record rd { input = rest }) h ])
    under rest none = tt
    under rest (some h) = Reads-input rd rest _ (take_header-Reads (record rd { input = rest }) h)

    from :
        (r : Filled)
        → Reads rd (elim r [
          | ended e ↦ stopped e (record rd { input = [] })
          | filled hdr rest ↦ elim (parse_header hdr) [
            | none ↦ crash
            | some h ↦ take_header (record rd { input = rest }) h
          ]
        ])
    from (ended e) = tt
    from (filled hdr rest) = under rest (parse_header hdr)

read_frame_in-Reads : (fuel : ℕ) (rd : Reader) → Reads rd (read_frame_in fuel rd)
unfolding read_frame_in
read_frame_in-Reads zero rd = refl
read_frame_in-Reads (suc fuel) rd =
    go (λ u. read_frame_in-Reads fuel u) (read_round rd) (read_round-Reads rd)
  where
    go :
        ((u : Reader) → Reads u (read_frame_in fuel u))
        → (r : Round) → Reads rd r
        → Reads rd (elim r [
          | again u ↦ read_frame_in fuel u
          | arrived f u ↦ arrived f u
          | stopped e u ↦ stopped e u
          | crash ↦ crash
        ])
    go k (arrived f u) v = v
    go k (stopped e u) v = tt
    go k crash v = tt
    go k (again u) v =
        Reads-input rd u.input _ (subst (λ x. Reads x (read_frame_in fuel u)) v (k u))

-- A frame that `ReadFrame` returns keeps the rule of RFC 9113 section 6.10 on header blocks: one
-- that begins a block, or that has nothing to do with one, comes where none is open, and while one
-- is open only a CONTINUATION of its stream comes. The reader counts the octets and the frames of
-- the block, and none that it returns takes them over their bounds, the last one included.
pub read_frame-Reads : (rd : Reader) → Reads rd (read_frame rd)
read_frame-Reads rd = read_frame_in-Reads (suc (length rd.input)) rd

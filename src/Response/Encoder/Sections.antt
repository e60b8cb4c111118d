-- ===== src/Response/Encoder/Sections.antt =====
-- What WriteHeaders and WriteTrailers of internal/response/encoder.go send.
use zerodeps_hackk.Base.{
  ℕ, ◌≤◌, ◌<◌, ◌≡◌, refl, sym, ap, Bool, true, false, ltb, List, Option, none, some, if◌then◌else◌,
  arith,
}
use zerodeps_hackk.H2.{Error, Field}
use zerodeps_hackk.Stream.State.{Writer}
use zerodeps_hackk.Response.Fields.{Section, section_header, section_trailer, check_section}
use zerodeps_hackk.Response.Fields.Shape.{Shape, check_section-Shape}
use zerodeps_hackk.Response.Encoder.{
  EncodingCodec, Transport, SectionEncoder, list_size, check_list_size, split_at, write_block,
  write_section, write_headers, write_trailers, err_malformed_response, err_header_list_too_large,
}
use zerodeps_hackk.Response.Encoder.Delivery.{Delivered, write_block-Delivered}

module _ {C W : Type 0} where
  -- No larger than the peer's SETTINGS_MAX_HEADER_LIST_SIZE, where it has sent one.
  abbrev pub Within : SectionEncoder C W → List Field → Type 0
  Within e fields = (n : ℕ) → e.max_list ≡ some n → list_size fields ≤ n

module _ {C W : Type 0} ⦃codec : EncodingCodec C⦄ ⦃transport : Transport W⦄
    ⦃writer : Writer W⦄ where
  -- A section of the kind's shape and within the peer's limit is on its way as one block.
  pub record SectionSent (kind : Section) (e : SectionEncoder C W) (id : ℕ) (fields : List Field)
      (end_stream : Bool) (next : SectionEncoder C W) : Type 0 where
    pub shape : Shape kind fields
    pub within : Within e fields
    pub delivered :
        Delivered id (split_at e.t) end_stream e.t (codec.encode e.codec fields).0 next.t
    pub context : next.codec ≡ (codec.encode e.codec fields).1
    pub limit : next.max_list ≡ e.max_list

module _ {W : Type 0} ⦃transport : Transport W⦄ where
  pub split_at_positive : (t : W) → 0 < split_at t
  unfolding split_at
  split_at_positive t = ground arith

module _ {C W : Type 0} where
  check_list_size-Within :
      (e : SectionEncoder C W) (fields : List Field)
      → check_list_size e fields ≡ none
      → Within e fields
  unfolding check_list_size
  check_list_size-Within e fields h n set =
      let k : (if ltb n (list_size fields) then some err_header_list_too_large else none) ≡ none =
        rw set at h in
      ground arith

  unrefused :
      (e : SectionEncoder C W) (o : Option Error) (r : SectionEncoder C W × Option Error)
      (next : SectionEncoder C W)
      → (elim o [ some err ↦ (e, some err) | none ↦ r ]) ≡ (next, none)
      → (o ≡ none) × (r ≡ (next, none))
  unrefused e none r next h = (refl, h)
  unrefused e (some err) r next h = absurd (cc)

  well_formed :
      (b : Bool) (r : SectionEncoder C W × Option Error) (e next : SectionEncoder C W)
      → (if b then r else (e, some err_malformed_response)) ≡ (next, none)
      → (b ≡ true) × (r ≡ (next, none))
  well_formed true r e next h = (refl, h)
  well_formed false r e next h = absurd (cc)

module _ {C W : Type 0} ⦃codec : EncodingCodec C⦄ ⦃transport : Transport W⦄
    ⦃writer : Writer W⦄ where
  write_section-Sent :
      (kind : Section) (e : SectionEncoder C W) (id : ℕ) (fields : List Field) (end_stream : Bool)
      (next : SectionEncoder C W)
      → check_section kind fields ≡ true
      → write_section e id fields end_stream ≡ (next, none)
      → SectionSent kind e id fields end_stream next
  unfolding write_section
  write_section-Sent kind e id fields end_stream next ok h =
      let (fits, made) =
        unrefused e (check_list_size e fields)
          (
            record e {
              codec = (codec.encode e.codec fields).1;
              t = (write_block e.t id (split_at e.t) (codec.encode e.codec fields).0 end_stream).0;
            },
            (write_block e.t id (split_at e.t) (codec.encode e.codec fields).0 end_stream).1,
          )
          next h in
      record {
        shape = check_section-Shape kind fields ok;
        within = check_list_size-Within e fields fits;
        delivered =
            write_block-Delivered e.t id (split_at e.t) (codec.encode e.codec fields).0 end_stream
              next.t (split_at_positive e.t) (ap (λ r. (r.0.t, r.1)) made);
        context = sym (ap (λ r. r.0.codec) made);
        limit = sym (ap (λ r. r.0.max_list) made);
      }

  -- A header section that is sent without an error is a status of three digits and regular fields
  -- behind it, is within the peer's limit, and is carried whole by one HEADERS frame and CONTINUATION
  -- frames behind it, none longer than the peer allows and END_HEADERS on the last alone.
  pub write_headers-Sent :
      (e : SectionEncoder C W) (id : ℕ) (fields : List Field) (end_stream : Bool)
      (next : SectionEncoder C W)
      → write_headers e id fields end_stream ≡ (next, none)
      → SectionSent section_header e id fields end_stream next
  unfolding write_headers
  write_headers-Sent e id fields end_stream next h =
      let (ok, made) =
        well_formed (check_section section_header fields) (write_section e id fields end_stream) e
          next h in
      write_section-Sent section_header e id fields end_stream next ok made

  -- A trailer section that is sent without an error is regular fields, is within the peer's limit, and is
  -- carried whole by frames of which the first ends the stream.
  pub write_trailers-Sent :
      (e : SectionEncoder C W) (id : ℕ) (fields : List Field) (next : SectionEncoder C W)
      → write_trailers e id fields ≡ (next, none)
      → SectionSent section_trailer e id fields true next
  unfolding write_trailers
  write_trailers-Sent e id fields next h =
      let (ok, made) =
        well_formed (check_section section_trailer fields) (write_section e id fields true) e next
          h in
      write_section-Sent section_trailer e id fields true next ok made

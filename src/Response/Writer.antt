-- ===== src/Response/Writer.antt =====
-- internal/response/writer.go: one stream's response. What other goroutines do to the connection
-- between two steps is part of the transport and of the credit, whose instances may do anything.
pub mod Order
pub mod Content
pub mod Lending
use zerodeps_hackk.Base.{
  ℕ, zero, suc, ◌+◌, Bool, true, false, ◌&&◌, not, ◌==◌, ltb, eq_octets, if◌then◌else◌, List, [],
  ◌∷◌, Option, none, some, length, get_or, take, drop, min,
}
use zerodeps_hackk.H2.{Error, external, Field}
use zerodeps_hackk.Frame.Types.{Frame, data_frame}
use zerodeps_hackk.Stream.State.{Writer}
use zerodeps_hackk.Response.Fields.{section_header, section_trailer, check_section, pseudo_status}
use zerodeps_hackk.Response.Encoder.{
  EncodingCodec, Transport, SectionEncoder, split_at, write_section, err_malformed_response,
}

abbrev pub err_no_header : Error
err_no_header = external 22

abbrev pub err_header_written : Error
err_header_written = external 23

abbrev pub err_done : Error
err_done = external 24

abbrev pub err_informational_end : Error
err_informational_end = external 25

-- `Reserve`: the octets granted, or why there never will be any.
pub record Credit (R : Type 0) : Type 0 where
  pub reserve : R → ℕ → ℕ → R × ℕ × Option Error

pub record ResponseWriter (C W R : Type 0) : Type 0 where
  pub enc : SectionEncoder C W
  pub credit : R
  pub id : ℕ
  pub wrote_header : Bool
  pub closed : Bool

unfoldable pub informational : List Field → Bool
informational [] = false
informational (f ∷ fields) =
    if eq_octets f.name pseudo_status
    then not (length f.value == 0) && get_or f.value 0 0 == b'1'
    else informational fields

abbrev pub data_of : ℕ → Bool → List ℕ → Frame
data_of id end_stream octets = data_frame (record {
  stream_id = id;
  end_stream = end_stream;
  content = octets;
  padded = false;
  pad_len = 0;
})

module _ {C W R : Type 0} where
  unfoldable pub new_writer : SectionEncoder C W → R → ℕ → ResponseWriter C W R
  new_writer enc credit id = record {
    enc = enc;
    credit = credit;
    id = id;
    wrote_header = false;
    closed = false;
  }

module _ {C W R : Type 0} ⦃writer : Writer W⦄ where
  -- `Encoder.enqueue`.
  unfoldable pub enqueue_frame : ResponseWriter C W R → Frame → ResponseWriter C W R × Option Error
  enqueue_frame w f =
      let (t, e) = writer.enqueue w.enc.t f in (record w { enc = record w.enc { t = t } }, e)

  unfoldable pub close : ResponseWriter C W R → ResponseWriter C W R × Option Error
  close w =
      if w.closed
      then (w, none)
      else if not w.wrote_header
      then (w, some err_no_header)
      else enqueue_frame (record w { closed = true }) (data_of w.id true [])

module _ {C W R : Type 0} ⦃codec : EncodingCodec C⦄ ⦃transport : Transport W⦄
    ⦃writer : Writer W⦄ where
  -- `writeSection` on the encoder that the writer holds.
  abbrev section_of : ResponseWriter C W R → List Field → Bool → ResponseWriter C W R × Option Error
  section_of w fields end_stream =
      let (enc, e) = write_section w.enc w.id fields end_stream in (record w { enc = enc }, e)

  unfoldable pub write_header :
      ResponseWriter C W R → List Field → Bool → ResponseWriter C W R × Option Error
  write_header w fields end_stream =
      if w.closed
      then (w, some err_done)
      else if w.wrote_header
      then (w, some err_header_written)
      else if not (check_section section_header fields)
      then (w, some err_malformed_response)
      else if end_stream && informational fields
      then (w, some err_informational_end)
      else section_of (record w { wrote_header = not (informational fields); closed = end_stream })
          fields end_stream

  unfoldable pub trailers : ResponseWriter C W R → List Field → ResponseWriter C W R × Option Error
  trailers w fields =
      if w.closed
      then (w, some err_done)
      else if not w.wrote_header
      then (w, some err_no_header)
      else if not (check_section section_trailer fields)
      then (w, some err_malformed_response)
      else section_of (record w { closed = true }) fields true

module _ {C W R : Type 0} ⦃transport : Transport W⦄ ⦃writer : Writer W⦄ ⦃credits : Credit R⦄ where
  -- `for len(p) > 0`, whose rounds the first argument bounds; `sent` so far.
  unfoldable pub write_loop :
      ℕ → ResponseWriter C W R → ℕ → List ℕ → ResponseWriter C W R × ℕ × Option Error
  write_loop fuel w sent [] = (w, sent, none)
  write_loop zero w sent (b ∷ p) = (w, sent, none)
  write_loop (suc fuel) w sent (b ∷ p) =
      let (r, n, e) = credits.reserve w.credit w.id (min (length (b ∷ p)) (split_at w.enc.t)) in
      let w' : ResponseWriter C W R = record w { credit = r } in
      elim e [
        | some err ↦ (w', sent, some err)
        | none ↦
            let (w2, e2) = enqueue_frame w' (data_of w.id false (take n (b ∷ p))) in
            elim e2 [
              | some err ↦ (w2, sent, some err)
              | none ↦ write_loop fuel w2 (sent + n) (drop n (b ∷ p))
            ]
      ]

  unfoldable pub write : ResponseWriter C W R → List ℕ → ResponseWriter C W R × ℕ × Option Error
  write w p =
      if w.closed
      then (w, 0, some err_done)
      else if not w.wrote_header
      then (w, 0, some err_no_header)
      else write_loop (length p) w 0 p

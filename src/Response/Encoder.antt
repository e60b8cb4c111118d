-- ===== src/Response/Encoder.antt =====
-- internal/response/encoder.go: field sections and other frames of all streams of a connection. A
-- mutex makes each method one step. A size is a sum of lengths in memory, so it does not overflow.
pub mod Delivery
pub mod Sections
pub mod Frames
use zerodeps_hackk.Base.{
  ℕ, zero, suc, ◌+◌, ◌≤◌, Bool, true, false, ◌==◌, ltb, if◌then◌else◌, List, [], ◌∷◌, Option, none,
  some, length, take, drop, min,
}
use zerodeps_hackk.H2.{Error, external, Field}
use zerodeps_hackk.Frame.Types.{Frame, headers, continuation}
use zerodeps_hackk.Frame.Parse.{default_max_frame_size}
use zerodeps_hackk.Stream.State.{Writer}
use zerodeps_hackk.Response.Fields.{Section, section_header, section_trailer, check_section}

abbrev pub field_overhead : ℕ
field_overhead = 32

abbrev pub err_header_list_too_large : Error
err_header_list_too_large = external 20

abbrev pub err_malformed_response : Error
err_malformed_response = external 21

-- The half of h2.HeaderCodec that encodes.
pub record EncodingCodec (C : Type 0) : Type 0 where
  pub encode : C → List Field → List ℕ × C
  pub set_max_dynamic_table_size : C → ℕ → C

-- What the encoder asks of its transport beside `Enqueue`.
pub record Transport (W : Type 0) : Type 0 where
  pub max_frame_size : W → ℕ

-- `max_list` is none for noHeaderListLimit.
pub record SectionEncoder (C W : Type 0) : Type 0 where
  pub codec : C
  pub t : W
  pub max_list : Option ℕ

abbrev pub list_size : List Field → ℕ
list_size [] = 0
list_size (f ∷ fields) = length f.name + length f.value + field_overhead + list_size fields

module _ {C W : Type 0} where
  unfoldable pub new_encoder : C → W → SectionEncoder C W
  new_encoder codec t = record { codec = codec; t = t; max_list = none }

  unfoldable pub set_max_header_list_size : SectionEncoder C W → ℕ → SectionEncoder C W
  set_max_header_list_size e n = record e { max_list = some n }

  unfoldable pub check_list_size : SectionEncoder C W → List Field → Option Error
  check_list_size e fields = elim e.max_list [
    | none ↦ none
    | some n ↦ if ltb n (list_size fields) then some err_header_list_too_large else none
  ]

module _ {C W : Type 0} ⦃codec : EncodingCodec C⦄ where
  unfoldable pub set_max_dynamic_table_size : SectionEncoder C W → ℕ → SectionEncoder C W
  set_max_dynamic_table_size e n = record e { codec = codec.set_max_dynamic_table_size e.codec n }

module _ {W : Type 0} ⦃transport : Transport W⦄ where
  unfoldable pub split_at : W → ℕ
  split_at t =
      if ltb (transport.max_frame_size t) default_max_frame_size
      then default_max_frame_size
      else transport.max_frame_size t

abbrev pub headers_of : ℕ → Bool → Bool → List ℕ → Frame
headers_of id end_stream end_headers fragment = headers (record {
  stream_id = id;
  end_stream = end_stream;
  end_headers = end_headers;
  fragment = fragment;
  priority = false;
  exclusive = false;
  stream_dependency = 0;
  weight = 0;
  padded = false;
  pad_len = 0;
})

abbrev pub continuation_of : ℕ → Bool → List ℕ → Frame
continuation_of id end_headers fragment =
    continuation (record { stream_id = id; end_headers = end_headers; fragment = fragment })

module _ {W : Type 0} ⦃writer : Writer W⦄ where
  -- `for len(rest) > 0`, whose rounds the first argument bounds.
  unfoldable pub continue_section : ℕ → W → ℕ → ℕ → List ℕ → W × Option Error
  continue_section fuel w id max [] = (w, none)
  continue_section zero w id max (b ∷ rest) = (w, none)
  continue_section (suc fuel) w id max (b ∷ rest) =
      let n = min (length (b ∷ rest)) max in
      let (w', e) =
        writer.enqueue w (continuation_of id (n == length (b ∷ rest)) (take n (b ∷ rest))) in
      elim e [
        | some err ↦ (w', some err)
        | none ↦ continue_section fuel w' id max (drop n (b ∷ rest))
      ]

  -- The frames of a block.
  unfoldable pub write_block : W → ℕ → ℕ → List ℕ → Bool → W × Option Error
  write_block w id max block end_stream =
      let n = min (length block) max in
      let (w', e) =
        writer.enqueue w (headers_of id end_stream (n == length block) (take n block)) in
      elim e [
        | some err ↦ (w', some err)
        | none ↦ continue_section (length block) w' id max (drop n block)
      ]

module _ {C W : Type 0} ⦃codec : EncodingCodec C⦄ ⦃transport : Transport W⦄
    ⦃writer : Writer W⦄ where
  unfoldable pub write_section :
      SectionEncoder C W → ℕ → List Field → Bool → SectionEncoder C W × Option Error
  write_section e id fields end_stream = elim (check_list_size e fields) [
    | some err ↦ (e, some err)
    | none ↦
        let (block, next) = codec.encode e.codec fields in
        let (w, err) = write_block e.t id (split_at e.t) block end_stream in
        (record e { codec = next; t = w }, err)
  ]

  -- A stream identifier of 0 panics; the callers have one.
  unfoldable pub write_headers :
      SectionEncoder C W → ℕ → List Field → Bool → SectionEncoder C W × Option Error
  write_headers e id fields end_stream =
      if check_section section_header fields
      then write_section e id fields end_stream
      else (e, some err_malformed_response)

  unfoldable pub write_trailers :
      SectionEncoder C W → ℕ → List Field → SectionEncoder C W × Option Error
  write_trailers e id fields =
      if check_section section_trailer fields
      then write_section e id fields true
      else (e, some err_malformed_response)

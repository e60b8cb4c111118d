-- ===== src/Frame/Reader.antt =====
-- internal/frame/reader.go: the reader of one connection. The io.Reader under it is the octets that
-- are still to come, after which the peer has closed.
pub mod Names
pub mod Blocks
pub mod Continuity
pub mod Preface
pub mod Progress
use zerodeps_hackk.Base.{
  ℕ, zero, suc, ◌+◌, ◌%◌, ◌^◌, Bool, true, false, ◌==◌, ltb, leb, not, if◌then◌else◌, List, [], ◌∷◌,
  Option, none, some, length, take, drop,
}
use zerodeps_hackk.H2.{
  Error, conn_error, external, protocol_error, frame_size_error, enhance_your_calm,
}
use zerodeps_hackk.Frame.Types.{Frame, headers, push_promise, continuation}
use zerodeps_hackk.Frame.Wire.{Parsed, parsed, refused, crashed}
use zerodeps_hackk.Frame.Header.{Header, parse_header, type_continuation}
use zerodeps_hackk.Frame.Parse.{parsers, default_max_frame_size}

abbrev pub header_len : ℕ
header_len = 9

abbrev pub default_max_header_block_size : ℕ
default_max_header_block_size = 2 ^ 17

abbrev pub default_max_continuation_frames : ℕ
default_max_continuation_frames = 32

-- io.EOF and io.ErrUnexpectedEOF.
abbrev pub eof : Error
eof = external 0

abbrev pub unexpected_eof : Error
unexpected_eof = external 1

pub record ReaderConfig : Type 0 where
  pub max_frame_size : ℕ
  pub max_header_block_size : ℕ
  pub max_continuation_frames : ℕ

pub record Reader : Type 0 where
  pub input : List ℕ
  pub max_frame_size : ℕ
  pub max_header_block_size : ℕ
  pub max_continuations : ℕ
  pub block_stream : ℕ
  pub block_size : ℕ
  pub continuations : ℕ

abbrev pub or_default : ℕ → ℕ → ℕ
or_default n d = if n == 0 then d else n

unfoldable pub new_reader : List ℕ → ReaderConfig → Reader
new_reader input cfg =
    let frame = or_default cfg.max_frame_size default_max_frame_size in
    let block = or_default cfg.max_header_block_size default_max_header_block_size in
    record {
      input = input;
      max_frame_size = frame;
      max_header_block_size = if ltb block frame then frame else block;
      max_continuations = or_default cfg.max_continuation_frames default_max_continuation_frames;
      block_stream = 0;
      block_size = 0;
      continuations = 0;
    }

unfoldable pub check_continuity : Reader → Header → Option Error
check_continuity rd h =
    if not (rd.block_stream == 0)
    then (if not (h.kind == type_continuation)
        then some (conn_error protocol_error)
        else if not (h.stream_id == rd.block_stream)
        then some (conn_error protocol_error)
        else none)
    else if h.kind == type_continuation
    then some (conn_error protocol_error)
    else none

unfoldable pub check_block_limits : Reader → Option Error
check_block_limits rd =
    if ltb rd.max_header_block_size rd.block_size
    then some (conn_error enhance_your_calm)
    else if ltb rd.max_continuations rd.continuations
    then some (conn_error enhance_your_calm)
    else none

-- The state after a frame of a block, and the error, which is found before the state is cleared.
unfoldable pub finish_frame : Reader → Bool → Reader × Option Error
unfolding check_block_limits
finish_frame rd end_headers = (
  if end_headers then record rd { block_stream = 0; block_size = 0; continuations = 0 } else rd,
  check_block_limits rd,
)

unfoldable pub begin_block : Reader → ℕ → ℕ → Bool → Reader × Option Error
unfolding finish_frame
begin_block rd stream fragment end_headers =
    finish_frame (record rd { block_stream = stream; block_size = fragment; continuations = 0 })
      end_headers

-- A uint64, which wraps.
unfoldable pub extend_block : Reader → ℕ → Bool → Reader × Option Error
unfolding finish_frame
extend_block rd fragment end_headers =
    finish_frame
      (record rd {
        block_size = (rd.block_size + fragment) % 2 ^ 64;
        continuations = suc rd.continuations;
      })
      end_headers

unfoldable pub track_block : Reader → Frame → Reader × Option Error
unfolding begin_block extend_block
track_block rd (headers f) = begin_block rd f.stream_id (length f.fragment) f.end_headers
track_block rd (push_promise f) = begin_block rd f.stream_id (length f.fragment) f.end_headers
track_block rd (continuation f) = extend_block rd (length f.fragment) f.end_headers
track_block rd _ = (rd, none)

-- `io.ReadFull` of n octets: them and what follows, or its error.
pub data Filled : Type 0 where
  filled : List ℕ → List ℕ → Filled
  ended : Error → Filled

abbrev pub read_full : ℕ → List ℕ → Filled
read_full n input =
    if leb n (length input)
    then filled (take n input) (drop n input)
    else if length input == 0
    then ended eof
    else ended unexpected_eof

-- How one round of the loop, or the loop, ends: a frame, an error, a panic, or on to the next
-- round. The last is also what a loop says that ran out of fuel.
pub data Round : Type 0 where
  arrived : Frame → Reader → Round
  stopped : Error → Reader → Round
  crash : Round
  again : Reader → Round

abbrev pub tracked : Frame → Reader × Option Error → Round
tracked f (rd, none) = arrived f rd
tracked f (rd, some e) = stopped e rd

-- A payload that was read: parsed and tracked, or discarded if its type is unknown.
unfoldable pub take_payload : Reader → Header → List ℕ → Round
unfolding track_block
take_payload rd h payload = elim (parsers h.kind) [
  | none ↦ again rd
  | some parse ↦ elim (parse h payload) [
    | parsed f ↦ tracked f (track_block rd f)
    | refused e ↦ stopped e rd
    | crashed ↦ crash
  ]
]

-- A header that was read: checked, and its payload read.
unfoldable pub take_header : Reader → Header → Round
unfolding check_continuity take_payload
take_header rd h =
    if ltb rd.max_frame_size h.len
    then stopped (conn_error frame_size_error) rd
    else elim (check_continuity rd h) [
      | some e ↦ stopped e rd
      | none ↦ elim (read_full h.len rd.input) [
        | filled payload rest ↦ take_payload (record rd { input = rest }) h payload
        | ended e ↦ stopped unexpected_eof (record rd { input = [] })
      ]
    ]

unfoldable pub read_round : Reader → Round
unfolding take_header
read_round rd = elim (read_full header_len rd.input) [
  | ended e ↦ stopped e (record rd { input = [] })
  | filled hdr rest ↦ elim (parse_header hdr) [
    | none ↦ crash
    | some h ↦ take_header (record rd { input = rest }) h
  ]
]

-- `ReadFrame`. Each round takes a header's octets, so that their number is fuel enough.
unfoldable pub read_frame_in : ℕ → Reader → Round
unfolding read_round
read_frame_in zero rd = again rd
read_frame_in (suc fuel) rd = elim (read_round rd) [
  | again rd' ↦ read_frame_in fuel rd'
  | arrived f rd' ↦ arrived f rd'
  | stopped e rd' ↦ stopped e rd'
  | crash ↦ crash
]

abbrev pub read_frame : Reader → Round
read_frame rd = read_frame_in (suc (length rd.input)) rd

-- ===== src/Tests/Frames.antt =====
-- internal/frame at concrete inputs.
use zerodeps_hackk.Base.{
  none, ◌++◌, ℕ, ◌^◌, ◌<◌, ◌≡◌, refl, true, List, [], ◌∷◌, some, length, arith,
}
use zerodeps_hackk.Frame.Types.{Frame, headers}
use zerodeps_hackk.Frame.Wire.{Parsed, parsed}
use zerodeps_hackk.Frame.Header.{Header}
use zerodeps_hackk.Frame.Padding.{append_padded}
use zerodeps_hackk.Frame.Payload.{append_payload, header_of, type_of}
use zerodeps_hackk.Frame.Parse.{parsers, parse_window_update}
use zerodeps_hackk.Frame.WellFormed.{WellFormed}
use zerodeps_hackk.Frame.RoundTrip.{parse-append_payload}
use zerodeps_hackk.Frame.ParseSafety.{Yields}
use zerodeps_hackk.Frame.ParseSafety.Settings.{parsers-Yields}
use zerodeps_hackk.Frame.Reader.{Reader, read_frame}
use zerodeps_hackk.Frame.Reader.Preface.{
  client_preface, read_preface, Prefaced, read_preface-Prefaced,
}
use zerodeps_hackk.Frame.Reader.Blocks.{Reads}
use zerodeps_hackk.Frame.Reader.Continuity.{read_frame-Reads}
use zerodeps_hackk.Frame.Reader.Progress.{Answers, read_frame-Answers}

-- HEADERS with a priority, padded.
abbrev opening : Frame
opening = headers (record {
  stream_id = 3;
  end_stream = true;
  end_headers = true;
  fragment = 130 ∷ 134 ∷ [];
  priority = true;
  exclusive = true;
  stream_dependency = 1;
  weight = 200;
  padded = true;
  pad_len = 2;
})

opening_fits : length (append_payload opening) < 2 ^ 24
unfolding append_payload append_padded
opening_fits = omega arith

opening-WellFormed : WellFormed opening
opening-WellFormed = ground arith

parse-append_payload_example :
    (parse : Header → List ℕ → Parsed Frame) × (parsers (type_of opening) ≡ some parse)
    × (parse (header_of opening) (append_payload opening) ≡ parsed opening)
parse-append_payload_example = parse-append_payload opening opening-WellFormed opening_fits

abbrev credit : Header
credit = record { len = 4; kind = 8; flags = 0; stream_id = 5 }

known_credit : parsers 8 ≡ some parse_window_update
unfolding parsers
known_credit = refl

parsers-Yields_example : Yields WellFormed (parse_window_update credit (128 ∷ 0 ∷ 1 ∷ 0 ∷ []))
parsers-Yields_example =
    parsers-Yields credit (128 ∷ 0 ∷ 1 ∷ 0 ∷ []) refl (ground arith) (omega arith)
      parse_window_update known_credit

-- A frame of an unknown type, then a PING.
abbrev octets : List ℕ
octets =
    0 ∷ 0 ∷ 1 ∷ 77 ∷ 0 ∷ 0 ∷ 0 ∷ 0 ∷ 0 ∷ 9 ∷ 0 ∷ 0 ∷ 8 ∷ 6 ∷ 0 ∷ 0 ∷ 0 ∷ 0 ∷ 0 ∷ 1 ∷ 2 ∷ 3 ∷ 4 ∷ 5
    ∷ 6 ∷ 7 ∷ 8 ∷ []

abbrev pub listening : Reader
listening = record {
  input = octets;
  max_frame_size = 16384;
  max_header_block_size = 131072;
  max_continuations = 32;
  block_stream = 0;
  block_size = 0;
  continuations = 0;
}

read_frame-Answers_example : Answers (read_frame listening)
read_frame-Answers_example = read_frame-Answers listening (ground arith)

read_frame-Reads_example : Reads listening (read_frame listening)
read_frame-Reads_example = read_frame-Reads listening

read_preface-Prefaced_example :
    Prefaced listening (read_preface listening)
    × (read_preface (record listening { input = client_preface ++ octets })
        ≡ (record listening { input = octets }, none))
read_preface-Prefaced_example = read_preface-Prefaced listening octets

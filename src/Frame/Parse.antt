-- ===== src/Frame/Parse.antt =====
-- The parsers of internal/frame, one for each frame type, and the table of them. A parser is given
-- a header and the payload that the header declares.
use zerodeps_hackk.Base.{
  ℕ, zero, suc, ◌+◌, ◌-◌, ◌*◌, ◌/◌, ◌%◌, ◌^◌, Bool, false, ◌==◌, ltb, ◌&&◌, ◌||◌, not,
  if◌then◌else◌, List, [], ◌∷◌, Option, none, some, length, drop,
}
use zerodeps_hackk.H2.{
  Error, conn_error, stream_error, frame_size_error, protocol_error, flow_control_error,
}
use zerodeps_hackk.Flow.Window.{max_window_size}
use zerodeps_hackk.Frame.Types.{
  Frame, Setting, data_frame, headers, priority, rst_stream, settings, push_promise, ping, go_away,
  window_update, continuation, priority_update,
}
use zerodeps_hackk.Frame.Wire.{
  Parsed, parsed, refused, ◌>>◌, ◌>?◌, slice, mask_stream_id, uint16, uint32,
}
use zerodeps_hackk.Frame.Header.{
  Header, has, type_data, type_headers, type_priority, type_rst_stream, type_settings,
  type_push_promise, type_ping, type_go_away, type_window_update, type_continuation,
  type_priority_update, flag_end_stream, flag_ack, flag_end_headers, flag_padded, flag_priority,
}
use zerodeps_hackk.Frame.Padding.{split_padding}
use zerodeps_hackk.Frame.Payload.{
  priority_len, promised_id_len, setting_len, go_away_min_len, priority_update_fixed_len,
}

abbrev pub max_length : ℕ
max_length = 2 ^ 24 - 1

abbrev pub default_max_frame_size : ℕ
default_max_frame_size = 2 ^ 14

unfoldable pub parse_data : Header → List ℕ → Parsed Frame
parse_data h payload =
    if h.stream_id == 0
    then refused (conn_error protocol_error)
    else split_padding h payload >> λ (content, pad_len). parsed (
        data_frame (record {
          stream_id = h.stream_id;
          end_stream = has h.flags flag_end_stream;
          content = content;
          padded = has h.flags flag_padded;
          pad_len = pad_len;
        }))

-- The high bit of the first octet, the 31 bits below it, and the fifth octet.
abbrev pub parse_priority_block : List ℕ → Option (Bool × ℕ × ℕ)
parse_priority_block (a ∷ b ∷ c ∷ d ∷ w ∷ bs) =
    some (not (a / 2 ^ 7 % 2 == 0), mask_stream_id (a * 2 ^ 24 + b * 2 ^ 16 + c * 2 ^ 8 + d), w)
parse_priority_block _ = none

abbrev pub headers_frame : Header → ℕ → Bool × ℕ × ℕ → List ℕ → Frame
headers_frame h pad_len (exclusive, dep, weight) fragment = headers (record {
  stream_id = h.stream_id;
  end_stream = has h.flags flag_end_stream;
  end_headers = has h.flags flag_end_headers;
  fragment = fragment;
  priority = has h.flags flag_priority;
  exclusive = exclusive;
  stream_dependency = dep;
  weight = weight;
  padded = has h.flags flag_padded;
  pad_len = pad_len;
})

unfoldable pub parse_headers : Header → List ℕ → Parsed Frame
parse_headers h payload =
    if h.stream_id == 0
    then refused (conn_error protocol_error)
    else split_padding h payload >> λ (content, pad_len).
        if has h.flags flag_priority
        then (if ltb (length content) priority_len
            then refused (conn_error frame_size_error)
            else parse_priority_block content >? λ p.
                parsed (headers_frame h pad_len p (drop priority_len content)))
        else parsed (headers_frame h pad_len (false, 0, 0) content)

unfoldable pub parse_priority : Header → List ℕ → Parsed Frame
parse_priority h payload =
    if h.stream_id == 0
    then refused (conn_error protocol_error)
    else if not (h.len == priority_len)
    then refused (stream_error h.stream_id frame_size_error)
    else parse_priority_block payload >? λ (exclusive, dep, weight).
        if dep == h.stream_id
        then refused (stream_error h.stream_id protocol_error)
        else parsed (
            priority (record {
              stream_id = h.stream_id;
              exclusive = exclusive;
              stream_dependency = dep;
              weight = weight;
            }))

unfoldable pub parse_rst_stream : Header → List ℕ → Parsed Frame
parse_rst_stream h payload =
    if h.stream_id == 0
    then refused (conn_error protocol_error)
    else if not (h.len == 4)
    then refused (conn_error frame_size_error)
    else uint32 payload >? λ code.
        parsed (rst_stream (record { stream_id = h.stream_id; err_code = code }))

unfoldable pub validate_setting : Setting → Option Error
validate_setting s =
    if s.id == 2
    then (if ltb 1 s.value then some (conn_error protocol_error) else none)
    else if s.id == 4
    then (if ltb max_window_size s.value then some (conn_error flow_control_error) else none)
    else if s.id == 5
    then (if ltb s.value default_max_frame_size || ltb max_length s.value
        then some (conn_error protocol_error)
        else none)
    else if s.id == 9
    then (if ltb 1 s.value then some (conn_error protocol_error) else none)
    else none

-- `count` settings of six octets each, up to the first that is not valid.
unfoldable pub parse_each : ℕ → List ℕ → Parsed (List Setting)
parse_each zero b = parsed []
parse_each (suc count) b =
    let rest = parse_each count (drop setting_len b) in
    uint16 b >? λ id. uint32 (drop 2 b) >? λ value.
    let s : Setting = record { id = id; value = value } in
    elim (validate_setting s) [ some e ↦ refused e | none ↦ rest >> λ ss. parsed (s ∷ ss) ]

unfoldable pub parse_settings : Header → List ℕ → Parsed Frame
parse_settings h payload =
    if not (h.stream_id == 0)
    then refused (conn_error protocol_error)
    else if has h.flags flag_ack && not (h.len == 0)
    then refused (conn_error frame_size_error)
    else if not (h.len % setting_len == 0)
    then refused (conn_error frame_size_error)
    else parse_each (h.len / setting_len) payload >> λ ss.
        parsed (settings (record { ack = has h.flags flag_ack; settings = ss }))

unfoldable pub parse_push_promise : Header → List ℕ → Parsed Frame
parse_push_promise h payload =
    if h.stream_id == 0
    then refused (conn_error protocol_error)
    else split_padding h payload >> λ (content, pad_len).
        if ltb (length content) promised_id_len
        then refused (conn_error frame_size_error)
        else uint32 content >? λ id.
            if mask_stream_id id == 0
            then refused (conn_error protocol_error)
            else parsed (
                push_promise (record {
                  stream_id = h.stream_id;
                  end_headers = has h.flags flag_end_headers;
                  promised_id = mask_stream_id id;
                  fragment = drop promised_id_len content;
                  padded = has h.flags flag_padded;
                  pad_len = pad_len;
                }))

unfoldable pub parse_ping : Header → List ℕ → Parsed Frame
parse_ping h payload =
    if not (h.stream_id == 0)
    then refused (conn_error protocol_error)
    else if not (h.len == 8)
    then refused (conn_error frame_size_error)
    else slice 0 8 payload >? λ b.
        parsed (ping (record { ack = has h.flags flag_ack; payload = b }))

unfoldable pub parse_go_away : Header → List ℕ → Parsed Frame
parse_go_away h payload =
    if not (h.stream_id == 0)
    then refused (conn_error protocol_error)
    else if ltb h.len go_away_min_len
    then refused (conn_error frame_size_error)
    else uint32 payload >? λ last. uint32 (drop 4 payload) >? λ code.
        slice go_away_min_len h.len payload >? λ debug.
        parsed (
          go_away (record { last_stream_id = mask_stream_id last; err_code = code; debug = debug }))

unfoldable pub parse_window_update : Header → List ℕ → Parsed Frame
parse_window_update h payload =
    if not (h.len == 4)
    then refused (conn_error frame_size_error)
    else uint32 payload >? λ inc.
        if mask_stream_id inc == 0
        then (if h.stream_id == 0
            then refused (conn_error protocol_error)
            else refused (stream_error h.stream_id protocol_error))
        else parsed
            (window_update (record { stream_id = h.stream_id; increment = mask_stream_id inc }))

unfoldable pub parse_continuation : Header → List ℕ → Parsed Frame
parse_continuation h payload =
    if h.stream_id == 0
    then refused (conn_error protocol_error)
    else slice 0 h.len payload >? λ fragment. parsed (
        continuation (record {
          stream_id = h.stream_id;
          end_headers = has h.flags flag_end_headers;
          fragment = fragment;
        }))

unfoldable pub parse_priority_update : Header → List ℕ → Parsed Frame
parse_priority_update h payload =
    if not (h.stream_id == 0)
    then refused (conn_error protocol_error)
    else if ltb h.len priority_update_fixed_len
    then refused (conn_error frame_size_error)
    else uint32 payload >? λ id.
        if mask_stream_id id == 0
        then refused (conn_error protocol_error)
        else slice priority_update_fixed_len h.len payload >? λ value.
            parsed (priority_update (record { prioritized_id = mask_stream_id id; value = value }))

-- The table of parsers; a type that has none is unknown.
unfoldable pub parsers : ℕ → Option (Header → List ℕ → Parsed Frame)
parsers t =
    if t == type_data
    then some parse_data
    else if t == type_headers
    then some parse_headers
    else if t == type_priority
    then some parse_priority
    else if t == type_rst_stream
    then some parse_rst_stream
    else if t == type_settings
    then some parse_settings
    else if t == type_push_promise
    then some parse_push_promise
    else if t == type_ping
    then some parse_ping
    else if t == type_go_away
    then some parse_go_away
    else if t == type_window_update
    then some parse_window_update
    else if t == type_continuation
    then some parse_continuation
    else if t == type_priority_update
    then some parse_priority_update
    else none

-- ===== src/Frame/Payload.antt =====
-- The methods of the frame types in internal/frame that write: type, flags, stream, length and
-- payload of each. A method that appends to `dst` is what it appends.
use zerodeps_hackk.Base.{ℕ, ◌+◌, ◌*◌, ◌/◌, ◌%◌, ◌^◌, Bool, if◌then◌else◌, List, [], ◌∷◌, length}
use zerodeps_hackk.Frame.Types.{
  Frame, Setting, data_frame, headers, priority, rst_stream, settings, push_promise, ping, go_away,
  window_update, continuation, priority_update,
}
use zerodeps_hackk.Frame.Wire.{byte, mask_stream_id, append_uint16, append_uint32}
use zerodeps_hackk.Frame.Header.{
  Header, set, type_data, type_headers, type_priority, type_rst_stream, type_settings,
  type_push_promise, type_ping, type_go_away, type_window_update, type_continuation,
  type_priority_update, flag_end_stream, flag_ack, flag_end_headers, flag_padded, flag_priority,
}
use zerodeps_hackk.Frame.Padding.{padded_len, append_padded}

abbrev pub priority_len : ℕ
priority_len = 5

abbrev pub promised_id_len : ℕ
promised_id_len = 4

abbrev pub setting_len : ℕ
setting_len = 6

abbrev pub go_away_min_len : ℕ
go_away_min_len = 8

abbrev pub priority_update_fixed_len : ℕ
priority_update_fixed_len = 4

unfoldable pub type_of : Frame → ℕ
type_of (data_frame f) = type_data
type_of (headers f) = type_headers
type_of (priority f) = type_priority
type_of (rst_stream f) = type_rst_stream
type_of (settings f) = type_settings
type_of (push_promise f) = type_push_promise
type_of (ping f) = type_ping
type_of (go_away f) = type_go_away
type_of (window_update f) = type_window_update
type_of (continuation f) = type_continuation
type_of (priority_update f) = type_priority_update

unfoldable pub flags_of : Frame → ℕ
flags_of (data_frame f) = set (set 0 flag_end_stream f.end_stream) flag_padded f.padded
flags_of (headers f) =
    set
      (set (set (set 0 flag_end_stream f.end_stream) flag_end_headers f.end_headers) flag_padded
        f.padded)
      flag_priority f.priority
flags_of (priority f) = 0
flags_of (rst_stream f) = 0
flags_of (settings f) = set 0 flag_ack f.ack
flags_of (push_promise f) = set (set 0 flag_end_headers f.end_headers) flag_padded f.padded
flags_of (ping f) = set 0 flag_ack f.ack
flags_of (go_away f) = 0
flags_of (window_update f) = 0
flags_of (continuation f) = set 0 flag_end_headers f.end_headers
flags_of (priority_update f) = 0

unfoldable pub stream_of : Frame → ℕ
stream_of (data_frame f) = f.stream_id
stream_of (headers f) = f.stream_id
stream_of (priority f) = f.stream_id
stream_of (rst_stream f) = f.stream_id
stream_of (settings f) = 0
stream_of (push_promise f) = f.stream_id
stream_of (ping f) = 0
stream_of (go_away f) = 0
stream_of (window_update f) = f.stream_id
stream_of (continuation f) = f.stream_id
stream_of (priority_update f) = 0

-- A uint32, which wraps.
unfoldable pub payload_len : Frame → ℕ
payload_len (data_frame f) = padded_len f.padded f.pad_len (length f.content)
payload_len (headers f) =
    padded_len f.padded f.pad_len
      (if f.priority then length f.fragment + priority_len else length f.fragment)
payload_len (priority f) = priority_len
payload_len (rst_stream f) = 4
payload_len (settings f) = if f.ack then 0 else (length f.settings % 2 ^ 32 * setting_len) % 2 ^ 32
payload_len (push_promise f) = padded_len f.padded f.pad_len (promised_id_len + length f.fragment)
payload_len (ping f) = 8
payload_len (go_away f) = (go_away_min_len + length f.debug % 2 ^ 32) % 2 ^ 32
payload_len (window_update f) = 4
payload_len (continuation f) = length f.fragment % 2 ^ 32
payload_len (priority_update f) = (priority_update_fixed_len + length f.value % 2 ^ 32) % 2 ^ 32

-- `hi |= 0x80` sets a bit that `& 0x7f` cleared.
abbrev pub append_priority_block : Bool → ℕ → ℕ → List ℕ → List ℕ
append_priority_block exclusive dep weight rest =
    let hi = byte (dep / 2 ^ 24) % 2 ^ 7 in
    (if exclusive then hi + 2 ^ 7 else hi)
    ∷ byte (dep / 2 ^ 16)
    ∷ byte (dep / 2 ^ 8)
    ∷ byte dep
    ∷ weight
    ∷ rest

abbrev pub append_settings : List Setting → List ℕ
append_settings [] = []
append_settings (s ∷ ss) = append_uint16 s.id (append_uint32 s.value (append_settings ss))

unfoldable pub append_payload : Frame → List ℕ
append_payload (data_frame f) = append_padded f.padded f.pad_len f.content
append_payload (headers f) =
    if f.priority
    then append_padded f.padded f.pad_len
        (append_priority_block f.exclusive f.stream_dependency f.weight f.fragment)
    else append_padded f.padded f.pad_len f.fragment
append_payload (priority f) = append_priority_block f.exclusive f.stream_dependency f.weight []
append_payload (rst_stream f) = append_uint32 f.err_code []
append_payload (settings f) = if f.ack then [] else append_settings f.settings
append_payload (push_promise f) =
    append_padded f.padded f.pad_len (append_uint32 (mask_stream_id f.promised_id) f.fragment)
append_payload (ping f) = f.payload
append_payload (go_away f) =
    append_uint32 (mask_stream_id f.last_stream_id) (append_uint32 f.err_code f.debug)
append_payload (window_update f) = append_uint32 (mask_stream_id f.increment) []
append_payload (continuation f) = f.fragment
append_payload (priority_update f) = append_uint32 (mask_stream_id f.prioritized_id) f.value

unfoldable pub header_of : Frame → Header
header_of f = record {
  len = payload_len f;
  kind = type_of f;
  flags = flags_of f;
  stream_id = stream_of f;
}

-- ===== src/Frame/RoundTrip.antt =====
-- Frames of internal/frame written and read back.
use zerodeps_hackk.Base.{
  ℕ, ◌+◌, ◌*◌, ◌/◌, ◌%◌, ◌^◌, ◌<◌, ◌≡◌, inl, inr, Bool-cases, refl, ap, ◌∙◌, Bool, true, false,
  List, [], ◌∷◌, some, length, All, arith, take-length,
}
use zerodeps_hackk.Frame.Types.{
  Frame, DataFrame, HeadersFrame, PriorityFrame, RstStreamFrame, SettingsFrame, PushPromiseFrame,
  PingFrame, GoAwayFrame, WindowUpdateFrame, ContinuationFrame, PriorityUpdateFrame, Setting,
  data_frame, headers, priority, rst_stream, settings, push_promise, ping, go_away, window_update,
  continuation, priority_update,
}
use zerodeps_hackk.Frame.Wire.{byte, Parsed, parsed, mask_stream_id, append_uint32}
use zerodeps_hackk.Frame.Header.{
  Header, has, flag_padded, flag_priority, flag_end_stream, flag_end_headers,
}
use zerodeps_hackk.Frame.Padding.{padded_len, split_padding}
use zerodeps_hackk.Frame.Payload.{
  header_of, append_payload, payload_len, stream_of, flags_of, type_of, append_settings,
  append_priority_block,
}
use zerodeps_hackk.Frame.Parse.{
  parse_data, parse_headers, parse_priority, parse_rst_stream, parse_settings, parse_push_promise,
  parse_ping, parse_go_away, parse_window_update, parse_continuation, parse_priority_update,
  parse_each, parsers, headers_frame,
}
use zerodeps_hackk.Frame.WellFormed.{
  WellFormed, SettingOk, validate_setting-none, split_padding-append, flags_read_back,
  flag_read_back, padded_room, length-append_settings,
}

abbrev Returns : (Header → List ℕ → Parsed Frame) → Frame → Type 0
Returns parse f = parse (header_of f) (append_payload f) ≡ parsed f

abbrev Sent : Frame → Type 0
Sent f = WellFormed f × (length (append_payload f) < 2 ^ 24)

data-Returns : (f : DataFrame) → Sent (data_frame f) → Returns parse_data (data_frame f)
unfolding parse_data header_of payload_len stream_of flags_of append_payload
data-Returns f (v, fits) =
    let (a, b, c, d) = flags_read_back f.end_stream false f.padded false in
    rw
      (
        split_padding-append (header_of (data_frame f)) f.padded f.pad_len f.content refl
            (padded_room f.padded f.pad_len f.content fits v.1.1) c v.1.0,
        a,
        c,
      )
      (ground arith)

rst_stream-Returns :
    (f : RstStreamFrame) → Sent (rst_stream f) → Returns parse_rst_stream (rst_stream f)
unfolding parse_rst_stream header_of payload_len stream_of flags_of append_payload
rst_stream-Returns f (v, fits) = ground arith

ping-Returns : (f : PingFrame) → Sent (ping f) → Returns parse_ping (ping f)
unfolding parse_ping header_of payload_len stream_of flags_of append_payload
ping-Returns f (v, fits) = ground (arith, flag_read_back f.ack, take-length f.payload)

go_away-Returns : (f : GoAwayFrame) → Sent (go_away f) → Returns parse_go_away (go_away f)
unfolding parse_go_away header_of payload_len stream_of flags_of append_payload
go_away-Returns f (v, fits) = ground (arith, take-length f.debug)

window_update-Returns :
    (f : WindowUpdateFrame) → Sent (window_update f) → Returns parse_window_update (window_update f)
unfolding parse_window_update header_of payload_len stream_of flags_of append_payload
window_update-Returns f (v, fits) = ground arith

continuation-Returns :
    (f : ContinuationFrame) → Sent (continuation f) → Returns parse_continuation (continuation f)
unfolding parse_continuation header_of payload_len stream_of flags_of append_payload
continuation-Returns f (v, fits) =
    ground (arith, flags_read_back false f.end_headers false false, take-length f.fragment)

priority_update-Returns :
    (f : PriorityUpdateFrame)
    → Sent (priority_update f)
    → Returns parse_priority_update (priority_update f)
unfolding parse_priority_update header_of payload_len stream_of flags_of append_payload
priority_update-Returns f (v, fits) = ground (arith, take-length f.value)

priority-Returns : (f : PriorityFrame) → Sent (priority f) → Returns parse_priority (priority f)
unfolding parse_priority header_of payload_len stream_of flags_of append_payload
priority-Returns f (v, fits) = ground arith

push_promise-Returns :
    (f : PushPromiseFrame) → Sent (push_promise f) → Returns parse_push_promise (push_promise f)
unfolding parse_push_promise header_of payload_len stream_of flags_of append_payload
push_promise-Returns f ((id, pad, promised), fits) =
    let (a, b, c, d) = flags_read_back false f.end_headers f.padded false in
    rw
      (
        split_padding-append (header_of (push_promise f)) f.padded f.pad_len
            (append_uint32 (mask_stream_id f.promised_id) f.fragment)
            (ap (padded_len f.padded f.pad_len) (omega arith))
            (padded_room f.padded f.pad_len
              (append_uint32 (mask_stream_id f.promised_id) f.fragment) fits pad.1)
            c pad.0,
        b,
        c,
      )
      (ground arith)

parse_each-append :
    (ss : List Setting) → All SettingOk ss → parse_each (length ss) (append_settings ss) ≡ parsed ss
unfolding parse_each
parse_each-append [] v = refl
parse_each-append (s ∷ ss) (v, vs) =
    rw (id, value) (ground (arith, validate_setting-none s v.2, parse_each-append ss vs))
  where
    id : byte (s.id / 2 ^ 8) * 2 ^ 8 + byte s.id ≡ s.id
    id = omega (arith, v.0)

    value :
        byte (s.value / 2 ^ 24) * 2 ^ 24
          + byte (s.value / 2 ^ 16) * 2 ^ 16
          + byte (s.value / 2 ^ 8) * 2 ^ 8
          + byte s.value
        ≡ s.value
    value = omega (arith, v.1)

settings_return :
    (ack : Bool) (ss : List Setting)
    → Sent (settings (record { ack = ack; settings = ss }))
    → Returns parse_settings (settings (record { ack = ack; settings = ss }))
unfolding parse_settings header_of payload_len stream_of flags_of append_payload
settings_return true [] v = unfold parse_each in refl
settings_return true (s ∷ ss) ((v, acked), fits) = ground (arith, acked refl)
settings_return false ss ((v, acked), fits) =
    rw (total, many, parse_each-append ss v) (ground arith)
  where
    total : (length ss % 2 ^ 32 * 6) % 2 ^ 32 ≡ length ss * 6
    total = omega (arith, fits, length-append_settings ss)

    many : (length ss * 6) / 6 ≡ length ss
    many = omega arith

settings-Returns : (f : SettingsFrame) → Sent (settings f) → Returns parse_settings (settings f)
settings-Returns f v = settings_return f.ack f.settings v

headers_with_priority :
    (h : Header) (payload : List ℕ) (exclusive : Bool) (dep weight : ℕ) (fragment : List ℕ)
    (pad_len : ℕ)
    → 0 < h.stream_id
    → has h.flags flag_priority ≡ true
    → dep < 2 ^ 31
    → split_padding h payload
      ≡ parsed (append_priority_block exclusive dep weight fragment, pad_len)
    → parse_headers h payload ≡ parsed (headers_frame h pad_len (exclusive, dep, weight) fragment)
unfolding parse_headers
headers_with_priority h payload exclusive dep weight fragment pad_len id flag fits e =
    rw (e, flag) (ground (arith, exclusive))

headers_plain :
    (h : Header) (payload content : List ℕ) (pad_len : ℕ)
    → 0 < h.stream_id
    → has h.flags flag_priority ≡ false
    → split_padding h payload ≡ parsed (content, pad_len)
    → parse_headers h payload ≡ parsed (headers_frame h pad_len (false, 0, 0) content)
unfolding parse_headers
headers_plain h payload content pad_len id flag e = rw (e, flag) (ground arith)

headers-Returns : (f : HeadersFrame) → Sent (headers f) → Returns parse_headers (headers f)
unfolding header_of payload_len stream_of flags_of append_payload
headers-Returns f ((id, pad, dep, unprioritised), fits) = elim (Bool-cases f.priority) [
  | inl with_priority ↦
      headers_with_priority h _ f.exclusive f.stream_dependency f.weight f.fragment f.pad_len id.0
        (flag_d ∙ with_priority) dep
        (ap (split_padding h) (rw with_priority refl)
          ∙ split_padding-append h f.padded f.pad_len _
              (rw with_priority (ap (padded_len f.padded f.pad_len) (omega arith)))
              (padded_room f.padded f.pad_len _ (rw with_priority at fits) pad.1) flag_c pad.0)
      ∙ rw (flag_a, flag_b, flag_c, flag_d) refl
  | inr plain ↦
      headers_plain h _ f.fragment f.pad_len id.0 (flag_d ∙ plain) (
        ap (split_padding h) (rw plain refl)
        ∙ split_padding-append h f.padded f.pad_len f.fragment (rw plain refl)
            (padded_room f.padded f.pad_len f.fragment (rw plain at fits) pad.1) flag_c pad.0)
      ∙ rw
          (
            flag_a,
            flag_b,
            flag_c,
            flag_d,
            (unprioritised plain).0,
            (unprioritised plain).1,
            (unprioritised plain).2,
          )
          refl
]
  where
    h : Header
    h = header_of (headers f)

    flag_a : has h.flags flag_end_stream ≡ f.end_stream
    flag_a = (flags_read_back f.end_stream f.end_headers f.padded f.priority).0

    flag_b : has h.flags flag_end_headers ≡ f.end_headers
    flag_b = (flags_read_back f.end_stream f.end_headers f.padded f.priority).1

    flag_c : has h.flags flag_padded ≡ f.padded
    flag_c = (flags_read_back f.end_stream f.end_headers f.padded f.priority).2

    flag_d : has h.flags flag_priority ≡ f.priority
    flag_d = (flags_read_back f.end_stream f.end_headers f.padded f.priority).3

-- A frame that a peer may send, of a length that its header can declare, is read back as it was
-- written, by the parser that the table of parsers holds for its type.
pub parse-append_payload :
    (f : Frame)
    → WellFormed f
    → length (append_payload f) < 2 ^ 24
    → (parse : Header → List ℕ → Parsed Frame) × (parsers (type_of f) ≡ some parse)
      × (parse (header_of f) (append_payload f) ≡ parsed f)
unfolding type_of parsers
parse-append_payload (data_frame f) v fits = (parse_data, refl, data-Returns f (v, fits))
parse-append_payload (headers f) v fits = (parse_headers, refl, headers-Returns f (v, fits))
parse-append_payload (priority f) v fits = (parse_priority, refl, priority-Returns f (v, fits))
parse-append_payload (rst_stream f) v fits =
    (parse_rst_stream, refl, rst_stream-Returns f (v, fits))
parse-append_payload (settings f) v fits = (parse_settings, refl, settings-Returns f (v, fits))
parse-append_payload (push_promise f) v fits =
    (parse_push_promise, refl, push_promise-Returns f (v, fits))
parse-append_payload (ping f) v fits = (parse_ping, refl, ping-Returns f (v, fits))
parse-append_payload (go_away f) v fits = (parse_go_away, refl, go_away-Returns f (v, fits))
parse-append_payload (window_update f) v fits =
    (parse_window_update, refl, window_update-Returns f (v, fits))
parse-append_payload (continuation f) v fits =
    (parse_continuation, refl, continuation-Returns f (v, fits))
parse-append_payload (priority_update f) v fits =
    (parse_priority_update, refl, priority_update-Returns f (v, fits))

-- ===== src/Frame/Padding.antt =====
-- internal/frame/padding.go: the padding of DATA, HEADERS and PUSH_PROMISE (RFC 9113 section 6.1).
use zerodeps_hackk.Base.{
  ℕ, ◌+◌, ◌-◌, ◌%◌, ◌^◌, Bool, ltb, leb, not, if◌then◌else◌, List, ◌∷◌, ◌++◌, get_elem?, replicate,
}
use zerodeps_hackk.H2.{conn_error, frame_size_error, protocol_error}
use zerodeps_hackk.Frame.Wire.{Parsed, parsed, refused, ◌>?◌, slice}
use zerodeps_hackk.Frame.Header.{Header, has, flag_padded}

abbrev pub pad_overhead : ℕ
pad_overhead = 1

-- The length field of the header as a uint32, which wraps.
unfoldable pub padded_len : Bool → ℕ → ℕ → ℕ
padded_len padded pad_len content_len =
    let n = content_len % 2 ^ 32 in if padded then (n + (pad_overhead + pad_len)) % 2 ^ 32 else n

-- What `appendPadded` appends.
unfoldable pub append_padded : Bool → ℕ → List ℕ → List ℕ
append_padded padded pad_len content =
    if not padded then content else pad_len ∷ content ++ replicate pad_len 0

-- The content and the length of the padding.
unfoldable pub split_padding : Header → List ℕ → Parsed (List ℕ × ℕ)
split_padding h payload =
    if not (has h.flags flag_padded)
    then (slice 0 h.len payload >? λ content. parsed (content, 0))
    else if ltb h.len pad_overhead
    then refused (conn_error frame_size_error)
    else get_elem? payload 0 >? λ pad_len.
        if leb h.len pad_len
        then refused (conn_error protocol_error)
        else slice pad_overhead (h.len - pad_len) payload >? λ content. parsed (content, pad_len)

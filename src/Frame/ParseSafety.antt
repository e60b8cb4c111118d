-- ===== src/Frame/ParseSafety.antt =====
-- What the parsers of internal/frame answer to any octets.
pub mod Settings
use zerodeps_hackk.Base.{
  IsOctets, ℕ, zero, suc, ◌+◌, ◌-◌, ◌*◌, ◌/◌, ◌%◌, ◌^◌, ◌<◌, ◌≤◌, ◌≡◌, ◌≢◌, ◌⊎◌, inl, inr,
  Bool-cases, refl, sym, ap, ◌∙◌, Bool, true, false, ◌==◌, ltb, leb, ◌&&◌, ◌||◌, not, if◌then◌else◌,
  List, [], ◌∷◌, ◌++◌, Option, none, some, length, take, drop, get_elem?, All, arith, length-take,
  length-drop,
}
use zerodeps_hackk.H2.{Error, conn_error, frame_size_error, protocol_error}
use zerodeps_hackk.Frame.Types.{
  Frame, Setting, data_frame, headers, priority, rst_stream, settings, push_promise, ping, go_away,
  window_update, continuation, priority_update,
}
use zerodeps_hackk.Frame.Wire.{
  Parsed, parsed, refused, crashed, ◌>>◌, ◌>?◌, slice, mask_stream_id, uint16, uint32,
}
use zerodeps_hackk.Frame.Header.{
  Header, has, flag_padded, flag_priority, flag_end_stream, flag_end_headers, flag_ack,
}
use zerodeps_hackk.Frame.Padding.{split_padding}
use zerodeps_hackk.Frame.Parse.{
  parse_data, parse_headers, parse_priority, parse_rst_stream, parse_settings, parse_push_promise,
  parse_ping, parse_go_away, parse_window_update, parse_continuation, parse_priority_update,
  parse_each, validate_setting, parse_priority_block, parsers, headers_frame,
}
use zerodeps_hackk.Frame.WellFormed.{WellFormed, SettingOk, IsStreamId, PadOk}

-- A good value, or an error, and no panic.
abbrev pub Yields {ℓ} : {A : Type ℓ} → (A → Type 0) → Parsed A → Type 0
Yields P (parsed a) = P a
Yields P (refused e) = Unit {0}
Yields P crashed = ⊥

pub Yields-bind {ℓ κ} :
    {A : Type ℓ} {B : Type κ} (P : A → Type 0) (Q : B → Type 0) (m : Parsed A) (f : A → Parsed B)
    → Yields P m
    → ((a : A) → P a → Yields Q (f a))
    → Yields Q (m >> f)
Yields-bind P Q (parsed a) f p k = k a p
Yields-bind P Q (refused e) f p k = tt
Yields-bind P Q crashed f p k = p

-- The content of a padded payload, and its padding as the flag allows.
split_padding-Yields :
    (h : Header) (payload : List ℕ)
    → length payload ≡ h.len
    → IsOctets payload
    → Yields (λ p. PadOk (has h.flags flag_padded) p.1) (split_padding h payload)
unfolding split_padding
split_padding-Yields h [] len v = ground arith
split_padding-Yields h (b ∷ bs) len (v, vs) = ground arith

pub parse_data-Yields :
    (h : Header) (payload : List ℕ)
    → length payload ≡ h.len
    → IsOctets payload
    → h.stream_id < 2 ^ 31
    → Yields WellFormed (parse_data h payload)
unfolding parse_data
parse_data-Yields h payload len v id = elim (Bool-cases (h.stream_id == 0)) [
  | inl conn ↦ rw conn tt
  | inr stream ↦ rw stream (
      Yields-bind (λ p. PadOk (has h.flags flag_padded) p.1) WellFormed (split_padding h payload) _
        (split_padding-Yields h payload len v) (λ p ok. ((ground arith, id), ok)))
]

pub parse_headers-Yields :
    (h : Header) (payload : List ℕ)
    → length payload ≡ h.len
    → IsOctets payload
    → h.stream_id < 2 ^ 31
    → Yields WellFormed (parse_headers h payload)
unfolding parse_headers
parse_headers-Yields h payload len v id = elim (Bool-cases (h.stream_id == 0)) [
  | inl conn ↦ rw conn tt
  | inr stream ↦ rw stream (
      Yields-bind (λ p. PadOk (has h.flags flag_padded) p.1) WellFormed (split_padding h payload) _
        (split_padding-Yields h payload len v)
        (λ p ok. content p.0 p.1 ok (Bool-cases (has h.flags flag_priority)) (ground arith)))
]
  where
    content :
        (c : List ℕ) (n : ℕ)
        → PadOk (has h.flags flag_padded) n
        → (has h.flags flag_priority ≡ true) ⊎ (has h.flags flag_priority ≡ false)
        → 0 < h.stream_id
        → Yields WellFormed (
            if has h.flags flag_priority
            then (if ltb (length c) 5
                then refused (conn_error frame_size_error)
                else parse_priority_block c >? λ p. parsed (headers_frame h n p (drop 5 c)))
            else parsed (headers_frame h n (false, 0, 0) c))
    content c n ok (inr plain) some_stream =
        rw plain ((some_stream, id), ok, omega arith, λ _. (refl, refl, refl))
    content (x ∷ y ∷ z ∷ d ∷ w ∷ bs) n ok (inl prioritised) some_stream =
        rw prioritised (ground (arith, ok.0, ok.1))
    content _ n ok (inl prioritised) some_stream = rw prioritised (ground arith)

pub parse_priority-Yields :
    (h : Header) (payload : List ℕ)
    → length payload ≡ h.len
    → IsOctets payload
    → h.stream_id < 2 ^ 31
    → Yields WellFormed (parse_priority h payload)
unfolding parse_priority
parse_priority-Yields h (a ∷ b ∷ c ∷ d ∷ w ∷ bs) len v id = ground arith
parse_priority-Yields h _ len v id = ground arith

pub parse_rst_stream-Yields :
    (h : Header) (payload : List ℕ)
    → length payload ≡ h.len
    → IsOctets payload
    → h.stream_id < 2 ^ 31
    → Yields WellFormed (parse_rst_stream h payload)
unfolding parse_rst_stream
parse_rst_stream-Yields h (a ∷ b ∷ c ∷ d ∷ bs) len v id = ground arith
parse_rst_stream-Yields h _ len v id = ground arith

pub parse_ping-Yields :
    (h : Header) (payload : List ℕ)
    → length payload ≡ h.len
    → Yields WellFormed (parse_ping h payload)
unfolding parse_ping
parse_ping-Yields h payload len = ground (arith, length-take 8 payload)

pub parse_push_promise-Yields :
    (h : Header) (payload : List ℕ)
    → length payload ≡ h.len
    → IsOctets payload
    → h.stream_id < 2 ^ 31
    → Yields WellFormed (parse_push_promise h payload)
unfolding parse_push_promise
parse_push_promise-Yields h payload len v id = elim (Bool-cases (h.stream_id == 0)) [
  | inl conn ↦ rw conn tt
  | inr stream ↦ rw stream (
      Yields-bind (λ p. PadOk (has h.flags flag_padded) p.1) WellFormed (split_padding h payload) _
        (split_padding-Yields h payload len v) (λ p ok. content p.0 p.1 ok (ground arith)))
]
  where
    content :
        (c : List ℕ) (n : ℕ)
        → PadOk (has h.flags flag_padded) n
        → 0 < h.stream_id
        → Yields WellFormed (
            if ltb (length c) 4
            then refused (conn_error frame_size_error)
            else uint32 c >? λ promised.
                if mask_stream_id promised == 0
                then refused (conn_error protocol_error)
                else parsed (
                    push_promise (record {
                      stream_id = h.stream_id;
                      end_headers = has h.flags flag_end_headers;
                      promised_id = mask_stream_id promised;
                      fragment = drop 4 c;
                      padded = has h.flags flag_padded;
                      pad_len = n;
                    })))
    content (x ∷ y ∷ z ∷ d ∷ bs) n ok some_stream = ground (arith, ok.0, ok.1)
    content _ n ok some_stream = ground arith

pub parse_go_away-Yields :
    (h : Header) (payload : List ℕ)
    → length payload ≡ h.len
    → IsOctets payload
    → Yields WellFormed (parse_go_away h payload)
unfolding parse_go_away
parse_go_away-Yields h (a ∷ b ∷ c ∷ d ∷ e ∷ f ∷ g ∷ i ∷ bs) len v = ground arith
parse_go_away-Yields h _ len v = ground arith

pub parse_window_update-Yields :
    (h : Header) (payload : List ℕ)
    → length payload ≡ h.len
    → h.stream_id < 2 ^ 31
    → Yields WellFormed (parse_window_update h payload)
unfolding parse_window_update
parse_window_update-Yields h (a ∷ b ∷ c ∷ d ∷ bs) len id = ground arith
parse_window_update-Yields h _ len id = ground arith

pub parse_continuation-Yields :
    (h : Header) (payload : List ℕ)
    → length payload ≡ h.len
    → h.stream_id < 2 ^ 31
    → Yields WellFormed (parse_continuation h payload)
unfolding parse_continuation
parse_continuation-Yields h payload len id = ground arith

pub parse_priority_update-Yields :
    (h : Header) (payload : List ℕ)
    → length payload ≡ h.len
    → Yields WellFormed (parse_priority_update h payload)
unfolding parse_priority_update
parse_priority_update-Yields h (a ∷ b ∷ c ∷ d ∷ bs) len = ground arith
parse_priority_update-Yields h _ len = ground arith

-- ===== src/Frame/WellFormed.antt =====
-- Frames of internal/frame that a peer may send, their flags, padding and lengths.
use zerodeps_hackk.Base.{
  ℕ, zero, suc, ◌+◌, ◌*◌, ◌^◌, ◌<◌, ◌≤◌, ◌≡◌, ◌≢◌, inl, inr, Bool-cases, refl, sym, ap, ◌∙◌, Bool,
  true, false, List, [], ◌∷◌, none, some, length, replicate, All, arith, length-append,
  length-replicate, take-length, take_append_length,
}
use zerodeps_hackk.Frame.Types.{
  Frame, Setting, data_frame, headers, priority, rst_stream, settings, push_promise, ping, go_away,
  window_update, continuation, priority_update,
}
use zerodeps_hackk.Frame.Wire.{parsed, slice, mask_stream_id, append_uint32}
use zerodeps_hackk.Frame.Header.{
  Header, has, set, flag_padded, flag_priority, flag_end_stream, flag_end_headers, flag_ack,
}
use zerodeps_hackk.Frame.Padding.{padded_len, append_padded, split_padding}
use zerodeps_hackk.Frame.Payload.{
  append_payload, payload_len, append_settings, append_priority_block,
}
use zerodeps_hackk.Frame.Parse.{validate_setting}

pub slice_all {ℓ} : {A : Type ℓ} (xs : List A) → slice 0 (length xs) xs ≡ some xs
slice_all xs = ground (arith, take-length xs)

-- What a padded payload gives back, whatever flags say that it is padded.
pub split_padding-append :
    (h : Header) (padded : Bool) (pad_len : ℕ) (content : List ℕ)
    → h.len ≡ padded_len padded pad_len (length content)
    → length content + pad_len + 1 < 2 ^ 32
    → has h.flags flag_padded ≡ padded
    → (padded ≡ false → pad_len ≡ 0)
    → split_padding h (append_padded padded pad_len content) ≡ parsed (content, pad_len)
unfolding split_padding append_padded padded_len
split_padding-append h true pad_len content len fits flag unpadded = ground (
  arith,
  flag,
  total,
  take_append_length content (replicate pad_len 0),
  length-append content (replicate pad_len 0),
  length-replicate pad_len zero,
)
  where
    total : h.len ≡ suc (length content) + pad_len
    total = len ∙ omega arith
split_padding-append h false pad_len content len fits flag unpadded =
    rw (flag, total, unpadded refl) (ground (arith, take-length content))
  where
    total : h.len ≡ length content
    total = len ∙ omega arith

-- Each flag is read back as it was set.
pub flags_read_back :
    (a b c d : Bool)
    → let fl =
        set
          (set (set (set 0 flag_end_stream a) flag_end_headers b) flag_padded c)
          flag_priority
          d in
      (has fl flag_end_stream ≡ a)
      × (has fl flag_end_headers ≡ b)
      × (has fl flag_padded ≡ c)
      × (has fl flag_priority ≡ d)
flags_read_back true true true true = (refl, refl, refl, refl)
flags_read_back true true true false = (refl, refl, refl, refl)
flags_read_back true true false true = (refl, refl, refl, refl)
flags_read_back true true false false = (refl, refl, refl, refl)
flags_read_back true false true true = (refl, refl, refl, refl)
flags_read_back true false true false = (refl, refl, refl, refl)
flags_read_back true false false true = (refl, refl, refl, refl)
flags_read_back true false false false = (refl, refl, refl, refl)
flags_read_back false true true true = (refl, refl, refl, refl)
flags_read_back false true true false = (refl, refl, refl, refl)
flags_read_back false true false true = (refl, refl, refl, refl)
flags_read_back false true false false = (refl, refl, refl, refl)
flags_read_back false false true true = (refl, refl, refl, refl)
flags_read_back false false true false = (refl, refl, refl, refl)
flags_read_back false false false true = (refl, refl, refl, refl)
flags_read_back false false false false = (refl, refl, refl, refl)

pub flag_read_back : (b : Bool) → has (set 0 flag_ack b) flag_ack ≡ b
flag_read_back true = refl
flag_read_back false = refl

-- What makes a frame one that a peer may send: a frame type's own rules, and fields in range.
abbrev pub IsStreamId : ℕ → Type 0
IsStreamId id = (0 < id) × (id < 2 ^ 31)

abbrev pub PadOk : Bool → ℕ → Type 0
PadOk padded pad_len = (padded ≡ false → pad_len ≡ 0) × (pad_len < 2 ^ 8)

-- The values that section 6.5.2 of RFC 9113 and section 2.1 of RFC 9218 allow: a switch is 0 or 1, a
-- window is below 2^31, and a frame size is from 2^14 to below 2^24.
abbrev pub LegalValue : Setting → Type 0
LegalValue s =
    (s.id ≡ 2 → s.value ≤ 1)
    × (s.id ≡ 4 → s.value < 2 ^ 31)
    × (s.id ≡ 5 → (2 ^ 14 ≤ s.value) × (s.value < 2 ^ 24))
    × (s.id ≡ 9 → s.value ≤ 1)

abbrev pub SettingOk : Setting → Type 0
SettingOk s = (s.id < 2 ^ 16) × (s.value < 2 ^ 32) × LegalValue s

pub validate_setting-LegalValue : (s : Setting) → validate_setting s ≡ none → LegalValue s
unfolding validate_setting
validate_setting-LegalValue s h = (
  λ e. ground (arith, e),
  λ e. ground (arith, e),
  λ e. (ground (arith, e), ground (arith, e)),
  λ e. ground (arith, e),
)

pub validate_setting-none : (s : Setting) → LegalValue s → validate_setting s ≡ none
unfolding validate_setting
validate_setting-none s (push, window, frame, priorities) =
    ground (arith, push, window, frame, priorities)

abbrev pub WellFormed : Frame → Type 0
WellFormed (data_frame f) = IsStreamId f.stream_id × PadOk f.padded f.pad_len
WellFormed (headers f) =
    IsStreamId f.stream_id
    × PadOk f.padded f.pad_len
    × (f.stream_dependency < 2 ^ 31)
    × (f.priority ≡ false → (f.exclusive ≡ false) × (f.stream_dependency ≡ 0) × (f.weight ≡ 0))
WellFormed (priority f) =
    IsStreamId f.stream_id × (f.stream_dependency < 2 ^ 31) × (f.stream_dependency ≢ f.stream_id)
WellFormed (rst_stream f) = IsStreamId f.stream_id × (f.err_code < 2 ^ 32)
WellFormed (settings f) = All SettingOk f.settings × (f.ack ≡ true → f.settings ≡ [])
WellFormed (push_promise f) =
    IsStreamId f.stream_id × PadOk f.padded f.pad_len × IsStreamId f.promised_id
WellFormed (ping f) = length f.payload ≡ 8
WellFormed (go_away f) = (f.last_stream_id < 2 ^ 31) × (f.err_code < 2 ^ 32)
WellFormed (window_update f) = (f.stream_id < 2 ^ 31) × IsStreamId f.increment
WellFormed (continuation f) = IsStreamId f.stream_id
WellFormed (priority_update f) = IsStreamId f.prioritized_id

length-append_padded :
    (padded : Bool) (pad_len : ℕ) (content : List ℕ)
    → length content + pad_len + 1 < 2 ^ 32
    → padded_len padded pad_len (length content) ≡ length (append_padded padded pad_len content)
unfolding padded_len append_padded
length-append_padded true p c fits =
    ground (arith, length-append c (replicate p 0), length-replicate p zero)
length-append_padded false p c fits = omega arith

pub length-append_settings : (ss : List Setting) → length (append_settings ss) ≡ length ss * 6
length-append_settings [] = refl
length-append_settings (s ∷ ss) = ground (arith, length-append_settings ss)

-- A payload that fits a frame leaves room for the arithmetic on its length.
pub padded_room :
    (padded : Bool) (pad_len : ℕ) (content : List ℕ)
    → length (append_padded padded pad_len content) < 2 ^ 24
    → pad_len < 2 ^ 8
    → length content + pad_len + 1 < 2 ^ 32
unfolding append_padded
padded_room true p c fits small =
    ground (arith, length-append c (replicate p 0), length-replicate p zero)
padded_room false p c fits small = omega arith

padded_exact :
    (padded : Bool) (pad_len n : ℕ) (content : List ℕ)
    → n ≡ length content
    → length (append_padded padded pad_len content) < 2 ^ 24
    → pad_len < 2 ^ 8
    → padded_len padded pad_len n ≡ length (append_padded padded pad_len content)
padded_exact padded pad_len n content e fits small =
    ap (padded_len padded pad_len) e
    ∙ length-append_padded padded pad_len content (padded_room padded pad_len content fits small)

-- The payload's length that the header declares is its length.
pub payload_len_lem :
    (f : Frame)
    → WellFormed f
    → length (append_payload f) < 2 ^ 24
    → payload_len f ≡ length (append_payload f)
unfolding payload_len append_payload
payload_len_lem (data_frame f) v fits = padded_exact f.padded f.pad_len _ f.content refl fits v.1.1
payload_len_lem (headers f) (id, pad, dep, unprioritised) fits = elim (Bool-cases f.priority) [
  | inl with_priority ↦ rw with_priority (
      padded_exact f.padded f.pad_len _
        (append_priority_block f.exclusive f.stream_dependency f.weight f.fragment) (omega arith)
        (rw with_priority at fits) pad.1)
  | inr plain ↦
      rw plain (padded_exact f.padded f.pad_len _ f.fragment refl (rw plain at fits) pad.1)
]
payload_len_lem (priority f) v fits = refl
payload_len_lem (rst_stream f) v fits = refl
payload_len_lem (settings f) v fits = ground (arith, length-append_settings f.settings)
payload_len_lem (push_promise f) (id, pad, promised) fits =
    padded_exact f.padded f.pad_len _ (append_uint32 (mask_stream_id f.promised_id) f.fragment)
      (omega arith) fits pad.1
payload_len_lem (ping f) v fits = sym v
payload_len_lem (go_away f) v fits = ground arith
payload_len_lem (window_update f) v fits = refl
payload_len_lem (continuation f) v fits = omega arith
payload_len_lem (priority_update f) v fits = ground arith

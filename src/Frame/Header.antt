-- ===== src/Frame/Header.antt =====
-- internal/frame/header.go and types.go: frame types, flags and the nine octets of a header. A flag
-- set is a number of eight bits.
use zerodeps_hackk.Base.{
  ℕ, ◌+◌, ◌*◌, ◌/◌, ◌%◌, ◌^◌, ◌<◌, ◌≡◌, Bool, ◌==◌, if◌then◌else◌, List, ◌∷◌, Option, none, some,
  arith, bit_and, bit_or,
}
use zerodeps_hackk.Frame.Wire.{byte, mask_stream_id}

abbrev pub type_data : ℕ
type_data = 0x0

abbrev pub type_headers : ℕ
type_headers = 0x1

abbrev pub type_priority : ℕ
type_priority = 0x2

abbrev pub type_rst_stream : ℕ
type_rst_stream = 0x3

abbrev pub type_settings : ℕ
type_settings = 0x4

abbrev pub type_push_promise : ℕ
type_push_promise = 0x5

abbrev pub type_ping : ℕ
type_ping = 0x6

abbrev pub type_go_away : ℕ
type_go_away = 0x7

abbrev pub type_window_update : ℕ
type_window_update = 0x8

abbrev pub type_continuation : ℕ
type_continuation = 0x9

abbrev pub type_priority_update : ℕ
type_priority_update = 0x10

abbrev pub flag_end_stream : ℕ
flag_end_stream = 0x1

abbrev pub flag_ack : ℕ
flag_ack = 0x1

abbrev pub flag_end_headers : ℕ
flag_end_headers = 0x4

abbrev pub flag_padded : ℕ
flag_padded = 0x8

abbrev pub flag_priority : ℕ
flag_priority = 0x20

abbrev pub has : ℕ → ℕ → Bool
has fl f = bit_and fl f == f

abbrev pub set : ℕ → ℕ → Bool → ℕ
set fl f cond = if cond then bit_or fl f else fl

pub record Header : Type 0 where
  pub len : ℕ
  pub kind : ℕ
  pub flags : ℕ
  pub stream_id : ℕ

-- None when the octets are fewer than nine, where Go would panic.
unfoldable pub parse_header : List ℕ → Option Header
parse_header (a ∷ b ∷ c ∷ kind ∷ flags ∷ s ∷ t ∷ u ∷ v ∷ bs) = some (record {
  len = a * 2 ^ 16 + b * 2 ^ 8 + c;
  kind = kind;
  flags = flags;
  stream_id = mask_stream_id (s * 2 ^ 24 + t * 2 ^ 16 + u * 2 ^ 8 + v);
})
parse_header _ = none

-- `byte(x>>24) & 0x7f` is what is left of the octet without its high bit.
unfoldable pub append_to : Header → List ℕ → List ℕ
append_to h rest =
    byte (h.len / 2 ^ 16)
    ∷ byte (h.len / 2 ^ 8)
    ∷ byte h.len
    ∷ byte h.kind
    ∷ byte h.flags
    ∷ byte (h.stream_id / 2 ^ 24) % 2 ^ 7
    ∷ byte (h.stream_id / 2 ^ 16)
    ∷ byte (h.stream_id / 2 ^ 8)
    ∷ byte h.stream_id
    ∷ rest

-- The widths of the fields on the wire.
pub record Fits (h : Header) : Type 0 where
  pub len_fits : h.len < 2 ^ 24
  pub kind_fits : h.kind < 2 ^ 8
  pub flags_fit : h.flags < 2 ^ 8
  pub stream_id_fits : h.stream_id < 2 ^ 31

pub parse_header-append_to :
    (h : Header) (rest : List ℕ) → Fits h → parse_header (append_to h rest) ≡ some h
unfolding parse_header append_to
parse_header-append_to h rest v = ground arith

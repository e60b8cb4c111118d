-- ===== src/Tests/Responses.antt =====
-- internal/response at concrete inputs.
use zerodeps_hackk.Base.{ℕ, suc, ◌≡◌, ◌↔◌, refl, true, false, List, [], ◌∷◌, ◌++◌, none, some}
use zerodeps_hackk.Base.Text.{codes}
use zerodeps_hackk.H2.{Field}
use zerodeps_hackk.Frame.Types.{Frame}
use zerodeps_hackk.Response.Fields.{
  section_header, section_trailer, check_section, check_fields, check_field_line, check_name,
  check_ends, check_regular, check_status, all_octets,
}
use zerodeps_hackk.Response.Fields.Shape.{Shape}
use zerodeps_hackk.Response.Fields.Exact.{check_section_iff}
use zerodeps_hackk.Response.Encoder.{
  EncodingCodec, Transport, SectionEncoder, headers_of, write_headers, write_section, write_block,
  continue_section, check_list_size, split_at,
}
use zerodeps_hackk.Response.Encoder.Sections.{SectionSent, write_headers-Sent}
use zerodeps_hackk.Response.Writer.{
  ResponseWriter, write, close, enqueue_frame, write_header, informational, data_of,
}
use zerodeps_hackk.Response.Writer.Order.{call_header, call_close, call}
use zerodeps_hackk.Response.Writer.Content.{WriteAnswer, write-WriteAnswer}
use zerodeps_hackk.Base.Int.{pos}
use zerodeps_hackk.Flow.Sender.{Sender, new_sender}
use zerodeps_hackk.Response.Writer.Lending.{sending, sending-IsGranting}
use zerodeps_hackk.Tests.Setup.{writing}

abbrev line : List ℕ → List ℕ → Field
line name value = record { name = name; value = value; sensitive = false }

abbrev not_found : List Field
not_found = line (codes ":status") (codes "404") ∷ line (codes "server") (codes "zdh") ∷ []

let_through :
    (check_section section_header not_found ≡ true)
    × (check_section section_trailer not_found ≡ false)
    × (check_section section_header (line (codes "server") [] ∷ not_found) ≡ false)
    × (check_section section_header (line (codes ":status") (codes "099") ∷ []) ≡ false)
    × (check_section section_trailer (line (codes "te") (codes "x") ∷ []) ≡ false)
    × (check_section section_trailer [] ≡ true)
unfolding check_section check_fields check_field_line check_name check_ends check_regular
    check_status all_octets
let_through = (refl, refl, refl, refl, refl, refl)

check_section_iff_example :
    (check_section section_header not_found ≡ true) ↔ Shape section_header not_found
check_section_iff_example = check_section_iff section_header not_found

-- A codec that writes the octets of the values, and counts its blocks.
abbrev values : List Field → List ℕ
values [] = []
values (f ∷ fields) = f.value ++ values fields

instance abbrev plain : EncodingCodec ℕ
plain = record {
  encode = λ n fields. (values fields, suc n);
  set_max_dynamic_table_size = λ n size. n;
}

instance abbrev sized : Transport (List Frame)
sized = record { max_frame_size = λ w. 16384 }

abbrev encoder : SectionEncoder ℕ (List Frame)
encoder = record { codec = 0; t = []; max_list = some 100 }

abbrev after_headers : SectionEncoder ℕ (List Frame)
after_headers = record encoder { codec = 1; t = headers_of 3 false true (codes "404zdh") ∷ [] }

headers_sent : write_headers encoder 3 not_found false ≡ (after_headers, none)
unfolding write_headers write_section write_block continue_section check_list_size split_at
    check_section check_fields check_field_line check_name check_ends check_regular check_status
    all_octets
headers_sent = refl

write_headers-Sent_example : SectionSent section_header encoder 3 not_found false after_headers
write_headers-Sent_example = write_headers-Sent encoder 3 not_found false after_headers headers_sent

-- Stream 3 may send four octets.
abbrev lender : Sender
lender = record new_sender { stream = (3, record { stream_id = 3; initial = 4; n = pos 4 }) ∷ [] }

abbrev response : ResponseWriter ℕ (List Frame) Sender
response = record { enc = encoder; credit = lender; id = 3; wrote_header = true; closed = false }

write-WriteAnswer_example : WriteAnswer response (codes "hello") (write response (codes "hello"))
write-WriteAnswer_example = write-WriteAnswer response (codes "hello") sending-IsGranting

-- A header section above the peer's limit is refused before any frame, and the response counts it as
-- written: what follows has no HEADERS frame before it.
abbrev tight : ResponseWriter ℕ (List Frame) Sender
tight = record {
  enc = record { codec = 0; t = []; max_list = some 50 };
  credit = lender;
  id = 3;
  wrote_header = false;
  closed = false;
}

headless :
    (call (call tight (call_header not_found false)) call_close).enc.t ≡ data_of 3 true [] ∷ []
unfolding call close enqueue_frame write_header write_section check_list_size informational
    check_section check_fields check_field_line check_name check_ends check_regular check_status
    all_octets
headless = refl

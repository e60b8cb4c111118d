-- ===== src/Tests/Setup.antt =====
-- Concrete parties for the runs: a decoder that counts its blocks and refuses an empty one,
-- handlers and a writer that keep a log, and frames of a short connection.
use zerodeps_hackk.Base.{ℕ, suc, Bool, true, false, List, [], ◌∷◌, ◌++◌, Option, none, some}
use zerodeps_hackk.H2.{Field, HeaderCodec}
use zerodeps_hackk.Flow.Sender.{new_sender}
use zerodeps_hackk.Frame.Types.{Frame, DataFrame, headers, continuation}
use zerodeps_hackk.Stream.State.{Requests, Encoder, Writer}
use zerodeps_hackk.Stream.Table.{Table, new_table}

abbrev decode_block : ℕ → List ℕ → ℕ × Option (List Field)
decode_block n [] = (suc n, none)
decode_block n (b ∷ bs) = (suc n, some [])

instance abbrev pub counting : HeaderCodec ℕ
counting = record { decode = decode_block }

-- The identifiers of the streams that something was delivered for.
instance abbrev pub logging : Requests (List ℕ)
logging = record {
  on_headers = λ log s fields last. (s.id ∷ log, none);
  on_data = λ log s content last. (s.id ∷ log, none);
  on_trailers = λ log s fields. (s.id ∷ log, none);
  on_canceled = λ log s code. s.id ∷ log;
}

instance abbrev pub setting : Encoder ℕ
setting = record { set_max_dynamic_table_size = λ e n. n; set_max_header_list_size = λ e n. e }

instance abbrev pub writing : Writer (List Frame)
writing = record { enqueue = λ w f. (w ++ (f ∷ []), none); forget = λ w id. w }

abbrev pub Plain : Type 0
Plain = Table ℕ (List ℕ) ℕ (List Frame)

abbrev pub fresh : Plain
fresh = new_table 0 [] 0 [] 2 0 new_sender

abbrev pub open_frame : ℕ → Bool → Frame
open_frame id last = headers (record {
  stream_id = id;
  end_stream = false;
  end_headers = last;
  fragment = 1 ∷ 2 ∷ [];
  priority = false;
  exclusive = false;
  stream_dependency = 0;
  weight = 0;
  padded = false;
  pad_len = 0;
})

abbrev pub more_frame : ℕ → Bool → Frame
more_frame id last = continuation (record { stream_id = id; end_headers = last; fragment = 3 ∷ [] })

abbrev pub body : ℕ → Bool → DataFrame
body id last = record {
  stream_id = id;
  end_stream = last;
  content = 7 ∷ 7 ∷ 7 ∷ [];
  padded = true;
  pad_len = 4;
}

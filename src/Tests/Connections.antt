-- ===== src/Tests/Connections.antt =====
-- internal/server/conn.go at concrete inputs.
use zerodeps_hackk.Base.{
  true, IsOctets, ℕ, ◌≡◌, refl, arith, false, List, [], ◌∷◌, ◌++◌, Option, none, some,
}
use zerodeps_hackk.Base.Assoc.{lookup, insert, delete}
use zerodeps_hackk.H2.{Error, stream_error, frame_size_error, Outcome, failed}
use zerodeps_hackk.Flow.Window.{new_conn_window, new_stream_window, increase}
use zerodeps_hackk.Flow.Sender.{new_sender}
use zerodeps_hackk.Flow.Sender
use zerodeps_hackk.Frame.Types.{Frame}
use zerodeps_hackk.Frame.Header.{parse_header}
use zerodeps_hackk.Frame.Padding.{split_padding}
use zerodeps_hackk.Frame.Payload.{type_of, stream_of}
use zerodeps_hackk.Frame.Parse.{parse_settings, parse_each, parse_headers, parse_priority, parsers}
use zerodeps_hackk.Frame.Reader.{
  new_reader, read_frame_in, check_continuity, check_block_limits, track_block,
}
use zerodeps_hackk.Frame.Reader.Preface.{client_preface, read_preface}
use zerodeps_hackk.Stream.Table.{
  new_table, drain_sent, drain_each, send_end, retire, report_send_end,
}
use zerodeps_hackk.Stream.Table.Credit.{
  drain_credit, report_consumed, earn, enqueue_window_update, due_credit, kept_credit,
  credit_streams, credit_conn_recv,
}
use zerodeps_hackk.Stream.Table.Blocks.{on_headers}
use zerodeps_hackk.Stream.Table.Handle.{handle_frame}
use zerodeps_hackk.Priority.Pending.{take, prune}
use zerodeps_hackk.Server.Conn.{
  Conn, ConnWriter, Timeouts, new_conn, set_read_deadline, read_error, enqueue, with_handler,
  apply_settings, handle_settings, left_idle, taken_priority, deferred, handle_stream_frame,
  dispatch_on, dispatch,
}
use zerodeps_hackk.Server.Conn.Run.{
  Turn, consumed, send_ended, report, report_all, answer, received, read_under, round, rounds,
  read_start, start, run,
}
use zerodeps_hackk.Server.Conn.Safety.{Keeps, Repaying, run-Keeps}
use zerodeps_hackk.Tests.Setup.{counting, logging, setting, writing}

-- A priority is the text that it was sent as, and the writer keeps none.
instance abbrev keeping : ConnWriter (List Frame) (List ℕ)
keeping = record {
  prioritize = λ w id p. w;
  set_max_frame_size = λ w n. w;
  shutdown = λ w. w;
  close = λ w. w;
  wait = λ w. none;
  parse_priority = λ text. text;
}

-- An empty SETTINGS frame, and the header of a request on stream 1.
abbrev greeting : List ℕ
greeting = client_preface ++ 0 ∷ 0 ∷ 0 ∷ 4 ∷ 0 ∷ 0 ∷ 0 ∷ 0 ∷ 0 ∷ []

abbrev request : List ℕ
request = 0 ∷ 0 ∷ 2 ∷ 1 ∷ 5 ∷ 0 ∷ 0 ∷ 0 ∷ 1 ∷ 130 ∷ 132 ∷ []

-- A PRIORITY frame on stream 1 of four octets, one too few.
abbrev short_priority : List ℕ
short_priority = 0 ∷ 0 ∷ 4 ∷ 2 ∷ 0 ∷ 0 ∷ 0 ∷ 0 ∷ 1 ∷ 0 ∷ 0 ∷ 0 ∷ 3 ∷ []

abbrev waits : Timeouts
waits = record { preface = 10; idle = 100; settings_ack = 20 }

abbrev turn : ℕ → Turn
turn now = record {
  reports = [];
  now = now;
  stopping = false;
  stopping_then = false;
  deadline_set = none;
  expired = false;
}

abbrev serving : List ℕ → Conn ℕ (List ℕ) ℕ (List Frame) (List ℕ)
serving input = new_conn input (new_table 0 [] 0 [] 2 0 new_sender) waits

-- The run with all that it calls open.
running : List ℕ → List Turn → Outcome (Conn ℕ (List ℕ) ℕ (List Frame) (List ℕ))
unfolding run start round rounds enqueue set_read_deadline read_start read_preface read_under
    received answer dispatch dispatch_on handle_settings apply_settings handle_stream_frame
    with_handler deferred left_idle take taken_priority prune handle_frame drain_sent drain_credit
    on_headers new_table new_sender new_conn new_reader read_frame_in lookup insert delete
    new_conn_window new_stream_window Sender.open_stream report_all report report_consumed earn
    enqueue_window_update report_send_end due_credit kept_credit credit_streams credit_conn_recv
    increase drain_each send_end retire Sender.retire parsers parse_settings parse_each
    parse_headers parse_priority split_padding parse_header type_of stream_of check_continuity
    check_block_limits track_block read_error
running input turns = run (serving input) (turn 0) turns

ends_with : Outcome (Conn ℕ (List ℕ) ℕ (List Frame) (List ℕ)) → Option Error
ends_with (failed e c) = some e
ends_with _ = none

-- The malformed PRIORITY frame ends the connection.
malformed_priority :
    ends_with (running (greeting ++ request ++ short_priority) (turn 1 ∷ turn 2 ∷ turn 3 ∷ []))
    ≡ some (stream_error 1 frame_size_error)
unfolding running ends_with
malformed_priority = refl

-- Before the second frame a handler reports 20000 octets as read, which is more than it takes for credit
-- to be due, and before the third the end of its response.
abbrev turns : List Turn
turns =
    turn 1
    ∷ record (turn 2) { reports = consumed 1 20000 true ∷ [] }
    ∷ record (turn 3) { reports = send_ended 1 ∷ [] }
    ∷ []

turns_repay : Repaying (start (serving (greeting ++ request ++ short_priority)) (turn 0)) turns
unfolding running
turns_repay = ((_, refl), ((_, refl), ((_, refl), tt)))

octets : IsOctets (greeting ++ request ++ short_priority)
octets = ground arith

run-Keeps_example : Keeps (run (serving (greeting ++ request ++ short_priority)) (turn 0) turns)
run-Keeps_example =
    run-Keeps (List ℕ) (greeting ++ request ++ short_priority) 0 [] 0 [] 2 0 waits (turn 0) turns
      octets turns_repay

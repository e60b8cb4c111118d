-- ===== src/Tests/Tables.antt =====
-- internal/stream at concrete inputs.
use zerodeps_hackk.Base.{◌≡◌, refl, arith, true, false, List, [], ◌∷◌, some}
use zerodeps_hackk.Base.Assoc.{lookup, insert, delete}
use zerodeps_hackk.H2.{Outcome, Ensures}
use zerodeps_hackk.Flow.Window.{consume, increase, new_conn_window, new_stream_window}
use zerodeps_hackk.Flow.Sender.{new_sender}
use zerodeps_hackk.Flow.Sender
use zerodeps_hackk.Frame.Types.{data_frame}
use zerodeps_hackk.Frame.Padding.{padded_len}
use zerodeps_hackk.Base.Int.{◌+ℤ◌, ◌-ℤ◌}
use zerodeps_hackk.Stream.Table.{new_table, drain_sent, report_send_end, send_end, retire}
use zerodeps_hackk.Stream.Table.Credit.{drain_credit, report_consumed, enqueue_window_update, earn}
use zerodeps_hackk.Stream.Table.Blocks.{on_headers, on_continuation}
use zerodeps_hackk.Stream.Table.Handle.{handle_frame, dispatch, on_data}
use zerodeps_hackk.Stream.Table.Invariant.{Inv}
use zerodeps_hackk.Stream.Table.Dispatch.{Continuous}
use zerodeps_hackk.Stream.Table.Decoding.Whole.{decoded_by, dispatch-Decoder}
use zerodeps_hackk.Stream.Table.InStep.{InStep, GoesOn}
use zerodeps_hackk.Stream.Table.InStep.Handling.{dispatch-InStep}
use zerodeps_hackk.Frame.Reader.{Reader}
use zerodeps_hackk.Tests.Frames.{listening}
use zerodeps_hackk.Stream.Table.Lifecycle.{the_peer, this_side, may_become, phase}
use zerodeps_hackk.Stream.Table.Lifecycle.Frames.{handle_frame_moves}
use zerodeps_hackk.Stream.Table.History.{
  new_table-Inv, Event, frame, send_ended, consumed, run, step, LegalFrom, run-new_table-Inv,
}
use zerodeps_hackk.Tests.Setup.{
  counting, logging, setting, writing, Plain, fresh, open_frame, more_frame, body,
}

-- A request in two frames, its content, its end, and the end of the response.
abbrev exchange : List Event
exchange =
    frame 0 (open_frame 1 false)
    ∷ frame 1 (more_frame 1 true)
    ∷ consumed 1 3 true
    ∷ frame 2 (data_frame (body 1 true))
    ∷ send_ended 1
    ∷ frame 3 (open_frame 5 true)
    ∷ []

-- One step with all that it calls open, for the runs below.
stepping : Plain → Event → Outcome Plain
unfolding step handle_frame drain_sent drain_credit on_headers on_continuation on_data
    report_consumed report_send_end lookup insert delete consume increase new_stream_window
    new_table new_sender Sender.open_stream Sender.retire new_conn_window ◌+ℤ◌ ◌-ℤ◌ send_end retire
    enqueue_window_update earn padded_len
stepping = step

exchange_legal : LegalFrom (some fresh) exchange
unfolding stepping
exchange_legal = (tt, (tt, (tt, (tt, (tt, (tt, tt))))))

run-new_table-Inv_example : Ensures Inv (run fresh exchange)
run-new_table-Inv_example = run-new_table-Inv 0 [] 0 [] 2 0 exchange exchange_legal

-- A request whose header block is one frame opens stream 1.
handle_frame_moves_example :
    (may_become this_side (phase fresh 1) (phase (drain_sent fresh) 1) ≡ true)
    × Ensures
        (λ u. may_become the_peer (phase (drain_sent fresh) 1) (phase u 1) ≡ true)
        (handle_frame fresh 0 (open_frame 1 true))
unfolding new_table
handle_frame_moves_example =
    handle_frame_moves 1 fresh 0 (open_frame 1 true) (new_table-Inv 0 [] 0 [] 2 0) tt

-- The reader after the first frame of stream 1's header block, two octets of it.
abbrev mid_block : Reader
mid_block = record listening { block_stream = 1; block_size = 2 }

dispatch-InStep_example :
    Continuous fresh.assembling (open_frame 1 false)
    × GoesOn (λ u. InStep mid_block u.assembling) (dispatch fresh 0 (open_frame 1 false))
unfolding new_table
dispatch-InStep_example =
    dispatch-InStep mid_block listening fresh 0 (open_frame 1 false) (new_table-Inv 0 [] 0 [] 2 0)
      (omega arith, omega arith) (refl, refl, refl) refl
      (refl, ((refl, refl, refl), omega arith, omega arith))

dispatch-Decoder_example :
    Ensures
      (λ u. u.codec ≡ decoded_by fresh (open_frame 1 true))
      (dispatch fresh 0 (open_frame 1 true))
unfolding new_table
dispatch-Decoder_example =
    dispatch-Decoder fresh 0 (open_frame 1 true) (new_table-Inv 0 [] 0 [] 2 0) tt

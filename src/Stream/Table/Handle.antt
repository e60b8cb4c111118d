-- ===== src/Stream/Table/Handle.antt =====
-- The other frames of table.go, and `HandleFrame`. The clock is read where a frame arrives.
use zerodeps_hackk.Base.{ℕ, if◌then◌else◌, none, some, length}
use zerodeps_hackk.Base.Assoc.{lookup}
use zerodeps_hackk.H2.{
  conn_error, stream_error, protocol_error, stream_closed, enhance_your_calm, internal_error,
  HeaderCodec, Outcome, done, failed, panicked, ◌>>=◌, lift,
}
use zerodeps_hackk.Flow.Window.{consume}
use zerodeps_hackk.Flow.Sender
use zerodeps_hackk.Limits.Bucket.{allow}
use zerodeps_hackk.Frame.Types.{
  Frame, DataFrame, RstStreamFrame, WindowUpdateFrame, data_frame, headers, priority, rst_stream,
  window_update, continuation,
}
use zerodeps_hackk.Frame.Padding.{padded_len}
use zerodeps_hackk.Stream.State.{Stream, Requests, Writer, closed, recv_end, peer_done, is_idle}
use zerodeps_hackk.Stream.Table.{Table, store, retire, absent, state_of, drain_sent}
use zerodeps_hackk.Stream.Table.Credit.{drain_credit}
use zerodeps_hackk.Stream.Table.Blocks.{deliver, on_headers, on_continuation}

abbrev pub data_len : DataFrame → ℕ
data_len f = padded_len f.padded f.pad_len (length f.content)

module _ {C R E W : Type 0} where
  unfoldable pub consume_conn : Table C R E W → ℕ → Outcome (Table C R E W)
  consume_conn t n = lift (λ v. record t { conn_recv = v }) (consume t.conn_recv n)

  unfoldable pub on_window_update : Table C R E W → WindowUpdateFrame → Outcome (Table C R E W)
  on_window_update t f = elim (lookup f.stream_id t.streams) [
    | none ↦
        if is_idle (state_of t f.stream_id) then failed (conn_error protocol_error) t else done t
    | some s ↦
        lift (λ x. record t { sender = x }) (Sender.credit_stream t.sender f.stream_id f.increment)
  ]

module _ {C R E W : Type 0} ⦃reqs : Requests R⦄ ⦃writer : Writer W⦄ where
  -- DATA that its stream's window has admitted.
  unfoldable pub deliver_data : Table C R E W → Stream → DataFrame → Outcome (Table C R E W)
  deliver_data t s f =
      let s' = if f.end_stream then recv_end s else s in
      let t' = if f.end_stream then retire (store t s') s' else t in
      deliver t' (reqs.on_data t'.reqs s' f.content f.end_stream)

  -- DATA on a stream, after the connection's window was debited.
  unfoldable pub stream_data : Table C R E W → DataFrame → Outcome (Table C R E W)
  unfolding deliver_data
  stream_data t f = elim (lookup f.stream_id t.streams) [
    | none ↦ failed (absent t f.stream_id) t
    | some s ↦
        if peer_done s
        then failed (stream_error f.stream_id stream_closed) t
        else elim (consume s.recv (data_len f)) [
          | panicked ↦ panicked
          | failed e v ↦ failed e (store t (record s { recv = v }))
          | done v ↦ deliver_data (store t (record s { recv = v })) (record s { recv = v }) f
        ]
  ]

  unfoldable pub on_data : Table C R E W → DataFrame → Outcome (Table C R E W)
  unfolding stream_data consume_conn
  on_data t f = consume_conn t (data_len f) >>= λ t'. stream_data t' f

  unfoldable pub reset_stream : Table C R E W → RstStreamFrame → Table C R E W
  reset_stream t f = elim (lookup f.stream_id t.streams) [
    | none ↦ t
    | some s ↦
        let s' = record s { state = closed } in
        let t' = retire (store t s') s' in
        record t' { reqs = reqs.on_canceled t'.reqs s' f.err_code }
  ]

  unfoldable pub on_rst_stream : Table C R E W → ℕ → RstStreamFrame → Outcome (Table C R E W)
  unfolding reset_stream
  on_rst_stream t now f =
      if is_idle (state_of t f.stream_id)
      then failed (conn_error protocol_error) t
      else (let (b, allowed) = allow t.resets now in
          let t' = record t { resets = b } in
          if allowed then done (reset_stream t' f) else failed (conn_error enhance_your_calm) t')

module _ {C R E W : Type 0} ⦃codec : HeaderCodec C⦄ ⦃reqs : Requests R⦄ ⦃writer : Writer W⦄ where
  unfoldable pub dispatch : Table C R E W → ℕ → Frame → Outcome (Table C R E W)
  dispatch t now (headers f) = on_headers t f
  dispatch t now (continuation f) = on_continuation t f
  dispatch t now (data_frame f) = on_data t f
  dispatch t now (rst_stream f) = on_rst_stream t now f
  dispatch t now (priority f) = done t
  dispatch t now (window_update f) = on_window_update t f
  dispatch t now _ = failed (conn_error internal_error) t

  unfoldable pub handle_frame : Table C R E W → ℕ → Frame → Outcome (Table C R E W)
  unfolding dispatch
  handle_frame t now f = drain_credit (drain_sent t) >>= λ t'. dispatch t' now f

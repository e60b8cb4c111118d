-- ===== src/Server/Conn/Dispatching.antt =====
-- `dispatch` of internal/server/conn.go, on every frame that the reader may return.
use zerodeps_hackk.Base.{ℕ, true, ◌==◌, ltb, not}
use zerodeps_hackk.H2.{HeaderCodec, Ensures}
use zerodeps_hackk.Frame.Types.{
  Frame, data_frame, headers, priority, rst_stream, settings, push_promise, ping, go_away,
  window_update, continuation, priority_update,
}
use zerodeps_hackk.Frame.Header.{type_settings}
use zerodeps_hackk.Frame.Payload.{type_of, stream_of}
use zerodeps_hackk.Frame.WellFormed.{WellFormed}
use zerodeps_hackk.Frame.Reader.{Reader}
use zerodeps_hackk.Frame.Reader.Blocks.{Steps}
use zerodeps_hackk.Stream.State.{Requests, Encoder, Writer}
use zerodeps_hackk.Stream.Table.Handle.{handle_frame}
use zerodeps_hackk.Stream.Table.Invariant.{Inv}
use zerodeps_hackk.Stream.Table.InStep.{InStep, GoesOn}
use zerodeps_hackk.Server.Conn.{Conn, ConnWriter, handle_stream_frame, dispatch_on, dispatch}
use zerodeps_hackk.Server.Conn.Sound.{Kept, Kept-if, handle_ping-Kept, handle_priority_update-Kept}
use zerodeps_hackk.Server.Conn.Settling.{handle_settings-Kept, conn_window_update-Kept}
use zerodeps_hackk.Server.Conn.Arriving.{
  Repaid, Arriving, handle_frame-InStep, calm-Sound, deferred-Kept, seen-Kept,
}

module _ {C R E W P : Type 0} ⦃codec : HeaderCodec C⦄ ⦃reqs : Requests R⦄ ⦃enc : Encoder E⦄
    ⦃writer : Writer W⦄ ⦃conn_writer : ConnWriter W P⦄ where
  handle_stream_frame-Kept :
      (rd : Reader) (c : Conn C R E W P) (now : ℕ) (f : Frame)
      → Arriving rd c
      → Repaid c.handler
      → Steps rd f c.r
      → Kept (handle_stream_frame c now f)
  unfolding handle_stream_frame
  handle_stream_frame-Kept rd c now f a repaid step =
      Kept-if (ltb c.last_stream_id (stream_of f)) _ _
        (λ _. deferred-Kept rd c (stream_of f) a (handle_frame c.handler now f) ends.0 ends.1)
        (λ _. seen-Kept rd c (stream_of f) a (handle_frame c.handler now f) ends.0 ends.1)
    where
      ends :
          Ensures Inv (handle_frame c.handler now f)
          × GoesOn (λ u. InStep c.r u.assembling) (handle_frame c.handler now f)
      ends =
          handle_frame-InStep rd c.r c.handler now f a.table repaid a.bounds a.same a.in_step step

  dispatch_on-Kept :
      (rd : Reader) (c : Conn C R E W P) (now : ℕ) (f : Frame)
      → Arriving rd c
      → Repaid c.handler
      → WellFormed f
      → Steps rd f c.r
      → Kept (dispatch_on c now f)
  unfolding dispatch_on
  dispatch_on-Kept rd c now (settings f) a repaid ok step =
      handle_settings-Kept c f ok.0 (calm-Sound rd c a step.0 step.1)
  dispatch_on-Kept rd c now (ping f) a repaid ok step =
      handle_ping-Kept c f (calm-Sound rd c a step.0 step.1)
  dispatch_on-Kept rd c now (go_away f) a repaid ok step = a.table
  dispatch_on-Kept rd c now (push_promise f) a repaid ok step = a.table
  dispatch_on-Kept rd c now (priority_update f) a repaid ok step =
      handle_priority_update-Kept c f (calm-Sound rd c a step.0 step.1)
  dispatch_on-Kept rd c now (window_update f) a repaid ok step =
      Kept-if (f.stream_id == 0) _ _
        (λ _. conn_window_update-Kept c f.increment (calm-Sound rd c a step.0 step.1))
        (λ _. handle_stream_frame-Kept rd c now (window_update f) a repaid step)
  dispatch_on-Kept rd c now (data_frame f) a repaid ok step =
      handle_stream_frame-Kept rd c now (data_frame f) a repaid step
  dispatch_on-Kept rd c now (headers f) a repaid ok step =
      handle_stream_frame-Kept rd c now (headers f) a repaid step
  dispatch_on-Kept rd c now (priority f) a repaid ok step =
      handle_stream_frame-Kept rd c now (priority f) a repaid step
  dispatch_on-Kept rd c now (rst_stream f) a repaid ok step =
      handle_stream_frame-Kept rd c now (rst_stream f) a repaid step
  dispatch_on-Kept rd c now (continuation f) a repaid ok step =
      handle_stream_frame-Kept rd c now (continuation f) a repaid step

  pub dispatch-Kept :
      (rd : Reader) (c : Conn C R E W P) (now : ℕ) (f : Frame)
      → Arriving rd c
      → Repaid c.handler
      → WellFormed f
      → Steps rd f c.r
      → Kept (dispatch c now f)
  unfolding dispatch
  dispatch-Kept rd c now f a repaid ok step =
      Kept-if (not c.got_settings) _ _
        (λ _.
          Kept-if (not (type_of f == type_settings)) _ _ (λ _. a.table)
            (λ _.
              dispatch_on-Kept rd (record c { got_settings = true }) now f
                (record {
                  table = a.table;
                  in_step = a.in_step;
                  bounds = a.bounds;
                  same = a.same;
                  octets = a.octets;
                  waiting = a.waiting;
                })
                repaid ok step))
        (λ _. dispatch_on-Kept rd c now f a repaid ok step)

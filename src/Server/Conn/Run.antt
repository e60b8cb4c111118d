-- ===== src/Server/Conn/Run.antt =====
-- internal/server/conn.go: the loop of `run` and what `Serve` does when it ends. What other
-- goroutines, the clock and the socket do between two frames is a list of turns.
use zerodeps_hackk.Base.{ℕ, ◌+◌, ◌==◌, ◌||◌, Bool, if◌then◌else◌, List, [], ◌∷◌, Option, none, some}
use zerodeps_hackk.H2.{
  Error, ErrCode, conn_error, stream_error, stream_gone, external, no_error, HeaderCodec, Outcome,
  done, failed, panicked, ◌>>=◌,
}
use zerodeps_hackk.Frame.Types.{go_away, rst_stream}
use zerodeps_hackk.Frame.Reader.{Round, arrived, stopped, crash, again, read_frame}
use zerodeps_hackk.Frame.Reader.Preface.{read_preface}
use zerodeps_hackk.Stream.State.{Requests, Encoder, Writer}
use zerodeps_hackk.Stream.Table.{Table, report_send_end}
use zerodeps_hackk.Stream.Table
use zerodeps_hackk.Stream.Table.Credit.{report_consumed}
use zerodeps_hackk.Server.Conn.{
  Conn, ConnWriter, deadline_preface, deadline_idle, initial_settings, set_read_deadline,
  read_error, enqueue, dispatch, with_handler, err_shutting_down, err_deadline,
}

-- A report of another goroutine.
pub data Report : Type 0 where
  send_ended : ℕ → Report
  consumed : ℕ → ℕ → Bool → Report

-- What happens around one read: the reports before it, the time, whether the server is stopping when
-- the loop asks and when a failed read asks, what SetReadDeadline returns, and whether the deadline
-- passes before the frame is there.
pub record Turn : Type 0 where
  pub reports : List Report
  pub now : ℕ
  pub stopping : Bool
  pub stopping_then : Bool
  pub deadline_set : Option Error
  pub expired : Bool

or_else : Option Error → Option Error → Option Error
or_else (some e) other = some e
or_else none other = other

module _ {C R E W : Type 0} ⦃writer : Writer W⦄ where
  unfoldable pub report : Report → Table C R E W → Table C R E W
  report (send_ended id) t = report_send_end t id
  report (consumed id n more) t = report_consumed t id n more

  unfoldable pub report_all : List Report → Table C R E W → Table C R E W
  unfolding report
  report_all [] t = t
  report_all (x ∷ xs) t = report_all xs (report x t)

module _ {C R E W P : Type 0} ⦃codec : HeaderCodec C⦄ ⦃reqs : Requests R⦄ ⦃enc : Encoder E⦄
    ⦃writer : Writer W⦄ ⦃conn_writer : ConnWriter W P⦄ where
  -- A stream error is answered by RST_STREAM, and any other ends the loop.
  unfoldable pub answer : Outcome (Conn C R E W P) → Outcome (Conn C R E W P)
  answer (done c) = done c
  answer (failed (stream_error id code) c) =
      enqueue c (rst_stream (record { stream_id = id; err_code = code }))
  answer (failed (conn_error code) c) = failed (conn_error code) c
  answer (failed stream_gone c) = failed stream_gone c
  answer (failed (external n) c) = failed (external n) c
  answer panicked = panicked

  -- What `ReadFrame` returned. It does not run out of rounds.
  unfoldable pub received : Conn C R E W P → Turn → Round → Outcome (Conn C R E W P)
  received c turn (arrived f rd) = answer (dispatch (record c { r = rd }) turn.now f)
  received c turn (stopped e rd) = failed (read_error c turn.stopping_then e) (record c { r = rd })
  received c turn crash = panicked
  received c turn (again rd) = panicked

  -- A read under a deadline that has been set.
  unfoldable pub read_under : Conn C R E W P → Turn → Outcome (Conn C R E W P)
  read_under c turn =
      if turn.expired
      then failed (read_error c turn.stopping_then err_deadline) c
      else received c turn (read_frame c.r)

  -- One round of the loop.
  unfoldable pub round : Conn C R E W P → Turn → Outcome (Conn C R E W P)
  round c turn =
      let c' = record c { handler = report_all turn.reports c.handler } in
      let armed = set_read_deadline c' deadline_idle turn.now in
      if turn.stopping
      then failed err_shutting_down c'
      else elim turn.deadline_set [ some e ↦ failed e armed | none ↦ read_under armed turn ]

  unfoldable pub rounds : Conn C R E W P → List Turn → Outcome (Conn C R E W P)
  rounds c [] = done c
  rounds c (turn ∷ turns) = round c turn >>= λ c'. rounds c' turns

  -- The preface, after which the peer's acknowledgement of SETTINGS is due.
  unfoldable pub read_start : Conn C R E W P → Turn → Outcome (Conn C R E W P)
  read_start c turn =
      let (rd, e) = read_preface c.r in
      let c' = record c { r = rd } in
      if turn.expired then failed (read_error c turn.stopping_then err_deadline) c else elim e [
        | some err ↦ failed (read_error c' turn.stopping_then err) c'
        | none ↦ done (record c' { settings_ack_due = some (turn.now + c.timeouts.settings_ack) })
      ]

  unfoldable pub start : Conn C R E W P → Turn → Outcome (Conn C R E W P)
  start c turn = enqueue c initial_settings >>= λ c'. elim turn.deadline_set [
    | some e ↦ failed e (set_read_deadline c' deadline_preface turn.now)
    | none ↦ read_start (set_read_deadline c' deadline_preface turn.now) turn
  ]

  -- `run`, as far as the turns go.
  unfoldable pub run : Conn C R E W P → Turn → List Turn → Outcome (Conn C R E W P)
  run c first turns = start c first >>= λ c'. rounds c' turns

  on_writer : Conn C R E W P → (W → W) → Conn C R E W P
  on_writer c f = record c { handler = record c.handler { w = f c.handler.w } }

  -- The GOAWAY frame and the writer's shutdown, with the error of the first.
  unfoldable pub farewell : Conn C R E W P → ErrCode → Conn C R E W P × Option Error
  unfolding on_writer
  farewell c code =
      let (w, e) =
        writer.enqueue c.handler.w
          (go_away (record { last_stream_id = c.last_stream_id; err_code = code; debug = [] })) in
      (on_writer (record c { handler = record c.handler { w = w } }) conn_writer.shutdown, e)

  -- What `Serve` does when `run` has returned that error: the connection then, and the result.
  unfoldable pub conclude : Conn C R E W P → Error → Conn C R E W P × Option Error
  unfolding on_writer or_else
  conclude c (conn_error code) = let (c', e) = farewell c code in (c', some (conn_error code))
  conclude c (stream_error id code) = (on_writer c conn_writer.close, some (stream_error id code))
  conclude c stream_gone = (on_writer c conn_writer.close, some stream_gone)
  conclude c (external n) =
      let (c', e) = farewell c no_error in
      if n == 10
      then (on_writer c conn_writer.shutdown, none)
      else if n == 11 || n == 12 || n == 13
      then (c', or_else e (conn_writer.wait c'.handler.w))
      else (on_writer c conn_writer.close, some (external n))

  -- `Serve`: while the turns last it has not returned; then the table is closed with the error.
  unfoldable pub serve :
      Conn C R E W P → Turn → List Turn → Outcome (Conn C R E W P) × Option (Option Error)
  serve c first turns = elim (run c first turns) [
    | done c' ↦ (done c', none)
    | failed e c' ↦
        let (ended, result) = conclude c' e in
        (with_handler ended (Table.close ended.handler (some e)), some result)
    | panicked ↦ (panicked, none)
  ]

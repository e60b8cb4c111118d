-- ===== src/Server/Conn.antt =====
-- internal/server/conn.go: the goroutine of a connection, over the reader of internal/frame and the
-- stream table. The frame writer is shared with the table, in which it stands. A text that goes into a
-- GOAWAY frame is for people, and is left out.
pub mod Run
pub mod Sound
pub mod Settling
pub mod Arriving
pub mod Dispatching
pub mod Reports
pub mod Safety
use zerodeps_hackk.Base.{
  ℕ, zero, suc, ◌+◌, ◌%◌, Bool, true, false, ◌==◌, ltb, leb, ◌&&◌, not, if◌then◌else◌, List, [],
  ◌∷◌, Option, none, some, eq_bool,
}
use zerodeps_hackk.H2.{
  Error, ErrCode, conn_error, stream_error, stream_gone, external, no_error, protocol_error,
  settings_timeout, HeaderCodec, Outcome, done, failed, panicked, ◌>>=◌,
}
use zerodeps_hackk.Limits.{
  max_frame_size, max_header_block_size, max_continuation_frames, max_concurrent_streams,
}
use zerodeps_hackk.Frame.Types.{
  Frame, Setting, SettingsFrame, PingFrame, PriorityUpdateFrame, settings, ping, go_away,
  rst_stream, push_promise, priority_update, window_update,
}
use zerodeps_hackk.Frame.Header.{type_settings}
use zerodeps_hackk.Frame.Payload.{type_of, stream_of}
use zerodeps_hackk.Frame.Reader.{
  Reader, ReaderConfig, Round, arrived, stopped, crash, again, new_reader, read_frame, eof,
}
use zerodeps_hackk.Frame.Reader.Preface.{read_preface}
use zerodeps_hackk.Stream.State.{Requests, Encoder, Writer}
use zerodeps_hackk.Stream.Table.{
  Table, len, live, conn_window_update, set_initial_window_size, set_header_table_size,
  set_max_header_list_size,
}
use zerodeps_hackk.Stream.Table.Credit.{report_consumed}
use zerodeps_hackk.Stream.Table
use zerodeps_hackk.Stream.Table.Handle.{handle_frame}
use zerodeps_hackk.Priority.Pending.{Pending, put, take, held, prune}
use zerodeps_hackk.Priority.Pending

-- What the connection asks of the frame writer beside `Enqueue`, where `wait` is its final error, and of the parser of a priority
-- field value, whose errors it ignores.
pub record ConnWriter (W P : Type 0) : Type 0 where
  pub prioritize : W → ℕ → P → W
  pub set_max_frame_size : W → ℕ → W
  pub shutdown : W → W
  pub close : W → W
  pub wait : W → Option Error
  pub parse_priority : List ℕ → P

abbrev pub err_peer_closed : Error
err_peer_closed = external 10

abbrev pub err_peer_go_away : Error
err_peer_go_away = external 11

abbrev pub err_idle : Error
err_idle = external 12

abbrev pub err_shutting_down : Error
err_shutting_down = external 13

-- os.ErrDeadlineExceeded
abbrev pub err_deadline : Error
err_deadline = external 14

pub data ReadDeadlineKind : Type 0 where
  deadline_preface : ReadDeadlineKind
  deadline_idle : ReadDeadlineKind
  deadline_settings_ack : ReadDeadlineKind

pub record Timeouts : Type 0 where
  pub preface : ℕ
  pub idle : ℕ
  pub settings_ack : ℕ

-- The reader, the table with the writer, and what the goroutine itself keeps; the zero time is none.
pub record Conn (C R E W P : Type 0) : Type 0 where
  pub r : Reader
  pub handler : Table C R E W
  pub timeouts : Timeouts
  pub settings_ack_due : Option ℕ
  pub deadline_kind : ReadDeadlineKind
  pub got_settings : Bool
  pub settings_applied : Bool
  pub peer_no_rfc7540_priorities : Bool
  pub pending : Pending P
  pub last_stream_id : ℕ

abbrev pub reader_config : ReaderConfig
reader_config = record {
  max_frame_size = max_frame_size;
  max_header_block_size = max_header_block_size;
  max_continuation_frames = max_continuation_frames;
}

abbrev pub setting : ℕ → ℕ → Setting
setting id value = record { id = id; value = value }

abbrev pub initial_settings : Frame
initial_settings = settings (record {
  ack = false;
  settings =
      setting 0x5 max_frame_size
      ∷ setting 0x3 max_concurrent_streams
      ∷ setting 0x2 0
      ∷ setting 0x9 1
      ∷ [];
})

unfoldable pub deadline_error : ReadDeadlineKind → Error
deadline_error deadline_settings_ack = conn_error settings_timeout
deadline_error deadline_preface = conn_error protocol_error
deadline_error deadline_idle = err_idle

module _ {C R E W P : Type 0} where
  unfoldable pub new_conn : List ℕ → Table C R E W → Timeouts → Conn C R E W P
  new_conn input handler timeouts = record {
    r = new_reader input reader_config;
    handler = handler;
    timeouts = timeouts;
    settings_ack_due = none;
    deadline_kind = deadline_preface;
    got_settings = false;
    settings_applied = false;
    peer_no_rfc7540_priorities = false;
    pending = [];
    last_stream_id = 0;
  }

  -- A step of the table, seen from the connection.
  unfoldable pub with_handler : Conn C R E W P → Outcome (Table C R E W) → Outcome (Conn C R E W P)
  with_handler c (done t) = done (record c { handler = t })
  with_handler c (failed e t) = failed e (record c { handler = t })
  with_handler c panicked = panicked

  -- When a read must be done, and what that is for. `now` is the time of the call.
  abbrev pub deadline_for : Conn C R E W P → ReadDeadlineKind → ℕ → ℕ
  deadline_for c deadline_preface now = now + c.timeouts.preface
  deadline_for c deadline_idle now = now + c.timeouts.idle
  deadline_for c deadline_settings_ack now = elim c.settings_ack_due [ none ↦ 0 | some due ↦ due ]

  -- The deadline that is set is the earlier one, and the kind of it is kept.
  read_kind : Conn C R E W P → ReadDeadlineKind → ℕ → ReadDeadlineKind
  read_kind c want now = elim c.settings_ack_due [
    | none ↦ want
    | some due ↦ if ltb due (deadline_for c want now) then deadline_settings_ack else want
  ]

  unfoldable pub set_read_deadline : Conn C R E W P → ReadDeadlineKind → ℕ → Conn C R E W P
  unfolding read_kind
  set_read_deadline c want now = record c { deadline_kind = read_kind c want now }

  -- What a failed read means. No other error of this model wraps io.EOF or the deadline's.
  unfoldable pub read_error : Conn C R E W P → Bool → Error → Error
  read_error c stopping (external zero) = err_peer_closed
  read_error c stopping (external (suc n)) =
      if suc n == 14
      then (if stopping then err_shutting_down else deadline_error c.deadline_kind)
      else external (suc n)
  read_error c stopping (conn_error code) = conn_error code
  read_error c stopping (stream_error id code) = stream_error id code
  read_error c stopping stream_gone = stream_gone

module _ {C R E W P : Type 0} ⦃writer : Writer W⦄ where
  -- `return c.w.Enqueue(f)`
  unfoldable pub enqueue : Conn C R E W P → Frame → Outcome (Conn C R E W P)
  enqueue c f =
      let (w, e) = writer.enqueue c.handler.w f in
      let c' = record c { handler = record c.handler { w = w } } in
      elim e [ none ↦ done c' | some err ↦ failed err c' ]

  unfoldable pub handle_ping : Conn C R E W P → PingFrame → Outcome (Conn C R E W P)
  handle_ping c f =
      if f.ack then done c else enqueue c (ping (record { ack = true; payload = f.payload }))

module _ {C R E W P : Type 0} ⦃enc : Encoder E⦄ ⦃writer : Writer W⦄
    ⦃conn_writer : ConnWriter W P⦄ where
  unfoldable pub apply_setting : Conn C R E W P → Setting → Outcome (Conn C R E W P)
  apply_setting c s =
      let t = c.handler in
      let v = s.value == 1 in
      if s.id == 0x5
      then done (record c { handler = record t { w = conn_writer.set_max_frame_size t.w s.value } })
      else if s.id == 0x9
      then (if c.settings_applied && not (eq_bool v c.peer_no_rfc7540_priorities)
          then failed (conn_error protocol_error) c
          else done (record c { peer_no_rfc7540_priorities = v }))
      else if s.id == 0x1
      then done (record c { handler = set_header_table_size t s.value })
      else if s.id == 0x6
      then done (record c { handler = set_max_header_list_size t s.value })
      else if s.id == 0x4
      then with_handler c (set_initial_window_size t s.value)
      else done c

  unfoldable pub apply_settings : Conn C R E W P → List Setting → Outcome (Conn C R E W P)
  apply_settings c [] = done c
  apply_settings c (s ∷ ss) = apply_setting c s >>= λ c'. apply_settings c' ss

  unfoldable pub handle_settings : Conn C R E W P → SettingsFrame → Outcome (Conn C R E W P)
  handle_settings c f =
      if f.ack
      then done (record c { settings_ack_due = none })
      else apply_settings c f.settings >>= λ c'.
          enqueue (record c' { settings_applied = true })
            (settings (record { ack = true; settings = [] }))

module _ {C R E W P : Type 0} ⦃conn_writer : ConnWriter W P⦄ where
  unfoldable pub prioritize : Conn C R E W P → ℕ → P → Conn C R E W P
  prioritize c id p = record c {
    handler = record c.handler { w = conn_writer.prioritize c.handler.w id p };
  }

  unfoldable pub handle_priority_update :
      Conn C R E W P → PriorityUpdateFrame → Outcome (Conn C R E W P)
  handle_priority_update c f =
      let id = f.prioritized_id in
      let p = conn_writer.parse_priority f.value in
      if id % 2 == 0
      then failed (conn_error protocol_error) c
      else if live c.handler id
      then done (prioritize c id p)
      else if ltb c.last_stream_id id
      then (if not (held c.pending id)
            && leb max_concurrent_streams (Pending.len c.pending + len c.handler)
          then failed (conn_error protocol_error) c
          else done (record c { pending = put c.pending id p }))
      else done c

  -- What a buffered priority is for, once its stream has been taken out of the buffer.
  unfoldable pub taken_priority : Conn C R E W P → ℕ → Option P → Conn C R E W P
  taken_priority c id none = c
  taken_priority c id (some p) = if live c.handler id then prioritize c id p else c

  unfoldable pub left_idle : Conn C R E W P → ℕ → Conn C R E W P
  left_idle c id =
      let (rest, p) = take c.pending id in
      let c' = taken_priority (record c { pending = rest }) id p in
      record c' { pending = (prune c'.pending id).0 }

  -- The deferred call, which runs however the step ends.
  unfoldable pub deferred : ℕ → Outcome (Conn C R E W P) → Outcome (Conn C R E W P)
  deferred id (done c) = done (left_idle c id)
  deferred id (failed e c) = failed e (left_idle c id)
  deferred id panicked = panicked

module _ {C R E W P : Type 0} ⦃codec : HeaderCodec C⦄ ⦃reqs : Requests R⦄ ⦃enc : Encoder E⦄
    ⦃writer : Writer W⦄ ⦃conn_writer : ConnWriter W P⦄ where
  unfoldable pub handle_stream_frame : Conn C R E W P → ℕ → Frame → Outcome (Conn C R E W P)
  handle_stream_frame c now f =
      let id = stream_of f in
      if ltb c.last_stream_id id
      then deferred id
          (with_handler (record c { last_stream_id = id }) (handle_frame c.handler now f))
      else with_handler c (handle_frame c.handler now f)

  -- The frames by type, behind the check of the first one.
  unfoldable pub dispatch_on : Conn C R E W P → ℕ → Frame → Outcome (Conn C R E W P)
  dispatch_on c now (settings f) = handle_settings c f
  dispatch_on c now (ping f) = handle_ping c f
  dispatch_on c now (go_away f) = failed err_peer_go_away c
  dispatch_on c now (push_promise f) = failed (conn_error protocol_error) c
  dispatch_on c now (priority_update f) = handle_priority_update c f
  dispatch_on c now (window_update f) =
      if f.stream_id == 0
      then with_handler c (conn_window_update c.handler f.increment)
      else handle_stream_frame c now (window_update f)
  dispatch_on c now f = handle_stream_frame c now f

  unfoldable pub dispatch : Conn C R E W P → ℕ → Frame → Outcome (Conn C R E W P)
  dispatch c now f =
      if not c.got_settings
      then (if not (type_of f == type_settings)
          then failed (conn_error protocol_error) c
          else dispatch_on (record c { got_settings = true }) now f)
      else dispatch_on c now f

-- ===== src/Stream/Table.antt =====
-- internal/stream/table.go: the stream table of one connection. A stream that Go reaches through a
-- pointer is reached by its identifier here, and a change of it is stored back under that. The
-- methods of other goroutines run between two calls of `handle_frame`, at any place in a history.
pub mod Credit
pub mod Blocks
pub mod Handle
pub mod Invariant
pub mod Drains
pub mod Safety
pub mod Preservation
pub mod Dispatch
pub mod History
pub mod Lifecycle
pub mod InStep
pub mod Decoding
use zerodeps_hackk.Base.{
  ℕ, ◌+◌, ◌%◌, ◌≤◌, Bool, true, false, ◌==◌, ltb, leb, if◌then◌else◌, List, [], ◌∷◌, ◌++◌, Option,
  none, some, length, is_some, min,
}
use zerodeps_hackk.Base.Assoc.{Assoc, lookup, insert, delete}
use zerodeps_hackk.H2.{Error, conn_error, stream_error, protocol_error, stream_closed}
use zerodeps_hackk.H2.{Outcome, done, failed, panicked, ◌>>=◌, lift, HeaderCodec}
use zerodeps_hackk.Flow.Window.{Window, new_conn_window}
use zerodeps_hackk.Flow.Sender.{Sender}
use zerodeps_hackk.Flow.Sender
use zerodeps_hackk.Limits.{max_concurrent_streams, max_encoder_table_size}
use zerodeps_hackk.Limits.Bucket.{Bucket, new_reset_bucket}
use zerodeps_hackk.Stream.State.{
  Stream, State, idle, open_both, half_closed_remote, half_closed_local, closed, is_closed, is_idle,
  is_half_closed_remote, Requests, Encoder, Writer,
}

-- Receive-window credit on its way back to the peer: read and not yet advertised, and advertised
-- and not yet added to the window.
pub record RecvCredit : Type 0 where
  pub pending : ℕ
  pub granted : ℕ

-- A header block under reassembly; `trailer` is `s != nil`, and the stream is the one named `id`.
pub record Block : Type 0 where
  pub id : ℕ
  pub trailer : Bool
  pub buf : List ℕ
  pub end_stream : Bool
  pub verdict : Option Error

pub record Table (C R E W : Type 0) : Type 0 where
  pub codec : C
  pub reqs : R
  pub enc : E
  pub w : W
  pub max_concurrent : ℕ
  pub streams : Assoc Stream
  pub highest_remote : ℕ
  pub conn_recv : Window
  pub sender : Sender
  pub resets : Bucket
  pub assembling : Option Block
  pub sent : List ℕ
  pub conn_credit : RecvCredit
  pub stream_credit : Assoc RecvCredit

module _ {C R E W : Type 0} where
  -- The parts that Go requires are arguments; a maximum of 0 takes the default.
  unfoldable pub new_table : C → R → E → W → ℕ → ℕ → Sender → Table C R E W
  new_table c r e w max_concurrent now sender = record {
    codec = c;
    reqs = r;
    enc = e;
    w = w;
    max_concurrent = if max_concurrent == 0 then max_concurrent_streams else max_concurrent;
    streams = [];
    highest_remote = 0;
    conn_recv = new_conn_window;
    sender = sender;
    resets = new_reset_bucket now;
    assembling = none;
    sent = [];
    conn_credit = record { pending = 0; granted = 0 };
    stream_credit = [];
  }

  abbrev pub len : Table C R E W → ℕ
  len t = length t.streams

  abbrev pub live : Table C R E W → ℕ → Bool
  live t id = is_some (lookup id t.streams)

  unfoldable pub state_of : Table C R E W → ℕ → State
  state_of t id = elim (lookup id t.streams) [
    | some s ↦ s.state
    | none ↦ if id % 2 == 0 then idle else if ltb t.highest_remote id then idle else closed
  ]

  -- A stream changed through its pointer.
  abbrev pub store : Table C R E W → Stream → Table C R E W
  store t s = record t { streams = insert s.id s t.streams }

  -- The error for a frame on a stream that is not live.
  unfoldable pub absent : Table C R E W → ℕ → Error
  unfolding state_of
  absent t id =
      if is_idle (state_of t id) then conn_error protocol_error else stream_error id stream_closed

  unfoldable pub conn_window_update : Table C R E W → ℕ → Outcome (Table C R E W)
  conn_window_update t k = lift (λ s. record t { sender = s }) (Sender.credit_conn t.sender k)

  unfoldable pub set_initial_window_size : Table C R E W → ℕ → Outcome (Table C R E W)
  set_initial_window_size t k =
      lift (λ s. record t { sender = s }) (Sender.set_initial_size t.sender k)

  unfoldable pub close : Table C R E W → Option Error → Outcome (Table C R E W)
  close t e = lift (λ s. record t { sender = s }) (Sender.close t.sender e)

  unfoldable pub report_send_end : Table C R E W → ℕ → Table C R E W
  report_send_end t id = record t { sent = t.sent ++ (id ∷ []) }

module _ {C R E W : Type 0} ⦃enc : Encoder E⦄ where
  unfoldable pub set_header_table_size : Table C R E W → ℕ → Table C R E W
  set_header_table_size t n = record t {
    enc = enc.set_max_dynamic_table_size t.enc (min n max_encoder_table_size);
  }

  unfoldable pub set_max_header_list_size : Table C R E W → ℕ → Table C R E W
  set_max_header_list_size t n = record t { enc = enc.set_max_header_list_size t.enc n }

module _ {C R E W : Type 0} ⦃writer : Writer W⦄ where
  -- A stream that has closed leaves the table, the sender and the writer.
  unfoldable pub retire : Table C R E W → Stream → Table C R E W
  retire t s =
      if is_closed s.state
      then record t {
        streams = delete s.id t.streams;
        sender = Sender.retire t.sender s.id;
        w = writer.forget t.w s.id;
      }
      else t

  unfoldable pub send_end : Table C R E W → Stream → Table C R E W
  unfolding retire
  send_end t s =
      if is_half_closed_remote s.state
      then (let s' = record s { state = closed } in retire (store t s') s')
      else store t (record s { state = half_closed_local })

  abbrev pub send_end_of : Table C R E W → ℕ → Table C R E W
  send_end_of t id = elim (lookup id t.streams) [ none ↦ t | some s ↦ send_end t s ]

  unfoldable pub drain_each : List ℕ → Table C R E W → Table C R E W
  drain_each [] t = t
  drain_each (id ∷ ids) t = drain_each ids (send_end_of t id)

  unfoldable pub drain_sent : Table C R E W → Table C R E W
  unfolding drain_each
  drain_sent t = drain_each t.sent (record t { sent = [] })

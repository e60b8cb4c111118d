-- ===== src/Stream/State.antt =====
-- internal/stream/stream.go: a stream and its state (RFC 9113 section 5.1), and the interfaces
-- through which the table of table.go reaches the rest of the connection.
use zerodeps_hackk.Base.{ℕ, Bool, true, false, List, Option}
use zerodeps_hackk.H2.{Error, ErrCode, Field}
use zerodeps_hackk.Flow.Window.{Window}
use zerodeps_hackk.Frame.Types.{Frame}

pub data State : Type 0 where
  idle open_both half_closed_remote half_closed_local closed : State

pub record Stream : Type 0 where
  pub id : ℕ
  pub state : State
  pub recv : Window

abbrev pub recv_end_state : State → State
recv_end_state half_closed_local = closed
recv_end_state idle = half_closed_remote
recv_end_state open_both = half_closed_remote
recv_end_state half_closed_remote = half_closed_remote
recv_end_state closed = half_closed_remote

abbrev pub recv_end : Stream → Stream
recv_end s = record s { state = recv_end_state s.state }

abbrev pub is_half_closed_remote : State → Bool
is_half_closed_remote half_closed_remote = true
is_half_closed_remote _ = false

abbrev pub is_closed : State → Bool
is_closed closed = true
is_closed _ = false

abbrev pub is_idle : State → Bool
is_idle idle = true
is_idle _ = false

abbrev pub peer_done : Stream → Bool
peer_done s = is_half_closed_remote s.state

-- Who is told of requests, over a state of its own. It holds no table, so it cannot call one.
pub record Requests (R : Type 0) : Type 0 where
  pub on_headers : R → Stream → List Field → Bool → R × Option Error
  pub on_data : R → Stream → List ℕ → Bool → R × Option Error
  pub on_trailers : R → Stream → List Field → R × Option Error
  pub on_canceled : R → Stream → ErrCode → R

-- The response encoder, as far as the peer's SETTINGS reach it.
pub record Encoder (E : Type 0) : Type 0 where
  pub set_max_dynamic_table_size : E → ℕ → E
  pub set_max_header_list_size : E → ℕ → E

-- The connection's frame writer.
pub record Writer (W : Type 0) : Type 0 where
  pub enqueue : W → Frame → W × Option Error
  pub forget : W → ℕ → W

-- ===== src/Flow/Window.antt =====
-- internal/flow/window.go: one flow-control window. An int64 is an integer here; its
-- range is in `Window.Bounds`.
pub mod Bounds
pub mod Ledger
use zerodeps_hackk.Base.{ℕ, ◌^◌, ◌-◌, ◌==◌, if◌then◌else◌, ltb, Bool}
use zerodeps_hackk.Base.Int.{ℤ, pos, ◌+ℤ◌, ◌-ℤ◌, ltb_ℤ}
use zerodeps_hackk.H2.{Error, conn_error, stream_error, ErrCode, flow_control_error, internal_error}
use zerodeps_hackk.H2.{Outcome, done, failed, panicked}

abbrev pub initial_window_size : ℕ
initial_window_size = 65535

abbrev pub max_window_size : ℕ
max_window_size = 2 ^ 31 - 1

pub record Window : Type 0 where
  pub stream_id : ℕ
  pub initial : ℕ
  pub n : ℤ

unfoldable pub new_conn_window : Window
new_conn_window = record {
  stream_id = 0;
  initial = initial_window_size;
  n = pos initial_window_size;
}

unfoldable pub new_stream_window : ℕ → ℕ → Outcome Window
new_stream_window id initial =
    if id == 0
    then panicked
    else if ltb max_window_size initial
    then panicked
    else done (record { stream_id = id; initial = initial; n = pos initial })

-- A fault on the connection's window ends the connection, one on a stream's the stream.
unfoldable pub scoped : Window → ErrCode → Error
scoped w code = if w.stream_id == 0 then conn_error code else stream_error w.stream_id code

unfoldable pub consume : Window → ℕ → Outcome Window
unfolding scoped
consume w k =
    if k == 0
    then done w
    else if ltb_ℤ w.n (pos k)
    then failed (scoped w flow_control_error) w
    else done (record w { n = w.n -ℤ pos k })

unfoldable pub increase : Window → ℕ → Outcome Window
unfolding scoped
increase w k =
    if ltb_ℤ (pos max_window_size) (w.n +ℤ pos k)
    then failed (scoped w flow_control_error) w
    else done (record w { n = w.n +ℤ pos k })

-- The change of the initial size is a delta, so that credit already spent stays spent.
unfoldable pub set_initial_size : Window → ℕ → Outcome Window
set_initial_size w k =
    if w.stream_id == 0
    then failed (conn_error internal_error) w
    else let next = w.n +ℤ (pos k -ℤ pos w.initial) in
      if ltb_ℤ (pos max_window_size) next
      then failed (conn_error flow_control_error) w
      else done (record w { initial = k; n = next })

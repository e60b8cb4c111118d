-- ===== src/Flow/Window/Bounds.antt =====
-- The range of a window's value in window.go.
use zerodeps_hackk.Base.{ℕ, ◌≤◌, arith}
use zerodeps_hackk.Base.Int.{pos, ◌+ℤ◌, ◌-ℤ◌, ◌≤ℤ◌}
use zerodeps_hackk.H2.{Ensures}
use zerodeps_hackk.Flow.Window.{
  Window, max_window_size, new_conn_window, new_stream_window, consume, increase, set_initial_size,
}

-- A window lies between -(2^31 - 1) and 2^31 - 1, and has lost at most 2^31 - 1 of its initial size.
pub record IsBounded (w : Window) : Type 0 where
  pub initial_fits : w.initial ≤ max_window_size
  pub not_above : w.n ≤ℤ pos max_window_size
  pub not_below : pos w.initial ≤ℤ w.n +ℤ pos max_window_size

pub new_conn_window-IsBounded : IsBounded new_conn_window
unfolding new_conn_window ◌+ℤ◌
new_conn_window-IsBounded = omega arith

-- A new stream window does not panic, for a stream identifier that is not 0 and a legal size.
pub new_stream_window-IsBounded :
    (id k : ℕ) → 1 ≤ id → k ≤ max_window_size → Ensures IsBounded (new_stream_window id k)
unfolding new_stream_window ◌+ℤ◌
new_stream_window-IsBounded id k h b = ground arith

pub consume-IsBounded : (w : Window) (k : ℕ) → IsBounded w → Ensures IsBounded (consume w k)
unfolding consume ◌+ℤ◌ ◌-ℤ◌
consume-IsBounded w k b = ground arith

pub increase-IsBounded : (w : Window) (k : ℕ) → IsBounded w → Ensures IsBounded (increase w k)
unfolding increase ◌+ℤ◌ ◌-ℤ◌
increase-IsBounded w k b = ground arith

pub set_initial_size-IsBounded :
    (w : Window) (k : ℕ)
    → k ≤ max_window_size
    → IsBounded w
    → Ensures IsBounded (set_initial_size w k)
unfolding set_initial_size ◌+ℤ◌ ◌-ℤ◌
set_initial_size-IsBounded w k h b = ground arith

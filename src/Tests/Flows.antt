-- ===== src/Tests/Flows.antt =====
-- internal/flow and internal/limits at concrete inputs.
use zerodeps_hackk.Base.{◌+◌, ◌≤◌, ◌/◌, ◌≡◌, refl, true, List, [], ◌∷◌, none, arith}
use zerodeps_hackk.Base.Int.{pos, ◌+ℤ◌, ◌-ℤ◌}
use zerodeps_hackk.Base.Assoc.{lookup, insert}
use zerodeps_hackk.H2.{done, ◌>>=◌}
use zerodeps_hackk.Flow.Window
use zerodeps_hackk.Flow.Window.{Window, new_stream_window, consume, increase}
use zerodeps_hackk.Flow.Window.Ledger.{
  Op, spends, credits, resizes, apply_all, book_all, Agrees, apply_all-Agrees,
}
use zerodeps_hackk.Flow.Sender
use zerodeps_hackk.Flow.Sender.{
  Sender, new_sender, resize_each, insert_sorted, sorted_keys, reserve,
}
use zerodeps_hackk.Flow.Sender.Resize.{resized, resized?, set_initial_size_resizes}
use zerodeps_hackk.Flow.Sender.Credit.{answered, reserve-answered}
use zerodeps_hackk.Limits.Bucket.{Bucket, new_reset_bucket, allow}
use zerodeps_hackk.Limits.Bucket.Rate.{allowed, allowed-le, allow_after_interval}

-- Spent credit stays spent when the size shrinks, and the window goes below 0.
abbrev history : List Op
history = spends 50 ∷ resizes 10 ∷ credits 20 ∷ spends 5 ∷ []

apply_all-Agrees_example :
    Agrees 3
      (book_all (record { size = 60; credited = 0; spent = 0 }) history)
      (new_stream_window 3 60 >>= λ w. apply_all w history)
apply_all-Agrees_example = apply_all-Agrees 3 60 history (omega arith) (omega arith)

abbrev two_streams : Sender
two_streams = record {
  conn = record { stream_id = 0; initial = 65535; n = pos 9 };
  stream =
      (5, record { stream_id = 5; initial = 65535; n = pos 4 })
      ∷ (3, record { stream_id = 3; initial = 65535; n = pos 65535 })
      ∷ [];
  initial = 65535;
  err = none;
  waiting = 0;
}

abbrev shrunk : Sender
shrunk = record two_streams {
  stream =
      (5, resized 100 (record { stream_id = 5; initial = 65535; n = pos 4 }))
      ∷ (3, resized 100 (record { stream_id = 3; initial = 65535; n = pos 65535 }))
      ∷ [];
  initial = 100;
}

shrinks : Sender.set_initial_size two_streams 100 ≡ done shrunk
unfolding Sender.set_initial_size lookup insert Window.set_initial_size ◌+ℤ◌ ◌-ℤ◌
shrinks = refl

set_initial_size_resizes_example :
    (lookup 5 shrunk.stream ≡ resized? 100 (lookup 5 two_streams.stream))
    × (shrunk.conn ≡ two_streams.conn)
    × (shrunk.initial ≡ 100)
set_initial_size_resizes_example = set_initial_size_resizes two_streams shrunk 100 5 refl shrinks

reserve-answered_example :
    reserve two_streams 3 20 ≡ answered two_streams 3 20 none (lookup 3 two_streams.stream)
reserve-answered_example = reserve-answered two_streams 3 20 (omega arith)

abbrev bucket : Bucket
bucket = new_reset_bucket 0

reset_bucket :
    new_reset_bucket 0 ≡ record { burst = 100; interval = 50_000_000; tokens = 100; last = 0 }
unfolding new_reset_bucket
reset_bucket = refl

abbrev small : Bucket
small = record { burst = 2; interval = 10; tokens = 2; last = 0 }

allowed-le_example : allowed small (1 ∷ 2 ∷ 3 ∷ 25 ∷ []) ≤ 2 + 25 / 10
allowed-le_example =
    allowed-le 25 small (1 ∷ 2 ∷ 3 ∷ 25 ∷ []) (omega arith) (omega arith) (omega arith)

allow_after_interval_example : (allow (record small { tokens = 0 }) 10).1 ≡ true
allow_after_interval_example =
    allow_after_interval (record small { tokens = 0 }) 10 (omega arith) (omega arith) (omega arith)

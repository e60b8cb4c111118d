-- ===== src/Stream/Table/History.antt =====
-- Histories of the stream table of table.go: the frames that the reader's goroutine hands it, and
-- between them the reports of other goroutines and the peer's settings. As internal/server does, a
-- history goes on after a stream error and ends at any other.
use zerodeps_hackk.Base.{
  ℕ, ◌≤◌, Bool, true, false, ◌==◌, List, [], ◌∷◌, Option, none, some, arith, Bool-cases, inl, inr,
}
use zerodeps_hackk.Base.Assoc.{lookup}
use zerodeps_hackk.H2.{
  conn_error, stream_error, stream_gone, external, Outcome, done, failed, panicked, Ensures,
  HeaderCodec,
}
use zerodeps_hackk.Flow.Window.{max_window_size}
use zerodeps_hackk.Flow.Window.Bounds.{new_conn_window-IsBounded}
use zerodeps_hackk.Flow.Sender.{new_sender}
use zerodeps_hackk.Flow.Sender
use zerodeps_hackk.Flow.Sender.Validity
use zerodeps_hackk.Flow.Sender.Resize.{set_initial_size-IsValid}
use zerodeps_hackk.Flow.Sender.Streams.{credit_conn-SameStreams, set_initial_size-SameStreams}
use zerodeps_hackk.Frame.Types.{Frame}
use zerodeps_hackk.Stream.State.{Requests, Writer, Encoder}
use zerodeps_hackk.Stream.Table.{
  Table, new_table, conn_window_update, set_initial_window_size, set_header_table_size,
  set_max_header_list_size, report_send_end,
}
use zerodeps_hackk.Stream.Table.Credit.{report_consumed, enqueue_window_update}
use zerodeps_hackk.Stream.Table.Handle.{handle_frame}
use zerodeps_hackk.Stream.Table.Invariant.{Inv}
use zerodeps_hackk.Stream.Table.Dispatch.{Continuous, handle_frame-Inv, sender-Inv}

pub data Event : Type 0 where
  frame : ℕ → Frame → Event
  send_ended : ℕ → Event
  consumed : ℕ → ℕ → Bool → Event
  conn_credited : ℕ → Event
  initial_window_set : ℕ → Event
  header_table_set : ℕ → Event
  header_list_set : ℕ → Event

module _ {C R E W : Type 0} ⦃codec : HeaderCodec C⦄ ⦃reqs : Requests R⦄ ⦃enc : Encoder E⦄
    ⦃writer : Writer W⦄ where
  unfoldable pub step : Table C R E W → Event → Outcome (Table C R E W)
  step t (frame now f) = handle_frame t now f
  step t (send_ended id) = done (report_send_end t id)
  step t (consumed id n more) = done (report_consumed t id n more)
  step t (conn_credited k) = conn_window_update t k
  step t (initial_window_set k) = set_initial_window_size t k
  step t (header_table_set n) = done (set_header_table_size t n)
  step t (header_list_set n) = done (set_max_header_list_size t n)

  -- What the callers of the table see to: the reader's rule on header blocks, and frame.go's check
  -- of SETTINGS_INITIAL_WINDOW_SIZE.
  abbrev pub Legal : Table C R E W → Event → Type 0
  Legal t (frame now f) = Continuous t.assembling f
  Legal t (initial_window_set k) = k ≤ max_window_size
  Legal t _ = Unit {0}

  -- On after a stream error, with the state that it left.
  abbrev pub resume : Outcome (Table C R E W) → Option (Table C R E W)
  resume (done t) = some t
  resume (failed (stream_error i c) t) = some t
  resume (failed (conn_error c) t) = none
  resume (failed stream_gone t) = none
  resume (failed (external i) t) = none
  resume panicked = none

  unfoldable pub run : Table C R E W → List Event → Outcome (Table C R E W)
  run t [] = done t
  run t (e ∷ es) = let o = step t e in elim (resume o) [ none ↦ o | some t' ↦ run t' es ]

  abbrev pub LegalFrom : Option (Table C R E W) → List Event → Type 0
  LegalFrom none es = Unit {0}
  LegalFrom (some t) [] = Unit {0}
  LegalFrom (some t) (e ∷ es) = Legal t e × LegalFrom (resume (step t e)) es

  enqueue-Inv : (t : Table C R E W) (id k : ℕ) → Inv t → Inv (enqueue_window_update t id k)
  unfolding enqueue_window_update
  enqueue-Inv t id k v = elim (Bool-cases (k == 0)) [
    | inl none_due ↦ rw none_due v
    | inr due ↦ rw due (record { core = v.core; block = v.block })
  ]

  report_consumed-Inv :
      (t : Table C R E W) (id n : ℕ) (more : Bool) → Inv t → Inv (report_consumed t id n more)
  unfolding report_consumed
  report_consumed-Inv t id n true v = elim (Bool-cases (n == 0)) [
    | inl nothing ↦ rw nothing v
    | inr read ↦
        rw read (enqueue-Inv _ id _ (enqueue-Inv _ 0 _ (record { core = v.core; block = v.block })))
  ]
  report_consumed-Inv t id n false v = elim (Bool-cases (n == 0)) [
    | inl nothing ↦ rw nothing v
    | inr read ↦ rw read (enqueue-Inv _ 0 _ (record { core = v.core; block = v.block }))
  ]

  pub step-Inv : (t : Table C R E W) (e : Event) → Inv t → Legal t e → Ensures Inv (step t e)
  unfolding step
  step-Inv t (frame now f) v l = handle_frame-Inv t now f v l
  step-Inv t (send_ended id) v l =
      unfold report_send_end in record { core = v.core; block = v.block }
  step-Inv t (consumed id n more) v l = report_consumed-Inv t id n more v
  step-Inv t (conn_credited k) v l =
      unfold conn_window_update in
      sender-Inv t (Sender.credit_conn t.sender k) v
        (Validity.credit_conn-IsValid t.sender k v.core.sender_valid)
        (credit_conn-SameStreams t.sender k)
  step-Inv t (initial_window_set k) v l =
      unfold set_initial_window_size in
      sender-Inv t (Sender.set_initial_size t.sender k) v
        (set_initial_size-IsValid t.sender k l v.core.sender_valid)
        (set_initial_size-SameStreams t.sender k)
  step-Inv t (header_table_set n) v l =
      unfold set_header_table_size in record { core = v.core; block = v.block }
  step-Inv t (header_list_set n) v l =
      unfold set_max_header_list_size in record { core = v.core; block = v.block }

  -- One outcome of a history, and what follows it.
  Inv-onward :
      (es : List Event)
      → ((t : Table C R E W) → Inv t → LegalFrom (some t) es → Ensures Inv (run t es))
      → (o : Outcome (Table C R E W)) → Ensures Inv o
      → LegalFrom (resume o) es
      → Ensures Inv
          (elim (resume o) as (λ r. Outcome (Table C R E W)) [ none ↦ o | some t' ↦ run t' es ])
  Inv-onward es k (done t) p l = k t p l
  Inv-onward es k (failed (stream_error i c) t) p l = k t p l
  Inv-onward es k (failed (conn_error c) t) p l = p
  Inv-onward es k (failed stream_gone t) p l = p
  Inv-onward es k (failed (external i) t) p l = p
  Inv-onward es k panicked p l = p

  run-Inv :
      (t : Table C R E W) (es : List Event) → Inv t → LegalFrom (some t) es → Ensures Inv (run t es)
  unfolding run
  run-Inv t [] v l = v
  run-Inv t (e ∷ es) v (now, later) =
      Inv-onward es (λ t' w l. run-Inv t' es w l) (step t e) (step-Inv t e v now) later

  pub new_table-Inv :
      (c : C) (r : R) (e : E) (w : W) (limit now : ℕ) → Inv (new_table c r e w limit now new_sender)
  unfolding new_table lookup new_sender
  new_table-Inv c r e w limit now = record {
    core = record {
      entries = λ id. tt;
      sender_valid = Validity.new_sender-IsValid;
      conn_bounded = new_conn_window-IsBounded;
      within = omega arith;
    };
    block = tt;
  }

  -- A new connection's table keeps its invariant through any history of frames, reports and
  -- settings, of any length and in any order, that its callers may make: nothing panics, no more
  -- streams are live than the limit in force, each of them has the peer's odd identifier and a
  -- send window, and every window stays in its range.
  pub run-new_table-Inv :
      (c : C) (r : R) (e : E) (w : W) (limit now : ℕ) (es : List Event)
      → LegalFrom (some (new_table c r e w limit now new_sender)) es
      → Ensures Inv (run (new_table c r e w limit now new_sender) es)
  run-new_table-Inv c r e w limit now es l =
      run-Inv (new_table c r e w limit now new_sender) es (new_table-Inv c r e w limit now) l

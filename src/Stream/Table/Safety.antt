-- ===== src/Stream/Table/Safety.antt =====
-- The end of a header block in table.go, and the table's invariant.
use zerodeps_hackk.Base.{
  ℕ, ◌%◌, ◌≤◌, ◌<◌, ◌≡◌, refl, Bool, true, false, if◌then◌else◌, List, Option, none, some, arith,
  inl, inr, Bool-cases, Option-cases,
}
use zerodeps_hackk.Base.Int.{pos}
use zerodeps_hackk.Base.Assoc.{lookup, insert, lookup-insert}
use zerodeps_hackk.H2.{
  Error, Field, Outcome, done, failed, panicked, Ensures, Ensures-and, Ensures-map, Ensures-then,
}
use zerodeps_hackk.Flow.Window.{Window, new_stream_window, initial_window_size}
use zerodeps_hackk.Flow.Window.Bounds.{IsBounded, new_stream_window-IsBounded}
use zerodeps_hackk.Flow.Sender.{Sender}
use zerodeps_hackk.Flow.Sender
use zerodeps_hackk.Flow.Sender.Validity
use zerodeps_hackk.Flow.Sender.Streams.{open_stream_adds}
use zerodeps_hackk.Stream.State.{
  Stream, State, idle, open_both, half_closed_remote, half_closed_local, closed, is_closed, is_idle,
  recv_end, recv_end_state, Requests, Writer,
}
use zerodeps_hackk.Stream.Table.{Table, Block, len, store, retire}
use zerodeps_hackk.Stream.Table.Blocks.{
  deliver, add_stream, complete_trailers, start_request, complete_request,
}
use zerodeps_hackk.Stream.Table.Invariant.{
  CoreOf, Trailing, Inv, IsLive, store-Core, close-Core, insert-Core,
}
use zerodeps_hackk.Stream.Table.Drains.{lookup-Held}

IsLive-of : (st : State) → is_closed st ≡ false → is_idle st ≡ false → IsLive st
IsLive-of idle c i = cc
IsLive-of open_both c i = tt
IsLive-of half_closed_remote c i = tt
IsLive-of half_closed_local c i = tt
IsLive-of closed c i = cc

pub not_idle : (st : State) → is_idle (recv_end_state st) ≡ false
not_idle idle = refl
not_idle open_both = refl
not_idle half_closed_remote = refl
not_idle half_closed_local = refl
not_idle closed = refl

-- What a frame's handler leaves when no block is open: the invariant, and no block.
abbrev pub Calm : {C R E W : Type 0} → Table C R E W → Type 0
Calm t = CoreOf t × (t.assembling ≡ none)

module _ {C R E W : Type 0} where
  pub Calm-Inv : (t : Table C R E W) → Calm t → Inv t
  Calm-Inv t (core, e) = record { core = core; block = rw e tt }

  pub deliver-Calm :
      (t : Table C R E W) (p : R × Option Error) → Calm t → Ensures Calm (deliver t p)
  deliver-Calm t (r, none) v = v
  deliver-Calm t (r, some e) v = v

module _ {C R E W : Type 0} ⦃writer : Writer W⦄ where
  -- A held stream changes to a state other than idle, and leaves if that is closed.
  pub settle-Calm :
      (t : Table C R E W) (s u : Stream)
      → Calm t
      → lookup s.id t.streams ≡ some u
      → is_idle s.state ≡ false
      → IsBounded s.recv
      → Calm (retire (store t s) s)
  unfolding retire
  settle-Calm t s u (v, calm) e i b = elim (Bool-cases (is_closed s.state)) [
    | inl c ↦
        rw (c, retire)
          (
            close-Core t.streams t.sender t.highest_remote t.conn_recv t.max_concurrent s u v e,
            calm,
          )
    | inr o ↦
        rw (o, retire)
          (
            store-Core t.streams t.sender t.highest_remote t.conn_recv t.max_concurrent s u v e
                (IsLive-of s.state o i) b,
            calm,
          )
  ]

module _ {C R E W : Type 0} where
  -- A stream that is not in the table yet enters it.
  add_stream-Calm :
      (t : Table C R E W) (s : Stream)
      → Calm t
      → lookup s.id t.streams ≡ none
      → s.id % 2 ≡ 1
      → s.id ≤ t.highest_remote
      → IsLive s.state
      → IsBounded s.recv
      → len t < t.max_concurrent
      → Ensures (λ t'. Calm t' × (lookup s.id t'.streams ≡ some s)) (add_stream t s)
  unfolding add_stream
  add_stream-Calm t s (v, calm) gone odd used l b room =
      Ensures-map
        (λ x. Validity.IsValid x × ((w : Window) × (x.stream ≡ insert s.id w t.sender.stream))) _ _
        (Sender.open_stream t.sender s.id)
        (λ x (valid, added). (
          (
            insert-Core t.streams t.sender x t.highest_remote t.conn_recv t.max_concurrent s added.0
                v gone (refl, odd, used, l, b) room valid added.1,
            calm,
          ),
          ground (arith, lookup-insert s.id s.id s t.streams),
        ))
        (Ensures-and _ _ (Sender.open_stream t.sender s.id)
          (Validity.open_stream-IsValid t.sender s.id v.sender_valid (omega arith) unused)
          (open_stream_adds t.sender s.id unused (
            new_stream_window-IsBounded s.id t.sender.initial (omega arith)
              v.sender_valid.initial_fits)))
    where
      unused : lookup s.id t.sender.stream ≡ none
      unused = ground (arith, v.entries s.id)

pub new_recv :
    (id : ℕ) → id % 2 ≡ 1 → (w : Window) × (new_stream_window id initial_window_size ≡ done w)
unfolding new_stream_window
new_recv id odd = (
  record { stream_id = id; initial = initial_window_size; n = pos initial_window_size },
  ground arith,
)

module _ {C R E W : Type 0} ⦃reqs : Requests R⦄ ⦃writer : Writer W⦄ where
  pub complete_trailers-Calm :
      (t : Table C R E W) (b : Block) (fields : List Field)
      → Calm t
      → Trailing (lookup b.id t.streams)
      → Ensures Calm (complete_trailers t b fields)
  unfolding complete_trailers
  complete_trailers-Calm t b fields v w = elim (Option-cases (lookup b.id t.streams)) [
    | inl gone ↦ absurd (rw gone at w)
    | inr (s, e) ↦
        let (_, k) = lookup-Held t b.id s (Calm-Inv t v) e in
        rw (e, complete_trailers)
          (deliver-Calm (retire (store t (recv_end s)) (recv_end s)) _
            (settle-Calm t (recv_end s) s v k.held (not_idle s.state) k.recv_bounded))
  ]

  start_request-Calm :
      (t : Table C R E W) (b : Block) (fields : List Field) (v : Window)
      → Calm t
      → b.id % 2 ≡ 1
      → b.id ≤ t.highest_remote
      → lookup b.id t.streams ≡ none
      → len t < t.max_concurrent
      → IsBounded v
      → Ensures Calm (start_request t b fields v)
  unfolding start_request
  start_request-Calm t b fields v calm odd used gone room bounded =
      Ensures-then (λ t'. Calm t' × (lookup b.id t'.streams ≡ some s)) Calm (add_stream t s) _
        (add_stream-Calm t s calm gone odd used tt bounded room) (λ t' p. p.0)
        (λ t' p. deliver-Calm (store t' (after b.end_stream)) _ (enters t' p (b.end_stream)))
    where
      s : Stream
      s = record { id = b.id; state = open_both; recv = v }

      after : Bool → Stream
      after e = if e then recv_end s else s

      enters :
          (t' : Table C R E W)
          → Calm t' × (lookup b.id t'.streams ≡ some s)
          → (e : Bool) → Calm (store t' (after e))
      enters t' ((core, calm'), e) true = (
        store-Core t'.streams t'.sender t'.highest_remote t'.conn_recv t'.max_concurrent
            (after true) s core e tt bounded,
        calm',
      )
      enters t' ((core, calm'), e) false = (
        store-Core t'.streams t'.sender t'.highest_remote t'.conn_recv t'.max_concurrent
            (after false) s core e tt bounded,
        calm',
      )

  pub complete_request-Calm :
      (t : Table C R E W) (b : Block) (fields : List Field)
      → Calm t
      → b.id % 2 ≡ 1
      → b.id ≤ t.highest_remote
      → lookup b.id t.streams ≡ none
      → len t < t.max_concurrent
      → Ensures Calm (complete_request t b fields)
  unfolding complete_request
  complete_request-Calm t b fields calm odd used gone room =
      fresh (new_stream_window b.id initial_window_size) (new_recv b.id odd)
        (new_stream_window-IsBounded b.id initial_window_size (omega arith) (omega arith))
    where
      fresh :
          (o : Outcome Window)
          → (w : Window) × (o ≡ done w)
          → Ensures IsBounded o
          → Ensures Calm (elim o as (λ o. Outcome (Table C R E W)) [
            | done v ↦ start_request t b fields v
            | failed e v ↦ panicked
            | panicked ↦ panicked
          ])
      fresh (done v) _ bounded = start_request-Calm t b fields v calm odd used gone room bounded
      fresh (failed e v) (w, q) bounded = cc
      fresh panicked q bounded = bounded

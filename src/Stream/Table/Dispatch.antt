-- ===== src/Stream/Table/Dispatch.antt =====
-- `HandleFrame` of table.go and the table's invariant, under the reader's rule on header blocks.
use zerodeps_hackk.Base.{
  ℕ, ◌≡◌, refl, Option, none, some, arith, inl, inr, Bool-cases, Option-cases,
}
use zerodeps_hackk.Base.Assoc.{lookup, lookup-insert}
use zerodeps_hackk.H2.{
  Outcome, done, failed, panicked, lift, Ensures, Ensures-bind, Ensures-and, Ensures-map,
  Ensures-then, Ensures-weaken, HeaderCodec,
}
use zerodeps_hackk.Flow.Window.{Window, consume}
use zerodeps_hackk.Flow.Window.Bounds.{IsBounded, consume-IsBounded}
use zerodeps_hackk.Flow.Sender.{Sender}
use zerodeps_hackk.Flow.Sender
use zerodeps_hackk.Flow.Sender.Validity
use zerodeps_hackk.Flow.Sender.Streams.{SameStreams, credit_stream-SameStreams}
use zerodeps_hackk.Limits.Bucket.{allow}
use zerodeps_hackk.Frame.Types.{
  Frame, DataFrame, RstStreamFrame, WindowUpdateFrame, data_frame, headers, priority, rst_stream,
  window_update, continuation,
}
use zerodeps_hackk.Stream.State.{Stream, closed, is_idle, recv_end, peer_done, Requests, Writer}
use zerodeps_hackk.Stream.Table.{Table, Block, store, retire, state_of, drain_sent}
use zerodeps_hackk.Stream.Table.Credit.{drain_credit}
use zerodeps_hackk.Stream.Table.Handle.{
  data_len, consume_conn, on_window_update, deliver_data, stream_data, on_data, reset_stream,
  on_rst_stream, dispatch, handle_frame,
}
use zerodeps_hackk.Stream.Table.Invariant.{Inv, Held, store-Core, sender-Core}
use zerodeps_hackk.Stream.Table.Drains.{
  lookup-Held, drain_sent-Inv, drain_credit-Inv, drains-assembling,
}
use zerodeps_hackk.Stream.Table.Preservation.{on_headers-Inv, on_continuation-Inv}
use zerodeps_hackk.Stream.Table.Safety.{Calm, Calm-Inv, deliver-Calm, settle-Calm, not_idle}

-- The rule on header blocks that frame.Reader enforces (RFC 9113 section 6.10): while one is open
-- only a CONTINUATION frame may come.
abbrev pub Continuous : Option Block → Frame → Type 0
Continuous none f = Unit {0}
Continuous (some b) (continuation f) = Unit {0}
Continuous (some b) _ = ⊥

module _ {C R E W : Type 0} where
  -- The sender changes and holds the same streams.
  pub sender-Inv :
      (t : Table C R E W) (o : Outcome Sender)
      → Inv t
      → Ensures Validity.IsValid o
      → Ensures (SameStreams t.sender) o
      → Ensures Inv (lift (λ x. record t { sender = x }) o)
  sender-Inv t o v valid same =
      Ensures-map (λ x. Validity.IsValid x × SameStreams t.sender x) Inv _ o
        (λ x (p, q). record {
          core =
              sender-Core t.streams t.sender x t.highest_remote t.conn_recv t.max_concurrent v.core
                p q;
          block = v.block;
        })
        (Ensures-and _ _ o valid same)

  on_window_update-Inv :
      (t : Table C R E W) (f : WindowUpdateFrame) → Inv t → Ensures Inv (on_window_update t f)
  unfolding on_window_update
  on_window_update-Inv t f v = elim (Option-cases (lookup f.stream_id t.streams)) [
    | inl gone ↦ elim (Bool-cases (is_idle (state_of t f.stream_id))) [
      | inl unused ↦ rw (gone, unused, on_window_update) v
      | inr over ↦ rw (gone, over, on_window_update) v
    ]
    | inr (s, e) ↦
        rw (e, on_window_update)
          (sender-Inv t (Sender.credit_stream t.sender f.stream_id f.increment) v
            (Validity.credit_stream-IsValid t.sender f.stream_id f.increment v.core.sender_valid)
            (credit_stream-SameStreams t.sender f.stream_id f.increment))
  ]

  -- A held stream with another receive window in range.
  pub store_recv-Calm :
      (t : Table C R E W) (s : Stream) (w : Window)
      → Calm t
      → Held t.streams t.highest_remote s
      → IsBounded w
      → Calm (store t (record s { recv = w }))
        × Held (store t (record s { recv = w })).streams t.highest_remote (record s { recv = w })
  store_recv-Calm t s w v k b = (
    (
      store-Core t.streams t.sender t.highest_remote t.conn_recv t.max_concurrent
          (record s { recv = w }) s v.0 k.held k.is_live b,
      v.1,
    ),
    record {
      held = ground (arith, lookup-insert s.id s.id (record s { recv = w }) t.streams);
      is_odd = k.is_odd;
      used = k.used;
      is_live = k.is_live;
      recv_bounded = b;
    },
  )

module _ {C R E W : Type 0} ⦃reqs : Requests R⦄ ⦃writer : Writer W⦄ where
  deliver_data-Calm :
      (t : Table C R E W) (s : Stream) (f : DataFrame)
      → Calm t
      → Held t.streams t.highest_remote s
      → Ensures Calm (deliver_data t s f)
  unfolding deliver_data
  deliver_data-Calm t s f v k = elim (Bool-cases f.end_stream) [
    | inl last ↦ rw last (
        deliver-Calm (retire (store t (recv_end s)) (recv_end s)) _
          (settle-Calm t (recv_end s) s v k.held (not_idle s.state) k.recv_bounded))
    | inr more ↦ rw more (deliver-Calm t _ v)
  ]

  -- The stream's window is debited, or found short.
  spend-Calm :
      (t : Table C R E W) (s : Stream) (f : DataFrame) (o : Outcome Window)
      → Calm t
      → Held t.streams t.highest_remote s
      → Ensures IsBounded o
      → Ensures Calm (elim o as (λ o. Outcome (Table C R E W)) [
        | panicked ↦ panicked
        | failed e v ↦ failed e (store t (record s { recv = v }))
        | done v ↦ deliver_data (store t (record s { recv = v })) (record s { recv = v }) f
      ])
  spend-Calm t s f (done w) v k b =
      let (calm, held) = store_recv-Calm t s w v k b in deliver_data-Calm _ _ f calm held
  spend-Calm t s f (failed e w) v k b = (store_recv-Calm t s w v k b).0
  spend-Calm t s f panicked v k b = b

  stream_data-Calm : (t : Table C R E W) (f : DataFrame) → Calm t → Ensures Calm (stream_data t f)
  unfolding stream_data
  stream_data-Calm t f v = elim (Option-cases (lookup f.stream_id t.streams)) [
    | inl gone ↦ rw (gone, stream_data) v
    | inr (s, e) ↦ elim (Bool-cases (peer_done s)) [
      | inl over ↦ rw (e, over, stream_data) v
      | inr still ↦
          rw (e, still, stream_data)
            (spend-Calm t s f (consume s.recv (data_len f)) v
              (lookup-Held t f.stream_id s (Calm-Inv t v) e).1
              (consume-IsBounded s.recv (data_len f)
                (lookup-Held t f.stream_id s (Calm-Inv t v) e).1.recv_bounded))
    ]
  ]

  pub on_data-Calm : (t : Table C R E W) (f : DataFrame) → Calm t → Ensures Calm (on_data t f)
  unfolding on_data consume_conn
  on_data-Calm t f v =
      Ensures-bind Calm _ (λ t'. stream_data t' f)
        (Ensures-map IsBounded Calm _ (consume t.conn_recv (data_len f))
          (λ w b. (
            record {
              entries = v.0.entries;
              sender_valid = v.0.sender_valid;
              conn_bounded = b;
              within = v.0.within;
            },
            v.1,
          ))
          (consume-IsBounded t.conn_recv (data_len f) v.0.conn_bounded))
        (λ t' v'. stream_data-Calm t' f v')

  reset_stream-Calm : (t : Table C R E W) (f : RstStreamFrame) → Calm t → Calm (reset_stream t f)
  unfolding reset_stream
  reset_stream-Calm t f v = elim (Option-cases (lookup f.stream_id t.streams)) [
    | inl gone ↦ rw (gone, reset_stream) v
    | inr (s, e) ↦
        let (_, k) = lookup-Held t f.stream_id s (Calm-Inv t v) e in
        rw (e, reset_stream)
          (settle-Calm t (record s { state = closed }) s v k.held refl k.recv_bounded)
  ]

  pub on_rst_stream-Calm :
      (t : Table C R E W) (now : ℕ) (f : RstStreamFrame)
      → Calm t
      → Ensures Calm (on_rst_stream t now f)
  unfolding on_rst_stream
  on_rst_stream-Calm t now f v = elim (Bool-cases (is_idle (state_of t f.stream_id))) [
    | inl unused ↦ rw (unused, on_rst_stream) v
    | inr used ↦ elim (Bool-cases (allow t.resets now).1) [
      | inl allowed ↦
          rw (used, allowed, on_rst_stream)
            (reset_stream-Calm (record t { resets = (allow t.resets now).0 }) f v)
      | inr flood ↦ rw (used, flood, on_rst_stream) v
    ]
  ]

module _ {C R E W : Type 0} ⦃codec : HeaderCodec C⦄ ⦃reqs : Requests R⦄ ⦃writer : Writer W⦄ where
  -- With a block open only a CONTINUATION is handled; with none, any frame.
  pub dispatch-Inv :
      (t : Table C R E W) (now : ℕ) (f : Frame)
      → Inv t
      → Continuous t.assembling f
      → Ensures Inv (dispatch t now f)
  dispatch-Inv t now f v k = elim (Option-cases t.assembling) [
    | inr (b, e) ↦ mid f b (rw e at k)
    | inl calm ↦ any f (v.core, calm)
  ]
    where
      mid : (f : Frame) (b : Block) → Continuous (some b) f → Ensures Inv (dispatch t now f)
      mid (continuation f) b k = unfold dispatch in on_continuation-Inv t f v
      mid _ b k = absurd k

      any : (f : Frame) → Calm t → Ensures Inv (dispatch t now f)
      any (headers f) c = unfold dispatch in on_headers-Inv t f c
      any (continuation f) c = unfold dispatch in on_continuation-Inv t f v
      any (data_frame f) c =
          unfold dispatch in Ensures-weaken Calm Inv _ Calm-Inv (on_data-Calm t f c)
      any (rst_stream f) c =
          unfold dispatch in Ensures-weaken Calm Inv _ Calm-Inv (on_rst_stream-Calm t now f c)
      any (priority f) c = unfold dispatch in v
      any (window_update f) c = unfold dispatch in on_window_update-Inv t f v
      any _ c = unfold dispatch in v

  -- A frame that the reader's rule lets through keeps the invariant and does not panic, whether it
  -- is accepted or answered with an error.
  pub handle_frame-Inv :
      (t : Table C R E W) (now : ℕ) (f : Frame)
      → Inv t
      → Continuous t.assembling f
      → Ensures Inv (handle_frame t now f)
  unfolding handle_frame
  handle_frame-Inv t now f v k =
      Ensures-then (λ u. Inv u × (u.assembling ≡ t.assembling)) Inv (drain_credit (drain_sent t)) _
        (Ensures-and Inv _ (drain_credit (drain_sent t))
          (drain_credit-Inv (drain_sent t) (drain_sent-Inv t v)) (drains-assembling t))
        (λ u p. p.0) (λ u p. dispatch-Inv u now f p.0 (rw p.1 k))

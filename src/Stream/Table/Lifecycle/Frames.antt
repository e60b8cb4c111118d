-- ===== src/Stream/Table/Lifecycle/Frames.antt =====
-- The other frames and `HandleFrame` of table.go, against the state diagram.
use zerodeps_hackk.Base.{ℕ, ◌≡◌, refl, true, false, some, inl, inr, Bool-cases, Option-cases}
use zerodeps_hackk.Base.Assoc.{lookup}
use zerodeps_hackk.H2.{
  Outcome, done, failed, panicked, lift, Ensures, Ensures-map, Ensures-then, Ensures-and,
  Ensures-weaken, HeaderCodec,
}
use zerodeps_hackk.Flow.Window.{Window, consume}
use zerodeps_hackk.Flow.Window.Bounds.{IsBounded, consume-IsBounded}
use zerodeps_hackk.Flow.Sender.{Sender}
use zerodeps_hackk.Flow.Sender
use zerodeps_hackk.Flow.Sender.Validity
use zerodeps_hackk.Limits.Bucket.{allow}
use zerodeps_hackk.Frame.Types.{
  Frame, DataFrame, RstStreamFrame, WindowUpdateFrame, data_frame, headers, priority, rst_stream,
  window_update, continuation,
}
use zerodeps_hackk.Stream.State.{
  Stream, State, closed, is_idle, is_half_closed_remote, recv_end, peer_done, Requests, Writer,
}
use zerodeps_hackk.Stream.Table.{Table, Block, store, retire, state_of, drain_sent}
use zerodeps_hackk.Stream.Table.Credit.{drain_credit}
use zerodeps_hackk.Stream.Table.Handle.{
  data_len, consume_conn, on_window_update, deliver_data, stream_data, on_data, reset_stream,
  on_rst_stream, dispatch, handle_frame,
}
use zerodeps_hackk.Stream.Table.Invariant.{CoreOf, Inv, Held}
use zerodeps_hackk.Stream.Table.Drains.{
  lookup-Held, drain_sent-Inv, drain_credit-Inv, drains-assembling,
}
use zerodeps_hackk.Stream.Table.Safety.{Calm, Calm-Inv}
use zerodeps_hackk.Stream.Table.Dispatch.{Continuous, store_recv-Calm}
use zerodeps_hackk.Stream.Table.Lifecycle.{
  the_peer, this_side, may_become, may_become_refl, phase, store_moves,
}
use zerodeps_hackk.Stream.Table.Lifecycle.Moves.{
  At, onward, deliver-At, settle-At, recv_end_moves, close_state_moves, drain_sent-At,
  drain_credit-At,
}
use zerodeps_hackk.Stream.Table.Lifecycle.Opening.{on_headers-At, on_continuation-At}

module _ {C R E W : Type 0} (x : State) (id : ℕ) where
  on_window_update-At :
      (t : Table C R E W) (f : WindowUpdateFrame)
      → Inv t
      → At the_peer x id t
      → Ensures (At the_peer x id) (on_window_update t f)
  unfolding on_window_update
  on_window_update-At t f v p = elim (Option-cases (lookup f.stream_id t.streams)) [
    | inl gone ↦ elim (Bool-cases (is_idle (state_of t f.stream_id))) [
      | inl unused ↦ rw (gone, unused, on_window_update) p
      | inr over ↦ rw (gone, over, on_window_update) p
    ]
    | inr (s, e) ↦
        rw (e, on_window_update)
          (Ensures-map Validity.IsValid (At the_peer x id) _
            (Sender.credit_stream t.sender f.stream_id f.increment)
            (λ y _. record { moved = p.moved })
            (Validity.credit_stream-IsValid t.sender f.stream_id f.increment v.core.sender_valid))
  ]

  store_recv-At :
      (t : Table C R E W) (s : Stream) (w : Window)
      → Held t.streams t.highest_remote s
      → At the_peer x id t
      → At the_peer x id (store t (record s { recv = w }))
  store_recv-At t s w k p = onward the_peer x id t _ p (
      store_moves t.streams t.highest_remote t.assembling id the_peer (record s { recv = w }) s
        k.held (may_become_refl the_peer s.state))

module _ {C R E W : Type 0} ⦃reqs : Requests R⦄ ⦃writer : Writer W⦄ (x : State) (id : ℕ) where
  deliver_data-At :
      (t : Table C R E W) (s : Stream) (f : DataFrame)
      → Held t.streams t.highest_remote s
      → is_half_closed_remote s.state ≡ false
      → At the_peer x id t
      → Ensures (At the_peer x id) (deliver_data t s f)
  unfolding deliver_data
  deliver_data-At t s f k still p = elim (Bool-cases f.end_stream) [
    | inl last ↦ rw last (
        deliver-At the_peer x id (retire (store t (recv_end s)) (recv_end s)) _ (
          settle-At the_peer x id t (recv_end s) s p k refl
            (recv_end_moves s.state k.is_live still)))
    | inr more ↦ rw more (deliver-At the_peer x id t _ p)
  ]

  spend-At :
      (t : Table C R E W) (s : Stream) (f : DataFrame) (o : Outcome Window)
      → Calm t
      → Held t.streams t.highest_remote s
      → is_half_closed_remote s.state ≡ false
      → Ensures IsBounded o
      → At the_peer x id t
      → Ensures (At the_peer x id) (elim o as (λ o. Outcome (Table C R E W)) [
        | panicked ↦ panicked
        | failed e v ↦ failed e (store t (record s { recv = v }))
        | done v ↦ deliver_data (store t (record s { recv = v })) (record s { recv = v }) f
      ])
  spend-At t s f (done w) v k still b p =
      deliver_data-At (store t (record s { recv = w })) (record s { recv = w }) f
        (store_recv-Calm t s w v k b).1 still (store_recv-At x id t s w k p)
  spend-At t s f (failed e w) v k still b p = store_recv-At x id t s w k p
  spend-At t s f panicked v k still b p = b

  stream_data-At :
      (t : Table C R E W) (f : DataFrame)
      → Calm t
      → At the_peer x id t
      → Ensures (At the_peer x id) (stream_data t f)
  unfolding stream_data
  stream_data-At t f v p = elim (Option-cases (lookup f.stream_id t.streams)) [
    | inl gone ↦ rw (gone, stream_data) p
    | inr (s, e) ↦ elim (Bool-cases (peer_done s)) [
      | inl over ↦ rw (e, over, stream_data) p
      | inr still ↦
          let k = (lookup-Held t f.stream_id s (Calm-Inv t v) e).1 in
          rw (e, still, stream_data)
            (spend-At t s f (consume s.recv (data_len f)) v k still
              (consume-IsBounded s.recv (data_len f) k.recv_bounded) p)
    ]
  ]

  on_data-At :
      (t : Table C R E W) (f : DataFrame)
      → Calm t
      → At the_peer x id t
      → Ensures (At the_peer x id) (on_data t f)
  unfolding on_data consume_conn
  on_data-At t f v p =
      Ensures-then (λ u. Calm u × At the_peer x id u) (At the_peer x id)
        (lift (λ w. record t { conn_recv = w }) (consume t.conn_recv (data_len f))) _
        (Ensures-map IsBounded _ _ (consume t.conn_recv (data_len f))
          (λ w b. ((debited w b, v.1), record { moved = p.moved }))
          (consume-IsBounded t.conn_recv (data_len f) v.0.conn_bounded))
        (λ u q. q.1) (λ u q. stream_data-At u f q.0 q.1)
    where
      debited : (w : Window) → IsBounded w → CoreOf (record t { conn_recv = w })
      debited w b = record {
        entries = v.0.entries;
        sender_valid = v.0.sender_valid;
        conn_bounded = b;
        within = v.0.within;
      }

  reset_stream-At :
      (t : Table C R E W) (f : RstStreamFrame)
      → Inv t
      → At the_peer x id t
      → At the_peer x id (reset_stream t f)
  unfolding reset_stream
  reset_stream-At t f v p = elim (Option-cases (lookup f.stream_id t.streams)) [
    | inl gone ↦ rw (gone, reset_stream) p
    | inr (s, e) ↦
        let (_, k) = lookup-Held t f.stream_id s v e in
        let s' = record s { state = closed } in
        rw (e, reset_stream)
          (record {
            moved =
                (settle-At the_peer x id t s' s p k refl
                  (close_state_moves s.state k.is_live)).moved;
          })
  ]

  on_rst_stream-At :
      (t : Table C R E W) (now : ℕ) (f : RstStreamFrame)
      → Inv t
      → At the_peer x id t
      → Ensures (At the_peer x id) (on_rst_stream t now f)
  unfolding on_rst_stream
  on_rst_stream-At t now f v p = elim (Bool-cases (is_idle (state_of t f.stream_id))) [
    | inl unused ↦ rw (unused, on_rst_stream) p
    | inr used ↦ elim (Bool-cases (allow t.resets now).1) [
      | inl allowed ↦
          rw (used, allowed, on_rst_stream)
            (reset_stream-At (record t { resets = (allow t.resets now).0 }) f
              (record { core = v.core; block = v.block }) (record { moved = p.moved }))
      | inr flood ↦ rw (used, flood, on_rst_stream) (record { moved = p.moved })
    ]
  ]

module _ {C R E W : Type 0} ⦃codec : HeaderCodec C⦄ ⦃reqs : Requests R⦄ ⦃writer : Writer W⦄
    (id : ℕ) where
  dispatch-At :
      (x : State) (t : Table C R E W) (now : ℕ) (f : Frame)
      → Inv t
      → Continuous t.assembling f
      → At the_peer x id t
      → Ensures (At the_peer x id) (dispatch t now f)
  dispatch-At x t now f v k p = elim (Option-cases t.assembling) [
    | inr (b, e) ↦ mid f b (rw e at k)
    | inl calm ↦ any f (v.core, calm)
  ]
    where
      mid :
          (f : Frame) (b : Block)
          → Continuous (some b) f
          → Ensures (At the_peer x id) (dispatch t now f)
      mid (continuation f) b k = unfold dispatch in on_continuation-At x id t f v p
      mid _ b k = absurd k

      any : (f : Frame) → Calm t → Ensures (At the_peer x id) (dispatch t now f)
      any (headers f) c = unfold dispatch in on_headers-At x id t f c p
      any (continuation f) c = unfold dispatch in on_continuation-At x id t f v p
      any (data_frame f) c = unfold dispatch in on_data-At x id t f c p
      any (rst_stream f) c = unfold dispatch in on_rst_stream-At x id t now f v p
      any (priority f) c = unfold dispatch in p
      any (window_update f) c = unfold dispatch in on_window_update-At x id t f v p
      any _ c = unfold dispatch in p

  -- In a table that keeps its invariant, the ends of responses that are reported before a frame move every
  -- stream as this side may move it; then any frame that the reader's rule lets through, accepted or
  -- answered with an error, moves every stream as the state diagram of RFC 9113 section 5.1 lets a peer
  -- move it: it opens an idle stream, ends the peer's half of an open one, or closes it, and never ends
  -- this side's half. A closed stream stays closed, where the one whose first header block is open
  -- counts as idle.
  pub handle_frame_moves :
      (t : Table C R E W) (now : ℕ) (f : Frame)
      → Inv t
      → Continuous t.assembling f
      → (may_become this_side (phase t id) (phase (drain_sent t) id) ≡ true)
        × Ensures
            (λ u. may_become the_peer (phase (drain_sent t) id) (phase u id) ≡ true)
            (handle_frame t now f)
  unfolding handle_frame
  handle_frame_moves t now f v k = (
    (drain_sent-At (phase t id) id t v
        (record { moved = may_become_refl this_side (phase t id) })).moved,
    Ensures-weaken (At the_peer x id) _ _ (λ u q. q.moved)
        (Ensures-then (λ u. (Inv u × (u.assembling ≡ t.assembling)) × At the_peer x id u)
          (At the_peer x id) (drain_credit (drain_sent t)) _
          (Ensures-and _ _ (drain_credit (drain_sent t))
            (Ensures-and Inv _ (drain_credit (drain_sent t))
              (drain_credit-Inv (drain_sent t) (drain_sent-Inv t v)) (drains-assembling t))
            (drain_credit-At x id (drain_sent t) (drain_sent-Inv t v)
              (record { moved = may_become_refl the_peer x })))
          (λ u q. q.1) (λ u q. dispatch-At x u now f q.0.0 (rw q.0.1 k) q.1)),
  )
    where
      x : State
      x = phase (drain_sent t) id

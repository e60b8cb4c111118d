-- ===== src/Stream/Table/Decoding.antt =====
-- When table.go runs the header decoder, whose state must follow the peer's encoder.
pub mod Whole
use zerodeps_hackk.Base.{
  ℕ, ◌%◌, ◌≡◌, ◌∙◌, ap, refl, Bool, true, false, ◌==◌, ltb, leb, ◌&&◌, not, if◌then◌else◌, List,
  ◌++◌, Option, none, some, arith, inl, inr, Bool-cases, Option-cases,
}
use zerodeps_hackk.Base.Assoc.{lookup}
use zerodeps_hackk.H2.{
  Error, conn_error, compression_error, Field, Outcome, done, failed, panicked, ◌>>=◌, lift,
  Ensures, HeaderCodec,
}
use zerodeps_hackk.Flow.Window.{Window, new_stream_window, initial_window_size, consume}
use zerodeps_hackk.Flow.Sender
use zerodeps_hackk.Limits.Bucket.{allow}
use zerodeps_hackk.Frame.Types.{
  Frame, HeadersFrame, ContinuationFrame, DataFrame, RstStreamFrame, WindowUpdateFrame, data_frame,
  headers, priority, rst_stream, window_update, continuation,
}
use zerodeps_hackk.Stream.State.{
  Stream, open_both, recv_end, closed, is_closed, is_idle, peer_done, Requests, Writer,
}
use zerodeps_hackk.Stream.Table.{Table, Block, store, retire, state_of}
use zerodeps_hackk.Stream.Table.Blocks.{
  deliver, admit, trailer_verdict, add_stream, start_request, complete_trailers, complete_request,
  complete_block, extend, request_block, trailer_block, open_stream, begin_trailers, on_headers,
  on_continuation,
}
use zerodeps_hackk.Stream.Table.Handle.{
  data_len, consume_conn, on_window_update, deliver_data, stream_data, on_data, reset_stream,
  on_rst_stream, dispatch,
}
use zerodeps_hackk.Stream.Table.Invariant.{Inv}
use zerodeps_hackk.Stream.Table.Dispatch.{Continuous, dispatch-Inv}

-- Good if there is no panic.
abbrev pub Unless {ℓ} : {S : Type ℓ} → (S → Type 0) → Outcome S → Type 0
Unless P (done s) = P s
Unless P (failed e s) = P s
Unless P panicked = Unit {0}

Unless-bind {ℓ} :
    {S : Type ℓ} (P : S → Type 0) (m : Outcome S) (f : S → Outcome S)
    → Unless P m
    → ((s : S) → P s → Unless P (f s))
    → Unless P (m >>= f)
Unless-bind P (done s) f h k = k s h
Unless-bind P (failed e s) f h k = h
Unless-bind P panicked f h k = h

Unless-lift {ℓ κ} :
    {S : Type ℓ} {T : Type κ} (P : T → Type 0) (put : S → T) (m : Outcome S)
    → ((s : S) → P (put s))
    → Unless P (lift put m)
Unless-lift P put (done s) k = k s
Unless-lift P put (failed e s) k = k s
Unless-lift P put panicked k = tt

pub Unless-Ensures {ℓ} :
    {S : Type ℓ} (P Q : S → Type 0) (m : Outcome S) → Ensures Q m → Unless P m → Ensures P m
Unless-Ensures P Q (done s) q p = p
Unless-Ensures P Q (failed e s) q p = p
Unless-Ensures P Q panicked q p = q

module _ {C R E W : Type 0} (c : C) where
  abbrev pub Decoder : Table C R E W → Type 0
  Decoder t = t.codec ≡ c

  deliver-Decoder :
      (t : Table C R E W) (p : R × Option Error) → Decoder t → Unless Decoder (deliver t p)
  deliver-Decoder t (r, none) v = v
  deliver-Decoder t (r, some e) v = v

  pub on_window_update-Decoder :
      (t : Table C R E W) (f : WindowUpdateFrame)
      → Decoder t
      → Unless Decoder (on_window_update t f)
  unfolding on_window_update
  on_window_update-Decoder t f v = elim (Option-cases (lookup f.stream_id t.streams)) [
    | inl gone ↦ elim (Bool-cases (is_idle (state_of t f.stream_id))) [
      | inl unused ↦ rw (gone, unused, on_window_update) v
      | inr over ↦ rw (gone, over, on_window_update) v
    ]
    | inr (s, e) ↦
        rw (e, on_window_update)
          (Unless-lift Decoder _ (Sender.credit_stream t.sender f.stream_id f.increment) (λ x. v))
  ]

module _ {C R E W : Type 0} ⦃writer : Writer W⦄ where
  retire-codec : (t : Table C R E W) (s : Stream) → (retire t s).codec ≡ t.codec
  unfolding retire
  retire-codec t s = elim (Bool-cases (is_closed s.state)) [
    | inl gone ↦ rw (gone, retire) refl
    | inr stays ↦ rw (stays, retire) refl
  ]

module _ {C R E W : Type 0} ⦃reqs : Requests R⦄ ⦃writer : Writer W⦄ (c : C) where
  pub complete_trailers-Decoder :
      (t : Table C R E W) (b : Block) (fields : List Field)
      → Decoder c t
      → Unless (Decoder c) (complete_trailers t b fields)
  unfolding complete_trailers
  complete_trailers-Decoder t b fields v = elim (Option-cases (lookup b.id t.streams)) [
    | inl gone ↦ rw (gone, complete_trailers) tt
    | inr (s, e) ↦
        rw (e, complete_trailers)
          (deliver-Decoder c (retire (store t (recv_end s)) (recv_end s)) _
            (retire-codec (store t (recv_end s)) (recv_end s) ∙ v))
  ]

  start_request-Decoder :
      (t : Table C R E W) (b : Block) (fields : List Field) (w : Window)
      → Decoder c t
      → Unless (Decoder c) (start_request t b fields w)
  unfolding start_request add_stream
  start_request-Decoder t b fields w v =
      Unless-bind (Decoder c) (add_stream t s) _
        (Unless-lift (Decoder c) _ (Sender.open_stream t.sender b.id) (λ x. v))
        (λ u k. deliver-Decoder c (store u (if b.end_stream then recv_end s else s)) _ k)
    where
      s : Stream
      s = record { id = b.id; state = open_both; recv = w }

  pub complete_request-Decoder :
      (t : Table C R E W) (b : Block) (fields : List Field)
      → Decoder c t
      → Unless (Decoder c) (complete_request t b fields)
  unfolding complete_request
  complete_request-Decoder t b fields v = go (new_stream_window b.id initial_window_size)
    where
      go :
          (o : Outcome Window)
          → Unless (Decoder c) (elim o as (λ o. Outcome (Table C R E W)) [
            | done w ↦ start_request t b fields w
            | failed e w ↦ panicked
            | panicked ↦ panicked
          ])
      go (done w) = start_request-Decoder t b fields w v
      go (failed e w) = tt
      go panicked = tt

  deliver_data-Decoder :
      (t : Table C R E W) (s : Stream) (f : DataFrame)
      → Decoder c t
      → Unless (Decoder c) (deliver_data t s f)
  unfolding deliver_data
  deliver_data-Decoder t s f v = elim (Bool-cases f.end_stream) [
    | inl last ↦ rw last (
        deliver-Decoder c (retire (store t (recv_end s)) (recv_end s)) _
          (retire-codec (store t (recv_end s)) (recv_end s) ∙ v))
    | inr more ↦ rw more (deliver-Decoder c t _ v)
  ]

  stream_data-Decoder :
      (t : Table C R E W) (f : DataFrame) → Decoder c t → Unless (Decoder c) (stream_data t f)
  unfolding stream_data
  stream_data-Decoder t f v = elim (Option-cases (lookup f.stream_id t.streams)) [
    | inl gone ↦ rw (gone, stream_data) v
    | inr (s, e) ↦ elim (Bool-cases (peer_done s)) [
      | inl over ↦ rw (e, over, stream_data) v
      | inr still ↦ rw (e, still, stream_data) (spend s (consume s.recv (data_len f)))
    ]
  ]
    where
      spend :
          (s : Stream) (o : Outcome Window)
          → Unless (Decoder c) (elim o as (λ o. Outcome (Table C R E W)) [
            | panicked ↦ panicked
            | failed e w ↦ failed e (store t (record s { recv = w }))
            | done w ↦ deliver_data (store t (record s { recv = w })) (record s { recv = w }) f
          ])
      spend s (done w) = deliver_data-Decoder _ (record s { recv = w }) f v
      spend s (failed e w) = v
      spend s panicked = tt

  pub on_data-Decoder :
      (t : Table C R E W) (f : DataFrame) → Decoder c t → Unless (Decoder c) (on_data t f)
  unfolding on_data consume_conn
  on_data-Decoder t f v =
      Unless-bind (Decoder c) (consume_conn t (data_len f)) _
        (Unless-lift (Decoder c) _ (consume t.conn_recv (data_len f)) (λ w. v))
        (λ u k. stream_data-Decoder u f k)

  pub on_rst_stream-Decoder :
      (t : Table C R E W) (now : ℕ) (f : RstStreamFrame)
      → Decoder c t
      → Unless (Decoder c) (on_rst_stream t now f)
  unfolding on_rst_stream reset_stream
  on_rst_stream-Decoder t now f v = elim (Bool-cases (is_idle (state_of t f.stream_id))) [
    | inl unused ↦ rw (unused, on_rst_stream) v
    | inr used ↦ elim (Bool-cases (allow t.resets now).1) [
      | inr flood ↦ rw (used, flood, on_rst_stream) v
      | inl allowed ↦
          rw (used, allowed, on_rst_stream)
            (elim (Option-cases (lookup f.stream_id t.streams)) [
              | inl gone ↦ rw (gone, reset_stream) v
              | inr (s, e) ↦
                  rw (e, reset_stream)
                    (retire-codec
                        (store (record t { resets = (allow t.resets now).0 })
                          (record s { state = closed }))
                        (record s { state = closed })
                      ∙ v)
            ])
    ]
  ]

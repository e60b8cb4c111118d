-- ===== src/Stream/Table/InStep/Handling.antt =====
-- The dispatch of `HandleFrame` in table.go beside the reader's block of internal/frame/reader.go.
use zerodeps_hackk.Base.{
  ℕ, suc, ◌+◌, ◌%◌, ◌^◌, ◌≤◌, ◌<◌, ◌≡◌, ◌∙◌, refl, Bool, true, false, ◌==◌, leb, if◌then◌else◌,
  List, ◌++◌, none, some, arith, ◌⊎◌, inl, inr, Bool-cases, Option-cases, length, length-append,
}
use zerodeps_hackk.Base.Assoc.{lookup}
use zerodeps_hackk.H2.{
  conn_error, stream_error, stream_gone, external, Outcome, done, failed, panicked, lift, Ensures,
  HeaderCodec,
}
use zerodeps_hackk.Frame.Types.{
  Frame, HeadersFrame, ContinuationFrame, WindowUpdateFrame, data_frame, headers, priority,
  rst_stream, window_update, continuation,
}
use zerodeps_hackk.Frame.Reader.{Reader}
use zerodeps_hackk.Frame.Reader.Blocks.{Steps, SameBounds, Open}
use zerodeps_hackk.Flow.Sender.{Sender}
use zerodeps_hackk.Flow.Sender
use zerodeps_hackk.Stream.State.{is_idle, Requests, Writer}
use zerodeps_hackk.Stream.Table.{Table, Block, state_of}
use zerodeps_hackk.Stream.Table.Blocks.{
  admit, trailer_verdict, extend, request_block, trailer_block, open_stream, begin_trailers,
  on_headers, on_continuation,
}
use zerodeps_hackk.Stream.Table.Handle.{on_window_update, dispatch}
use zerodeps_hackk.Stream.Table.Invariant.{CoreOf, Inv, BlockOk, highest-Core}
use zerodeps_hackk.Stream.Table.Drains.{lookup-Held}
use zerodeps_hackk.Stream.Table.Safety.{Calm, Calm-Inv}
use zerodeps_hackk.Stream.Table.Preservation.{
  complete_block-Calm, admit-Pending, trailer_verdict-Pending,
}
use zerodeps_hackk.Stream.Table.Dispatch.{Continuous, on_data-Calm, on_rst_stream-Calm}
use zerodeps_hackk.Stream.Table.InStep.{InStep, GoesOn, Ensures-GoesOn, Bounded, InStep-Continuous}

module _ {C R E W : Type 0} ⦃codec : HeaderCodec C⦄ ⦃reqs : Requests R⦄ ⦃writer : Writer W⦄
    (rd' : Reader) where
  abbrev Goes : Outcome (Table C R E W) → Type 0
  Goes = GoesOn (λ u. InStep rd' u.assembling)

  Calm-Goes : (o : Outcome (Table C R E W)) → rd'.block_stream ≡ 0 → Ensures Calm o → Goes o
  Calm-Goes o closed v = Ensures-GoesOn Calm _ o (λ u c. rw c.1 closed) v

  -- A block goes on, or ends, in both.
  extend-Goes :
      (t : Table C R E W) (b : Block) (fragment : List ℕ) (end_headers : Bool) (size frames : ℕ)
      → CoreOf t
      → BlockOk t.streams t.highest_remote t.max_concurrent (some b)
      → 0 < b.id
      → size ≡ length (b.buf ++ fragment)
      → size ≤ rd'.max_header_block_size
      → (if end_headers then Open rd' 0 0 0 else Open rd' b.id size frames)
      → Goes (extend t b fragment end_headers)
  unfolding extend
  extend-Goes t b fragment true size frames v k some_id len fits left = Calm-Goes _ left.0 (
      complete_block-Calm (record t { assembling = some (record b { buf = b.buf ++ fragment }) })
        (record b { buf = b.buf ++ fragment }) v k)
  extend-Goes t b fragment false size frames v k some_id len fits left =
      (left.0, some_id, left.1 ∙ len, omega (arith, len, fits))

  open_stream-Goes :
      (t : Table C R E W) (f : HeadersFrame)
      → Calm t
      → lookup f.stream_id t.streams ≡ none
      → length f.fragment ≤ rd'.max_header_block_size
      → (if f.end_headers then Open rd' 0 0 0 else Open rd' f.stream_id (length f.fragment) 0)
      → Goes (open_stream t f)
  unfolding open_stream
  open_stream-Goes t f v gone fits left = elim (Bool-cases (f.stream_id % 2 == 0)) [
    | inl even ↦ rw even tt
    | inr odd ↦ elim (Bool-cases (leb f.stream_id t.highest_remote)) [
      | inl used ↦ rw (odd, used) tt
      | inr above ↦
          rw (odd, above)
            (extend-Goes (record t { highest_remote = f.stream_id }) (request_block f (admit t f))
              f.fragment f.end_headers (length f.fragment) 0
              (highest-Core t.streams t.sender t.highest_remote f.stream_id t.conn_recv
                t.max_concurrent (ground arith) v.0)
              (ground arith, omega arith, admit-Pending t f gone) (ground arith) refl fits left)
    ]
  ]

  on_headers-Goes :
      (t : Table C R E W) (f : HeadersFrame)
      → Calm t
      → length f.fragment ≤ rd'.max_header_block_size
      → (if f.end_headers then Open rd' 0 0 0 else Open rd' f.stream_id (length f.fragment) 0)
      → Goes (on_headers t f)
  unfolding on_headers begin_trailers
  on_headers-Goes t f v fits left = elim (Option-cases (lookup f.stream_id t.streams)) [
    | inl gone ↦ rw (v.1, gone, on_headers) (open_stream-Goes t f v gone fits left)
    | inr (s, e) ↦
        let (same, k) = lookup-Held t f.stream_id s (Calm-Inv t v) e in
        rw (v.1, e, on_headers)
          (extend-Goes t (trailer_block f (trailer_verdict f s)) f.fragment f.end_headers
            (length f.fragment) 0 v.0
            (ground (arith, k.is_odd), ground (arith, k.used), trailer_verdict-Pending t f s e)
            (ground (arith, k.is_odd)) refl fits left)
  ]

  on_continuation-Goes :
      (rd : Reader) (t : Table C R E W) (f : ContinuationFrame)
      → Inv t
      → Bounded rd
      → SameBounds rd rd'
      → InStep rd t.assembling
      → Steps rd (continuation f) rd'
      → Goes (on_continuation t f)
  unfolding on_continuation
  on_continuation-Goes rd t f v bounded same k step = elim (Option-cases t.assembling) [
    | inl calm ↦ rw (calm, on_continuation) tt
    | inr (b, e) ↦ elim (Bool-cases (f.stream_id == b.id)) [
      | inr other ↦ rw (e, other, on_continuation) tt
      | inl match ↦ rw (e, match, on_continuation) (on_block b (rw e at k) (rw e at v.block))
    ]
  ]
    where
      on_block :
          (b : Block)
          → InStep rd (some b)
          → BlockOk t.streams t.highest_remote t.max_concurrent (some b)
          → Goes (extend t b f.fragment f.end_headers)
      on_block b (at, some_id, counted, held) ok =
          extend-Goes t b f.fragment f.end_headers ((rd.block_size + length f.fragment) % 2 ^ 64)
            (suc rd.continuations) v.core ok some_id
            (omega
              (arith, counted, held, bounded.0, bounded.1, step.2, length-append b.buf f.fragment))
            (omega (arith, step.3.1, same.1)) (rw at at step.3.0)

  on_window_update-Goes :
      (t : Table C R E W) (f : WindowUpdateFrame)
      → InStep rd' t.assembling
      → Goes (on_window_update t f)
  unfolding on_window_update
  on_window_update-Goes t f k = elim (Option-cases (lookup f.stream_id t.streams)) [
    | inl gone ↦ elim (Bool-cases (is_idle (state_of t f.stream_id))) [
      | inl unused ↦ rw (gone, unused, on_window_update) tt
      | inr over ↦ rw (gone, over, on_window_update) k
    ]
    | inr (s, e) ↦
        rw (e, on_window_update) (lifted (Sender.credit_stream t.sender f.stream_id f.increment))
  ]
    where
      lifted : (o : Outcome Sender) → Goes (lift (λ x. record t { sender = x }) o)
      lifted (done x) = k
      lifted (failed (stream_error i c) x) = k
      lifted (failed (conn_error c) x) = tt
      lifted (failed stream_gone x) = tt
      lifted (failed (external i) x) = tt
      lifted panicked = tt

  -- In a table that keeps its invariant and is in step with a reader of 32-bit bounds, a frame that
  -- `ReadFrame` may return next is one that the table may be handed; and if the connection goes on
  -- after it, the table is in step with the reader again: the same header block is open in both, and
  -- its buffer is within the reader's bound.
  pub dispatch-InStep :
      (rd : Reader) (t : Table C R E W) (now : ℕ) (f : Frame)
      → Inv t
      → Bounded rd
      → SameBounds rd rd'
      → InStep rd t.assembling
      → Steps rd f rd'
      → Continuous t.assembling f × GoesOn (λ u. InStep rd' u.assembling) (dispatch t now f)
  dispatch-InStep rd t now f v bounded same k step =
      (InStep-Continuous rd rd' t.assembling f k step, goes (Option-cases t.assembling) f step)
    where
      calm : t.assembling ≡ none → Calm t
      calm e = (v.core, e)

      goes :
          (t.assembling ≡ none) ⊎ ((b : Block) × (t.assembling ≡ some b))
          → (f : Frame) → Steps rd f rd'
          → Goes (dispatch t now f)
      goes o (continuation f) step =
          unfold dispatch in on_continuation-Goes rd t f v bounded same k step
      goes (inr (b, e)) f step = absurd (InStep-Continuous rd rd' (some b) f (rw e at k) step)
      goes (inl e) (headers f) step =
          unfold dispatch in on_headers-Goes t f (calm e) (omega (arith, step.1.1, same.1)) step.1.0
      goes (inl e) (data_frame f) step =
          unfold dispatch in Calm-Goes _ (step.1.0 ∙ step.0) (on_data-Calm t f (calm e))
      goes (inl e) (rst_stream f) step =
          unfold dispatch in Calm-Goes _ (step.1.0 ∙ step.0) (on_rst_stream-Calm t now f (calm e))
      goes (inl e) (window_update f) step =
          unfold dispatch in on_window_update-Goes t f (rw e (step.1.0 ∙ step.0))
      goes (inl e) (priority f) step = unfold dispatch in rw e (step.1.0 ∙ step.0)
      goes (inl e) _ step = unfold dispatch in tt

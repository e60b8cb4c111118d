-- ===== src/Stream/Table/InStep.antt =====
-- The header block of table.go beside the one that the reader of internal/frame/reader.go tracks.
pub mod Handling
use zerodeps_hackk.Base.{
  ℕ, suc, ◌+◌, ◌%◌, ◌^◌, ◌≤◌, ◌<◌, ◌≡◌, ◌∙◌, sym, ap, refl, Bool, true, false, ◌==◌, leb,
  if◌then◌else◌, List, ◌++◌, Option, none, some, arith, ◌⊎◌, inl, inr, Bool-cases, Option-cases,
  length, length-append,
}
use zerodeps_hackk.Base.Assoc.{lookup}
use zerodeps_hackk.H2.{
  Error, conn_error, stream_error, stream_gone, external, Outcome, done, failed, panicked, lift,
  Ensures, HeaderCodec,
}
use zerodeps_hackk.Frame.Types.{
  Frame, HeadersFrame, ContinuationFrame, WindowUpdateFrame, data_frame, headers, priority,
  rst_stream, push_promise, window_update, continuation,
}
use zerodeps_hackk.Frame.Reader.{Reader}
use zerodeps_hackk.Frame.Reader.Blocks.{Steps, SameBounds, Open}
use zerodeps_hackk.Flow.Sender.{Sender}
use zerodeps_hackk.Flow.Sender
use zerodeps_hackk.Stream.State.{Stream, is_idle, Requests, Writer}
use zerodeps_hackk.Stream.Table.{Table, Block, state_of}
use zerodeps_hackk.Stream.Table.Blocks.{
  admit, trailer_verdict, complete_block, extend, request_block, trailer_block, open_stream,
  begin_trailers, on_headers, on_continuation,
}
use zerodeps_hackk.Stream.Table.Handle.{on_window_update, dispatch}
use zerodeps_hackk.Stream.Table.Invariant.{CoreOf, Inv, BlockOk, highest-Core}
use zerodeps_hackk.Stream.Table.Drains.{lookup-Held}
use zerodeps_hackk.Stream.Table.Safety.{Calm, Calm-Inv}
use zerodeps_hackk.Stream.Table.Preservation.{
  complete_block-Calm, admit-Pending, trailer_verdict-Pending,
}
use zerodeps_hackk.Stream.Table.Dispatch.{Continuous, on_data-Calm, on_rst_stream-Calm}

-- The same block is open in both, or none in either, and its buffer holds the octets that the
-- reader has counted, within the reader's bound.
abbrev pub InStep : Reader → Option Block → Type 0
InStep rd none = rd.block_stream ≡ 0
InStep rd (some b) =
    (rd.block_stream ≡ b.id)
    × (0 < b.id)
    × (rd.block_size ≡ length b.buf)
    × (length b.buf ≤ rd.max_header_block_size)

-- What holds of the state if the connection goes on from there.
abbrev pub GoesOn {ℓ} : {S : Type ℓ} → (S → Type 0) → Outcome S → Type 0
GoesOn P (done s) = P s
GoesOn P (failed (stream_error i c) s) = P s
GoesOn P _ = Unit {0}

pub Ensures-GoesOn {ℓ} :
    {S : Type ℓ} (P Q : S → Type 0) (o : Outcome S)
    → ((s : S) → P s → Q s)
    → Ensures P o
    → GoesOn Q o
Ensures-GoesOn P Q (done s) k v = k s v
Ensures-GoesOn P Q (failed (stream_error i c) s) k v = k s v
Ensures-GoesOn P Q (failed (conn_error c) s) k v = tt
Ensures-GoesOn P Q (failed stream_gone s) k v = tt
Ensures-GoesOn P Q (failed (external i) s) k v = tt
Ensures-GoesOn P Q panicked k v = tt

-- The reader's bounds are 32-bit numbers.
abbrev pub Bounded : Reader → Type 0
Bounded rd = (rd.max_frame_size < 2 ^ 32) × (rd.max_header_block_size < 2 ^ 32)

-- The reader's rule is the one that the table relies on.
pub InStep-Continuous :
    (rd rd' : Reader) (o : Option Block) (f : Frame) → InStep rd o → Steps rd f rd' → Continuous o f
InStep-Continuous rd rd' none f v k = tt
InStep-Continuous rd rd' (some b) (continuation f) v k = tt
InStep-Continuous rd rd' (some b) (headers f) v k = absurd (omega (arith, v.0, v.1, k.0))
InStep-Continuous rd rd' (some b) (push_promise f) v k = absurd (omega (arith, v.0, v.1, k.0))
InStep-Continuous rd rd' (some b) _ v k = absurd (omega (arith, v.0, v.1, k.0))

-- ===== src/Server/Conn/Arriving.antt =====
-- A frame that the reader has returned, on its way through internal/server/conn.go and the table.
use zerodeps_hackk.Base.{
  IsOctets, ℕ, ◌≡◌, refl, ◌∙◌, subst, Bool-cases, inl, inr, Option, none, some, arith,
}
use zerodeps_hackk.H2.{
  conn_error, stream_error, stream_gone, external, HeaderCodec, Outcome, done, failed, panicked,
  Ensures,
}
use zerodeps_hackk.Frame.Types.{Frame}
use zerodeps_hackk.Frame.Reader.{Reader}
use zerodeps_hackk.Frame.Reader.Blocks.{Steps, SameBounds, Open}
use zerodeps_hackk.Stream.State.{Requests, Writer}
use zerodeps_hackk.Stream.Table.{Table, Block, drain_sent, live}
use zerodeps_hackk.Stream.Table.Credit.{drain_credit}
use zerodeps_hackk.Stream.Table.Handle.{handle_frame}
use zerodeps_hackk.Stream.Table.Handle
use zerodeps_hackk.Stream.Table.Invariant.{Inv}
use zerodeps_hackk.Stream.Table.Drains.{drain_sent-Inv, drain_credit-Inv, drains-assembling}
use zerodeps_hackk.Stream.Table.Dispatch.{Continuous, dispatch-Inv}
use zerodeps_hackk.Stream.Table.InStep.{InStep, GoesOn, Bounded}
use zerodeps_hackk.Stream.Table.InStep.Handling.{dispatch-InStep}
use zerodeps_hackk.Priority.Pending.{take}
use zerodeps_hackk.Server.Conn.{
  Conn, ConnWriter, with_handler, prioritize, taken_priority, left_idle, deferred,
}
use zerodeps_hackk.Server.Conn.Sound.{Sound, Kept, Waiting, left_idle-Sound}

module _ {C R E W : Type 0} ⦃writer : Writer W⦄ where
  -- The credit that was advertised since the last frame was spent before, so that it fits into the
  -- windows that it goes back to.
  abbrev pub Repaid : Table C R E W → Type 0
  Repaid t = (u : Table C R E W) × (drain_credit (drain_sent t) ≡ done u)

module _ {C R E W : Type 0} ⦃codec : HeaderCodec C⦄ ⦃reqs : Requests R⦄ ⦃writer : Writer W⦄ where
  -- The table takes the frame, and is in step with the reader behind it.
  pub handle_frame-InStep :
      (rd rd' : Reader) (t : Table C R E W) (now : ℕ) (f : Frame)
      → Inv t
      → Repaid t
      → Bounded rd
      → SameBounds rd rd'
      → InStep rd t.assembling
      → Steps rd f rd'
      → Ensures Inv (handle_frame t now f)
        × GoesOn (λ u. InStep rd' u.assembling) (handle_frame t now f)
  unfolding handle_frame
  handle_frame-InStep rd rd' t now f v (u, e) bounds same in_step step =
      rw (e, handle_frame) (dispatch-Inv u now f inv r.0, r.1)
    where
      inv : Inv u
      inv = subst (Ensures Inv) e (drain_credit-Inv (drain_sent t) (drain_sent-Inv t v))

      block : u.assembling ≡ t.assembling
      block = subst (Ensures (λ u. u.assembling ≡ t.assembling)) e (drains-assembling t)

      r :
          Continuous u.assembling f
          × GoesOn (λ u. InStep rd' u.assembling) (Handle.dispatch u now f)
      r = dispatch-InStep rd' rd u now f inv bounds same (rw block in_step) step

-- Outside header blocks the reader's block stays as it was, which is none.
calm_step :
    (rd rd' : Reader) (o : Option Block)
    → InStep rd o
    → rd.block_stream ≡ 0
    → Open rd' rd.block_stream rd.block_size rd.continuations
    → InStep rd' o
calm_step rd rd' none h calm same = same.0 ∙ calm
calm_step rd rd' (some b) h calm same = absurd (omega (arith, h.0, h.1, calm))

bounds_kept : (rd rd' : Reader) → Bounded rd → SameBounds rd rd' → Bounded rd'
bounds_kept rd rd' (frames, blocks) (same_frames, same_blocks, _) =
    (omega (arith, frames, same_frames), omega (arith, blocks, same_blocks))

module _ {C R E W P : Type 0} where
  -- A connection whose reader has just returned a frame; the reader before it is the first argument.
  pub record Arriving (rd : Reader) (c : Conn C R E W P) : Type 0 where
    pub table : Inv c.handler
    pub in_step : InStep rd c.handler.assembling
    pub bounds : Bounded rd
    pub same : SameBounds rd c.r
    pub octets : IsOctets c.r.input
    pub waiting : Waiting c.last_stream_id c.pending

  pub calm-Sound :
      (rd : Reader) (c : Conn C R E W P)
      → Arriving rd c
      → rd.block_stream ≡ 0
      → Open c.r rd.block_stream rd.block_size rd.continuations
      → Sound c
  calm-Sound rd c a calm same = record {
    table = a.table;
    in_step = calm_step rd c.r c.handler.assembling a.in_step calm same;
    bounds = bounds_kept rd c.r a.bounds a.same;
    octets = a.octets;
    waiting = a.waiting;
  }

module _ {C R E W P : Type 0} ⦃conn_writer : ConnWriter W P⦄ where
  left_idle-Inv : (c : Conn C R E W P) (id : ℕ) → Inv c.handler → Inv (left_idle c id).handler
  unfolding left_idle taken_priority prioritize
  left_idle-Inv c id v = by_priority (take c.pending id).1
    where
      by_priority :
          (o : Option P)
          → Inv (taken_priority (record c { pending = (take c.pending id).0 }) id o).handler
      by_priority none = v
      by_priority (some params) = elim (Bool-cases (live c.handler id)) [
        | inl here ↦ rw here (record { core = v.core; block = v.block })
        | inr gone ↦ rw gone v
      ]

  -- How a step of the table ends for a connection that had not seen its stream before.
  module _ (rd : Reader) (c : Conn C R E W P) (id : ℕ) (a : Arriving rd c) where
    idle-Sound :
        (t : Table C R E W)
        → Inv t
        → InStep c.r t.assembling
        → Sound (left_idle (record c { last_stream_id = id; handler = t }) id)
    idle-Sound t inv step =
        left_idle-Sound (record c { last_stream_id = id; handler = t }) id inv step
          (bounds_kept rd c.r a.bounds a.same) a.octets a.waiting.few refl

    pub deferred-Kept :
        (o : Outcome (Table C R E W))
        → Ensures Inv o
        → GoesOn (λ u. InStep c.r u.assembling) o
        → Kept (deferred id (with_handler (record c { last_stream_id = id }) o))
    unfolding deferred with_handler
    deferred-Kept (done t) inv step = idle-Sound t inv step
    deferred-Kept (failed (stream_error i code) t) inv step = idle-Sound t inv step
    deferred-Kept (failed (conn_error code) t) inv step =
        left_idle-Inv (record c { last_stream_id = id; handler = t }) id inv
    deferred-Kept (failed stream_gone t) inv step =
        left_idle-Inv (record c { last_stream_id = id; handler = t }) id inv
    deferred-Kept (failed (external n) t) inv step =
        left_idle-Inv (record c { last_stream_id = id; handler = t }) id inv
    deferred-Kept panicked inv step = inv

    seen-Sound :
        (t : Table C R E W) → Inv t → InStep c.r t.assembling → Sound (record c { handler = t })
    seen-Sound t inv step = record {
      table = inv;
      in_step = step;
      bounds = bounds_kept rd c.r a.bounds a.same;
      octets = a.octets;
      waiting = a.waiting;
    }

    pub seen-Kept :
        (o : Outcome (Table C R E W))
        → Ensures Inv o
        → GoesOn (λ u. InStep c.r u.assembling) o
        → Kept (with_handler c o)
    unfolding with_handler
    seen-Kept (done t) inv step = seen-Sound t inv step
    seen-Kept (failed (stream_error i code) t) inv step = seen-Sound t inv step
    seen-Kept (failed (conn_error code) t) inv step = inv
    seen-Kept (failed stream_gone t) inv step = inv
    seen-Kept (failed (external n) t) inv step = inv
    seen-Kept panicked inv step = inv

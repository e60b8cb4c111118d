-- ===== src/Server/Conn/Sound.antt =====
-- What holds of a connection between two frames: of its table, of the header block that the reader
-- and the table have open, and of the priorities that wait for their streams.
use zerodeps_hackk.Base.{
  IsOctets, ℕ, ◌%◌, ◌≤◌, ◌<◌, ◌≡◌, refl, Bool, true, false, ◌==◌, ltb, ◌&&◌, not, if◌then◌else◌,
  Bool-cases, inl, inr, Option, none, some, length, All, arith,
}
use zerodeps_hackk.H2.{
  Error, conn_error, stream_error, stream_gone, external, Outcome, done, failed, panicked, ◌>>=◌,
}
use zerodeps_hackk.Limits.{max_concurrent_streams}
use zerodeps_hackk.Frame.Types.{Frame, PingFrame, PriorityUpdateFrame}
use zerodeps_hackk.Stream.State.{Writer}
use zerodeps_hackk.Stream.Table.{live, len}
use zerodeps_hackk.Stream.Table.Invariant.{Inv}
use zerodeps_hackk.Stream.Table.InStep.{InStep, Bounded}
use zerodeps_hackk.Priority.Pending.{Pending, take, held, prune}
use zerodeps_hackk.Priority.Pending.Ahead.{
  put-Ahead, put-few, left-Ahead, length-take, length-prune,
}
use zerodeps_hackk.Server.Conn.{
  Conn, ConnWriter, enqueue, handle_ping, prioritize, handle_priority_update, taken_priority,
  left_idle,
}

-- The priorities are of streams that the peer has not used yet, and are few.
pub record Waiting {P : Type 0} (last : ℕ) (p : Pending P) : Type 0 where
  pub ahead : All (λ e. last < e.0) p
  pub few : length p ≤ max_concurrent_streams

module _ {C R E W P : Type 0} where
  pub record Sound (c : Conn C R E W P) : Type 0 where
    pub table : Inv c.handler
    pub in_step : InStep c.r c.handler.assembling
    pub bounds : Bounded c.r
    pub octets : IsOctets c.r.input
    pub waiting : Waiting c.last_stream_id c.pending

  -- After a step: no panic; all of it holds if the connection goes on, and the table's invariant if
  -- it ends.
  abbrev pub Kept : Outcome (Conn C R E W P) → Type 0
  Kept (done c) = Sound c
  Kept (failed (stream_error id code) c) = Sound c
  Kept (failed _ c) = Inv c.handler
  Kept panicked = ⊥

  pub Sound-Kept : (e : Error) (c : Conn C R E W P) → Sound c → Kept (failed e c)
  Sound-Kept (conn_error code) c v = v.table
  Sound-Kept (stream_error id code) c v = v
  Sound-Kept stream_gone c v = v.table
  Sound-Kept (external n) c v = v.table

  pub Kept-bind :
      (o : Outcome (Conn C R E W P)) (f : Conn C R E W P → Outcome (Conn C R E W P))
      → Kept o
      → ((c : Conn C R E W P) → Sound c → Kept (f c))
      → Kept (o >>= f)
  Kept-bind (done c) f v k = k c v
  Kept-bind (failed e c) f v k = v
  Kept-bind panicked f v k = v

  pub Kept-if :
      (b : Bool) (x y : Outcome (Conn C R E W P))
      → (b ≡ true → Kept x)
      → (b ≡ false → Kept y)
      → Kept (if b then x else y)
  Kept-if true x y h k = h refl
  Kept-if false x y h k = k refl

  -- The writer and what the goroutine keeps beside may change.
  pub Sound-writer :
      (c : Conn C R E W P) (w : W)
      → Sound c
      → Sound (record c { handler = record c.handler { w = w } })
  Sound-writer c w v = record {
    table = record { core = v.table.core; block = v.table.block };
    in_step = v.in_step;
    bounds = v.bounds;
    octets = v.octets;
    waiting = v.waiting;
  }

module _ {C R E W P : Type 0} ⦃writer : Writer W⦄ where
  pub enqueue-Kept : (c : Conn C R E W P) (f : Frame) → Sound c → Kept (enqueue c f)
  unfolding enqueue
  enqueue-Kept c f v = ends (writer.enqueue c.handler.w f)
    where
      ends :
          (r : W × Option Error)
          → Kept (elim r.1 [
            | none ↦ done (record c { handler = record c.handler { w = r.0 } })
            | some err ↦ failed err (record c { handler = record c.handler { w = r.0 } })
          ])
      ends (w, none) = Sound-writer c w v
      ends (w, some err) = Sound-Kept err _ (Sound-writer c w v)

  pub handle_ping-Kept : (c : Conn C R E W P) (f : PingFrame) → Sound c → Kept (handle_ping c f)
  unfolding handle_ping
  handle_ping-Kept c f v = elim (Bool-cases f.ack) [
    | inl ack ↦ rw ack v
    | inr asked ↦ rw asked (enqueue-Kept c _ v)
  ]

module _ {C R E W P : Type 0} ⦃conn_writer : ConnWriter W P⦄ where
  pub handle_priority_update-Kept :
      (c : Conn C R E W P) (f : PriorityUpdateFrame) → Sound c → Kept (handle_priority_update c f)
  unfolding handle_priority_update prioritize
  handle_priority_update-Kept c f v =
      let id = f.prioritized_id in
      Kept-if (id % 2 == 0) _ _ (λ _. v.table)
        λ _.
          Kept-if (live c.handler id) _ _ (λ _. Sound-writer c _ v)
            λ _.
              Kept-if (ltb c.last_stream_id id) _ _
                (λ above.
                  Kept-if (not (held c.pending id) && _) _ _ (λ _. v.table)
                    λ room. record {
                      table = v.table;
                      in_step = v.in_step;
                      bounds = v.bounds;
                      octets = v.octets;
                      waiting = record {
                        ahead =
                            put-Ahead c.last_stream_id id _ c.pending (ground arith)
                              v.waiting.ahead;
                        few =
                            put-few id _ c.pending (len c.handler) max_concurrent_streams
                              v.waiting.few room;
                      };
                    })
                (λ _. v)

  pub left_idle-Sound :
      (c : Conn C R E W P) (id : ℕ)
      → Inv c.handler
      → InStep c.r c.handler.assembling
      → Bounded c.r
      → IsOctets c.r.input
      → length c.pending ≤ max_concurrent_streams
      → c.last_stream_id ≡ id
      → Sound (left_idle c id)
  unfolding left_idle taken_priority
  left_idle-Sound c id inv in_step bounds octets few last = by_priority (take c.pending id).1
    where
      waits : Waiting c.last_stream_id (prune (take c.pending id).0 id).0
      waits = record {
        ahead = rw last (left-Ahead id c.pending);
        few = omega (arith, few, length-take id c.pending, length-prune id (take c.pending id).0);
      }

      rest : Pending P
      rest = (take c.pending id).0

      plain : Sound (record c { pending = (prune rest id).0 })
      plain = record {
        table = inv;
        in_step = in_step;
        bounds = bounds;
        octets = octets;
        waiting = waits;
      }

      by_priority :
          (o : Option P)
          → (let c' = taken_priority (record c { pending = rest }) id o in
              Sound (record c' { pending = (prune c'.pending id).0 }))
      by_priority none = plain
      by_priority (some params) = elim (Bool-cases (live c.handler id)) [
        | inl here ↦
            rw here
              (unfold prioritize in Sound-writer (record c { pending = (prune rest id).0 }) _ plain)
        | inr gone ↦ rw gone plain
      ]

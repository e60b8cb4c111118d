-- ===== src/Server/Conn/Safety.antt =====
-- A whole connection of internal/server/conn.go, on any octets and any turns.
use zerodeps_hackk.Base.{
  IsOctets, ℕ, ◌≡◌, ◌+◌, refl, sym, subst, Bool, true, false, if◌then◌else◌, List, [], ◌∷◌, Option,
  none, some, arith,
}
use zerodeps_hackk.H2.{
  Error, conn_error, stream_error, stream_gone, external, HeaderCodec, Outcome, done, failed,
  panicked, ◌>>=◌,
}
use zerodeps_hackk.Flow.Sender.{new_sender}
use zerodeps_hackk.Frame.Reader.{
  Reader, Round, arrived, stopped, crash, again, new_reader, read_frame,
}
use zerodeps_hackk.Frame.Reader.Preface.{read_preface, PastOctets, read_preface-PastOctets}
use zerodeps_hackk.Frame.Reader.Blocks.{Reads}
use zerodeps_hackk.Frame.Reader.Continuity.{read_frame-Reads}
use zerodeps_hackk.Frame.Reader.Progress.{Answers, read_frame-Answers}
use zerodeps_hackk.Stream.State.{Requests, Encoder, Writer}
use zerodeps_hackk.Stream.Table.{Table, new_table}
use zerodeps_hackk.Stream.Table.Invariant.{Inv}
use zerodeps_hackk.Stream.Table.InStep.{InStep, Bounded}
use zerodeps_hackk.Stream.Table.History.{step, new_table-Inv}
use zerodeps_hackk.Server.Conn.{
  read_error, Conn, ConnWriter, Timeouts, new_conn, initial_settings, enqueue, set_read_deadline,
  deadline_idle, deadline_preface, ReadDeadlineKind,
}
use zerodeps_hackk.Server.Conn.Run.{
  Report, Turn, report_all, answer, received, read_under, round, rounds, read_start, start, run,
}
use zerodeps_hackk.Server.Conn.Sound.{Sound, Kept, enqueue-Kept}
use zerodeps_hackk.Server.Conn.Arriving.{Repaid}
use zerodeps_hackk.Server.Conn.Dispatching.{dispatch-Kept}
use zerodeps_hackk.Server.Conn.Reports.{report_all-Inv, report_all-assembling}

module _ {C R E W P : Type 0} where
  -- After a round: no panic; all holds if the loop goes on, and the table's invariant if it ends.
  abbrev pub Keeps : Outcome (Conn C R E W P) → Type 0
  Keeps (done c) = Sound c
  Keeps (failed e c) = Inv c.handler
  Keeps panicked = ⊥

  Kept-Keeps : (o : Outcome (Conn C R E W P)) → Kept o → Keeps o
  Kept-Keeps (done c) v = v
  Kept-Keeps (failed (conn_error code) c) v = v
  Kept-Keeps (failed (stream_error id code) c) v = v.table
  Kept-Keeps (failed stream_gone c) v = v
  Kept-Keeps (failed (external n) c) v = v
  Kept-Keeps panicked v = v

  Keeps-bind :
      (o : Outcome (Conn C R E W P)) (f : Conn C R E W P → Outcome (Conn C R E W P))
      → Keeps o
      → ((c : Conn C R E W P) → Sound c → Keeps (f c))
      → Keeps (o >>= f)
  Keeps-bind (done c) f v k = k c v
  Keeps-bind (failed e c) f v k = v
  Keeps-bind panicked f v k = v

  -- The deadline is no part of what holds.
  Sound-deadline :
      (c : Conn C R E W P) (want : ReadDeadlineKind) (now : ℕ)
      → Sound c
      → Sound (set_read_deadline c want now)
  unfolding set_read_deadline
  Sound-deadline c want now v = record {
    table = v.table;
    in_step = v.in_step;
    bounds = v.bounds;
    octets = v.octets;
    waiting = v.waiting;
  }

  Keeps-if :
      (b : Bool) (x y : Outcome (Conn C R E W P)) → Keeps x → Keeps y → Keeps (if b then x else y)
  Keeps-if true x y h k = h
  Keeps-if false x y h k = k

  Keeps-option :
      (o : Option Error) (x : Error → Outcome (Conn C R E W P)) (y : Outcome (Conn C R E W P))
      → ((e : Error) → Keeps (x e))
      → Keeps y
      → Keeps (elim o [ some e ↦ x e | none ↦ y ])
  Keeps-option none x y h k = k
  Keeps-option (some e) x y h k = h e

module _ {C R E W P : Type 0} ⦃codec : HeaderCodec C⦄ ⦃reqs : Requests R⦄ ⦃enc : Encoder E⦄
    ⦃writer : Writer W⦄ ⦃conn_writer : ConnWriter W P⦄ where
  answer-Keeps : (o : Outcome (Conn C R E W P)) → Kept o → Keeps (answer o)
  unfolding answer
  answer-Keeps (done c) v = v
  answer-Keeps (failed (stream_error id code) c) v = Kept-Keeps _ (enqueue-Kept c _ v)
  answer-Keeps (failed (conn_error code) c) v = v
  answer-Keeps (failed stream_gone c) v = v
  answer-Keeps (failed (external n) c) v = v
  answer-Keeps panicked v = v

  received-Keeps :
      (c : Conn C R E W P) (turn : Turn) (r : Round)
      → Sound c
      → Repaid c.handler
      → Answers r
      → Reads c.r r
      → Keeps (received c turn r)
  unfolding received
  received-Keeps c turn (arrived f rd) v repaid (ok, octets) (step, same) = answer-Keeps _ (
      dispatch-Kept c.r (record c { r = rd }) turn.now f
        (record {
          table = v.table;
          in_step = v.in_step;
          bounds = v.bounds;
          same = same;
          octets = octets;
          waiting = v.waiting;
        })
        repaid ok step)
  received-Keeps c turn (stopped e rd) v repaid answers reads = v.table
  received-Keeps c turn crash v repaid answers reads = absurd answers
  received-Keeps c turn (again rd) v repaid answers reads = absurd answers

  read_under-Keeps :
      (c : Conn C R E W P) (turn : Turn) → Sound c → Repaid c.handler → Keeps (read_under c turn)
  unfolding read_under
  read_under-Keeps c turn v repaid = Keeps-if turn.expired _ _ v.table (
      received-Keeps c turn (read_frame c.r) v repaid (read_frame-Answers c.r v.octets)
        (read_frame-Reads c.r))

  reported-Sound :
      (c : Conn C R E W P) (xs : List Report)
      → Sound c
      → Sound (record c { handler = report_all xs c.handler })
  reported-Sound c xs v = record {
    table = report_all-Inv xs c.handler v.table;
    in_step = rw (report_all-assembling xs c.handler) v.in_step;
    bounds = v.bounds;
    octets = v.octets;
    waiting = v.waiting;
  }

  round-Keeps :
      (c : Conn C R E W P) (turn : Turn)
      → Sound c
      → Repaid (report_all turn.reports c.handler)
      → Keeps (round c turn)
  unfolding round set_read_deadline
  round-Keeps c turn v repaid = Keeps-if turn.stopping _ _ w.table (
      Keeps-option turn.deadline_set _ _ (λ e. w.table)
        (read_under-Keeps _ turn (Sound-deadline _ deadline_idle turn.now w) repaid))
    where
      w : Sound (record c { handler = report_all turn.reports c.handler })
      w = reported-Sound c turn.reports v

  -- What the callers of the table see to, who report octets that have arrived: before each frame, the
  -- credit that the reports give back fits the receive windows.
  abbrev pub Repaying : Outcome (Conn C R E W P) → List Turn → Type 0
  Repaying (done c) [] = Unit {0}
  Repaying (done c) (turn ∷ turns) =
      Repaid (report_all turn.reports c.handler) × Repaying (round c turn) turns
  Repaying (failed e c) turns = Unit {0}
  Repaying panicked turns = Unit {0}

  rounds-Keeps :
      (o : Outcome (Conn C R E W P)) (turns : List Turn)
      → Keeps o
      → Repaying o turns
      → Keeps (o >>= λ c. rounds c turns)
  unfolding rounds
  rounds-Keeps (done c) [] v r = v
  rounds-Keeps (done c) (turn ∷ turns) v (repaid, r) =
      rounds-Keeps (round c turn) turns (round-Keeps c turn v repaid) r
  rounds-Keeps (failed e c) turns v r = v
  rounds-Keeps panicked turns v r = v

  read_start-Keeps : (c : Conn C R E W P) (turn : Turn) → Sound c → Keeps (read_start c turn)
  unfolding read_start
  read_start-Keeps c turn v =
      Keeps-if turn.expired _ _ v.table
        (from (read_preface c.r) (read_preface-PastOctets c.r v.octets))
    where
      from :
          (r : Reader × Option Error)
          → PastOctets c.r r
          → Keeps (elim r.1 [
            | some err ↦
                failed
                  (read_error (record c { r = r.0 }) turn.stopping_then err)
                  (record c { r = r.0 })
            | none ↦
                done (record c {
                  r = r.0;
                  settings_ack_due = some (turn.now + c.timeouts.settings_ack);
                })
          ])
      from (rd, some err) past = v.table
      from (rd, none) (rest, octets, same) = record {
        table = v.table;
        in_step = subst (λ rd. InStep rd c.handler.assembling) (sym same) v.in_step;
        bounds = subst Bounded (sym same) v.bounds;
        octets = subst (λ rd. IsOctets rd.input) (sym same) octets;
        waiting = v.waiting;
      }

  start-Keeps : (c : Conn C R E W P) (first : Turn) → Sound c → Keeps (start c first)
  unfolding start set_read_deadline
  start-Keeps c first v =
      Keeps-bind (enqueue c initial_settings) _ (Kept-Keeps _ (enqueue-Kept c initial_settings v))
        λ c' w.
          Keeps-option first.deadline_set _ _ (λ e. w.table)
            (read_start-Keeps (set_read_deadline c' deadline_preface first.now) first
              (Sound-deadline c' deadline_preface first.now w))

  new_conn-Sound :
      (input : List ℕ) (t : Table C R E W) (timeouts : Timeouts)
      → IsOctets input
      → Inv t
      → t.assembling ≡ none
      → Sound (new_conn {P = P} input t timeouts)
  unfolding new_conn new_reader
  new_conn-Sound input t timeouts octets v calm = record {
    table = v;
    in_step = rw calm refl;
    bounds = (omega arith, omega arith);
    octets = octets;
    waiting = record { ahead = tt; few = omega arith };
  }

module _ {C R E W : Type 0} (P : Type 0) ⦃codec : HeaderCodec C⦄ ⦃reqs : Requests R⦄
    ⦃enc : Encoder E⦄ ⦃writer : Writer W⦄ ⦃conn_writer : ConnWriter W P⦄ where
  -- Whatever octets a peer sends, in whichever order the reports of other goroutines, the clock and
  -- the shutdown of the server fall between its frames, and as long as the credit that the reports
  -- give back fits the receive windows before each frame, so that taking it in makes no error, the
  -- loop of a new connection does not panic: it is still going or has returned an error, and either
  -- way the stream table keeps its invariant. While it goes on, the table has the same header block
  -- open as the reader has, and at most 100 priorities are buffered, all of them of streams that
  -- the peer has not used.
  pub run-Keeps :
      (input : List ℕ) (codec_state : C) (r : R) (e : E) (w : W) (limit now : ℕ)
      (timeouts : Timeouts) (first : Turn) (turns : List Turn)
      → IsOctets input
      → (let c =
            new_conn {P = P} input (new_table codec_state r e w limit now new_sender) timeouts in
          Repaying (start c first) turns → Keeps (run c first turns))
  unfolding run
  run-Keeps input codec_state r e w limit now timeouts first turns octets repaying =
      rounds-Keeps (start c first) turns (start-Keeps c first sound) repaying
    where
      c : Conn C R E W P
      c = new_conn input (new_table codec_state r e w limit now new_sender) timeouts

      sound : Sound c
      sound =
          new_conn-Sound input _ timeouts octets (new_table-Inv codec_state r e w limit now)
            (unfold new_table in refl)

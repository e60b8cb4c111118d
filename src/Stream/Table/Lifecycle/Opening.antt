-- ===== src/Stream/Table/Lifecycle/Opening.antt =====
-- HEADERS and CONTINUATION frames of table.go, against the state diagram.
use zerodeps_hackk.Base.{
  ℕ, ◌%◌, ◌<◌, ◌≡◌, refl, Bool, true, false, ◌==◌, leb, if◌then◌else◌, List, ◌++◌, Option, none,
  some, arith, inl, inr, Bool-cases, Option-cases,
}
use zerodeps_hackk.Base.Assoc.{lookup, lookup-insert}
use zerodeps_hackk.H2.{
  Error, conn_error, compression_error, Field, failed, Ensures, Ensures-then, Ensures-map,
  HeaderCodec,
}
use zerodeps_hackk.Flow.Window.{Window}
use zerodeps_hackk.Flow.Sender
use zerodeps_hackk.Flow.Sender.Validity
use zerodeps_hackk.Frame.Types.{HeadersFrame, ContinuationFrame}
use zerodeps_hackk.Stream.State.{Stream, State, open_both, recv_end, Requests, Writer}
use zerodeps_hackk.Stream.Table.{Table, Block, len, store, retire}
use zerodeps_hackk.Stream.Table.Blocks.{
  admit, add_stream, trailer_verdict, start_request, complete_trailers, complete_request,
  complete_block, extend, request_block, trailer_block, open_stream, on_headers, on_continuation,
}
use zerodeps_hackk.Stream.Table.Invariant.{CoreOf, Inv, BlockOk, Pending, Trailing, highest-Core}
use zerodeps_hackk.Stream.Table.Drains.{lookup-Held}
use zerodeps_hackk.Stream.Table.Safety.{Calm, Calm-Inv, new_recv}
use zerodeps_hackk.Stream.Table.Preservation.{admit-Pending, trailer_verdict-Pending}
use zerodeps_hackk.Stream.Table.Lifecycle.{
  the_peer, may_become, may_become_trans, phase, phase_of, store_moves, end_moves, add_moves,
  begin_moves,
}
use zerodeps_hackk.Stream.Table.Lifecycle.Moves.{At, onward, deliver-At, settle-At, recv_end_moves}

module _ {C R E W : Type 0} ⦃reqs : Requests R⦄ ⦃writer : Writer W⦄ (x : State) (id : ℕ) where
  complete_trailers-At :
      (t : Table C R E W) (b : Block) (fields : List Field)
      → Calm t
      → Trailing (lookup b.id t.streams)
      → At the_peer x id t
      → Ensures (At the_peer x id) (complete_trailers t b fields)
  unfolding complete_trailers
  complete_trailers-At t b fields v w p = elim (Option-cases (lookup b.id t.streams)) [
    | inl gone ↦ absurd (rw gone at w)
    | inr (s, e) ↦
        let (_, k) = lookup-Held t b.id s (Calm-Inv t v) e in
        rw (e, complete_trailers)
          (deliver-At the_peer x id (retire (store t (recv_end s)) (recv_end s)) _ (
            settle-At the_peer x id t (recv_end s) s p k refl
              (recv_end_moves s.state k.is_live (rw e at w))))
  ]

  -- A stream enters whose block is complete.
  add_stream-At :
      (t : Table C R E W) (b : Block) (s : Stream)
      → Calm t
      → lookup s.id t.streams ≡ none
      → s.id % 2 ≡ 1
      → b.trailer ≡ false
      → s.id ≡ b.id
      → s.state ≡ open_both
      → may_become the_peer x (phase_of t.streams t.highest_remote (some b) id) ≡ true
      → Ensures (λ u. At the_peer x id u × (lookup s.id u.streams ≡ some s)) (add_stream t s)
  unfolding add_stream
  add_stream-At t b s (v, calm) gone odd first same opened p =
      Ensures-map Validity.IsValid _ _ (Sender.open_stream t.sender s.id)
        (λ y valid. (
          record {
            moved = rw calm (
                may_become_trans the_peer x (phase_of t.streams t.highest_remote (some b) id) _ p
                  (add_moves t.streams t.highest_remote (some b) id b s refl first same opened));
          },
          ground (arith, lookup-insert s.id s.id s t.streams),
        ))
        (Validity.open_stream-IsValid t.sender s.id v.sender_valid (omega arith)
          (ground (arith, v.entries s.id)))

  start_request-At :
      (t : Table C R E W) (b : Block) (fields : List Field) (v : Window)
      → Calm t
      → b.id % 2 ≡ 1
      → lookup b.id t.streams ≡ none
      → b.trailer ≡ false
      → may_become the_peer x (phase_of t.streams t.highest_remote (some b) id) ≡ true
      → Ensures (At the_peer x id) (start_request t b fields v)
  unfolding start_request
  start_request-At t b fields v calm odd gone first p =
      Ensures-then (λ u. At the_peer x id u × (lookup b.id u.streams ≡ some s)) (At the_peer x id)
        (add_stream t s) _ (add_stream-At t b s calm gone odd first refl refl p) (λ u q. q.0)
        (λ u q. deliver-At the_peer x id (store u (after b.end_stream)) _ (enters u q b.end_stream))
    where
      s : Stream
      s = record { id = b.id; state = open_both; recv = v }

      after : Bool → Stream
      after e = if e then recv_end s else s

      enters :
          (u : Table C R E W)
          → At the_peer x id u × (lookup b.id u.streams ≡ some s)
          → (e : Bool) → At the_peer x id (store u (after e))
      enters u (q, e) true =
          onward the_peer x id u _ q
            (store_moves u.streams u.highest_remote u.assembling id the_peer (after true) s e refl)
      enters u (q, e) false =
          onward the_peer x id u _ q
            (store_moves u.streams u.highest_remote u.assembling id the_peer (after false) s e refl)

  complete_request-At :
      (t : Table C R E W) (b : Block) (fields : List Field)
      → Calm t
      → b.id % 2 ≡ 1
      → lookup b.id t.streams ≡ none
      → b.trailer ≡ false
      → may_become the_peer x (phase_of t.streams t.highest_remote (some b) id) ≡ true
      → Ensures (At the_peer x id) (complete_request t b fields)
  unfolding complete_request
  complete_request-At t b fields calm odd gone first p =
      rw ((new_recv b.id odd).1, complete_request)
        (start_request-At t b fields (new_recv b.id odd).0 calm odd gone first p)

module _ {C R E W : Type 0} ⦃codec : HeaderCodec C⦄ ⦃reqs : Requests R⦄ ⦃writer : Writer W⦄
    (x : State) (id : ℕ) where
  complete_block-At :
      (t : Table C R E W) (b : Block)
      → CoreOf t
      → BlockOk t.streams t.highest_remote t.max_concurrent (some b)
      → may_become the_peer x (phase_of t.streams t.highest_remote (some b) id) ≡ true
      → Ensures (At the_peer x id) (complete_block t b)
  unfolding complete_block
  complete_block-At t b v (odd, used, pending) p =
      decoded (codec.decode t.codec b.buf).1 b.verdict pending
    where
      pending_absent :
          (verdict : Option Error)
          → Pending t.streams t.max_concurrent b verdict
          → b.trailer ≡ false
          → lookup b.id t.streams ≡ none
      pending_absent (some e) k first = k first
      pending_absent none k first = (rw first at k).0

      t' : Table C R E W
      t' = record t { assembling = none; codec = (codec.decode t.codec b.buf).0 }

      ended : At the_peer x id t'
      ended = record {
        moved = may_become_trans the_peer x (phase_of t.streams t.highest_remote (some b) id) _ p (
            end_moves t.streams t.highest_remote (some b) id b refl
              (pending_absent b.verdict pending));
      }

      admitted :
          (trailer : Bool) (fields : List Field)
          → b.trailer ≡ trailer
          → (if trailer
              then Trailing (lookup b.id t.streams)
              else ((lookup b.id t.streams ≡ none) × (len t < t.max_concurrent)))
          → Ensures
              (At the_peer x id)
              (if trailer then complete_trailers t' b fields else complete_request t' b fields)
      admitted true fields q k = complete_trailers-At x id t' b fields (v, refl) k ended
      admitted false fields q (gone, room) =
          complete_request-At x id t' b fields (v, refl) odd gone q p

      decoded :
          (d : Option (List Field)) (verdict : Option Error)
          → Pending t.streams t.max_concurrent b verdict
          → Ensures (At the_peer x id) (elim d [
            | none ↦ failed (conn_error compression_error) t'
            | some fields ↦ elim verdict [
              | some e ↦ failed e t'
              | none ↦
                  if b.trailer then complete_trailers t' b fields else complete_request t' b fields
            ]
          ])
      decoded none verdict k = ended
      decoded (some fields) none k = admitted b.trailer fields refl k
      decoded (some fields) (some e) k = ended

  extend-At :
      (t : Table C R E W) (b : Block) (fragment : List ℕ) (end_headers : Bool)
      → CoreOf t
      → BlockOk t.streams t.highest_remote t.max_concurrent (some b)
      → may_become the_peer x (phase_of t.streams t.highest_remote (some b) id) ≡ true
      → Ensures (At the_peer x id) (extend t b fragment end_headers)
  unfolding extend
  extend-At t b fragment true v k p =
      complete_block-At (record t { assembling = some (record b { buf = b.buf ++ fragment }) })
        (record b { buf = b.buf ++ fragment }) v k p
  extend-At t b fragment false v k p = record { moved = p }

  open_stream-At :
      (t : Table C R E W) (f : HeadersFrame)
      → Calm t
      → lookup f.stream_id t.streams ≡ none
      → At the_peer x id t
      → Ensures (At the_peer x id) (open_stream t f)
  unfolding open_stream
  open_stream-At t f v gone p = elim (Bool-cases (f.stream_id % 2 == 0)) [
    | inl even ↦ rw even p
    | inr odd ↦ elim (Bool-cases (leb f.stream_id t.highest_remote)) [
      | inl used ↦ rw (odd, used) p
      | inr above ↦
          rw (odd, above)
            (extend-At (record t { highest_remote = f.stream_id }) (request_block f (admit t f))
              f.fragment f.end_headers
              (highest-Core t.streams t.sender t.highest_remote f.stream_id t.conn_recv
                t.max_concurrent (ground arith) v.0)
              (ground arith, omega arith, admit-Pending t f gone)
              (may_become_trans the_peer x (phase t id) _ p.moved (
                rw v.1 (
                  begin_moves t.streams t.highest_remote id (request_block f (admit t f)) refl gone
                    (ground arith)))))
    ]
  ]

  pub on_headers-At :
      (t : Table C R E W) (f : HeadersFrame)
      → Calm t
      → At the_peer x id t
      → Ensures (At the_peer x id) (on_headers t f)
  unfolding on_headers
  on_headers-At t f v p = elim (Option-cases (lookup f.stream_id t.streams)) [
    | inl gone ↦ rw (v.1, gone, on_headers) (open_stream-At t f v gone p)
    | inr (s, e) ↦
        let (same, k) = lookup-Held t f.stream_id s (Calm-Inv t v) e in
        rw (v.1, e, on_headers)
          (extend-At t (trailer_block f (trailer_verdict f s)) f.fragment f.end_headers v.0
            (ground (arith, k.is_odd), ground (arith, k.used), trailer_verdict-Pending t f s e)
            (rw v.1 at p.moved))
  ]

  pub on_continuation-At :
      (t : Table C R E W) (f : ContinuationFrame)
      → Inv t
      → At the_peer x id t
      → Ensures (At the_peer x id) (on_continuation t f)
  unfolding on_continuation
  on_continuation-At t f v p = elim (Option-cases t.assembling) [
    | inl calm ↦ rw (calm, on_continuation) p
    | inr (b, e) ↦ elim (Bool-cases (f.stream_id == b.id)) [
      | inl same ↦
          rw (e, same, on_continuation)
            (extend-At t b f.fragment f.end_headers v.core (rw e at v.block) (rw e at p.moved))
      | inr other ↦ rw (e, other, on_continuation) p
    ]
  ]

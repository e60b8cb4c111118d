-- ===== src/Stream/Table/Preservation.antt =====
-- HEADERS and CONTINUATION frames in table.go, and the table's invariant.
use zerodeps_hackk.Base.{
  ℕ, ◌%◌, ◌<◌, ◌≡◌, refl, Bool, true, false, ◌==◌, leb, if◌then◌else◌, List, ◌++◌, Option, none,
  some, arith, inl, inr, Bool-cases, Option-cases,
}
use zerodeps_hackk.Base.Assoc.{lookup}
use zerodeps_hackk.H2.{
  Error, conn_error, compression_error, Field, failed, Ensures, Ensures-weaken, HeaderCodec,
}
use zerodeps_hackk.Frame.Types.{HeadersFrame, ContinuationFrame}
use zerodeps_hackk.Stream.State.{Stream, Requests, Writer}
use zerodeps_hackk.Stream.Table.{Table, Block, len}
use zerodeps_hackk.Stream.Table.Blocks.{
  admit, trailer_verdict, complete_trailers, complete_request, complete_block, extend,
  request_block, trailer_block, open_stream, on_headers, on_continuation,
}
use zerodeps_hackk.Stream.Table.Invariant.{CoreOf, Inv, BlockOk, Pending, Trailing, highest-Core}
use zerodeps_hackk.Stream.Table.Drains.{lookup-Held}
use zerodeps_hackk.Stream.Table.Safety.{
  Calm, Calm-Inv, complete_trailers-Calm, complete_request-Calm,
}

module _ {C R E W : Type 0} ⦃codec : HeaderCodec C⦄ ⦃reqs : Requests R⦄ ⦃writer : Writer W⦄ where
  -- The end of a block: decoding and the verdict, or the delivery.
  pub complete_block-Calm :
      (t : Table C R E W) (b : Block)
      → CoreOf t
      → BlockOk t.streams t.highest_remote t.max_concurrent (some b)
      → Ensures Calm (complete_block t b)
  unfolding complete_block
  complete_block-Calm t b v (odd, used, pending) =
      decoded (codec.decode t.codec b.buf).1 b.verdict pending
    where
      t' : Table C R E W
      t' = record t { assembling = none; codec = (codec.decode t.codec b.buf).0 }

      admitted :
          (trailer : Bool) (fields : List Field)
          → (if trailer
              then Trailing (lookup b.id t.streams)
              else ((lookup b.id t.streams ≡ none) × (len t < t.max_concurrent)))
          → Ensures Calm
              (if trailer then complete_trailers t' b fields else complete_request t' b fields)
      admitted true fields p = complete_trailers-Calm t' b fields (v, refl) p
      admitted false fields (gone, room) =
          complete_request-Calm t' b fields (v, refl) odd used gone room

      decoded :
          (d : Option (List Field)) (verdict : Option Error)
          → Pending t.streams t.max_concurrent b verdict
          → Ensures Calm (elim d [
            | none ↦ failed (conn_error compression_error) t'
            | some fields ↦ elim verdict [
              | some e ↦ failed e t'
              | none ↦
                  if b.trailer then complete_trailers t' b fields else complete_request t' b fields
            ]
          ])
      decoded none verdict p = (v, refl)
      decoded (some fields) none p = admitted b.trailer fields p
      decoded (some fields) (some e) p = (v, refl)

  pub extend-Inv :
      (t : Table C R E W) (b : Block) (fragment : List ℕ) (end_headers : Bool)
      → CoreOf t
      → BlockOk t.streams t.highest_remote t.max_concurrent (some b)
      → Ensures Inv (extend t b fragment end_headers)
  unfolding extend
  extend-Inv t b fragment true v k = Ensures-weaken Calm Inv _ Calm-Inv (
      complete_block-Calm (record t { assembling = some (record b { buf = b.buf ++ fragment }) })
        (record b { buf = b.buf ++ fragment }) v k)
  extend-Inv t b fragment false v k = record { core = v; block = k }

  -- The verdicts promise what the end of the block relies on.
  pub admit-Pending :
      (t : Table C R E W) (f : HeadersFrame)
      → lookup f.stream_id t.streams ≡ none
      → Pending t.streams t.max_concurrent (request_block f (admit t f)) (admit t f)
  unfolding admit
  admit-Pending t f gone = ground arith

  pub trailer_verdict-Pending :
      (t : Table C R E W) (f : HeadersFrame) (s : Stream)
      → lookup f.stream_id t.streams ≡ some s
      → Pending t.streams t.max_concurrent
          (trailer_block f (trailer_verdict f s))
          (trailer_verdict f s)
  unfolding trailer_verdict
  trailer_verdict-Pending t f s e = ground arith

  open_stream-Inv :
      (t : Table C R E W) (f : HeadersFrame)
      → Calm t
      → lookup f.stream_id t.streams ≡ none
      → Ensures Inv (open_stream t f)
  unfolding open_stream
  open_stream-Inv t f v gone = elim (Bool-cases (f.stream_id % 2 == 0)) [
    | inl even ↦ rw even (Calm-Inv t v)
    | inr odd ↦ elim (Bool-cases (leb f.stream_id t.highest_remote)) [
      | inl used ↦ rw (odd, used) (Calm-Inv t v)
      | inr above ↦
          rw (odd, above)
            (extend-Inv (record t { highest_remote = f.stream_id }) (request_block f (admit t f))
              f.fragment f.end_headers
              (highest-Core t.streams t.sender t.highest_remote f.stream_id t.conn_recv
                t.max_concurrent (ground arith) v.0)
              (ground arith, omega arith, admit-Pending t f gone))
    ]
  ]

  pub on_headers-Inv :
      (t : Table C R E W) (f : HeadersFrame) → Calm t → Ensures Inv (on_headers t f)
  unfolding on_headers
  on_headers-Inv t f v = elim (Option-cases (lookup f.stream_id t.streams)) [
    | inl gone ↦ rw (v.1, gone, on_headers) (open_stream-Inv t f v gone)
    | inr (s, e) ↦
        let (same, k) = lookup-Held t f.stream_id s (Calm-Inv t v) e in
        rw (v.1, e, on_headers)
          (extend-Inv t (trailer_block f (trailer_verdict f s)) f.fragment f.end_headers v.0
            (ground (arith, k.is_odd), ground (arith, k.used), trailer_verdict-Pending t f s e))
  ]

  pub on_continuation-Inv :
      (t : Table C R E W) (f : ContinuationFrame) → Inv t → Ensures Inv (on_continuation t f)
  unfolding on_continuation
  on_continuation-Inv t f v = elim (Option-cases t.assembling) [
    | inl idle ↦ rw (idle, on_continuation) v
    | inr (b, e) ↦ elim (Bool-cases (f.stream_id == b.id)) [
      | inl same ↦
          rw (e, same, on_continuation)
            (extend-Inv t b f.fragment f.end_headers v.core (rw e at v.block))
      | inr other ↦ rw (e, other, on_continuation) v
    ]
  ]

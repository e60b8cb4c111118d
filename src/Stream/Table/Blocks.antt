-- ===== src/Stream/Table/Blocks.antt =====
-- Header blocks in table.go: HEADERS and CONTINUATION frames, the verdict that waits for the end of
-- the block, and the block's delivery as a request or as trailers.
use zerodeps_hackk.Base.{
  ℕ, ◌%◌, Bool, true, false, ◌==◌, leb, ◌&&◌, not, if◌then◌else◌, List, [], ◌++◌, Option, none,
  some,
}
use zerodeps_hackk.Base.Assoc.{lookup}
use zerodeps_hackk.H2.{
  Error, conn_error, stream_error, protocol_error, stream_closed, refused_stream, compression_error,
  Field, HeaderCodec, Outcome, done, failed, panicked, ◌>>=◌, lift,
}
use zerodeps_hackk.Flow.Window.{Window, new_stream_window, initial_window_size}
use zerodeps_hackk.Flow.Sender
use zerodeps_hackk.Frame.Types.{HeadersFrame, ContinuationFrame}
use zerodeps_hackk.Stream.State.{Stream, open_both, recv_end, peer_done, Requests, Writer}
use zerodeps_hackk.Stream.Table.{Table, Block, len, store, retire}

-- The stream-level verdict on a trailer section.
unfoldable pub trailer_verdict : HeadersFrame → Stream → Option Error
trailer_verdict f s =
    if peer_done s
    then some (stream_error f.stream_id stream_closed)
    else if not f.end_stream
    then some (stream_error f.stream_id protocol_error)
    else none

abbrev pub request_block : HeadersFrame → Option Error → Block
request_block f verdict = record {
  id = f.stream_id;
  trailer = false;
  buf = [];
  end_stream = f.end_stream;
  verdict = verdict;
}

abbrev pub trailer_block : HeadersFrame → Option Error → Block
trailer_block f verdict = record {
  id = f.stream_id;
  trailer = true;
  buf = [];
  end_stream = f.end_stream;
  verdict = verdict;
}

module _ {C R E W : Type 0} where
  -- The error that a callback returned.
  abbrev pub deliver : Table C R E W → R × Option Error → Outcome (Table C R E W)
  deliver t (r, none) = done (record t { reqs = r })
  deliver t (r, some e) = failed e (record t { reqs = r })

  -- The stream-level verdict on a new stream.
  unfoldable pub admit : Table C R E W → HeadersFrame → Option Error
  admit t f =
      if f.priority && f.stream_dependency == f.stream_id
      then some (stream_error f.stream_id protocol_error)
      else if leb t.max_concurrent (len t)
      then some (stream_error f.stream_id refused_stream)
      else none

  -- A stream enters the table and the sender.
  unfoldable pub add_stream : Table C R E W → Stream → Outcome (Table C R E W)
  add_stream t s = lift (λ x. record (store t s) { sender = x }) (Sender.open_stream t.sender s.id)

module _ {C R E W : Type 0} ⦃reqs : Requests R⦄ ⦃writer : Writer W⦄ where
  -- A trailer section ends the peer's side. Where the stream is gone, which `Stream.Table.Invariant`
  -- is about, Go would work on a stream that no map holds; here that is a panic.
  unfoldable pub complete_trailers : Table C R E W → Block → List Field → Outcome (Table C R E W)
  complete_trailers t b fields = elim (lookup b.id t.streams) [
    | none ↦ panicked
    | some s ↦
        let s' = recv_end s in
        let t' = retire (store t s') s' in deliver t' (reqs.on_trailers t'.reqs s' fields)
  ]

  -- A request's stream, with its receive window, is open before the request is delivered.
  unfoldable pub start_request :
      Table C R E W → Block → List Field → Window → Outcome (Table C R E W)
  start_request t b fields v =
      let s : Stream = record { id = b.id; state = open_both; recv = v } in
      add_stream t s >>= λ t'.
      let s' = if b.end_stream then recv_end s else s in
      deliver (store t' s') (reqs.on_headers t'.reqs s' fields b.end_stream)

  unfoldable pub complete_request : Table C R E W → Block → List Field → Outcome (Table C R E W)
  unfolding add_stream start_request
  complete_request t b fields = elim (new_stream_window b.id initial_window_size) [
    | done v ↦ start_request t b fields v
    | failed e v ↦ panicked
    | panicked ↦ panicked
  ]

module _ {C R E W : Type 0} ⦃codec : HeaderCodec C⦄ ⦃reqs : Requests R⦄ ⦃writer : Writer W⦄ where
  -- The block is decoded whatever the verdict on it, so that the decoder keeps in step.
  unfoldable pub complete_block : Table C R E W → Block → Outcome (Table C R E W)
  unfolding complete_trailers complete_request
  complete_block t b =
      let (c, decoded) = codec.decode t.codec b.buf in
      let t' = record t { assembling = none; codec = c } in
      elim decoded [
        | none ↦ failed (conn_error compression_error) t'
        | some fields ↦ elim b.verdict [
          | some e ↦ failed e t'
          | none ↦ if b.trailer then complete_trailers t' b fields else complete_request t' b fields
        ]
      ]

  unfoldable pub extend : Table C R E W → Block → List ℕ → Bool → Outcome (Table C R E W)
  unfolding complete_block
  extend t b fragment end_headers =
      let b' = record b { buf = b.buf ++ fragment } in
      let t' = record t { assembling = some b' } in
      if end_headers then complete_block t' b' else done t'

  unfoldable pub open_stream : Table C R E W → HeadersFrame → Outcome (Table C R E W)
  unfolding admit extend
  open_stream t f =
      if f.stream_id % 2 == 0
      then failed (conn_error protocol_error) t
      else if leb f.stream_id t.highest_remote
      then failed (conn_error protocol_error) t
      else extend (record t { highest_remote = f.stream_id }) (request_block f (admit t f))
          f.fragment f.end_headers

  unfoldable pub begin_trailers : Table C R E W → HeadersFrame → Stream → Outcome (Table C R E W)
  unfolding trailer_verdict extend
  begin_trailers t f s = extend t (trailer_block f (trailer_verdict f s)) f.fragment f.end_headers

  unfoldable pub on_headers : Table C R E W → HeadersFrame → Outcome (Table C R E W)
  unfolding open_stream begin_trailers
  on_headers t f = elim t.assembling [
    | some b ↦ failed (conn_error protocol_error) t
    | none ↦ elim (lookup f.stream_id t.streams) [
      | some s ↦ begin_trailers t f s
      | none ↦ open_stream t f
    ]
  ]

  unfoldable pub on_continuation : Table C R E W → ContinuationFrame → Outcome (Table C R E W)
  unfolding extend
  on_continuation t f = elim t.assembling [
    | none ↦ failed (conn_error protocol_error) t
    | some b ↦
        if f.stream_id == b.id
        then extend t b f.fragment f.end_headers
        else failed (conn_error protocol_error) t
  ]

-- ===== src/Stream/Table/Decoding/Whole.antt =====
-- Header blocks of table.go and the decoder: what it is run on, frame by frame.
use zerodeps_hackk.Base.{
  ℕ, ◌%◌, ◌≡◌, ◌∙◌, sym, subst, refl, Bool, true, false, ◌==◌, leb, ◌&&◌, not, if◌then◌else◌, List,
  ◌++◌, Option, none, some, arith, inl, inr, Bool-cases, Option-cases,
}
use zerodeps_hackk.Base.Assoc.{lookup}
use zerodeps_hackk.H2.{Error, conn_error, compression_error, Field, failed, Ensures, HeaderCodec}
use zerodeps_hackk.Frame.Types.{
  Frame, HeadersFrame, ContinuationFrame, data_frame, headers, priority, rst_stream, window_update,
  continuation,
}
use zerodeps_hackk.Stream.State.{Requests, Writer}
use zerodeps_hackk.Stream.Table.{Table, Block}
use zerodeps_hackk.Stream.Table.Blocks.{
  admit, trailer_verdict, complete_trailers, complete_request, complete_block, extend,
  request_block, trailer_block, open_stream, begin_trailers, on_headers, on_continuation,
}
use zerodeps_hackk.Stream.Table.Handle.{dispatch}
use zerodeps_hackk.Stream.Table.Invariant.{Inv}
use zerodeps_hackk.Stream.Table.Dispatch.{Continuous, dispatch-Inv}
use zerodeps_hackk.Stream.Table.Decoding.{
  Unless, Unless-Ensures, Decoder, on_window_update-Decoder, complete_trailers-Decoder,
  complete_request-Decoder, on_data-Decoder, on_rst_stream-Decoder,
}

module _ {C R E W : Type 0} ⦃codec : HeaderCodec C⦄ where
  -- The decoder after the octets of a whole block.
  abbrev pub decoded : Table C R E W → List ℕ → C
  decoded t buf = (codec.decode t.codec buf).0

  -- The identifier is new, or that of a live stream: then HEADERS begins a block.
  abbrev pub begins : Table C R E W → ℕ → Bool
  begins t id = elim (lookup id t.streams) [
    | some s ↦ true
    | none ↦ not (id % 2 == 0) && not (leb id t.highest_remote)
  ]

  -- The decoder after a frame, by RFC 9113 section 4.3: it is run when a block ends, on all of it.
  abbrev pub decoded_by : Table C R E W → Frame → C
  decoded_by t (headers f) = elim t.assembling [
    | some b ↦ t.codec
    | none ↦ if begins t f.stream_id && f.end_headers then decoded t f.fragment else t.codec
  ]
  decoded_by t (continuation f) = elim t.assembling [
    | none ↦ t.codec
    | some b ↦
        if f.stream_id == b.id && f.end_headers then decoded t (b.buf ++ f.fragment) else t.codec
  ]
  decoded_by t _ = t.codec

module _ {C R E W : Type 0} ⦃codec : HeaderCodec C⦄ ⦃reqs : Requests R⦄ ⦃writer : Writer W⦄ where
  complete_block-Decoder :
      (t : Table C R E W) (b : Block)
      → Unless (Decoder (codec.decode t.codec b.buf).0) (complete_block t b)
  unfolding complete_block
  complete_block-Decoder t b = go (codec.decode t.codec b.buf).1 b.verdict
    where
      c : C
      c = (codec.decode t.codec b.buf).0

      t' : Table C R E W
      t' = record t { assembling = none; codec = c }

      either :
          (trailer : Bool) (fields : List Field)
          → Unless
              (Decoder c)
              (if trailer then complete_trailers t' b fields else complete_request t' b fields)
      either true fields = complete_trailers-Decoder c t' b fields refl
      either false fields = complete_request-Decoder c t' b fields refl

      go :
          (d : Option (List Field)) (verdict : Option Error)
          → Unless (Decoder c) (elim d [
            | none ↦ failed (conn_error compression_error) t'
            | some fields ↦ elim verdict [
              | some e ↦ failed e t'
              | none ↦
                  if b.trailer then complete_trailers t' b fields else complete_request t' b fields
            ]
          ])
      go none verdict = refl
      go (some fields) none = either b.trailer fields
      go (some fields) (some e) = refl

  extend-Decoder :
      (t : Table C R E W) (b : Block) (fragment : List ℕ) (end_headers : Bool)
      → Unless
          (Decoder (if end_headers then (codec.decode t.codec (b.buf ++ fragment)).0 else t.codec))
          (extend t b fragment end_headers)
  unfolding extend
  extend-Decoder t b fragment true =
      complete_block-Decoder (record t { assembling = some (record b { buf = b.buf ++ fragment }) })
        (record b { buf = b.buf ++ fragment })
  extend-Decoder t b fragment false = refl

  -- HEADERS that begin no block, and that begin one.
  ignored :
      (t : Table C R E W) (f : HeadersFrame)
      → begins t f.stream_id ≡ false
      → decoded_by t (headers f) ≡ t.codec
  ignored t f e = ground (arith, e)

  begun :
      (t : Table C R E W) (f : HeadersFrame)
      → t.assembling ≡ none
      → begins t f.stream_id ≡ true
      → (if f.end_headers then decoded t f.fragment else t.codec) ≡ decoded_by t (headers f)
  begun t f calm e = ground (arith, calm, e)

  on_headers-Decoder :
      (t : Table C R E W) (f : HeadersFrame) (c : C)
      → decoded_by t (headers f) ≡ c
      → Unless (Decoder c) (on_headers t f)
  unfolding on_headers open_stream begin_trailers
  on_headers-Decoder t f c q = elim (Option-cases t.assembling) [
    | inr (b, e) ↦ rw (e, on_headers) (rw e at q)
    | inl calm ↦ elim (Option-cases (lookup f.stream_id t.streams)) [
      | inr (s, e) ↦
          rw (calm, e, on_headers)
            (subst
              (λ x.
                Unless (Decoder x)
                  (extend t (trailer_block f (trailer_verdict f s)) f.fragment f.end_headers))
              (begun t f calm (ground (arith, e)) ∙ q)
              (extend-Decoder t (trailer_block f (trailer_verdict f s)) f.fragment f.end_headers))
      | inl gone ↦ elim (Bool-cases (f.stream_id % 2 == 0)) [
        | inl even ↦
            rw (calm, gone, even, on_headers) (sym (ignored t f (ground (arith, gone, even))) ∙ q)
        | inr odd ↦ elim (Bool-cases (leb f.stream_id t.highest_remote)) [
          | inl used ↦
              rw (calm, gone, odd, used, on_headers)
                (sym (ignored t f (ground (arith, gone, used))) ∙ q)
          | inr above ↦
              rw (calm, gone, odd, above, on_headers)
                (subst
                  (λ x. Unless (Decoder x) (
                    extend (record t { highest_remote = f.stream_id }) (request_block f (admit t f))
                      f.fragment f.end_headers))
                  (begun t f calm (ground (arith, gone, odd, above)) ∙ q)
                  (extend-Decoder (record t { highest_remote = f.stream_id })
                    (request_block f (admit t f)) f.fragment f.end_headers))
        ]
      ]
    ]
  ]

  on_continuation-Decoder :
      (t : Table C R E W) (f : ContinuationFrame)
      → Unless (Decoder (decoded_by t (continuation f))) (on_continuation t f)
  unfolding on_continuation
  on_continuation-Decoder t f = elim (Option-cases t.assembling) [
    | inl calm ↦ rw (calm, on_continuation) refl
    | inr (b, e) ↦ elim (Bool-cases (f.stream_id == b.id)) [
      | inl same ↦ rw (e, same, on_continuation) (extend-Decoder t b f.fragment f.end_headers)
      | inr other ↦ rw (e, other, on_continuation) refl
    ]
  ]

  by_frame :
      (t : Table C R E W) (now : ℕ) (f : Frame)
      → Unless (Decoder (decoded_by t f)) (dispatch t now f)
  unfolding dispatch
  by_frame t now (headers f) = on_headers-Decoder t f (decoded_by t (headers f)) refl
  by_frame t now (continuation f) = on_continuation-Decoder t f
  by_frame t now (data_frame f) = on_data-Decoder t.codec t f refl
  by_frame t now (rst_stream f) = on_rst_stream-Decoder t.codec t now f refl
  by_frame t now (window_update f) = on_window_update-Decoder t.codec t f refl
  by_frame t now (priority f) = refl
  by_frame t now _ = refl

  -- In a table that keeps its invariant, on a frame that the reader's rule lets through, the header
  -- decoder runs where a header block ends, once and on the whole of it, whether its stream is then
  -- served, refused or answered with an error; no other frame changes the decoder.
  pub dispatch-Decoder :
      (t : Table C R E W) (now : ℕ) (f : Frame)
      → Inv t
      → Continuous t.assembling f
      → Ensures (λ u. u.codec ≡ decoded_by t f) (dispatch t now f)
  dispatch-Decoder t now f v k =
      Unless-Ensures (Decoder (decoded_by t f)) Inv (dispatch t now f) (dispatch-Inv t now f v k)
        (by_frame t now f)

-- ===== src/Frame/Reader/Blocks.antt =====
-- The header block that the reader of internal/frame/reader.go tracks: which frames may come, and
-- how much a block may grow (CVE-2023-45288).
use zerodeps_hackk.Base.{
  ℕ, suc, ◌+◌, ◌%◌, ◌^◌, ◌≤◌, ◌<◌, ◌≡◌, refl, ◌∙◌, Bool, true, false, if◌then◌else◌, Option, none,
  some, length, arith,
}
use zerodeps_hackk.H2.{Error}
use zerodeps_hackk.Frame.Types.{Frame, headers, push_promise, continuation}
use zerodeps_hackk.Frame.Reader.{
  Reader, Round, arrived, stopped, crash, again, tracked, track_block, begin_block, extend_block,
  finish_frame, check_block_limits,
}

-- The block that is open after a frame of one, and the bounds on it.
abbrev pub Open : Reader → ℕ → ℕ → ℕ → Type 0
Open rd stream size frames =
    (rd.block_stream ≡ stream) × (rd.block_size ≡ size) × (rd.continuations ≡ frames)

abbrev pub Leaves : Reader → Reader → Bool → ℕ → ℕ → ℕ → Type 0
Leaves rd rd' end_headers stream size frames =
    (if end_headers then Open rd' 0 0 0 else Open rd' stream size frames)
    × (size ≤ rd.max_header_block_size)
    × (frames ≤ rd.max_continuations)

-- A reader, a frame that it returns, and the reader then. A block starts where none is open, only a
-- CONTINUATION of the same stream goes on with one, and any other frame comes where none is open.
abbrev pub Steps : Reader → Frame → Reader → Type 0
Steps rd (headers f) rd' =
    (rd.block_stream ≡ 0) × Leaves rd rd' f.end_headers f.stream_id (length f.fragment) 0
Steps rd (push_promise f) rd' =
    (rd.block_stream ≡ 0) × Leaves rd rd' f.end_headers f.stream_id (length f.fragment) 0
Steps rd (continuation f) rd' =
    (0 < rd.block_stream)
    × (f.stream_id ≡ rd.block_stream)
    × (length f.fragment ≤ rd.max_frame_size)
    × Leaves rd rd' f.end_headers rd.block_stream ((rd.block_size + length f.fragment) % 2 ^ 64)
        (suc rd.continuations)
Steps rd _ rd' = (rd.block_stream ≡ 0) × Open rd' rd.block_stream rd.block_size rd.continuations

-- The bounds are the reader's for life.
abbrev pub SameBounds : Reader → Reader → Type 0
SameBounds rd rd' =
    (rd'.max_frame_size ≡ rd.max_frame_size)
    × (rd'.max_header_block_size ≡ rd.max_header_block_size)
    × (rd'.max_continuations ≡ rd.max_continuations)

abbrev pub Reads : Reader → Round → Type 0
Reads rd (arrived f rd') = Steps rd f rd' × SameBounds rd rd'
Reads rd (stopped e rd') = Unit {0}
Reads rd crash = Unit {0}
Reads rd (again rd') = rd' ≡ record rd { input = rd'.input }

-- What the check on a header says of the frame under it.
abbrev pub Admitted : Reader → Frame → Type 0
Admitted rd (continuation f) =
    (0 < rd.block_stream)
    × (f.stream_id ≡ rd.block_stream)
    × (length f.fragment ≤ rd.max_frame_size)
Admitted rd _ = rd.block_stream ≡ 0

within_limits :
    (rd : Reader)
    → check_block_limits rd ≡ none
    → (rd.block_size ≤ rd.max_header_block_size) × (rd.continuations ≤ rd.max_continuations)
unfolding check_block_limits
within_limits rd e = ground arith

abbrev after : Bool → Reader → Reader
after b rd = if b then record rd { block_stream = 0; block_size = 0; continuations = 0 } else rd

after-Open :
    (b : Bool) (rd : Reader)
    → if b
      then Open (after b rd) 0 0 0
      else Open (after b rd) rd.block_stream rd.block_size rd.continuations
after-Open true rd = (refl, refl, refl)
after-Open false rd = (refl, refl, refl)

after-SameBounds : (b : Bool) (rd : Reader) → SameBounds rd (after b rd)
after-SameBounds true rd = (refl, refl, refl)
after-SameBounds false rd = (refl, refl, refl)

finish_frame-Reads :
    (rd u : Reader) (f : Frame) (end_headers : Bool)
    → SameBounds rd u
    → ((u.block_size ≤ u.max_header_block_size)
        → (u.continuations ≤ u.max_continuations)
        → Steps rd f (after end_headers u))
    → Reads rd (tracked f (finish_frame u end_headers))
unfolding finish_frame
finish_frame-Reads rd u f end_headers same k = go (check_block_limits u) refl
  where
    bounds : SameBounds rd (after end_headers u)
    bounds = let (a, b, c) = after-SameBounds end_headers u in (a ∙ same.0, b ∙ same.1, c ∙ same.2)

    go :
        (o : Option Error)
        → check_block_limits u ≡ o
        → Reads rd (tracked f (after end_headers u, o))
    go none e = let (size, frames) = within_limits u e in (k size frames, bounds)
    go (some x) e = tt

pub tracked-Reads :
    (rd : Reader) (f : Frame) → Admitted rd f → Reads rd (tracked f (track_block rd f))
unfolding track_block begin_block extend_block
tracked-Reads rd (headers f) v =
    let u = record rd {
      block_stream = f.stream_id;
      block_size = length f.fragment;
      continuations = 0;
    } in
    finish_frame-Reads rd u (headers f) f.end_headers (refl, refl, refl)
      (λ size frames. (v, (after-Open f.end_headers u, size, frames)))
tracked-Reads rd (push_promise f) v =
    let u = record rd {
      block_stream = f.stream_id;
      block_size = length f.fragment;
      continuations = 0;
    } in
    finish_frame-Reads rd u (push_promise f) f.end_headers (refl, refl, refl)
      (λ size frames. (v, (after-Open f.end_headers u, size, frames)))
tracked-Reads rd (continuation f) v =
    let u = record rd {
      block_size = (rd.block_size + length f.fragment) % 2 ^ 64;
      continuations = suc rd.continuations;
    } in
    finish_frame-Reads rd u (continuation f) f.end_headers (refl, refl, refl)
      (λ size frames. (v.0, v.1, v.2, (after-Open f.end_headers u, size, frames)))
tracked-Reads rd _ v = ((v, (refl, refl, refl)), (refl, refl, refl))

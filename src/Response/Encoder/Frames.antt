-- ===== src/Response/Encoder/Frames.antt =====
-- The frames that internal/response hands to the connection, whatever becomes of them.
use zerodeps_hackk.Base.{
  ℕ, zero, suc, ◌<◌, ◌≡◌, refl, Bool, ◌==◌, ltb, if◌then◌else◌, List, [], ◌∷◌, Option, none, some,
  elim-Option, length, take, drop, min, All, arith,
}
use zerodeps_hackk.H2.{Error, Field}
use zerodeps_hackk.Frame.Types.{Frame}
use zerodeps_hackk.Stream.State.{Writer}
use zerodeps_hackk.Response.Encoder.{
  EncodingCodec, Transport, SectionEncoder, list_size, check_list_size, split_at, headers_of,
  continuation_of, continue_section, write_block, write_section, err_header_list_too_large,
}

-- A CONTINUATION frame of a stream.
abbrev pub IsContinuation : ℕ → Frame → Type 0
IsContinuation id f =
    (end_headers : Bool) × (fragment : List ℕ) × (f ≡ continuation_of id end_headers fragment)

module _ {W : Type 0} ⦃writer : Writer W⦄ where
  -- The transport behind frames that are offered to it in order, taken or refused.
  abbrev pub offered : W → List Frame → W
  offered w [] = w
  offered w (f ∷ fs) = offered (writer.enqueue w f).0 fs

  pub record Continues (w : W) (id : ℕ) (w2 : W) : Type 0 where
    pub frames : List Frame
    pub all_continuations : All (IsContinuation id) frames
    pub result : w2 ≡ offered w frames

  continue_section-Continues :
      (fuel : ℕ) (w : W) (id max : ℕ) (s : List ℕ)
      → Continues w id (continue_section fuel w id max s).0
  unfolding continue_section
  continue_section-Continues fuel w id max [] = record {
    frames = [];
    all_continuations = tt;
    result = refl;
  }
  continue_section-Continues zero w id max (b ∷ s) = record {
    frames = [];
    all_continuations = tt;
    result = refl;
  }
  continue_section-Continues (suc fuel) w id max (b ∷ s) =
      elim-Option (λ (r : W × Option Error). Continues w id r.0) (writer.enqueue w f).1
        (λ err. ((writer.enqueue w f).0, some err))
        (continue_section fuel (writer.enqueue w f).0 id max (drop n (b ∷ s)))
        (λ err h. record { frames = f ∷ []; all_continuations = (named, tt); result = refl })
        (λ h.
          further (continue_section-Continues fuel (writer.enqueue w f).0 id max (drop n (b ∷ s))))
    where
      n : ℕ
      n = min (length (b ∷ s)) max

      f : Frame
      f = continuation_of id (n == length (b ∷ s)) (take n (b ∷ s))

      named : IsContinuation id f
      named = (n == length (b ∷ s), take n (b ∷ s), refl)

      further : {w2 : W} → Continues (writer.enqueue w f).0 id w2 → Continues w id w2
      further c = record {
        frames = f ∷ c.frames;
        all_continuations = (named, c.all_continuations);
        result = c.result;
      }

  -- A HEADERS frame with the flag END_STREAM or without it, and CONTINUATION frames.
  pub record BlockOffered (w : W) (id : ℕ) (end_stream : Bool) (w2 : W) : Type 0 where
    pub end_headers : Bool
    pub fragment : List ℕ
    pub continues :
        Continues (writer.enqueue w (headers_of id end_stream end_headers fragment)).0 id w2

  write_block-BlockOffered :
      (w : W) (id max : ℕ) (block : List ℕ) (end_stream : Bool)
      → BlockOffered w id end_stream (write_block w id max block end_stream).0
  unfolding write_block
  write_block-BlockOffered w id max block end_stream =
      elim-Option (λ (r : W × Option Error). BlockOffered w id end_stream r.0)
        (writer.enqueue w f).1 (λ err. ((writer.enqueue w f).0, some err))
        (continue_section (length block) (writer.enqueue w f).0 id max (drop n block))
        (λ err h. opened (record { frames = []; all_continuations = tt; result = refl }))
        (λ h.
          opened (
            continue_section-Continues (length block) (writer.enqueue w f).0 id max (drop n block)))
    where
      n : ℕ
      n = min (length block) max

      f : Frame
      f = headers_of id end_stream (n == length block) (take n block)

      opened : {w2 : W} → Continues (writer.enqueue w f).0 id w2 → BlockOffered w id end_stream w2
      opened c = record { end_headers = n == length block; fragment = take n block; continues = c }

module _ {C W : Type 0} ⦃writer : Writer W⦄ where
  -- What becomes of a section: it is above the peer's limit, or its block is offered.
  pub data SectionOffered (e : SectionEncoder C W) (id : ℕ) (fields : List Field)
      (end_stream : Bool) : W → Type 0 where
    too_large :
        (n : ℕ)
        → e.max_list ≡ some n
        → n < list_size fields
        → SectionOffered e id fields end_stream e.t
    framed : (w2 : W) → BlockOffered e.t id end_stream w2 → SectionOffered e id fields end_stream w2

module _ {C W : Type 0} where
  limit_passed :
      (e : SectionEncoder C W) (fields : List Field) (err : Error)
      → check_list_size e fields ≡ some err
      → (n : ℕ) × (e.max_list ≡ some n) × (n < list_size fields)
  unfolding check_list_size
  limit_passed e fields err =
      elim-Option (λ o. o ≡ some err → (n : ℕ) × (e.max_list ≡ some n) × (n < list_size fields))
        e.max_list (λ n. if ltb n (list_size fields) then some err_header_list_too_large else none)
        none (λ n set h. (n, set, ground (arith, h))) (λ unset h. absurd (cc))

module _ {C W : Type 0} ⦃codec : EncodingCodec C⦄ ⦃transport : Transport W⦄
    ⦃writer : Writer W⦄ where
  pub write_section-SectionOffered :
      (e : SectionEncoder C W) (id : ℕ) (fields : List Field) (end_stream : Bool)
      → SectionOffered e id fields end_stream (write_section e id fields end_stream).0.t
  unfolding write_section
  write_section-SectionOffered e id fields end_stream =
      elim-Option
        (λ (r : SectionEncoder C W × Option Error). SectionOffered e id fields end_stream r.0.t)
        (check_list_size e fields) (λ err. (e, some err))
        (
          record e {
            codec = (codec.encode e.codec fields).1;
            t = (write_block e.t id (split_at e.t) (codec.encode e.codec fields).0 end_stream).0;
          },
          (write_block e.t id (split_at e.t) (codec.encode e.codec fields).0 end_stream).1,
        )
        (λ err h. let (n, set, over) = limit_passed e fields err h in too_large n set over)
        (λ h. framed _ (
          write_block-BlockOffered e.t id (split_at e.t) (codec.encode e.codec fields).0
            end_stream))

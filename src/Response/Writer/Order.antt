-- ===== src/Response/Writer/Order.antt =====
-- In what order a handler's calls of internal/response/writer.go send a response.
use zerodeps_hackk.Base.{All, ℕ, ◌≡◌, ◌⊎◌, Bool, true, false, List, [], ◌∷◌}
use zerodeps_hackk.H2.{Field}
use zerodeps_hackk.Frame.Types.{Frame}
use zerodeps_hackk.Stream.State.{Writer}
use zerodeps_hackk.Response.Encoder.Frames.{SectionOffered, offered}
use zerodeps_hackk.Response.Fields.{section_header, section_trailer}
use zerodeps_hackk.Response.Fields.Shape.{Shape}
use zerodeps_hackk.Response.Encoder.{EncodingCodec, Transport}
use zerodeps_hackk.Response.Writer.{
  Credit, ResponseWriter, informational, close, write_header, trailers, write, data_of,
}

-- The methods of a Writer, with what a handler gives them.
pub data Call : Type 0 where
  call_header : List Field → Bool → Call
  call_write : List ℕ → Call
  call_close : Call
  call_trailers : List Field → Call

-- How far a response is: only interim ones, in its body, or ended.
pub data Phase : Type 0 where
  waiting : Phase
  opened : Phase
  ended : Phase

abbrev pub phase_of : (wrote_header closed : Bool) → Phase
phase_of wrote_header true = ended
phase_of true false = opened
phase_of false false = waiting

module _ {C W R : Type 0} where
  abbrev pub phase : ResponseWriter C W R → Phase
  phase w = phase_of w.wrote_header w.closed

-- A DATA frame of a stream that does not end it.
abbrev pub IsContent : ℕ → Frame → Type 0
IsContent id f = (octets : List ℕ) × (f ≡ data_of id false octets)

module _ {W : Type 0} ⦃writer : Writer W⦄ where
  -- DATA frames that do not end the stream are offered.
  pub record ContentOffered (t : W) (id : ℕ) (t2 : W) : Type 0 where
    pub frames : List Frame
    pub all_content : All (IsContent id) frames
    pub result : t2 ≡ offered t frames

module _ {C W R : Type 0} ⦃writer : Writer W⦄ where
  -- The order of section 8.1 of RFC 9113, with the frames that each step offers to the connection: from a
  -- phase, by a call, to a phase and a transport. Only the frame that takes the response to its end
  -- carries END_STREAM.
  pub data Step (w : ResponseWriter C W R) : Phase → Call → Phase → W → Type 0 where
    interim :
        (fields : List Field) (t : W)
        → Shape section_header fields
        → informational fields ≡ true
        → SectionOffered w.enc w.id fields false t
        → Step w waiting (call_header fields false) waiting t
    final :
        (fields : List Field) (t : W)
        → Shape section_header fields
        → informational fields ≡ false
        → SectionOffered w.enc w.id fields false t
        → Step w waiting (call_header fields false) opened t
    whole :
        (fields : List Field) (t : W)
        → Shape section_header fields
        → informational fields ≡ false
        → SectionOffered w.enc w.id fields true t
        → Step w waiting (call_header fields true) ended t
    content :
        (p : List ℕ) (t : W) → ContentOffered w.enc.t w.id t → Step w opened (call_write p) opened t
    finish : Step w opened call_close ended (offered w.enc.t (data_of w.id true [] ∷ []))
    trailing :
        (fields : List Field) (t : W)
        → Shape section_trailer fields
        → SectionOffered w.enc w.id fields true t
        → Step w opened (call_trailers fields) ended t

module _ {C W R : Type 0} ⦃codec : EncodingCodec C⦄ ⦃transport : Transport W⦄ ⦃writer : Writer W⦄
    ⦃credits : Credit R⦄ where
  unfoldable pub call : ResponseWriter C W R → Call → ResponseWriter C W R
  call w (call_header fields end_stream) = (write_header w fields end_stream).0
  call w (call_write p) = (write w p).0
  call w call_close = (close w).0
  call w (call_trailers fields) = (trailers w fields).0

  -- A call leaves the response as it was, or makes a step of it.
  abbrev pub Moves : ResponseWriter C W R → Call → ResponseWriter C W R → Type 0
  Moves w c w' = (w' ≡ w) ⊎ Step w (phase w) c (phase w') w'.enc.t

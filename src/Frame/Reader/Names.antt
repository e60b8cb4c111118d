-- ===== src/Frame/Reader/Names.antt =====
-- The type and the stream of a frame that internal/frame parses, beside those of its header.
use zerodeps_hackk.Base.{
  ℕ, ◌/◌, ◌%◌, ◌≡◌, refl, Bool, true, false, ◌==◌, ltb, ◌&&◌, not, if◌then◌else◌, List, Option,
  none, some, length, arith, inl, inr, Bool-cases,
}
use zerodeps_hackk.Frame.Types.{Frame}
use zerodeps_hackk.Frame.Wire.{Parsed, parsed, refused, crashed, ◌>>◌, ◌>?◌, mask_stream_id, uint32}
use zerodeps_hackk.Frame.Header.{
  Header, has, flag_ack, flag_priority, type_data, type_headers, type_priority, type_rst_stream,
  type_settings, type_push_promise, type_ping, type_go_away, type_window_update, type_continuation,
  type_priority_update,
}
use zerodeps_hackk.Frame.Padding.{split_padding}
use zerodeps_hackk.Frame.Payload.{type_of, stream_of}
use zerodeps_hackk.Frame.Parse.{
  parse_data, parse_headers, parse_priority, parse_rst_stream, parse_settings, parse_push_promise,
  parse_ping, parse_go_away, parse_window_update, parse_continuation, parse_priority_update,
  parse_each, parse_priority_block, parsers,
}

-- What is parsed, if anything is, has the property.
abbrev pub May {ℓ} : {A : Type ℓ} → (A → Type 0) → Parsed A → Type 0
May P (parsed a) = P a
May P (refused e) = Unit {0}
May P crashed = Unit {0}

May-bind {ℓ κ} :
    {A : Type ℓ} {B : Type κ} (P : B → Type 0) (m : Parsed A) (f : A → Parsed B)
    → ((a : A) → May P (f a))
    → May P (m >> f)
May-bind P (parsed a) f k = k a
May-bind P (refused e) f k = tt
May-bind P crashed f k = tt

May-index {ℓ κ} :
    {A : Type ℓ} {B : Type κ} (P : B → Type 0) (o : Option A) (f : A → Parsed B)
    → ((a : A) → May P (f a))
    → May P (o >? f)
May-index P none f k = tt
May-index P (some a) f k = k a

May-if {ℓ} :
    {A : Type ℓ} (P : A → Type 0) (b : Bool) (p q : Parsed A)
    → May P p
    → May P q
    → May P (if b then p else q)
May-if P true p q here later = here
May-if P false p q here later = later

module _ (h : Header) where
  abbrev pub Names : ℕ → Frame → Type 0
  Names t f = (type_of f ≡ t) × (stream_of f ≡ h.stream_id)

  data-Names : (b : List ℕ) → May (Names type_data) (parse_data h b)
  unfolding parse_data type_of stream_of
  data-Names b =
      May-if (Names type_data) (h.stream_id == 0) _ _ tt
        (May-bind (Names type_data) (split_padding h b) _ (λ p. (refl, refl)))

  headers-Names : (b : List ℕ) → May (Names type_headers) (parse_headers h b)
  unfolding parse_headers type_of stream_of
  headers-Names b = May-if (Names type_headers) (h.stream_id == 0) _ _ tt (
      May-bind (Names type_headers) (split_padding h b) _ (λ p.
        May-if (Names type_headers) (has h.flags flag_priority) _ _
          (May-if (Names type_headers) (ltb (length p.0) 5) _ _ tt
            (May-index (Names type_headers) (parse_priority_block p.0) _ (λ q. (refl, refl))))
          (refl, refl)))

  priority-Names : (b : List ℕ) → May (Names type_priority) (parse_priority h b)
  unfolding parse_priority type_of stream_of
  priority-Names b = ground arith

  rst_stream-Names : (b : List ℕ) → May (Names type_rst_stream) (parse_rst_stream h b)
  unfolding parse_rst_stream type_of stream_of
  rst_stream-Names b = ground arith

  settings-Names : (b : List ℕ) → May (Names type_settings) (parse_settings h b)
  unfolding parse_settings type_of stream_of
  settings-Names b = elim (Bool-cases (h.stream_id == 0)) [
    | inr stream ↦ rw stream tt
    | inl conn ↦ rw conn (
        May-if (Names type_settings) (has h.flags flag_ack && not (h.len == 0)) _ _ tt (
          May-if (Names type_settings) (not (h.len % 6 == 0)) _ _ tt (
            May-bind (Names type_settings) (parse_each (h.len / 6) b) _
              (λ ss. (refl, ground arith)))))
  ]

  push_promise-Names : (b : List ℕ) → May (Names type_push_promise) (parse_push_promise h b)
  unfolding parse_push_promise type_of stream_of
  push_promise-Names b = May-if (Names type_push_promise) (h.stream_id == 0) _ _ tt (
      May-bind (Names type_push_promise) (split_padding h b) _ (λ p.
        May-if (Names type_push_promise) (ltb (length p.0) 4) _ _ tt (
          May-index (Names type_push_promise) (uint32 p.0) _
            (λ q. May-if (Names type_push_promise) (mask_stream_id q == 0) _ _ tt (refl, refl)))))

  ping-Names : (b : List ℕ) → May (Names type_ping) (parse_ping h b)
  unfolding parse_ping type_of stream_of
  ping-Names b = ground arith

  go_away-Names : (b : List ℕ) → May (Names type_go_away) (parse_go_away h b)
  unfolding parse_go_away type_of stream_of
  go_away-Names b = ground arith

  window_update-Names : (b : List ℕ) → May (Names type_window_update) (parse_window_update h b)
  unfolding parse_window_update type_of stream_of
  window_update-Names b = ground arith

  continuation-Names : (b : List ℕ) → May (Names type_continuation) (parse_continuation h b)
  unfolding parse_continuation type_of stream_of
  continuation-Names b = ground arith

  priority_update-Names :
      (b : List ℕ) → May (Names type_priority_update) (parse_priority_update h b)
  unfolding parse_priority_update type_of stream_of
  priority_update-Names b = ground arith

  -- The parser that the table holds for a type.
  abbrev Apt : (List ℕ) → ℕ → Option (Header → List ℕ → Parsed Frame) → Type 0
  Apt b t none = Unit {0}
  Apt b t (some parse) = May (Names t) (parse h b)

  or_named :
      (b : List ℕ) (t k : ℕ) (p : Header → List ℕ → Parsed Frame)
      (rest : Option (Header → List ℕ → Parsed Frame))
      → May (Names k) (p h b)
      → Apt b t rest
      → Apt b t (if t == k then some p else rest)
  or_named b t k p rest here later = elim (Bool-cases (t == k)) [
    | inl same ↦ rw same (rw (eq same) here)
    | inr other ↦ rw other later
  ]
    where
      eq : (t == k) ≡ true → t ≡ k
      eq e = ground arith

  parsers-Apt : (b : List ℕ) (t : ℕ) → Apt b t (parsers t)
  unfolding parsers
  parsers-Apt b t = or_named b t type_data _ _ (data-Names b) (
      or_named b t type_headers _ _ (headers-Names b) (
        or_named b t type_priority _ _ (priority-Names b) (
          or_named b t type_rst_stream _ _ (rst_stream-Names b) (
            or_named b t type_settings _ _ (settings-Names b) (
              or_named b t type_push_promise _ _ (push_promise-Names b) (
                or_named b t type_ping _ _ (ping-Names b) (
                  or_named b t type_go_away _ _ (go_away-Names b) (
                    or_named b t type_window_update _ _ (window_update-Names b) (
                      or_named b t type_continuation _ _ (continuation-Names b) (
                        or_named b t type_priority_update _ _ (priority_update-Names b)
                          (tt)))))))))))

  pub parsers-Names :
      (b : List ℕ) (parse : Header → List ℕ → Parsed Frame)
      → parsers h.kind ≡ some parse
      → May (Names h.kind) (parse h b)
  parsers-Names b parse e = rw e at (parsers-Apt b h.kind)

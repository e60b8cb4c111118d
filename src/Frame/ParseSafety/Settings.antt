-- ===== src/Frame/ParseSafety/Settings.antt =====
-- What the parser of SETTINGS frames, and the table of parsers, answer to any octets.
use zerodeps_hackk.Base.{
  ℕ, zero, suc, ◌+◌, ◌*◌, ◌/◌, ◌%◌, ◌^◌, ◌<◌, ◌≤◌, ◌≡◌, inl, inr, Bool-cases, refl, ap, ◌∙◌, Bool,
  true, false, ◌==◌, ◌&&◌, not, if◌then◌else◌, List, [], ◌∷◌, Option, none, some, length, All,
  arith,
}
use zerodeps_hackk.H2.{Error}
use zerodeps_hackk.Frame.Types.{Frame, Setting}
use zerodeps_hackk.Frame.Wire.{Parsed, parsed, refused, ◌>>◌}
use zerodeps_hackk.Frame.Header.{
  Header, has, flag_ack, type_data, type_headers, type_priority, type_rst_stream, type_settings,
  type_push_promise, type_ping, type_go_away, type_window_update, type_continuation,
  type_priority_update,
}
use zerodeps_hackk.Frame.Parse.{parse_settings, parse_each, validate_setting, parsers}
use zerodeps_hackk.Frame.WellFormed.{WellFormed, SettingOk, validate_setting-LegalValue}
use zerodeps_hackk.Frame.ParseSafety.{
  IsOctets, Yields, Yields-bind, parse_data-Yields, parse_headers-Yields, parse_priority-Yields,
  parse_rst_stream-Yields, parse_push_promise-Yields, parse_ping-Yields, parse_go_away-Yields,
  parse_window_update-Yields, parse_continuation-Yields, parse_priority_update-Yields,
}

parse_each-Yields :
    (count : ℕ) (payload : List ℕ)
    → count * 6 ≤ length payload
    → IsOctets payload
    → Yields (λ ss. All SettingOk ss × (length ss ≡ count)) (parse_each count payload)
unfolding parse_each
parse_each-Yields zero b enough v = (tt, refl)
parse_each-Yields (suc n) (i ∷ j ∷ x ∷ y ∷ z ∷ w ∷ bs) enough v =
    settle (parse_each-Yields n bs (omega arith) v.1.1.1.1.1.1) (validate_setting s) refl
  where
    s : Setting
    s = record { id = i * 2 ^ 8 + j; value = x * 2 ^ 24 + y * 2 ^ 16 + z * 2 ^ 8 + w }

    settle :
        Yields (λ ss. All SettingOk ss × (length ss ≡ n)) (parse_each n bs)
        → (o : Option Error) → validate_setting s ≡ o
        → Yields
            (λ ss. All SettingOk ss × (length ss ≡ suc n))
            (elim o [ some e ↦ refused e | none ↦ parse_each n bs >> λ ss. parsed (s ∷ ss) ])
    settle later (some e) bad = tt
    settle later none good =
        Yields-bind (λ ss. All SettingOk ss × (length ss ≡ n)) _ (parse_each n bs) _ later
          (λ ss (ok, count). (
            (
              (
                omega (arith, v.0, v.1.0),
                omega (arith, v.1.1.0, v.1.1.1.0, v.1.1.1.1.0, v.1.1.1.1.1.0),
                validate_setting-LegalValue s good,
              ),
              ok,
            ),
            ap suc count,
          ))
parse_each-Yields (suc n) _ enough v = ground arith

length_zero : {A : Type 0} (xs : List A) → length xs ≡ 0 → xs ≡ []
length_zero [] e = refl
length_zero (x ∷ xs) e = absurd (omega (arith, e))

parse_settings-Yields :
    (h : Header) (payload : List ℕ)
    → length payload ≡ h.len
    → IsOctets payload
    → Yields WellFormed (parse_settings h payload)
unfolding parse_settings
parse_settings-Yields h payload len v = elim (Bool-cases (h.stream_id == 0)) [
  | inr stream ↦ rw stream tt
  | inl conn ↦ elim (Bool-cases (has h.flags flag_ack && not (h.len == 0))) [
    | inl full ↦ rw (conn, full) tt
    | inr apt ↦ elim (Bool-cases (h.len % 6 == 0)) [
      | inr ragged ↦ rw (conn, apt, ragged) tt
      | inl even ↦
          rw (conn, apt, even)
            (Yields-bind (λ ss. All SettingOk ss × (length ss ≡ h.len / 6)) WellFormed
              (parse_each (h.len / 6) payload) _
              (parse_each-Yields (h.len / 6) payload (omega arith) v)
              (λ ss (ok, count). (ok, λ ack. length_zero ss (count ∙ ground arith))))
    ]
  ]
]

module _ (h : Header) (payload : List ℕ) where
  abbrev Known : Option (Header → List ℕ → Parsed Frame) → Type 0
  Known none = Unit {0}
  Known (some p) = Yields WellFormed (p h payload)

  or_else :
      (b : Bool) (p : Header → List ℕ → Parsed Frame)
      (rest : Option (Header → List ℕ → Parsed Frame))
      → Yields WellFormed (p h payload)
      → Known rest
      → Known (if b then some p else rest)
  or_else true p rest here later = here
  or_else false p rest here later = later

  Known-parsers :
      length payload ≡ h.len → IsOctets payload → h.stream_id < 2 ^ 31 → Known (parsers h.kind)
  unfolding parsers
  Known-parsers len v id =
      or_else (h.kind == type_data) _ _ (parse_data-Yields h payload len v id) (
        or_else (h.kind == type_headers) _ _ (parse_headers-Yields h payload len v id) (
          or_else (h.kind == type_priority) _ _ (parse_priority-Yields h payload len v id) (
            or_else (h.kind == type_rst_stream) _ _ (parse_rst_stream-Yields h payload len v id) (
              or_else (h.kind == type_settings) _ _ (parse_settings-Yields h payload len v) (
                or_else (h.kind == type_push_promise) _ _
                  (parse_push_promise-Yields h payload len v id)
                  (or_else (h.kind == type_ping) _ _ (parse_ping-Yields h payload len) (
                    or_else (h.kind == type_go_away) _ _ (parse_go_away-Yields h payload len v) (
                      or_else (h.kind == type_window_update) _ _
                        (parse_window_update-Yields h payload len id)
                        (or_else (h.kind == type_continuation) _ _
                          (parse_continuation-Yields h payload len id)
                          (or_else (h.kind == type_priority_update) _ _
                            (parse_priority_update-Yields h payload len) (tt)))))))))))

-- No octets make a parser panic, whatever header they come under: the parser answers with an
-- error, or with a frame whose fields are in range and keep the rules of its type. The payload is
-- as long as the header says, which the reader sees to.
pub parsers-Yields :
    (h : Header) (payload : List ℕ)
    → length payload ≡ h.len
    → IsOctets payload
    → h.stream_id < 2 ^ 31
    → (parse : Header → List ℕ → Parsed Frame) → parsers h.kind ≡ some parse
    → Yields WellFormed (parse h payload)
parsers-Yields h payload len v id parse e = rw e at (Known-parsers h payload len v id)

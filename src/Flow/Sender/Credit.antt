-- ===== src/Flow/Sender/Credit.antt =====
-- Reserve of sender.go: what a writer is given, and what it waits for.
use zerodeps_hackk.Base.{
  ℕ, ◌+◌, ◌≤◌, ◌<◌, min, ltb, ◌≡◌, if◌then◌else◌, Option, none, some, arith, inl, inr, Option-cases,
}
use zerodeps_hackk.Base.Int.{pos, pos_part, ◌-ℤ◌}
use zerodeps_hackk.Base.Assoc.{lookup, insert}
use zerodeps_hackk.H2.{Error, stream_gone, done}
use zerodeps_hackk.Flow.Window.{Window, consume}
use zerodeps_hackk.Flow.Sender.{
  Sender, Reservation, granted, refused, parked, reserve, round, take_credit,
}

-- The most that one writer can be given: what it asks for, what the connection has and what the
-- stream has, where a window below 0 has nothing.
abbrev pub grantable : Sender → Window → ℕ → ℕ
grantable s w want = min want (min (pos_part s.conn.n) (pos_part w.n))

-- Both windows debited by what was granted.
abbrev pub debited : Sender → ℕ → Window → ℕ → Sender
debited s id w k = record s {
  conn = record s.conn { n = s.conn.n -ℤ pos k };
  stream = insert id (record w { n = w.n -ℤ pos k }) s.stream;
}

consume-debits :
    (w : Window) (k : ℕ)
    → 0 < k
    → k ≤ pos_part w.n
    → consume w k ≡ done (record w { n = w.n -ℤ pos k })
unfolding consume
consume-debits w k h b = ground arith

round_live :
    (s : Sender) (id want : ℕ) (w : Window)
    → 0 < want
    → s.err ≡ none
    → lookup id s.stream ≡ some w
    → round s id want ≡ (
        if ltb 0 (grantable s w want)
        then (debited s id w (grantable s w want), granted (grantable s w want))
        else (record s { waiting = s.waiting + 1 }, parked))
unfolding round take_credit
round_live s id want w h running live =
    ground
      (arith, consume-debits s.conn (grantable s w want), consume-debits w (grantable s w want))

-- What a round answers a writer on a stream that is open (`some w`) or not (`none`).
abbrev pub answered : Sender → ℕ → ℕ → Option Error → Option Window → Sender × Reservation
answered s id want (some e) w = (s, refused e)
answered s id want none none = (s, refused stream_gone)
answered s id want none (some w) =
    if ltb 0 (grantable s w want)
    then (debited s id w (grantable s w want), granted (grantable s w want))
    else (record s { waiting = s.waiting + 1 }, parked)

-- A request for at least one octet is refused with the closing reason on a closed sender, and as
-- gone on a stream that is not open. On an open stream the writer gets all that the request, the
-- connection and the stream allow, and both windows are debited by exactly that; only if that is
-- nothing is the writer parked, and then no window moves.
pub reserve-answered :
    (s : Sender) (id want : ℕ)
    → 0 < want
    → reserve s id want ≡ answered s id want s.err (lookup id s.stream)
unfolding reserve
reserve-answered s id want h = elim (Option-cases s.err) [
  | inr (e, closed) ↦ unfold round in ground arith
  | inl running ↦ elim (Option-cases (lookup id s.stream)) [
    | inl gone ↦ unfold round in ground arith
    | inr (w, live) ↦ ground (arith, round_live s id want w h running live)
  ]
]

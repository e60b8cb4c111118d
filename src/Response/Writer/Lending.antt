-- ===== src/Response/Writer/Lending.antt =====
-- The send half of flow control (internal/flow/sender.go) as the credit of a response.
use zerodeps_hackk.Base.{
  ℕ, ◌<◌, ◌≤◌, ◌≡◌, sym, subst, ltb, Bool-cases, inl, inr, Option, some, none, arith,
}
use zerodeps_hackk.Base.Assoc.{lookup}
use zerodeps_hackk.H2.{Error, stream_gone}
use zerodeps_hackk.Flow.Window.{Window}
use zerodeps_hackk.Flow.Sender.{Sender, Reservation, granted, refused, parked, crashed, reserve}
use zerodeps_hackk.Flow.Sender.Credit.{answered, reserve-answered, grantable}
use zerodeps_hackk.Response.Writer.{Credit}
use zerodeps_hackk.Response.Writer.Content.{IsGranting}

-- A writer that would wait is here one whose stream is reset before there is credit.
abbrev pub lending : Sender × Reservation → Sender × ℕ × Option Error
lending (s, granted n) = (s, n, none)
lending (s, refused e) = (s, 0, some e)
lending (s, parked) = (s, 0, some stream_gone)
lending (s, crashed) = (s, 0, some stream_gone)

instance abbrev pub sending : Credit Sender
sending = record { reserve = λ s id want. lending (reserve s id want) }

answered_grants :
    (s : Sender) (id want : ℕ) (o : Option Error) (w : Option Window)
    → (lending (answered s id want o w)).2 ≡ none
    → (0 < (lending (answered s id want o w)).1) × ((lending (answered s id want o w)).1 ≤ want)
answered_grants s id want (some e) w h = absurd (cc)
answered_grants s id want none none h = absurd (cc)
answered_grants s id want none (some w) h = elim (Bool-cases (ltb 0 (grantable s w want))) [
  | inl room ↦ ground (arith, room)
  | inr nothing ↦ ground (arith, nothing)
]

pub sending-IsGranting : IsGranting Sender
sending-IsGranting s id want positive h =
    subst (λ r. (lending r).2 ≡ none → (0 < (lending r).1) × ((lending r).1 ≤ want))
      (sym (reserve-answered s id want positive))
      (answered_grants s id want s.err (lookup id s.stream)) h

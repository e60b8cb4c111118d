-- ===== src/Tests/Exchanges.antt =====
-- internal/exchange at concrete inputs.
use zerodeps_hackk.Base.{ℕ, ◌+◌, ◌≡◌, refl, List, [], ◌∷◌, false}
use zerodeps_hackk.Base.Text.{codes}
use zerodeps_hackk.H2.{Field, external}
use zerodeps_hackk.Exchange.Body.{
  BodyCredit, at_end, lost, new_body, advance, take_chunk, take_from, add, end_with, fail, reported,
  read,
}
use zerodeps_hackk.Exchange.Body.Order.{
  Event, added, was_read, ended, failed, History, apply, apply_all, start,
}

-- The octets that have been reported.
instance abbrev counting : BodyCredit ℕ
counting = record { report_consumed = λ k id n more. k + n }

abbrev begun : History ℕ
begun = start 1 0

abbrev trailer : List Field
trailer = record { name = codes "x"; value = codes "y"; sensitive = false } ∷ []

abbrev upload : List Event
upload =
    was_read 9
    ∷ added (codes "hello")
    ∷ added (codes " you")
    ∷ was_read 3
    ∷ ended trailer
    ∷ was_read 8
    ∷ was_read 8
    ∷ []

uploaded :
    ((apply_all begun upload).got ≡ codes "hello you")
    × ((apply_all begun upload).body.credit ≡ 9)
    × ((read (apply_all begun upload).body 8).1 ≡ at_end)
    × ((read (apply_all begun (failed (external 9) ∷ failed (external 8) ∷ upload)).body 8).1
        ≡ lost (external 9))
unfolding apply_all apply read reported take_from take_chunk advance add end_with fail new_body
uploaded = (refl, refl, refl, refl)

-- The trailer section is there before the content has been read.
early_trailers :
    ((apply_all begun (added (codes "hello") ∷ ended trailer ∷ [])).body.trailers ≡ trailer)
    × ((apply_all begun (added (codes "hello") ∷ ended trailer ∷ [])).got ≡ [])
unfolding apply_all apply add end_with new_body
early_trailers = (refl, refl)

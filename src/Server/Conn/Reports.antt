-- ===== src/Server/Conn/Reports.antt =====
-- The reports of other goroutines to the table, between two frames.
use zerodeps_hackk.Base.{◌≡◌, refl, ◌∙◌, true, false, List, [], ◌∷◌, arith}
use zerodeps_hackk.H2.{HeaderCodec}
use zerodeps_hackk.Stream.State.{Requests, Encoder, Writer}
use zerodeps_hackk.Stream.Table.{Table, report_send_end}
use zerodeps_hackk.Stream.Table.Credit.{report_consumed, enqueue_window_update}
use zerodeps_hackk.Stream.Table.Invariant.{Inv}
use zerodeps_hackk.Stream.Table.History.{step, step-Inv, new_table-Inv}
use zerodeps_hackk.Stream.Table.History
use zerodeps_hackk.Server.Conn.Run.{
  Report, Turn, report, report_all, answer, received, read_under, round, rounds, read_start, start,
  run,
}
use zerodeps_hackk.Server.Conn.Run

module _ {C R E W : Type 0} ⦃codec : HeaderCodec C⦄ ⦃reqs : Requests R⦄ ⦃enc : Encoder E⦄
    ⦃writer : Writer W⦄ where
  -- Reports leave the table's invariant, and its header block.
  report-assembling : (x : Report) (t : Table C R E W) → (report x t).assembling ≡ t.assembling
  unfolding report report_send_end report_consumed enqueue_window_update
  report-assembling (Run.send_ended id) t = refl
  report-assembling (Run.consumed id n true) t = ground arith
  report-assembling (Run.consumed id n false) t = ground arith

  report-Inv : (x : Report) (t : Table C R E W) → Inv t → Inv (report x t)
  unfolding report step
  report-Inv (Run.send_ended id) t v = step-Inv t (History.send_ended id) v tt
  report-Inv (Run.consumed id n more) t v = step-Inv t (History.consumed id n more) v tt

  pub report_all-Inv : (xs : List Report) (t : Table C R E W) → Inv t → Inv (report_all xs t)
  unfolding report_all
  report_all-Inv [] t v = v
  report_all-Inv (x ∷ xs) t v = report_all-Inv xs (report x t) (report-Inv x t v)

  pub report_all-assembling :
      (xs : List Report) (t : Table C R E W) → (report_all xs t).assembling ≡ t.assembling
  unfolding report_all
  report_all-assembling [] t = refl
  report_all-assembling (x ∷ xs) t = report_all-assembling xs (report x t) ∙ report-assembling x t

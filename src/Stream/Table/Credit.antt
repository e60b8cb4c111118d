-- ===== src/Stream/Table/Credit.antt =====
-- The receive-window credit of table.go: what handlers report as read, the WINDOW_UPDATE frames
-- that advertise it, and the draining of what was advertised into the windows.
use zerodeps_hackk.Base.{
  ℕ, ◌+◌, ◌-◌, ◌%◌, ◌^◌, Bool, ◌==◌, ltb, ◌&&◌, not, if◌then◌else◌, [], ◌∷◌, none, some,
}
use zerodeps_hackk.Base.Assoc.{Assoc, lookup, insert}
use zerodeps_hackk.H2.{Outcome, done, ◌>>=◌, lift}
use zerodeps_hackk.Flow.Window.{increase, max_window_size}
use zerodeps_hackk.Frame.Types.{window_update}
use zerodeps_hackk.Limits.{replenish_threshold}
use zerodeps_hackk.Stream.State.{Writer}
use zerodeps_hackk.Stream.Table.{Table, RecvCredit, live, store}

-- The credit after `n` more octets are read, and what is now due to be advertised.
unfoldable pub earn : RecvCredit → ℕ → RecvCredit × ℕ
earn c n =
    let total = c.pending + n in
    if ltb total replenish_threshold
    then (record c { pending = total }, 0)
    else (let due = if ltb max_window_size total then max_window_size else total in
        (record { pending = total - due; granted = c.granted + due }, due))

abbrev pub no_credit : RecvCredit
no_credit = record { pending = 0; granted = 0 }

abbrev pub credit_of : ℕ → Assoc RecvCredit → RecvCredit
credit_of id m = elim (lookup id m) [ none ↦ no_credit | some c ↦ c ]

-- The streams with credit advertised, and how much.
unfoldable pub due_credit : Assoc RecvCredit → Assoc ℕ
due_credit [] = []
due_credit ((id, c) ∷ m) =
    let rest = due_credit m in if ltb 0 c.granted then (id, c.granted) ∷ rest else rest

module _ {C R E W : Type 0} ⦃writer : Writer W⦄ where
  -- The failure of an Enqueue is dropped.
  unfoldable pub enqueue_window_update : Table C R E W → ℕ → ℕ → Table C R E W
  enqueue_window_update t id k = if k == 0 then t else record t {
    w = (writer.enqueue t.w (window_update (record { stream_id = id; increment = k }))).0;
  }

  -- `n` octets of stream `id` were read; `more` is whether it may still receive content. (An `n`
  -- that is not positive does nothing, so it is a natural number here.)
  unfoldable pub report_consumed : Table C R E W → ℕ → ℕ → Bool → Table C R E W
  unfolding earn
  report_consumed t id n more =
      let conn = earn t.conn_credit n in
      let stream = earn (credit_of id t.stream_credit) n in
      let t' = record t { conn_credit = conn.0 } in
      if n == 0
      then t
      else if more
      then enqueue_window_update
          (enqueue_window_update (record t' { stream_credit = insert id stream.0 t.stream_credit })
            0 conn.1)
          id stream.1
      else enqueue_window_update t' 0 conn.1

module _ {C R E W : Type 0} where
  -- What is kept: an entry with nothing pending on a stream that is gone is dropped.
  unfoldable pub kept_credit : Table C R E W → Assoc RecvCredit → Assoc RecvCredit
  kept_credit t [] = []
  kept_credit t ((id, c) ∷ m) =
      let rest = kept_credit t m in
      if not (live t id) && c.pending == 0 then rest else (id, record c { granted = 0 }) ∷ rest

  unfoldable pub credit_streams : Assoc ℕ → Table C R E W → Outcome (Table C R E W)
  credit_streams [] t = done t
  credit_streams ((id, n) ∷ due) t = elim (lookup id t.streams) [
    | none ↦ credit_streams due t
    | some s ↦ lift (λ v. store t (record s { recv = v })) (increase s.recv (n % 2 ^ 32)) >>= λ t'.
        credit_streams due t'
  ]

  unfoldable pub credit_conn_recv : ℕ → Table C R E W → Outcome (Table C R E W)
  credit_conn_recv n t =
      if n == 0
      then done t
      else lift (λ v. record t { conn_recv = v }) (increase t.conn_recv (n % 2 ^ 32))

  unfoldable pub drain_credit : Table C R E W → Outcome (Table C R E W)
  unfolding due_credit kept_credit credit_streams credit_conn_recv
  drain_credit t =
      credit_conn_recv t.conn_credit.granted (record t {
        conn_credit = record { pending = t.conn_credit.pending; granted = 0 };
        stream_credit = kept_credit t t.stream_credit;
      })
      >>= λ t'. credit_streams (due_credit t.stream_credit) t'

-- ===== src/Stream/Table/Drains.antt =====
-- The two drains at the top of `HandleFrame` in table.go, and the table's invariant.
use zerodeps_hackk.Base.{
  ℕ, ◌%◌, ◌^◌, ◌≡◌, refl, ◌∙◌, Bool, true, false, ◌==◌, if◌then◌else◌, List, [], ◌∷◌, Option, none,
  some, arith, ◌&&◌, not, inl, inr, Bool-cases, Option-cases,
}
use zerodeps_hackk.Base.Assoc.{
  Assoc, lookup, insert, delete, lookup-insert, lookup-delete, length-insert_present, length-delete,
}
use zerodeps_hackk.H2.{Outcome, done, failed, panicked, lift, Ensures, Ensures-bind, Ensures-map}
use zerodeps_hackk.Flow.Window.{Window, increase}
use zerodeps_hackk.Flow.Window.Bounds.{IsBounded, increase-IsBounded}
use zerodeps_hackk.Flow.Sender.Streams.{increase-Answers}
use zerodeps_hackk.Stream.State.{Stream, closed, half_closed_local, is_half_closed_remote, Writer}
use zerodeps_hackk.Stream.Table.{
  Table, Block, RecvCredit, store, send_end, send_end_of, drain_each, drain_sent,
}
use zerodeps_hackk.Stream.Table.Credit.{credit_streams, credit_conn_recv, drain_credit, due_credit}
use zerodeps_hackk.Stream.Table.Invariant.{Inv, BlockOk, Held, found-Held, store-Core, close-Core}

-- A block keeps its promise when a stream changes and the peer's side of it does not end.
pub store-BlockOk :
    (m : Assoc Stream) (h limit : ℕ) (o : Option Block) (s u : Stream)
    → lookup s.id m ≡ some u
    → (is_half_closed_remote s.state && not (is_half_closed_remote u.state)) ≡ false
    → BlockOk m h limit o
    → BlockOk (insert s.id s m) h limit o
store-BlockOk m h limit none s u e q v = tt
store-BlockOk m h limit (some b) s u e q v =
    ground (arith, lookup-insert s.id b.id s m, length-insert_present s.id s u m e)

-- And when one goes whose peer was done.
close-BlockOk :
    (m : Assoc Stream) (h limit : ℕ) (o : Option Block) (s u : Stream)
    → lookup s.id m ≡ some u
    → is_half_closed_remote u.state ≡ true
    → BlockOk m h limit o
    → BlockOk (delete s.id (insert s.id s m)) h limit o
close-BlockOk m h limit none s u e q v = tt
close-BlockOk m h limit (some b) s u e q v = ground (
  arith,
  lookup-delete s.id b.id (insert s.id s m),
  lookup-insert s.id b.id s m,
  length-insert_present s.id s u m e,
  length-delete s.id (insert s.id s m),
)

module _ {C R E W : Type 0} where
  pub lookup-Held :
      (t : Table C R E W) (id : ℕ) (s : Stream)
      → Inv t
      → lookup id t.streams ≡ some s
      → (s.id ≡ id) × Held t.streams t.highest_remote s
  lookup-Held t id s v e =
      found-Held t.streams t.sender t.highest_remote t.conn_recv t.max_concurrent id s v.core e

module _ {C R E W : Type 0} ⦃writer : Writer W⦄ where
  send_end-Inv :
      (t : Table C R E W) (s : Stream)
      → Inv t
      → Held t.streams t.highest_remote s
      → Inv (send_end t s)
  unfolding send_end
  send_end-Inv t s v k = elim (Bool-cases (is_half_closed_remote s.state)) [
    | inl over ↦
        rw (over, send_end)
          (record {
            core =
                close-Core t.streams t.sender t.highest_remote t.conn_recv t.max_concurrent
                  (record s { state = closed }) s v.core k.held;
            block =
                close-BlockOk t.streams t.highest_remote t.max_concurrent t.assembling
                  (record s { state = closed }) s k.held over v.block;
          })
    | inr still ↦
        rw (still, send_end)
          (record {
            core =
                store-Core t.streams t.sender t.highest_remote t.conn_recv t.max_concurrent
                  (record s { state = half_closed_local }) s v.core k.held tt k.recv_bounded;
            block =
                store-BlockOk t.streams t.highest_remote t.max_concurrent t.assembling
                  (record s { state = half_closed_local }) s k.held refl v.block;
          })
  ]

  pub send_end_of-Inv : (t : Table C R E W) (id : ℕ) → Inv t → Inv (send_end_of t id)
  send_end_of-Inv t id v = elim (Option-cases (lookup id t.streams)) [
    | inl gone ↦ rw (gone, send_end_of) v
    | inr (s, e) ↦ rw (e, send_end_of) (send_end-Inv t s v (lookup-Held t id s v e).1)
  ]

  drain_each-Inv : (ids : List ℕ) (t : Table C R E W) → Inv t → Inv (drain_each ids t)
  unfolding drain_each
  drain_each-Inv [] t v = v
  drain_each-Inv (id ∷ ids) t v = drain_each-Inv ids (send_end_of t id) (send_end_of-Inv t id v)

  pub drain_sent-Inv : (t : Table C R E W) → Inv t → Inv (drain_sent t)
  unfolding drain_sent
  drain_sent-Inv t v =
      drain_each-Inv t.sent (record t { sent = [] }) (record { core = v.core; block = v.block })

module _ {C R E W : Type 0} where
  -- A receive window put back in range.
  pub recv-Inv :
      (t : Table C R E W) (s : Stream) (o : Outcome Window)
      → Inv t
      → Held t.streams t.highest_remote s
      → Ensures IsBounded o
      → Ensures Inv (lift (λ v. store t (record s { recv = v })) o)
  recv-Inv t s o v k b =
      elim o
          as (λ o.
            Ensures IsBounded o → Ensures Inv (lift (λ v. store t (record s { recv = v })) o)) [
              | done w ↦ λ b. put w b
              | failed e w ↦ λ b. put w b
              | panicked ↦ λ b. b
            ]
        b
    where
      put : (w : Window) → IsBounded w → Inv (store t (record s { recv = w }))
      put w b = record {
        core =
            store-Core t.streams t.sender t.highest_remote t.conn_recv t.max_concurrent
              (record s { recv = w }) s v.core k.held k.is_live b;
        block =
            store-BlockOk t.streams t.highest_remote t.max_concurrent t.assembling
              (record s { recv = w }) s k.held (ground arith) v.block;
      }

  credit_streams-Inv :
      (due : Assoc ℕ) (t : Table C R E W) → Inv t → Ensures Inv (credit_streams due t)
  unfolding credit_streams
  credit_streams-Inv [] t v = v
  credit_streams-Inv ((id, n) ∷ due) t v = elim (Option-cases (lookup id t.streams)) [
    | inl gone ↦ rw (gone, credit_streams) (credit_streams-Inv due t v)
    | inr (s, e) ↦
        let (_, k) = lookup-Held t id s v e in
        rw (e, credit_streams)
          (Ensures-bind Inv _ (credit_streams due)
            (recv-Inv t s (increase s.recv (n % 2 ^ 32)) v k
              (increase-IsBounded s.recv (n % 2 ^ 32) k.recv_bounded))
            (credit_streams-Inv due))
  ]

  conn_put :
      (t : Table C R E W) (w : Window) → Inv t → IsBounded w → Inv (record t { conn_recv = w })
  conn_put t w v b = record {
    core = record {
      entries = v.core.entries;
      sender_valid = v.core.sender_valid;
      conn_bounded = b;
      within = v.core.within;
    };
    block = v.block;
  }

  -- The connection's receive window put back in range.
  pub conn-Inv :
      (t : Table C R E W) (o : Outcome Window)
      → Inv t
      → Ensures IsBounded o
      → Ensures Inv (lift (λ v. record t { conn_recv = v }) o)
  conn-Inv t (done w) v b = conn_put t w v b
  conn-Inv t (failed e w) v b = conn_put t w v b
  conn-Inv t panicked v b = b

  credit_conn_recv-Inv : (n : ℕ) (t : Table C R E W) → Inv t → Ensures Inv (credit_conn_recv n t)
  unfolding credit_conn_recv
  credit_conn_recv-Inv n t v = elim (Bool-cases (n == 0)) [
    | inl z ↦ rw z v
    | inr p ↦ rw p (
        conn-Inv t (increase t.conn_recv (n % 2 ^ 32)) v
          (increase-IsBounded t.conn_recv (n % 2 ^ 32) v.core.conn_bounded))
  ]

  pub drain_credit-Inv : (t : Table C R E W) → Inv t → Ensures Inv (drain_credit t)
  unfolding drain_credit
  drain_credit-Inv t v =
      Ensures-bind Inv _ (credit_streams (due_credit t.stream_credit))
        (credit_conn_recv-Inv t.conn_credit.granted _ (record { core = v.core; block = v.block }))
        (credit_streams-Inv (due_credit t.stream_credit))

module _ {C R E W : Type 0} ⦃writer : Writer W⦄ where
  drain_each-assembling :
      (ids : List ℕ) (t : Table C R E W) → (drain_each ids t).assembling ≡ t.assembling
  unfolding drain_each
  drain_each-assembling [] t = refl
  drain_each-assembling (id ∷ ids) t =
      drain_each-assembling ids (send_end_of t id) ∙ unfold send_end in ground arith

  drain_sent-assembling : (t : Table C R E W) → (drain_sent t).assembling ≡ t.assembling
  unfolding drain_sent
  drain_sent-assembling t = drain_each-assembling t.sent (record t { sent = [] })

module _ {C R E W : Type 0} (P : Table C R E W → Type 0) where
  -- What survives a change of a held stream's receive window survives the crediting of streams.
  credit_streams-keeps :
      ((t : Table C R E W) (id : ℕ) (s : Stream) (w : Window)
        → lookup id t.streams ≡ some s
        → P t
        → P (store t (record s { recv = w })))
      → (due : Assoc ℕ) (t : Table C R E W) → P t
      → Ensures P (credit_streams due t)
  unfolding credit_streams
  credit_streams-keeps recv [] t p = p
  credit_streams-keeps recv ((id, n) ∷ due) t p = elim (Option-cases (lookup id t.streams)) [
    | inl gone ↦ rw (gone, credit_streams) (credit_streams-keeps recv due t p)
    | inr (s, e) ↦
        rw (e, credit_streams)
          (Ensures-bind P _ (credit_streams due)
            (Ensures-map (λ w. Unit {0}) P _ (increase s.recv (n % 2 ^ 32))
              (λ w _. recv t id s w e p) (increase-Answers s.recv (n % 2 ^ 32)))
            (credit_streams-keeps recv due))
  ]

  pub drain_credit-keeps :
      ((t : Table C R E W) (id : ℕ) (s : Stream) (w : Window)
        → lookup id t.streams ≡ some s
        → P t
        → P (store t (record s { recv = w })))
      → ((t : Table C R E W) (w : Window) → P t → P (record t { conn_recv = w }))
      → ((t : Table C R E W) (c : RecvCredit) (m : Assoc RecvCredit)
          → P t
          → P (record t { conn_credit = c; stream_credit = m }))
      → (t : Table C R E W) → P t
      → Ensures P (drain_credit t)
  unfolding drain_credit credit_conn_recv
  drain_credit-keeps recv conn credit t p =
      Ensures-bind P _ (credit_streams (due_credit t.stream_credit))
        (grant (t.conn_credit.granted == 0) _ (credit t _ _ p))
        (credit_streams-keeps recv (due_credit t.stream_credit))
    where
      n : ℕ
      n = t.conn_credit.granted % 2 ^ 32

      grant :
          (b : Bool) (u : Table C R E W)
          → P u
          → Ensures P (
              if b then done u else lift (λ v. record u { conn_recv = v }) (increase u.conn_recv n))
      grant true u q = q
      grant false u q =
          Ensures-map (λ w. Unit {0}) P _ (increase u.conn_recv n) (λ w _. conn u w q)
            (increase-Answers u.conn_recv n)

module _ {C R E W : Type 0} ⦃writer : Writer W⦄ where
  -- Neither drain touches the header block.
  pub drains-assembling :
      (t : Table C R E W) → Ensures (λ u. u.assembling ≡ t.assembling) (drain_credit (drain_sent t))
  drains-assembling t =
      drain_credit-keeps (λ u. u.assembling ≡ t.assembling) (λ u id s w _ e. e) (λ u w e. e)
        (λ u c m e. e) (drain_sent t) (drain_sent-assembling t)

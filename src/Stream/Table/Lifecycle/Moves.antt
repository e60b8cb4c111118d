-- ===== src/Stream/Table/Lifecycle/Moves.antt =====
-- The changes of a held stream in table.go, and the two drains, against the state diagram.
use zerodeps_hackk.Base.{
  ℕ, ◌≡◌, refl, ap, ◌∙◌, true, false, List, [], ◌∷◌, Option, none, some, arith, ◌⊎◌, inl, inr,
  Bool-cases, Option-cases,
}
use zerodeps_hackk.Base.Assoc.{lookup, lookup-insert}
use zerodeps_hackk.H2.{Error, Ensures, Ensures-weaken}
use zerodeps_hackk.Flow.Window.{Window}
use zerodeps_hackk.Stream.State.{
  Stream, State, idle, open_both, half_closed_remote, half_closed_local, closed, is_closed,
  is_half_closed_remote, recv_end_state, Writer,
}
use zerodeps_hackk.Stream.Table.{
  Table, store, retire, send_end, send_end_of, drain_each, drain_sent,
}
use zerodeps_hackk.Stream.Table.Credit.{drain_credit}
use zerodeps_hackk.Stream.Table.Blocks.{deliver}
use zerodeps_hackk.Stream.Table.Invariant.{Inv, IsLive, Held}
use zerodeps_hackk.Stream.Table.Drains.{lookup-Held, send_end_of-Inv, drain_credit-keeps}
use zerodeps_hackk.Stream.Table.Lifecycle.{
  Side, the_peer, this_side, may_become, may_become_refl, may_become_trans, phase, store_moves,
  close_moves,
}

-- Ends of a side, for a live stream whose side had not ended.
pub recv_end_moves :
    (a : State)
    → IsLive a
    → is_half_closed_remote a ≡ false
    → may_become the_peer a (recv_end_state a) ≡ true
recv_end_moves idle l h = absurd l
recv_end_moves open_both l h = refl
recv_end_moves half_closed_remote l h = cc
recv_end_moves half_closed_local l h = refl
recv_end_moves closed l h = absurd l

pub close_state_moves : (a : State) → IsLive a → may_become the_peer a closed ≡ true
close_state_moves idle l = refl
close_state_moves open_both l = refl
close_state_moves half_closed_remote l = refl
close_state_moves half_closed_local l = refl
close_state_moves closed l = refl

send_end_moves :
    (a : State)
    → IsLive a
    → is_half_closed_remote a ≡ false
    → may_become this_side a half_closed_local ≡ true
send_end_moves idle l h = absurd l
send_end_moves open_both l h = refl
send_end_moves half_closed_remote l h = cc
send_end_moves half_closed_local l h = refl
send_end_moves closed l h = absurd l

send_close_moves :
    (a : State) → is_half_closed_remote a ≡ true → may_become this_side a closed ≡ true
send_close_moves idle h = cc
send_close_moves open_both h = cc
send_close_moves half_closed_remote h = refl
send_close_moves half_closed_local h = cc
send_close_moves closed h = refl

-- From a phase `x` of stream `id` on.
pub record At {C R E W : Type 0} (side : Side) (x : State) (id : ℕ) (t : Table C R E W)
    : Type 0 where
  pub moved : may_become side x (phase t id) ≡ true

module _ {C R E W : Type 0} (side : Side) (x : State) (id : ℕ) where
  -- A further move.
  pub onward :
      (t u : Table C R E W)
      → At side x id t
      → may_become side (phase t id) (phase u id) ≡ true
      → At side x id u
  onward t u v p = record { moved = may_become_trans side x (phase t id) (phase u id) v.moved p }

  pub deliver-At :
      (t : Table C R E W) (p : R × Option Error)
      → At side x id t
      → Ensures (At side x id) (deliver t p)
  deliver-At t (r, none) v = record { moved = v.moved }
  deliver-At t (r, some e) v = record { moved = v.moved }

module _ {C R E W : Type 0} ⦃writer : Writer W⦄ (side : Side) (x : State) (id : ℕ) where
  pub settle-At :
      (t : Table C R E W) (s u : Stream)
      → At side x id t
      → Held t.streams t.highest_remote u
      → s.id ≡ u.id
      → may_become side u.state s.state ≡ true
      → At side x id (retire (store t s) s)
  unfolding retire
  settle-At t s u v k same p = elim (Bool-cases (is_closed s.state)) [
    | inl c ↦
        rw (c, retire)
          (onward side x id t _ v (
            close_moves t.streams t.highest_remote t.assembling id side s u there (rw same k.is_odd)
              (rw same k.used) (ground arith)))
    | inr o ↦
        rw (o, retire)
          (onward side x id t _ v
            (store_moves t.streams t.highest_remote t.assembling id side s u there p))
  ]
    where
      there : lookup s.id t.streams ≡ some u
      there = ap (λ j. lookup j t.streams) same ∙ k.held

module _ {C R E W : Type 0} ⦃writer : Writer W⦄ (x : State) (id : ℕ) where
  send_end-At :
      (t : Table C R E W) (s : Stream)
      → At this_side x id t
      → Held t.streams t.highest_remote s
      → At this_side x id (send_end t s)
  unfolding send_end
  send_end-At t s v k = elim (Bool-cases (is_half_closed_remote s.state)) [
    | inl over ↦
        rw (over, send_end)
          (unfold retire in
            settle-At this_side x id t (record s { state = closed }) s v k refl
              (send_close_moves s.state over))
    | inr still ↦
        rw (still, send_end)
          (onward this_side x id t _ v (
            store_moves t.streams t.highest_remote t.assembling id this_side
              (record s { state = half_closed_local }) s k.held
              (send_end_moves s.state k.is_live still)))
  ]

  drain_each-At :
      (ids : List ℕ) (t : Table C R E W)
      → Inv t
      → At this_side x id t
      → At this_side x id (drain_each ids t)
  unfolding drain_each
  drain_each-At [] t v p = p
  drain_each-At (j ∷ ids) t v p =
      drain_each-At ids (send_end_of t j) (send_end_of-Inv t j v)
        (one (Option-cases (lookup j t.streams)))
    where
      one :
          (lookup j t.streams ≡ none) ⊎ ((s : Stream) × (lookup j t.streams ≡ some s))
          → At this_side x id (send_end_of t j)
      one (inl gone) = rw (gone, send_end_of) p
      one (inr (s, e)) = rw (e, send_end_of) (send_end-At t s p (lookup-Held t j s v e).1)

  pub drain_sent-At :
      (t : Table C R E W) → Inv t → At this_side x id t → At this_side x id (drain_sent t)
  unfolding drain_sent
  drain_sent-At t v p =
      drain_each-At t.sent (record t { sent = [] }) (record { core = v.core; block = v.block })
        (record { moved = p.moved })

-- What the crediting of windows keeps: keys, and with them the phases.
record Keyed {C R E W : Type 0} (x : State) (id : ℕ) (t : Table C R E W) : Type 0 where
  keys : (j : ℕ) (s : Stream) → lookup j t.streams ≡ some s → s.id ≡ j
  at : At the_peer x id t

module _ {C R E W : Type 0} (x : State) (id : ℕ) where
  pub drain_credit-At :
      (t : Table C R E W) → Inv t → At the_peer x id t → Ensures (At the_peer x id) (drain_credit t)
  drain_credit-At t v p =
      Ensures-weaken (Keyed x id) (At the_peer x id) (drain_credit t) (λ u k. k.at)
        (drain_credit-keeps (Keyed x id) recv
          (λ u w k. record { keys = k.keys; at = record { moved = k.at.moved } })
          (λ u c m k. record { keys = k.keys; at = record { moved = k.at.moved } }) t
          (record { keys = λ j s e. (lookup-Held t j s v e).0; at = p }))
    where
      recv :
          (u : Table C R E W) (j : ℕ) (s : Stream) (w : Window)
          → lookup j u.streams ≡ some s
          → Keyed x id u
          → Keyed x id (store u (record s { recv = w }))
      recv u j s w e k = record {
        keys = λ i r q. ground (
          arith,
          k.keys i r,
          k.keys j s e,
          lookup-insert s.id i (record s { recv = w }) u.streams,
        );
        at = onward the_peer x id u _ k.at (
            store_moves u.streams u.highest_remote u.assembling id the_peer (record s { recv = w })
              s (ap (λ i. lookup i u.streams) (k.keys j s e) ∙ e)
              (may_become_refl the_peer s.state));
      }

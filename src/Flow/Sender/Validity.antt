-- ===== src/Flow/Sender/Validity.antt =====
-- The range of every window of sender.go, method by method.
use zerodeps_hackk.Base.{
  ℕ, ◌-◌, ◌≤◌, ◌≡◌, Bool, ◌==◌, if◌then◌else◌, Option, none, some, arith, inl, inr, Option-cases,
  true, false, Bool-cases,
}
use zerodeps_hackk.Base.Int.{ltb_ℤ, pos, pos_part}
use zerodeps_hackk.Base.Assoc.{Assoc, lookup, insert, delete, lookup-insert, lookup-delete}
use zerodeps_hackk.H2.{Error, Outcome, done, failed, panicked, lift, Ensures}
use zerodeps_hackk.Flow.Window.{Window, max_window_size, new_stream_window, consume, increase}
use zerodeps_hackk.Flow.Window.Bounds.{
  IsBounded, new_conn_window-IsBounded, new_stream_window-IsBounded, consume-IsBounded,
  increase-IsBounded,
}
use zerodeps_hackk.Flow.Sender.{
  Sender, new_sender, open_stream, retire, credit_conn, credit_stream, close, round, reserve,
  resume, take_credit, at_most, Reservation, granted, refused, crashed,
}

abbrev pub BoundedOrNone : Option Window → Type 0
BoundedOrNone none = Unit {0}
BoundedOrNone (some w) = IsBounded w

pub record IsValid (s : Sender) : Type 0 where
  pub conn_bounded : IsBounded s.conn
  pub initial_fits : s.initial ≤ max_window_size
  pub streams_bounded : (id : ℕ) → BoundedOrNone (lookup id s.stream)

BoundedOrNone-insert :
    (k j : ℕ) (w : Window) (m : Assoc Window)
    → IsBounded w
    → BoundedOrNone (lookup j m)
    → BoundedOrNone (lookup j (insert k w m))
BoundedOrNone-insert k j w m b h = rw (lookup-insert k j w m) (pick (k == j) b h)
  where
    pick :
        (c : Bool)
        → IsBounded w
        → BoundedOrNone (lookup j m)
        → BoundedOrNone (if c then some w else lookup j m)
    pick true b h = b
    pick false b h = h

BoundedOrNone-delete :
    (k j : ℕ) (m : Assoc Window)
    → BoundedOrNone (lookup j m)
    → BoundedOrNone (lookup j (delete k m))
BoundedOrNone-delete k j m h = rw (lookup-delete k j m) (pick (k == j) h)
  where
    pick : (c : Bool) → BoundedOrNone (lookup j m) → BoundedOrNone (if c then none else lookup j m)
    pick true h = tt
    pick false h = h

pub new_sender-IsValid : IsValid new_sender
unfolding new_sender lookup
new_sender-IsValid = record {
  conn_bounded = new_conn_window-IsBounded;
  initial_fits = omega arith;
  streams_bounded = λ id. tt;
}

-- A window put back in range keeps the sender valid.
pub put-IsValid :
    (s : Sender) (id : ℕ) (o : Outcome Window)
    → IsValid s
    → Ensures IsBounded o
    → Ensures IsValid (lift (λ w. record s { stream = insert id w s.stream }) o)
put-IsValid s id (done w) v b = record {
  conn_bounded = v.conn_bounded;
  initial_fits = v.initial_fits;
  streams_bounded = λ j. BoundedOrNone-insert id j w s.stream b (v.streams_bounded j);
}
put-IsValid s id (failed e w) v b = record {
  conn_bounded = v.conn_bounded;
  initial_fits = v.initial_fits;
  streams_bounded = λ j. BoundedOrNone-insert id j w s.stream b (v.streams_bounded j);
}
put-IsValid s id panicked v b = b

pub found-IsBounded :
    (s : Sender) (id : ℕ) (w : Window) → IsValid s → lookup id s.stream ≡ some w → IsBounded w
found-IsBounded s id w v e = rw e at (v.streams_bounded id)

-- A stream opens without a panic under any identifier but 0 that is not open already.
pub open_stream-IsValid :
    (s : Sender) (id : ℕ)
    → IsValid s
    → 1 ≤ id
    → lookup id s.stream ≡ none
    → Ensures IsValid (open_stream s id)
unfolding open_stream
open_stream-IsValid s id v h e =
    rw (e, open_stream)
      (put-IsValid s id (new_stream_window id s.initial) v
        (new_stream_window-IsBounded id s.initial h v.initial_fits))

pub retire-IsValid : (s : Sender) (id : ℕ) → IsValid s → IsValid (retire s id)
unfolding retire
retire-IsValid s id v = record {
  conn_bounded = v.conn_bounded;
  initial_fits = v.initial_fits;
  streams_bounded = λ j. BoundedOrNone-delete id j s.stream (v.streams_bounded j);
}

pub credit_conn-IsValid : (s : Sender) (k : ℕ) → IsValid s → Ensures IsValid (credit_conn s k)
unfolding credit_conn
credit_conn-IsValid s k v = ground (arith, increase-IsBounded s.conn k v.conn_bounded)

pub credit_stream-IsValid :
    (s : Sender) (id k : ℕ) → IsValid s → Ensures IsValid (credit_stream s id k)
unfolding credit_stream
credit_stream-IsValid s id k v = elim (Option-cases s.err) [
  | inr (e, closed) ↦ rw (closed, credit_stream) v
  | inl running ↦ elim (Option-cases (lookup id s.stream)) [
    | inl gone ↦ rw (running, gone, credit_stream) v
    | inr (w, e) ↦
        rw (running, e, credit_stream)
          (put-IsValid s id (increase w k) v (increase-IsBounded w k (found-IsBounded s id w v e)))
  ]
]

pub close-IsValid : (s : Sender) (e : Error) → IsValid s → Ensures IsValid (close s (some e))
unfolding close
close-IsValid s e v = ground arith

-- Taking credit for a writer, whether both windows have it or not.
take_credit-IsValid :
    (s : Sender) (id n : ℕ) (w : Window)
    → IsValid s
    → lookup id s.stream ≡ some w
    → IsValid (take_credit s id w n).0
unfolding take_credit
take_credit-IsValid s id n w v e =
    go (consume s.conn n) (consume-IsBounded s.conn n v.conn_bounded) (consume w n)
      (consume-IsBounded w n (found-IsBounded s id w v e))
  where
    go :
        (o : Outcome Window)
        → Ensures IsBounded o
        → (p : Outcome Window) → Ensures IsBounded p
        → IsValid
            (elim o as (λ o. Sender × Reservation) [
              | panicked ↦ (s, crashed)
              | failed e c ↦ (s, refused e)
              | done c ↦ elim p [
                | panicked ↦ (s, crashed)
                | failed e w' ↦ (record s { conn = c }, refused e)
                | done w' ↦ (record s { conn = c; stream = insert id w' s.stream }, granted n)
              ]
            ]).0
    go (done c) b (done w') b' = record {
      conn_bounded = b;
      initial_fits = v.initial_fits;
      streams_bounded = λ j. BoundedOrNone-insert id j w' s.stream b' (v.streams_bounded j);
    }
    go (done c) b (failed e w') b' = record {
      conn_bounded = b;
      initial_fits = v.initial_fits;
      streams_bounded = v.streams_bounded;
    }
    go (done c) b panicked b' = absurd b'
    go (failed e c) b p b' = v
    go panicked b p b' = absurd b

round-IsValid : (s : Sender) (id want : ℕ) → IsValid s → IsValid (round s id want).0
unfolding round
round-IsValid s id want v = elim (Option-cases s.err) [
  | inr (e, closed) ↦ rw (closed, round) v
  | inl running ↦ elim (Option-cases (lookup id s.stream)) [
    | inl gone ↦ rw (running, gone, round) v
    | inr (w, e) ↦
        let n = at_most (at_most (pos want) s.conn.n) w.n in
        elim (Bool-cases (ltb_ℤ (pos 0) n)) [
          | inl some_left ↦
              rw (running, e, some_left, round) (take_credit-IsValid s id (pos_part n) w v e)
          | inr none_left ↦
              rw (running, e, none_left, round)
                (record {
                  conn_bounded = v.conn_bounded;
                  initial_fits = v.initial_fits;
                  streams_bounded = v.streams_bounded;
                })
        ]
  ]
]

-- A writer's round of `Reserve`, the first or one after a wait, keeps the sender valid.
pub reserve-IsValid :
    (s : Sender) (id want : ℕ)
    → IsValid s
    → IsValid (reserve s id want).0 × IsValid (resume s id want).0
unfolding reserve resume
reserve-IsValid s id want v = (first (want == 0), again)
  where
    first : (b : Bool) → IsValid (if b then (s, crashed) else round s id want).0
    first true = v
    first false = round-IsValid s id want v

    again : IsValid (round (record s { waiting = s.waiting - 1 }) id want).0
    again = round-IsValid _ id want (record {
      conn_bounded = v.conn_bounded;
      initial_fits = v.initial_fits;
      streams_bounded = v.streams_bounded;
    })

-- ===== src/Flow/Sender.antt =====
-- internal/flow/sender.go: what the peer lets this server send. The methods run under one mutex,
-- so each is one step on the state; `Broadcast` changes no state, and a wait is the outcome
-- `parked`, after which `resume` is the next round of the loop.
pub mod Validity
pub mod Resize
pub mod Credit
pub mod Streams
use zerodeps_hackk.Base.{ℕ, ◌+◌, ◌-◌, leb, ◌==◌, if◌then◌else◌, List, [], ◌∷◌, Option, none, some}
use zerodeps_hackk.Base.Int.{ℤ, pos, ltb_ℤ, pos_part}
use zerodeps_hackk.Base.Assoc.{Assoc, lookup, insert, delete}
use zerodeps_hackk.H2.{Error, stream_gone, Outcome, done, failed, panicked, ◌>>=◌, lift}
use zerodeps_hackk.Flow.Window
use zerodeps_hackk.Flow.Window.{
  Window, initial_window_size, new_conn_window, new_stream_window, consume, increase,
}

pub record Sender : Type 0 where
  pub conn : Window
  pub stream : Assoc Window
  pub initial : ℕ
  pub err : Option Error
  pub waiting : ℕ

unfoldable pub new_sender : Sender
new_sender = record {
  conn = new_conn_window;
  stream = [];
  initial = initial_window_size;
  err = none;
  waiting = 0;
}

unfoldable pub open_stream : Sender → ℕ → Outcome Sender
open_stream s id = elim (lookup id s.stream) [
  | some w ↦ panicked
  | none ↦ lift (λ w. record s { stream = insert id w s.stream }) (new_stream_window id s.initial)
]

unfoldable pub retire : Sender → ℕ → Sender
retire s id = record s { stream = delete id s.stream }

unfoldable pub credit_conn : Sender → ℕ → Outcome Sender
credit_conn s k = elim s.err [
  | some e ↦ done s
  | none ↦ lift (λ w. record s { conn = w }) (increase s.conn k)
]

unfoldable pub credit_stream : Sender → ℕ → ℕ → Outcome Sender
credit_stream s id k = elim s.err [
  | some e ↦ done s
  | none ↦ elim (lookup id s.stream) [
    | none ↦ done s
    | some w ↦ lift (λ w'. record s { stream = insert id w' s.stream }) (increase w k)
  ]
]

-- `slices.Sorted(maps.Keys(m))`.
pub insert_sorted : ℕ → List ℕ → List ℕ
insert_sorted k [] = k ∷ []
insert_sorted k (j ∷ js) = if leb k j then k ∷ j ∷ js else j ∷ insert_sorted k js

pub sorted_keys {ℓ} : {V : Type ℓ} → Assoc V → List ℕ
sorted_keys [] = []
sorted_keys ((k, v) ∷ m) = insert_sorted k (sorted_keys m)

-- The loop of SetInitialSize. A key that is not there would be a nil dereference.
unfoldable pub resize_each : ℕ → List ℕ → Sender → Outcome Sender
resize_each k [] s = done s
resize_each k (id ∷ ids) s = elim (lookup id s.stream) [
  | none ↦ panicked
  | some w ↦
      lift (λ w'. record s { stream = insert id w' s.stream }) (Window.set_initial_size w k)
      >>= λ s'. resize_each k ids s'
]

unfoldable pub set_initial_size : Sender → ℕ → Outcome Sender
unfolding resize_each insert_sorted sorted_keys
set_initial_size s k = elim s.err [
  | some e ↦ done s
  | none ↦ resize_each k (sorted_keys s.stream) s >>= λ s'. done (record s' { initial = k })
]

-- `Close` panics on a nil error, and keeps the first reason.
unfoldable pub close : Sender → Option Error → Outcome Sender
close s none = panicked
close s (some e) = elim s.err [ some e' ↦ done s | none ↦ done (record s { err = some e }) ]

-- What one round of the loop in `Reserve` answers.
pub data Reservation : Type 0 where
  granted : ℕ → Reservation
  refused : Error → Reservation
  parked : Reservation
  crashed : Reservation

-- `if a := w.Available(); a < n { n = a }`.
abbrev pub at_most : ℤ → ℤ → ℤ
at_most n a = if ltb_ℤ a n then a else n

unfoldable pub take_credit : Sender → ℕ → Window → ℕ → Sender × Reservation
take_credit s id w n = elim (consume s.conn n) [
  | panicked ↦ (s, crashed)
  | failed e c ↦ (s, refused e)
  | done c ↦ elim (consume w n) [
    | panicked ↦ (s, crashed)
    | failed e w' ↦ (record s { conn = c }, refused e)
    | done w' ↦ (record s { conn = c; stream = insert id w' s.stream }, granted n)
  ]
]

unfoldable pub round : Sender → ℕ → ℕ → Sender × Reservation
unfolding take_credit
round s id want = elim s.err [
  | some e ↦ (s, refused e)
  | none ↦ elim (lookup id s.stream) [
    | none ↦ (s, refused stream_gone)
    | some w ↦
        let n = at_most (at_most (pos want) s.conn.n) w.n in
        if ltb_ℤ (pos 0) n
        then take_credit s id w (pos_part n)
        else (record s { waiting = s.waiting + 1 }, parked)
  ]
]

unfoldable pub reserve : Sender → ℕ → ℕ → Sender × Reservation
reserve s id want = if want == 0 then (s, crashed) else round s id want

-- A writer that was parked and is woken.
unfoldable pub resume : Sender → ℕ → ℕ → Sender × Reservation
resume s id want = round (record s { waiting = s.waiting - 1 }) id want

unfoldable pub available : Sender → ℕ → Option ℤ
available s id = elim (lookup id s.stream) [ none ↦ none | some w ↦ some w.n ]

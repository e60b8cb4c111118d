-- ===== src/Flow/Sender/Streams.antt =====
-- Which methods of sender.go leave the set of open streams as it is.
use zerodeps_hackk.Base.{
  ℕ, ◌≡◌, refl, ◌∙◌, List, [], ◌∷◌, none, some, arith, inl, inr, Option-cases, is_some,
}
use zerodeps_hackk.Base.Assoc.{lookup, insert, lookup-insert}
use zerodeps_hackk.H2.{Error, Outcome, done, failed, panicked, ◌>>=◌, Ensures, Ensures-map}
use zerodeps_hackk.Flow.Window
use zerodeps_hackk.Flow.Window.{Window, increase, new_stream_window}
use zerodeps_hackk.Flow.Window.Bounds.{IsBounded}
use zerodeps_hackk.Flow.Sender.Resize.{AllOpen, sorted_keys-present}
use zerodeps_hackk.Flow.Sender.{
  Sender, open_stream, credit_conn, credit_stream, sorted_keys, resize_each, set_initial_size,
  close,
}

abbrev pub SameStreams : Sender → Sender → Type 0
SameStreams s t = (j : ℕ) → is_some (lookup j t.stream) ≡ is_some (lookup j s.stream)

AllOpen-same : (s t : Sender) (ids : List ℕ) → SameStreams s t → AllOpen s ids → AllOpen t ids
AllOpen-same s t [] same a = tt
AllOpen-same s t (j ∷ js) same a = (same j ∙ a.0, AllOpen-same s t js same a.1)

put-SameStreams :
    (s : Sender) (id : ℕ) (w w' : Window)
    → lookup id s.stream ≡ some w
    → SameStreams s (record s { stream = insert id w' s.stream })
put-SameStreams s id w w' e j = ground (arith, lookup-insert id j w' s.stream)

-- A method of a window answers with some window.
abbrev pub Answers : Outcome Window → Type 0
Answers o = Ensures (λ w. Unit {0}) o

pub increase-Answers : (w : Window) (k : ℕ) → Answers (increase w k)
unfolding increase
increase-Answers w k = ground arith

set_initial_size-Answers : (w : Window) (k : ℕ) → Answers (Window.set_initial_size w k)
unfolding Window.set_initial_size
set_initial_size-Answers w k = ground arith

pub credit_conn-SameStreams : (s : Sender) (k : ℕ) → Ensures (SameStreams s) (credit_conn s k)
unfolding credit_conn
credit_conn-SameStreams s k = elim (Option-cases s.err) [
  | inr (e, closed) ↦ rw (closed, credit_conn) (λ j. refl)
  | inl running ↦
      rw (running, credit_conn)
        (Ensures-map (λ w. Unit {0}) (SameStreams s) _ (increase s.conn k) (λ w _ j. refl)
          (increase-Answers s.conn k))
]

pub credit_stream-SameStreams :
    (s : Sender) (id k : ℕ) → Ensures (SameStreams s) (credit_stream s id k)
unfolding credit_stream
credit_stream-SameStreams s id k = elim (Option-cases s.err) [
  | inr (e, closed) ↦ rw (closed, credit_stream) (λ j. refl)
  | inl running ↦ elim (Option-cases (lookup id s.stream)) [
    | inl gone ↦ rw (running, gone, credit_stream) (λ j. refl)
    | inr (w, e) ↦
        rw (running, e, credit_stream)
          (Ensures-map (λ w. Unit {0}) (SameStreams s) _ (increase w k)
            (λ w' _. put-SameStreams s id w w' e) (increase-Answers w k))
  ]
]

-- The rounds of a loop: what holds from a sender on holds from an earlier one.
SameStreams-trans :
    (s t : Sender) (o : Outcome Sender)
    → SameStreams s t
    → Ensures (SameStreams t) o
    → Ensures (SameStreams s) o
SameStreams-trans s t (done u) p q = λ j. q j ∙ p j
SameStreams-trans s t (failed e u) p q = λ j. q j ∙ p j
SameStreams-trans s t panicked p q = q

then_same :
    (s : Sender) (o : Outcome Sender) (f : Sender → Outcome Sender)
    → Ensures (SameStreams s) o
    → ((t : Sender) → SameStreams s t → Ensures (SameStreams t) (f t))
    → Ensures (SameStreams s) (o >>= f)
then_same s (done t) f p k = SameStreams-trans s t (f t) p (k t p)
then_same s (failed e t) f p k = p
then_same s panicked f p k = p

-- Every listed stream is there, before and after.
resize_each-SameStreams :
    (k : ℕ) (ids : List ℕ) (s : Sender)
    → AllOpen s ids
    → Ensures (SameStreams s) (resize_each k ids s)
unfolding resize_each
resize_each-SameStreams k [] s a = λ j. refl
resize_each-SameStreams k (id ∷ ids) s a = elim (Option-cases (lookup id s.stream)) [
  | inl gone ↦ absurd (cc (a.0, gone))
  | inr (w, e) ↦
      rw (e, resize_each)
        (then_same s _ (resize_each k ids)
          (Ensures-map (λ w. Unit {0}) (SameStreams s) _ (Window.set_initial_size w k)
            (λ w' _. put-SameStreams s id w w' e) (set_initial_size-Answers w k))
          (λ t same. resize_each-SameStreams k ids t (AllOpen-same s t ids same a.1)))
]

pub set_initial_size-SameStreams :
    (s : Sender) (k : ℕ) → Ensures (SameStreams s) (set_initial_size s k)
unfolding set_initial_size
set_initial_size-SameStreams s k = elim (Option-cases s.err) [
  | inr (e, closed) ↦ rw (closed, set_initial_size) (λ j. refl)
  | inl running ↦
      rw (running, set_initial_size)
        (then_same s (resize_each k (sorted_keys s.stream) s) _
          (resize_each-SameStreams k (sorted_keys s.stream) s (sorted_keys-present s.stream))
          (λ t same j. refl))
]

pub close-SameStreams : (s : Sender) (e : Error) → Ensures (SameStreams s) (close s (some e))
unfolding close
close-SameStreams s e = elim (Option-cases s.err) [
  | inr (x, closed) ↦ rw (closed, close) (λ j. refl)
  | inl running ↦ rw (running, close) (λ j. refl)
]

-- A stream that opens is added, with some window, and nothing else changes.
pub open_stream_adds :
    (s : Sender) (id : ℕ)
    → lookup id s.stream ≡ none
    → Ensures IsBounded (new_stream_window id s.initial)
    → Ensures (λ t. (w : Window) × (t.stream ≡ insert id w s.stream)) (open_stream s id)
unfolding open_stream
open_stream_adds s id e b =
    rw (e, open_stream)
      (Ensures-map IsBounded (λ t. (w : Window) × (t.stream ≡ insert id w s.stream)) _
        (new_stream_window id s.initial) (λ w _. (w, refl)) b)

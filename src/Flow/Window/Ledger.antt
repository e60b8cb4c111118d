-- ===== src/Flow/Window/Ledger.antt =====
-- What a stream's window of window.go promises (RFC 9113 section 6.9): a ledger of the size last
-- set, the octets credited and the octets spent, over the natural numbers and with no sign.
use zerodeps_hackk.Base.{
  ℕ, ◌+◌, ◌≤◌, ◌≡◌, ◌||◌, List, [], ◌∷◌, Option, none, some, arith, leb, ◌==◌, if◌then◌else◌,
}
use zerodeps_hackk.Base.Int.{pos_part, neg_part, ◌+ℤ◌, ◌-ℤ◌}
use zerodeps_hackk.H2.{
  conn_error, stream_error, flow_control_error, Outcome, done, failed, panicked, ◌>>=◌,
}
use zerodeps_hackk.Flow.Window.{
  Window, max_window_size, new_stream_window, consume, increase, set_initial_size,
}

pub record Ledger : Type 0 where
  pub size : ℕ
  pub credited : ℕ
  pub spent : ℕ

-- A DATA frame, a WINDOW_UPDATE, or a new SETTINGS_INITIAL_WINDOW_SIZE.
pub data Op : Type 0 where
  spends credits resizes : ℕ → Op

-- What section 6.9 admits: `none` is a flow-control error.
abbrev pub book : Ledger → Op → Option Ledger
book l (spends k) =
    if k == 0 || leb (l.spent + k) (l.size + l.credited)
    then some (record l { spent = l.spent + k })
    else none
book l (credits k) =
    if leb (l.size + l.credited + k) (max_window_size + l.spent)
    then some (record l { credited = l.credited + k })
    else none
book l (resizes k) =
    if leb (k + l.credited) (max_window_size + l.spent) then some (record l { size = k }) else none

abbrev pub book_all : Ledger → List Op → Option Ledger
book_all l [] = some l
book_all l (op ∷ ops) = elim (book l op) [ none ↦ none | some l' ↦ book_all l' ops ]

unfoldable pub apply : Window → Op → Outcome Window
unfolding consume increase set_initial_size
apply w (spends k) = consume w k
apply w (credits k) = increase w k
apply w (resizes k) = set_initial_size w k

unfoldable pub apply_all : Window → List Op → Outcome Window
apply_all w [] = done w
apply_all w (op ∷ ops) = apply w op >>= λ w'. apply_all w' ops

-- The window of stream `id` shows what the ledger leaves: `n = size + credited - spent`.
pub record Shows (id : ℕ) (l : Ledger) (w : Window) : Type 0 where
  pub named : w.stream_id ≡ id
  pub sized : w.initial ≡ l.size
  pub balanced : pos_part w.n + l.spent ≡ neg_part w.n + l.size + l.credited

-- The two succeed together, or fail together with a FLOW_CONTROL_ERROR.
abbrev pub Agrees : ℕ → Option Ledger → Outcome Window → Type 0
Agrees id (some l) (done w) = Shows id l w
Agrees id none (failed (conn_error c) w) = c ≡ flow_control_error
Agrees id none (failed (stream_error i c) w) = (i ≡ id) × (c ≡ flow_control_error)
Agrees id _ _ = ⊥

pub apply-Agrees :
    (id : ℕ) (l : Ledger) (w : Window) (op : Op)
    → 1 ≤ id
    → Shows id l w
    → Agrees id (book l op) (apply w op)
unfolding apply ◌+ℤ◌ ◌-ℤ◌
apply-Agrees id l w (spends k) h s = ground arith
apply-Agrees id l w (credits k) h s = ground arith
apply-Agrees id l w (resizes k) h s = ground arith

-- One step that agrees, and a continuation that agrees from wherever both stand.
Agrees-bind :
    (id : ℕ) (f : Ledger → Option Ledger) (g : Window → Outcome Window)
    → ((l : Ledger) (w : Window) → Shows id l w → Agrees id (f l) (g w))
    → (r : Option Ledger) (o : Outcome Window) → Agrees id r o
    → Agrees id (elim r [ none ↦ none | some l' ↦ f l' ]) (o >>= g)
Agrees-bind id f g k (some l) (done w) a = k l w a
Agrees-bind id f g k (some l) (failed e w) a = absurd a
Agrees-bind id f g k (some l) panicked a = absurd a
Agrees-bind id f g k none (done w) a = absurd a
Agrees-bind id f g k none (failed e w) a = a
Agrees-bind id f g k none panicked a = absurd a

apply_all-Agrees_from :
    (id : ℕ) (ops : List Op) (l : Ledger) (w : Window)
    → 1 ≤ id
    → Shows id l w
    → Agrees id (book_all l ops) (apply_all w ops)
unfolding apply_all
apply_all-Agrees_from id [] l w h s = s
apply_all-Agrees_from id (op ∷ ops) l w h s =
    Agrees-bind id (λ l'. book_all l' ops) (λ w'. apply_all w' ops)
      (λ l' w' s'. apply_all-Agrees_from id ops l' w' h s') (book l op) (apply w op)
      (apply-Agrees id l w op h s)

-- Any history of a fresh stream window, in any order, is the ledger's: the window runs to its end
-- exactly when the ledger admits every entry, and then shows the ledger's balance; otherwise it
-- stops with a FLOW_CONTROL_ERROR.
pub apply_all-Agrees :
    (id k : ℕ) (ops : List Op)
    → 1 ≤ id
    → k ≤ max_window_size
    → Agrees id
        (book_all (record { size = k; credited = 0; spent = 0 }) ops)
        (new_stream_window id k >>= λ w. apply_all w ops)
unfolding new_stream_window
apply_all-Agrees id k ops h b =
    Agrees-bind id (λ l. book_all l ops) (λ w. apply_all w ops)
      (λ l w s. apply_all-Agrees_from id ops l w h s)
      (some (record { size = k; credited = 0; spent = 0 })) (new_stream_window id k) (ground arith)

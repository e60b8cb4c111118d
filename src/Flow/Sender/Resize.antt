-- ===== src/Flow/Sender/Resize.antt =====
-- SetInitialSize of sender.go: the new size is a delta on every open stream (RFC 9113 section
-- 6.9.2), and the loop over the sorted keys is where it is made.
use zerodeps_hackk.Base.{
  ℕ, ◌≤◌, ◌≡◌, refl, ◌∙◌, Bool, ◌==◌, if◌then◌else◌, List, [], ◌∷◌, Option, none, some, arith, inl,
  inr, Option-cases, true, false, Bool-cases, All, is_some, leb, ◌||◌, ap,
}
use zerodeps_hackk.Base.Int.{pos, ◌+ℤ◌, ◌-ℤ◌, int_laws}
use zerodeps_hackk.Base.Assoc.{Assoc, lookup, insert, lookup-insert}
use zerodeps_hackk.H2.{Outcome, done, failed, panicked, ◌>>=◌, lift, Ensures}
use zerodeps_hackk.Flow.Window
use zerodeps_hackk.Flow.Window.{Window, max_window_size}
use zerodeps_hackk.Flow.Window.Bounds.{IsBounded, set_initial_size-IsBounded}
use zerodeps_hackk.Flow.Sender.{Sender, sorted_keys, insert_sorted, resize_each, set_initial_size}
use zerodeps_hackk.Flow.Sender.Validity.{IsValid, put-IsValid, found-IsBounded}

-- Every listed stream is open.
abbrev pub AllOpen : Sender → List ℕ → Type 0
AllOpen s = All (λ id. is_some (lookup id s.stream) ≡ true)

-- A window put back under the key where one was leaves the set of open streams as it is.
is_some-put :
    (id j : ℕ) (w w' : Window) (m : Assoc Window)
    → lookup id m ≡ some w
    → is_some (lookup j (insert id w' m)) ≡ is_some (lookup j m)
is_some-put id j w w' m e = ground (arith, lookup-insert id j w' m)

AllOpen-put :
    (id : ℕ) (w w' : Window) (s : Sender) (ids : List ℕ)
    → lookup id s.stream ≡ some w
    → AllOpen s ids
    → AllOpen (record s { stream = insert id w' s.stream }) ids
AllOpen-put id w w' s [] e a = tt
AllOpen-put id w w' s (j ∷ js) e a =
    (is_some-put id j w w' s.stream e ∙ a.0, AllOpen-put id w w' s js e a.1)

All-insert_sorted :
    (P : ℕ → Type 0) (k : ℕ) (js : List ℕ) → P k → All P js → All P (insert_sorted k js)
unfolding insert_sorted
All-insert_sorted P k [] p a = (p, tt)
All-insert_sorted P k (j ∷ js) p a = elim (Bool-cases (leb k j)) [
  | inl e ↦ rw e (p, a)
  | inr e ↦ rw e (a.0, All-insert_sorted P k js p a.1)
]

All-weaken : (P Q : ℕ → Type 0) (js : List ℕ) → ((j : ℕ) → P j → Q j) → All P js → All Q js
All-weaken P Q [] f a = tt
All-weaken P Q (j ∷ js) f a = (f j a.0, All-weaken P Q js f a.1)

pub sorted_keys-present :
    (m : Assoc Window) → All (λ id. is_some (lookup id m) ≡ true) (sorted_keys m)
unfolding sorted_keys lookup
sorted_keys-present [] = tt
sorted_keys-present ((k, v) ∷ m) =
    All-insert_sorted _ k (sorted_keys m) (ground arith)
      (All-weaken _ _ (sorted_keys m) (λ j h. ground arith) (sorted_keys-present m))

put_then-IsValid :
    (id : ℕ) (ids : List ℕ) (s : Sender) (w : Window) (o : Outcome Window)
    (f : Sender → Outcome Sender)
    → lookup id s.stream ≡ some w
    → IsValid s
    → AllOpen s ids
    → Ensures IsBounded o
    → ((t : Sender) → IsValid t → AllOpen t ids → Ensures IsValid (f t))
    → Ensures IsValid (lift (λ w'. record s { stream = insert id w' s.stream }) o >>= f)
put_then-IsValid id ids s w (done w') f e v a b k =
    k _ (put-IsValid s id (done w') v b) (AllOpen-put id w w' s ids e a)
put_then-IsValid id ids s w (failed x w') f e v a b k = put-IsValid s id (failed x w') v b
put_then-IsValid id ids s w panicked f e v a b k = b

resize_each-IsValid :
    (k : ℕ) (ids : List ℕ) (s : Sender)
    → k ≤ max_window_size
    → IsValid s
    → AllOpen s ids
    → Ensures IsValid (resize_each k ids s)
unfolding resize_each
resize_each-IsValid k [] s h v a = v
resize_each-IsValid k (id ∷ ids) s h v a = elim (Option-cases (lookup id s.stream)) [
  | inl gone ↦ absurd (cc (a.0, gone))
  | inr (w, e) ↦
      rw (e, resize_each)
        (put_then-IsValid id ids s w (Window.set_initial_size w k) (resize_each k ids) e v a.1
          (set_initial_size-IsBounded w k h (found-IsBounded s id w v e))
          (λ t. resize_each-IsValid k ids t h))
]

-- A legal SETTINGS_INITIAL_WINDOW_SIZE leaves a valid sender, whether a window overflows or not.
pub set_initial_size-IsValid :
    (s : Sender) (k : ℕ) → k ≤ max_window_size → IsValid s → Ensures IsValid (set_initial_size s k)
unfolding set_initial_size
set_initial_size-IsValid s k h v = elim (Option-cases s.err) [
  | inr (e, closed) ↦ rw (closed, set_initial_size) v
  | inl running ↦
      rw (running, set_initial_size)
        (finish (resize_each k (sorted_keys s.stream) s)
          (resize_each-IsValid k (sorted_keys s.stream) s h v (sorted_keys-present s.stream)))
]
  where
    finish :
        (o : Outcome Sender)
        → Ensures IsValid o
        → Ensures IsValid (o >>= λ s'. done (record s' { initial = k }))
    finish (done t) w = record {
      conn_bounded = w.conn_bounded;
      initial_fits = h;
      streams_bounded = w.streams_bounded;
    }
    finish (failed e t) w = w
    finish panicked w = w

-- The window that section 6.9.2 asks for: the new size, and credit moved by the difference.
abbrev pub resized : ℕ → Window → Window
resized k w = record w { initial = k; n = w.n +ℤ (pos k -ℤ pos w.initial) }

abbrev pub resized? : ℕ → Option Window → Option Window
resized? k none = none
resized? k (some w) = some (resized k w)

resized_twice : (k : ℕ) (w : Window) → resized k (resized k w) ≡ resized k w
resized_twice k w = ap (λ z. record w { initial = k; n = z }) (omega int_laws)

set_initial_size_done :
    (w w' : Window) (k : ℕ) → Window.set_initial_size w k ≡ done w' → w' ≡ resized k w
unfolding Window.set_initial_size
set_initial_size_done w w' k e = ground arith

abbrev elem : ℕ → List ℕ → Bool
elem id [] = false
elem id (j ∷ js) = j == id || elem id js

-- One round of the loop that succeeds.
resize_each_step :
    (k j : ℕ) (js : List ℕ) (s t : Sender)
    → resize_each k (j ∷ js) s ≡ done t
    → (w : Window) × (lookup j s.stream ≡ some w)
      × (resize_each k js (record s { stream = insert j (resized k w) s.stream }) ≡ done t)
unfolding resize_each
resize_each_step k j js s t e = elim (Option-cases (lookup j s.stream)) [
  | inl gone ↦ absurd (cc (rw (gone, resize_each) at e))
  | inr (w, f) ↦ (w, f, finish w (Window.set_initial_size w k) refl (rw (f, resize_each) at e))
]
  where
    finish :
        (w : Window) (o : Outcome Window)
        → Window.set_initial_size w k ≡ o
        → (lift (λ w'. record s { stream = insert j w' s.stream }) o >>= λ s'. resize_each k js s')
          ≡ done t
        → resize_each k js (record s { stream = insert j (resized k w) s.stream }) ≡ done t
    finish w (done w') p q = rw (← set_initial_size_done w w' k p) q
    finish w (failed x w') p q = absurd (cc q)
    finish w panicked p q = absurd (cc q)

-- After the loop a listed stream has the new size, and any other is as it was.
lookup-resize_each :
    (k : ℕ) (ids : List ℕ) (s t : Sender) (id : ℕ)
    → resize_each k ids s ≡ done t
    → lookup id t.stream
      ≡ (if elem id ids then resized? k (lookup id s.stream) else lookup id s.stream)
lookup-resize_each k [] s t id e = unfold resize_each in ground arith
lookup-resize_each k (j ∷ js) s t id e =
    let (w, f, rest) = resize_each_step k j js s t e in
    ground (
      arith,
      lookup-resize_each k js (record s { stream = insert j (resized k w) s.stream }) t id rest,
      lookup-insert j id (resized k w) s.stream,
      resized_twice k w,
    )

resize_each_frame :
    (k : ℕ) (ids : List ℕ) (s t : Sender)
    → resize_each k ids s ≡ done t
    → (t.conn ≡ s.conn) × (t.err ≡ s.err) × (t.waiting ≡ s.waiting)
resize_each_frame k [] s t e = unfold resize_each in ground arith
resize_each_frame k (j ∷ js) s t e =
    let (w, f, rest) = resize_each_step k j js s t e in resize_each_frame k js _ t rest

elem-insert_sorted :
    (id k : ℕ) (js : List ℕ) → elem id (insert_sorted k js) ≡ (k == id || elem id js)
unfolding insert_sorted
elem-insert_sorted id k [] = refl
elem-insert_sorted id k (j ∷ js) = ground (arith, elem-insert_sorted id k js)

elem-sorted_keys : (id : ℕ) (m : Assoc Window) → elem id (sorted_keys m) ≡ is_some (lookup id m)
unfolding sorted_keys lookup
elem-sorted_keys id [] = refl
elem-sorted_keys id ((k, v) ∷ m) =
    ground (arith, elem-insert_sorted id k (sorted_keys m), elem-sorted_keys id m)

-- When SetInitialSize succeeds on an open sender, every open stream's window, whichever order the
-- streams come in, has the new size and has moved by the difference, no stream appears or goes,
-- the connection's window stays, and streams opened later start at the new size.
pub set_initial_size_resizes :
    (s t : Sender) (k id : ℕ)
    → s.err ≡ none
    → set_initial_size s k ≡ done t
    → (lookup id t.stream ≡ resized? k (lookup id s.stream)) × (t.conn ≡ s.conn) × (t.initial ≡ k)
unfolding set_initial_size
set_initial_size_resizes s t k id running e =
    finish (resize_each k (sorted_keys s.stream) s) refl (rw (running, set_initial_size) at e)
  where
    finish :
        (o : Outcome Sender)
        → resize_each k (sorted_keys s.stream) s ≡ o
        → (o >>= λ s'. done (record s' { initial = k })) ≡ done t
        → (lookup id t.stream ≡ resized? k (lookup id s.stream))
          × (t.conn ≡ s.conn)
          × (t.initial ≡ k)
    finish (done u) p q = ground (
      arith,
      lookup-resize_each k (sorted_keys s.stream) s u id p,
      elem-sorted_keys id s.stream,
      resize_each_frame k (sorted_keys s.stream) s u p,
    )
    finish (failed x u) p q = absurd (cc q)
    finish panicked p q = absurd (cc q)

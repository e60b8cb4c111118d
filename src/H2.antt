-- ===== src/H2.antt =====
-- internal/h2/types.go: error codes, errors with their scope, header fields, and the header codec
-- that the stream table drives. An error's reason text is for people and is left out.
use zerodeps_hackk.Base.{ℕ, Bool, List, Option}

-- A uint32 that arrives on the wire, so not only the values that have names.
abbrev pub ErrCode : Type 0
ErrCode = ℕ

abbrev pub no_error : ErrCode
no_error = 0x0

abbrev pub protocol_error : ErrCode
protocol_error = 0x1

abbrev pub internal_error : ErrCode
internal_error = 0x2

abbrev pub flow_control_error : ErrCode
flow_control_error = 0x3

abbrev pub settings_timeout : ErrCode
settings_timeout = 0x4

abbrev pub stream_closed : ErrCode
stream_closed = 0x5

abbrev pub frame_size_error : ErrCode
frame_size_error = 0x6

abbrev pub refused_stream : ErrCode
refused_stream = 0x7

abbrev pub cancel : ErrCode
cancel = 0x8

abbrev pub compression_error : ErrCode
compression_error = 0x9

abbrev pub enhance_your_calm : ErrCode
enhance_your_calm = 0xb

-- `stream_gone` is flow.ErrStreamGone; `external` stands for an error made elsewhere, such as a
-- socket's.
pub data Error : Type 0 where
  conn_error : ErrCode → Error
  stream_error : ℕ → ErrCode → Error
  stream_gone : Error
  external : ℕ → Error

pub record Field : Type 0 where
  pub name : List ℕ
  pub value : List ℕ
  pub sensitive : Bool

-- The half of h2.HeaderCodec that decodes, over the codec's own state.
pub record HeaderCodec (C : Type 0) : Type 0 where
  pub decode : C → List ℕ → C × Option (List Field)

-- What a Go method that returns `error` leaves behind: the state with a nil or a non-nil error,
-- or a panic.
pub data Outcome {ℓ} (S : Type ℓ) : Type ℓ where
  done : S → Outcome S
  failed : Error → S → Outcome S
  panicked : Outcome S

-- `if err != nil { return err }` after a step, with the state that the step left.
infixl 5 ◌>>=◌
abbrev pub ◌>>=◌ {ℓ} : {S : Type ℓ} → Outcome S → (S → Outcome S) → Outcome S
done s >>= f = f s
failed e s >>= f = failed e s
panicked >>= f = panicked

-- A step on a part of the state, seen from the whole.
abbrev pub lift {ℓ κ} : {S : Type ℓ} {T : Type κ} → (S → T) → Outcome S → Outcome T
lift put (done s) = done (put s)
lift put (failed e s) = failed e (put s)
lift put panicked = panicked

-- The state is good, the error nil or not, and nothing panicked.
abbrev pub Ensures {ℓ} : {S : Type ℓ} → (S → Type 0) → Outcome S → Type 0
Ensures P (done s) = P s
Ensures P (failed e s) = P s
Ensures P panicked = ⊥

pub Ensures-bind {ℓ} :
    {S : Type ℓ} (P : S → Type 0) (m : Outcome S) (f : S → Outcome S)
    → Ensures P m
    → ((s : S) → P s → Ensures P (f s))
    → Ensures P (m >>= f)
Ensures-bind P (done s) f h k = k s h
Ensures-bind P (failed e s) f h k = h
Ensures-bind P panicked f h k = h

pub Ensures-and {ℓ} :
    {S : Type ℓ} (P Q : S → Type 0) (m : Outcome S)
    → Ensures P m
    → Ensures Q m
    → Ensures (λ s. P s × Q s) m
Ensures-and P Q (done s) p q = (p, q)
Ensures-and P Q (failed e s) p q = (p, q)
Ensures-and P Q panicked p q = p

pub Ensures-map {ℓ κ} :
    {S : Type ℓ} {T : Type κ} (P : S → Type 0) (Q : T → Type 0) (put : S → T) (m : Outcome S)
    → ((s : S) → P s → Q (put s))
    → Ensures P m
    → Ensures Q (lift put m)
Ensures-map P Q put (done s) f p = f s p
Ensures-map P Q put (failed e s) f p = f s p
Ensures-map P Q put panicked f p = p

-- A step that leaves P, and what follows from there.
pub Ensures-then {ℓ} :
    {S : Type ℓ} (P Q : S → Type 0) (m : Outcome S) (f : S → Outcome S)
    → Ensures P m
    → ((s : S) → P s → Q s)
    → ((s : S) → P s → Ensures Q (f s))
    → Ensures Q (m >>= f)
Ensures-then P Q (done s) f p stop go = go s p
Ensures-then P Q (failed e s) f p stop go = stop s p
Ensures-then P Q panicked f p stop go = p

pub Ensures-weaken {ℓ} :
    {S : Type ℓ} (P Q : S → Type 0) (m : Outcome S)
    → ((s : S) → P s → Q s)
    → Ensures P m
    → Ensures Q m
Ensures-weaken P Q (done s) f p = f s p
Ensures-weaken P Q (failed e s) f p = f s p
Ensures-weaken P Q panicked f p = p

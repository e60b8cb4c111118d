-- ===== src/Stream/Table/Invariant.antt =====
-- What holds of the stream table of table.go between two frames, and the steps that keep it.
use zerodeps_hackk.Base.{
  ℕ, ◌%◌, ◌≤◌, ◌<◌, ◌≡◌, ap, ◌∙◌, false, if◌then◌else◌, Option, none, some, arith, length,
}
use zerodeps_hackk.Base.Assoc.{
  Assoc, lookup, insert, delete, lookup-insert, lookup-delete, length-insert, length-insert_present,
  length-delete,
}
use zerodeps_hackk.H2.{Error}
use zerodeps_hackk.Flow.Window.{Window}
use zerodeps_hackk.Flow.Window.Bounds.{IsBounded}
use zerodeps_hackk.Flow.Sender.{Sender}
use zerodeps_hackk.Flow.Sender
use zerodeps_hackk.Flow.Sender.Validity
use zerodeps_hackk.Flow.Sender.Streams.{SameStreams}
use zerodeps_hackk.Stream.State.{
  Stream, State, idle, open_both, half_closed_remote, half_closed_local, closed,
  is_half_closed_remote,
}
use zerodeps_hackk.Stream.Table.{Table, Block}

-- Open or half-closed.
abbrev pub IsLive : State → Type 0
IsLive open_both = Unit {0}
IsLive half_closed_remote = Unit {0}
IsLive half_closed_local = Unit {0}
IsLive idle = ⊥
IsLive closed = ⊥

-- A stream of the table is live, has the peer's odd identifier, not above the highest one used,
-- and has its send window; and the sender has no window for any other.
abbrev pub Entry : ℕ → ℕ → Option Stream → Option Window → Type 0
Entry h id none none = Unit {0}
Entry h id (some s) (some w) =
    (s.id ≡ id) × (id % 2 ≡ 1) × (id ≤ h) × IsLive s.state × IsBounded s.recv
Entry h id _ _ = ⊥

pub record Core (m : Assoc Stream) (x : Sender) (h : ℕ) (c : Window) (limit : ℕ) : Type 0 where
  pub entries : (id : ℕ) → Entry h id (lookup id m) (lookup id x.stream)
  pub sender_valid : Validity.IsValid x
  pub conn_bounded : IsBounded c
  pub within : length m ≤ limit

abbrev pub CoreOf : {C R E W : Type 0} → Table C R E W → Type 0
CoreOf t = Core t.streams t.sender t.highest_remote t.conn_recv t.max_concurrent

-- What the table says of a stream that it holds.
pub record Held (m : Assoc Stream) (h : ℕ) (s : Stream) : Type 0 where
  pub held : lookup s.id m ≡ some s
  pub is_odd : s.id % 2 ≡ 1
  pub used : s.id ≤ h
  pub is_live : IsLive s.state
  pub recv_bounded : IsBounded s.recv

pub found-Held :
    (m : Assoc Stream) (x : Sender) (h : ℕ) (c : Window) (limit : ℕ) (id : ℕ) (s : Stream)
    → Core m x h c limit
    → lookup id m ≡ some s
    → (s.id ≡ id) × Held m h s
found-Held m x h c limit id s v e = go (lookup id x.stream) (rw e at (v.entries id))
  where
    go : (o : Option Window) → Entry h id (some s) o → (s.id ≡ id) × Held m h s
    go none p = absurd p
    go (some w) (same, is_odd, used, is_live, bounded) = (
      same,
      record {
        held = ap (λ j. lookup j m) same ∙ e;
        is_odd = rw same is_odd;
        used = rw same used;
        is_live = is_live;
        recv_bounded = bounded;
      },
    )

-- A stream that changes and stays live.
pub store-Core :
    (m : Assoc Stream) (x : Sender) (h : ℕ) (c : Window) (limit : ℕ) (s u : Stream)
    → Core m x h c limit
    → lookup s.id m ≡ some u
    → IsLive s.state
    → IsBounded s.recv
    → Core (insert s.id s m) x h c limit
store-Core m x h c limit s u v e l b = record {
  entries = λ j. ground (arith, v.entries j, v.entries s.id, lookup-insert s.id j s m);
  sender_valid = v.sender_valid;
  conn_bounded = v.conn_bounded;
  within = ground (arith, v.within, length-insert_present s.id s u m e);
}

-- A stream that leaves.
pub delete-Core :
    (m : Assoc Stream) (x : Sender) (h : ℕ) (c : Window) (limit id : ℕ)
    → Core m x h c limit
    → Core (delete id m) (Sender.retire x id) h c limit
unfolding Sender.retire
delete-Core m x h c limit id v = record {
  entries = λ j. ground (arith, v.entries j, lookup-delete id j m, lookup-delete id j x.stream);
  sender_valid = Validity.retire-IsValid x id v.sender_valid;
  conn_bounded = v.conn_bounded;
  within = ground (arith, v.within, length-delete id m);
}

-- A stream that closes: changed, and then removed.
pub close-Core :
    (m : Assoc Stream) (x : Sender) (h : ℕ) (c : Window) (limit : ℕ) (s u : Stream)
    → Core m x h c limit
    → lookup s.id m ≡ some u
    → Core (delete s.id (insert s.id s m)) (Sender.retire x s.id) h c limit
unfolding Sender.retire
close-Core m x h c limit s u v e = record {
  entries = λ j. ground (
    arith,
    v.entries j,
    lookup-delete s.id j (insert s.id s m),
    lookup-insert s.id j s m,
    lookup-delete s.id j x.stream,
  );
  sender_valid = Validity.retire-IsValid x s.id v.sender_valid;
  conn_bounded = v.conn_bounded;
  within =
      ground
        (arith, v.within, length-delete s.id (insert s.id s m), length-insert_present s.id s u m e);
}

-- A new stream enters both maps; the window is the one that the sender makes.
pub insert-Core :
    (m : Assoc Stream) (x x' : Sender) (h : ℕ) (c : Window) (limit : ℕ) (s : Stream) (w : Window)
    → Core m x h c limit
    → lookup s.id m ≡ none
    → Entry h s.id (some s) (some w)
    → length m < limit
    → Validity.IsValid x'
    → x'.stream ≡ insert s.id w x.stream
    → Core (insert s.id s m) x' h c limit
insert-Core m x x' h c limit s w v e n l sv q = record {
  entries = λ j.
      rw q (ground (arith, v.entries j, lookup-insert s.id j s m, lookup-insert s.id j w x.stream));
  sender_valid = sv;
  conn_bounded = v.conn_bounded;
  within = ground (arith, length-insert s.id s m);
}

-- The peer's highest identifier only grows.
pub highest-Core :
    (m : Assoc Stream) (x : Sender) (h h' : ℕ) (c : Window) (limit : ℕ)
    → h ≤ h'
    → Core m x h c limit
    → Core m x h' c limit
highest-Core m x h h' c limit le v = record {
  entries = λ j. ground (arith, v.entries j);
  sender_valid = v.sender_valid;
  conn_bounded = v.conn_bounded;
  within = v.within;
}

-- A sender that changed and holds the same streams.
pub sender-Core :
    (m : Assoc Stream) (x y : Sender) (h : ℕ) (c : Window) (limit : ℕ)
    → Core m x h c limit
    → Validity.IsValid y
    → SameStreams x y
    → Core m y h c limit
sender-Core m x y h c limit v sv q = record {
  entries = λ j. ground (arith, v.entries j, q j);
  sender_valid = sv;
  conn_bounded = v.conn_bounded;
  within = v.within;
}

-- What the header block under reassembly may count on. A request's block that will be admitted
-- finds its identifier unused and a place free; a trailer's block finds its stream, on the peer's
-- turn.
abbrev pub Trailing : Option Stream → Type 0
Trailing none = ⊥
Trailing (some s) = is_half_closed_remote s.state ≡ false

abbrev pub Pending : Assoc Stream → ℕ → Block → Option Error → Type 0
Pending m limit b (some e) = b.trailer ≡ false → lookup b.id m ≡ none
Pending m limit b none =
    if b.trailer then Trailing (lookup b.id m) else ((lookup b.id m ≡ none) × (length m < limit))

abbrev pub BlockOk : Assoc Stream → ℕ → ℕ → Option Block → Type 0
BlockOk m h limit none = Unit {0}
BlockOk m h limit (some b) = (b.id % 2 ≡ 1) × (b.id ≤ h) × Pending m limit b b.verdict

pub record Inv {C R E W : Type 0} (t : Table C R E W) : Type 0 where
  pub core : CoreOf t
  pub block : BlockOk t.streams t.highest_remote t.max_concurrent t.assembling

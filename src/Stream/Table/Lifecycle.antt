-- ===== src/Stream/Table/Lifecycle.antt =====
-- The life of a stream under `HandleFrame` of table.go, against the state diagram of RFC 9113
-- section 5.1. `StateOf` calls a stream closed from its HEADERS frame on until its header block is
-- complete, since the identifier is used and no map holds it; its phase here is still idle.
pub mod Moves
pub mod Opening
pub mod Frames
use zerodeps_hackk.Base.{
  ℕ, ◌%◌, ◌≤◌, ◌<◌, ◌≡◌, refl, ◌∙◌, Bool, true, false, ◌==◌, ltb, leb, ◌&&◌, not, if◌then◌else◌,
  List, [], ◌∷◌, ◌++◌, Option, none, some, arith, inl, inr, Bool-cases, Option-cases,
}
use zerodeps_hackk.Base.Assoc.{Assoc, lookup, insert, delete, lookup-insert, lookup-delete}
use zerodeps_hackk.Stream.State.{
  Stream, State, idle, open_both, half_closed_remote, half_closed_local, closed,
}
use zerodeps_hackk.Stream.Table.{Table, Block, state_of}

-- Whose frames move a stream: those that the peer sends, or those that this side sends.
pub data Side : Type 0 where
  the_peer : Side
  this_side : Side

-- The transitions of the diagram, and those made of several. What the peer sends opens a stream, ends
-- the peer's half of it, or closes it; it never ends this side's half. What this side sends ends its
-- own half, which closes a stream whose other half has ended.
abbrev pub may_become : Side → State → State → Bool
may_become the_peer idle half_closed_local = false
may_become the_peer idle st = true
may_become the_peer open_both idle = false
may_become the_peer open_both half_closed_local = false
may_become the_peer open_both st = true
may_become this_side idle idle = true
may_become this_side idle st = false
may_become this_side open_both open_both = true
may_become this_side open_both half_closed_local = true
may_become this_side open_both st = false
may_become side half_closed_remote half_closed_remote = true
may_become side half_closed_remote closed = true
may_become side half_closed_remote st = false
may_become the_peer half_closed_local half_closed_local = true
may_become the_peer half_closed_local closed = true
may_become the_peer half_closed_local st = false
may_become this_side half_closed_local half_closed_local = true
may_become this_side half_closed_local st = false
may_become side closed closed = true
may_become side closed st = false

pub may_become_refl : (side : Side) (a : State) → may_become side a a ≡ true
may_become_refl the_peer idle = refl
may_become_refl the_peer open_both = refl
may_become_refl the_peer half_closed_remote = refl
may_become_refl the_peer half_closed_local = refl
may_become_refl the_peer closed = refl
may_become_refl this_side idle = refl
may_become_refl this_side open_both = refl
may_become_refl this_side half_closed_remote = refl
may_become_refl this_side half_closed_local = refl
may_become_refl this_side closed = refl

pub may_become_trans :
    (side : Side) (a b c : State)
    → may_become side a b ≡ true
    → may_become side b c ≡ true
    → may_become side a c ≡ true
may_become_trans the_peer idle b c p q = ground arith
may_become_trans the_peer open_both b c p q = ground arith
may_become_trans the_peer half_closed_remote b c p q = ground arith
may_become_trans the_peer half_closed_local b c p q = ground arith
may_become_trans the_peer closed b c p q = ground arith
may_become_trans this_side idle b c p q = ground arith
may_become_trans this_side open_both b c p q = ground arith
may_become_trans this_side half_closed_remote b c p q = ground arith
may_become_trans this_side half_closed_local b c p q = ground arith
may_become_trans this_side closed b c p q = ground arith

-- The stream whose first header block is being assembled.
abbrev pub opening : Option Block → ℕ → Bool
opening none id = false
opening (some b) id = not b.trailer && b.id == id

abbrev pub phase_of : Assoc Stream → ℕ → Option Block → ℕ → State
phase_of m h o id = if opening o id then idle else elim (lookup id m) [
  | some s ↦ s.state
  | none ↦ if id % 2 == 0 then idle else if ltb h id then idle else closed
]

-- The phase of stream `id`: idle while its first block is open, and else its state.
abbrev pub phase : {C R E W : Type 0} → Table C R E W → ℕ → State
phase t id = phase_of t.streams t.highest_remote t.assembling id

module _ (m : Assoc Stream) (h : ℕ) (o : Option Block) (id : ℕ) where
  pub store_moves :
      (side : Side) (s u : Stream)
      → lookup s.id m ≡ some u
      → may_become side u.state s.state ≡ true
      → may_become side (phase_of m h o id) (phase_of (insert s.id s m) h o id) ≡ true
  store_moves side s u e p =
      ground (arith, lookup-insert s.id id s m, may_become_refl side (phase_of m h o id))

  pub close_moves :
      (side : Side) (s u : Stream)
      → lookup s.id m ≡ some u
      → s.id % 2 ≡ 1
      → s.id ≤ h
      → may_become side u.state closed ≡ true
      → may_become side (phase_of m h o id) (phase_of (delete s.id (insert s.id s m)) h o id) ≡ true
  close_moves side s u e odd used p = ground (
    arith,
    lookup-delete s.id id (insert s.id s m),
    lookup-insert s.id id s m,
    may_become_refl side (phase_of m h o id),
  )

  -- Where a block ends and nothing was opened.
  pub end_moves :
      (b : Block)
      → o ≡ some b
      → (b.trailer ≡ false → lookup b.id m ≡ none)
      → may_become the_peer (phase_of m h o id) (phase_of m h none id) ≡ true
  end_moves b e absent = elim (Bool-cases b.trailer) [
    | inl trailer ↦ ground (arith, may_become_refl the_peer (phase_of m h none id))
    | inr first ↦ ground (arith, absent first, may_become_refl the_peer (phase_of m h none id))
  ]

  -- A stream enters whose block this was.
  pub add_moves :
      (b : Block) (s : Stream)
      → o ≡ some b
      → b.trailer ≡ false
      → s.id ≡ b.id
      → s.state ≡ open_both
      → may_become the_peer (phase_of m h o id) (phase_of (insert s.id s m) h none id) ≡ true
  add_moves b s e f p opened =
      ground (arith, lookup-insert s.id id s m, may_become_refl the_peer (phase_of m h none id))

module _ (m : Assoc Stream) (h : ℕ) (id : ℕ) where
  -- A new identifier is used: those below it that no stream has are closed with it.
  pub begin_moves :
      (b : Block)
      → b.trailer ≡ false
      → lookup b.id m ≡ none
      → h < b.id
      → may_become the_peer (phase_of m h none id) (phase_of m b.id (some b) id) ≡ true
  begin_moves b f e le = ground (arith, may_become_refl the_peer (phase_of m h none id))

-- ===== src/Exchange/Body/Order.antt =====
-- In what order a body hands its octets on.
use zerodeps_hackk.Base.{
  none, Bool, true, false, ◌≢◌, ℕ, ◌≤◌, ◌≡◌, List, [], ◌∷◌, ◌++◌, length, drop,
}
use zerodeps_hackk.H2.{Error, Field}
use zerodeps_hackk.Exchange.Body.{
  BodyCredit, Body, Taken, parked, lost, at_end, took, new_body, take_from, add, end_with, fail,
  read,
}

-- What the two goroutines do to a body.
pub data Event : Type 0 where
  added : List ℕ → Event
  was_read : ℕ → Event
  ended : List Field → Event
  failed : Error → Event

abbrev pub octets_of : Taken → List ℕ
octets_of parked = []
octets_of (lost err) = []
octets_of at_end = []
octets_of (took octets more) = octets

unfoldable pub joined : List (List ℕ) → List ℕ
joined [] = []
joined (c ∷ chunks) = c ++ joined chunks

-- A body, what it has been given, what has been read of it, and whether END_STREAM has come.
pub record History (K : Type 0) : Type 0 where
  pub body : Body K
  pub given : List ℕ
  pub got : List ℕ
  pub over : Bool

abbrev pub FirstFits : ℕ → List (List ℕ) → Type 0
FirstFits off [] = off ≡ 0
FirstFits off (c ∷ chunks) = off ≤ length c

abbrev pub pending : ℕ → List (List ℕ) → List ℕ
pending off chunks = drop off (joined chunks)

-- What has been read and what is still held are together what has been given. A read answers io.EOF only
-- where END_STREAM has come and all has been read; and where END_STREAM has come, no read waits, and one that
-- finds nothing held and no error answers io.EOF.
pub record Faithful {K : Type 0} (h : History K) : Type 0 where
  pub fits : FirstFits h.body.off h.body.chunks
  pub whole : h.got ++ pending h.body.off h.body.chunks ≡ h.given
  pub all_read :
      (size : ℕ) → (take_from h.body size).1 ≡ at_end → (h.over ≡ true) × (h.got ≡ h.given)
  pub marked : h.body.ended ≡ h.over
  pub no_wait : (size : ℕ) → h.over ≡ true → (take_from h.body size).1 ≢ parked
  pub ends :
      (size : ℕ)
      → h.over ≡ true
      → h.body.err ≡ none
      → h.body.chunks ≡ []
      → (take_from h.body size).1 ≡ at_end

module _ {K : Type 0} where
  -- What a step hands on is the front of what was held.
  abbrev Keeps : Body K → List (List ℕ) → Body K × Taken → Type 0
  Keeps b chunks r =
      FirstFits r.0.off r.0.chunks
      × (octets_of r.1 ++ pending r.0.off r.0.chunks ≡ pending b.off chunks)

module _ {K : Type 0} ⦃credits : BodyCredit K⦄ where
  unfoldable pub apply : History K → Event → History K
  apply h (added chunk) = record h { body = add h.body chunk; given = h.given ++ chunk }
  apply h (was_read size) = record h {
    body = (read h.body size).0;
    got = h.got ++ octets_of (read h.body size).1;
  }
  apply h (ended trailers) = record h { body = end_with h.body trailers; over = true }
  apply h (failed err) = record h { body = fail h.body err }

  unfoldable pub apply_all : History K → List Event → History K
  unfolding apply
  apply_all h [] = h
  apply_all h (e ∷ events) = apply_all (apply h e) events

  abbrev pub start : ℕ → K → History K
  start id credit = record { body = new_body id credit; given = []; got = []; over = false }

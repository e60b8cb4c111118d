-- ===== src/Exchange/Body.antt =====
-- internal/exchange/body.go: the content of a request, between the reader goroutine of a connection and
-- the handler. A mutex makes each method one step; a wait on the condition is the answer `parked`.
pub mod Order
use zerodeps_hackk.Base.{
  ℕ, zero, suc, ◌+◌, ◌-◌, Bool, true, false, ◌||◌, not, ◌==◌, ltb, if◌then◌else◌, List, [], ◌∷◌,
  ◌++◌, Option, none, some, is_some, length, take, drop, min,
}
use zerodeps_hackk.H2.{Error, Field}

pub record BodyCredit (K : Type 0) : Type 0 where
  pub report_consumed : K → ℕ → ℕ → Bool → K

pub record Body (K : Type 0) : Type 0 where
  pub id : ℕ
  pub credit : K
  pub chunks : List (List ℕ)
  pub off : ℕ
  pub ended : Bool
  pub err : Option Error
  pub trailers : List Field

-- What a read answers: nothing yet, the error of the body, io.EOF, or octets and whether more may come.
pub data Taken : Type 0 where
  parked : Taken
  lost : Error → Taken
  at_end : Taken
  took : List ℕ → Bool → Taken

abbrev pub is_empty : List (List ℕ) → Bool
is_empty [] = true
is_empty (c ∷ chunks) = false

module _ {K : Type 0} where
  unfoldable pub new_body : ℕ → K → Body K
  new_body id credit = record {
    id = id;
    credit = credit;
    chunks = [];
    off = 0;
    ended = false;
    err = none;
    trailers = [];
  }

  -- Behind a copy of n octets of the first chunk, and how many chunks are left.
  unfoldable pub advance : Body K → List ℕ → List (List ℕ) → ℕ → Body K
  advance b chunk rest n =
      if b.off + n == length chunk
      then record b { chunks = rest; off = 0 }
      else record b { chunks = chunk ∷ rest; off = b.off + n }

  -- `take` on the chunks that have arrived, where there is no error.
  unfoldable pub take_chunk : Body K → ℕ → List (List ℕ) → Body K × Taken
  unfolding advance
  take_chunk b size [] = if b.ended then (b, at_end) else (b, parked)
  take_chunk b size (chunk ∷ rest) =
      let n = min size (length (drop b.off chunk)) in
      let b' = advance b chunk rest n in
      (b', took (take n (drop b.off chunk)) (not b.ended || not (is_empty b'.chunks)))

  unfoldable pub take_from : Body K → ℕ → Body K × Taken
  unfolding take_chunk
  take_from b size = elim b.err [ some err ↦ (b, lost err) | none ↦ take_chunk b size b.chunks ]

  unfoldable pub add : Body K → List ℕ → Body K
  add b chunk = record b { chunks = b.chunks ++ chunk ∷ [] }

  unfoldable pub end_with : Body K → List Field → Body K
  end_with b trailers = record b { trailers = trailers; ended = true }

  unfoldable pub fail : Body K → Error → Body K
  fail b err = if is_some b.err then b else record b { err = some err }

module _ {K : Type 0} ⦃credits : BodyCredit K⦄ where
  unfoldable pub reported : Body K → Taken → Body K
  reported b parked = b
  reported b (lost err) = b
  reported b at_end = b
  reported b (took octets more) =
      if ltb 0 (length octets)
      then record b { credit = credits.report_consumed b.credit b.id (length octets) more }
      else b

  -- `size` is the room of the handler's slice.
  unfoldable pub read : Body K → ℕ → Body K × Taken
  unfolding take_from reported
  read b zero = (b, took [] true)
  read b (suc size) = let (b', taken) = take_from b (suc size) in (reported b' taken, taken)

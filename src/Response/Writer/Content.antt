-- ===== src/Response/Writer/Content.antt =====
-- The DATA frames that Write of internal/response/writer.go makes of its octets.
use zerodeps_hackk.Base.{
  ℕ, zero, suc, ◌+◌, ◌≤◌, ◌<◌, ◌≡◌, refl, ap, Bool, true, false, not, if◌then◌else◌, List, [], ◌∷◌,
  Option, none, some, elim-Option, length, length-drop, take, drop, min, arith,
}
use zerodeps_hackk.H2.{Error}
use zerodeps_hackk.Stream.State.{Writer}
use zerodeps_hackk.Response.Encoder.{Transport, split_at}
use zerodeps_hackk.Response.Encoder.Sections.{split_at_positive}
use zerodeps_hackk.Response.Writer.{
  Credit, ResponseWriter, enqueue_frame, data_of, write_loop, write, err_done, err_no_header,
}

-- A grant is at least an octet, and no more than was asked for.
abbrev pub IsGranting : (R : Type 0) → ⦃credits : Credit R⦄ → Type 0
IsGranting R ⦃credits = credits⦄ =
    (r : R) (id want : ℕ)
    → 0 < want
    → (credits.reserve r id want).2 ≡ none
    → (0 < (credits.reserve r id want).1) × ((credits.reserve r id want).1 ≤ want)

module _ {C W R : Type 0} ⦃transport : Transport W⦄ ⦃writer : Writer W⦄ ⦃credits : Credit R⦄ where
  -- DATA frames, each of octets that are granted and no longer than the peer allows, from octets to
  -- those that are left.
  pub data Body : ResponseWriter C W R → List ℕ → List ℕ → ResponseWriter C W R → Type 0 where
    stopped : (w : ResponseWriter C W R) (p : List ℕ) → Body w p p w
    carried :
        (w w1 w2 : ResponseWriter C W R) (p rest : List ℕ) (r : R) (n : ℕ)
        → 0 < n
        → n ≤ length p
        → n ≤ split_at w.enc.t
        → credits.reserve w.credit w.id (min (length p) (split_at w.enc.t)) ≡ (r, n, none)
        → enqueue_frame (record w { credit = r }) (data_of w.id false (take n p)) ≡ (w1, none)
        → Body w1 (drop n p) rest w2
        → Body w p rest w2

  -- Why the sending stops, with what is left: nothing is; the credit is refused, by an error that is
  -- answered; or the connection refuses the next frame, by an error that is answered.
  pub data Ending
      : ResponseWriter C W R → List ℕ → ResponseWriter C W R × Option Error → Type 0 where
    all_sent : (last : ResponseWriter C W R) → Ending last [] (last, none)
    no_credit :
        (last : ResponseWriter C W R) (b : ℕ) (rest : List ℕ) (r : R) (n : ℕ) (err : Error)
        → credits.reserve last.credit last.id (min (length (b ∷ rest)) (split_at last.enc.t))
          ≡ (r, n, some err)
        → Ending last (b ∷ rest) (record last { credit = r }, some err)
    not_queued :
        (last w1 : ResponseWriter C W R) (b : ℕ) (rest : List ℕ) (r : R) (n : ℕ) (err : Error)
        → credits.reserve last.credit last.id (min (length (b ∷ rest)) (split_at last.enc.t))
          ≡ (r, n, none)
        → enqueue_frame (record last { credit = r }) (data_of last.id false (take n (b ∷ rest)))
          ≡ (w1, some err)
        → Ending last (b ∷ rest) (w1, some err)

  -- What a call of Write answers is what has been sent, and all of it where there is no error.
  pub record Written (w : ResponseWriter C W R) (p : List ℕ) (before : ℕ)
      (result : ResponseWriter C W R × ℕ × Option Error) : Type 0 where
    pub octets : ℕ
    pub rest : List ℕ
    pub last : ResponseWriter C W R
    pub content : Body w p rest last
    pub counted : result.1 ≡ before + octets
    pub split : octets + length rest ≡ length p
    pub ending : Ending last rest (result.0, result.2)

  nothing-Written :
      (w w' : ResponseWriter C W R) (p : List ℕ) (before : ℕ) (err : Error)
      → Ending w p (w', some err)
      → Written w p before (w', before, some err)
  nothing-Written w w' p before err ending = record {
    octets = 0;
    rest = p;
    last = w;
    content = stopped w p;
    counted = omega arith;
    split = omega arith;
    ending = ending;
  }

  carried-Written :
      (w w1 : ResponseWriter C W R) (p : List ℕ) (before n : ℕ) (r : R)
      (result : ResponseWriter C W R × ℕ × Option Error)
      → 0 < n
      → n ≤ length p
      → n ≤ split_at w.enc.t
      → credits.reserve w.credit w.id (min (length p) (split_at w.enc.t)) ≡ (r, n, none)
      → enqueue_frame (record w { credit = r }) (data_of w.id false (take n p)) ≡ (w1, none)
      → Written w1 (drop n p) (before + n) result
      → Written w p before result
  carried-Written w w1 p before n r result positive fits bounded granted queued later = record {
    octets = n + later.octets;
    rest = later.rest;
    last = later.last;
    content =
        carried w w1 later.last p later.rest r n positive fits bounded granted queued later.content;
    counted = omega (arith, later.counted);
    split = omega (arith, later.split, length-drop n p);
    ending = later.ending;
  }

  write_loop-Written :
      (fuel : ℕ) (w : ResponseWriter C W R) (before : ℕ) (p : List ℕ)
      → IsGranting R
      → length p ≤ fuel
      → Written w p before (write_loop fuel w before p)
  unfolding write_loop
  write_loop-Written fuel w before [] granting enough = record {
    octets = 0;
    rest = [];
    last = w;
    content = stopped w [];
    counted = omega arith;
    split = refl;
    ending = all_sent w;
  }
  write_loop-Written zero w before (b ∷ p) granting enough = absurd (omega arith)
  write_loop-Written (suc fuel) w before (b ∷ p) granting enough =
      elim-Option (Written w (b ∷ p) before) grant.2 (λ err. (w', before, some err))
        (elim queued.1 [
          | some err ↦ (queued.0, before, some err)
          | none ↦ write_loop fuel queued.0 (before + grant.1) (drop grant.1 (b ∷ p))
        ])
        (λ err h.
          nothing-Written w w' (b ∷ p) before err
            (no_credit w b p grant.0 grant.1 err (ap (λ e. (grant.0, grant.1, e)) h)))
        (λ given.
          elim-Option (Written w (b ∷ p) before) queued.1 (λ err. (queued.0, before, some err))
            (write_loop fuel queued.0 (before + grant.1) (drop grant.1 (b ∷ p)))
            (λ err h. nothing-Written w queued.0 (b ∷ p) before err (
              not_queued w queued.0 b p grant.0 grant.1 err (ap (λ e. (grant.0, grant.1, e)) given)
                (ap (λ e. (queued.0, e)) h)))
            (λ taken.
              let (positive, fits) =
                granting w.credit w.id (min (length (b ∷ p)) (split_at w.enc.t))
                  (omega (arith, split_at_positive w.enc.t)) given in
              carried-Written w queued.0 (b ∷ p) before grant.1 grant.0
                (write_loop fuel queued.0 (before + grant.1) (drop grant.1 (b ∷ p))) positive
                (omega (arith, fits)) (omega (arith, fits)) (ap (λ e. (grant.0, grant.1, e)) given)
                (ap (λ e. (queued.0, e)) taken)
                (write_loop-Written fuel queued.0 (before + grant.1) (drop grant.1 (b ∷ p)) granting
                  (omega (arith, positive, length-drop grant.1 (b ∷ p))))))
    where
      grant : R × ℕ × Option Error
      grant = credits.reserve w.credit w.id (min (length (b ∷ p)) (split_at w.enc.t))

      w' : ResponseWriter C W R
      w' = record w { credit = grant.0 }

      queued : ResponseWriter C W R × Option Error
      queued = enqueue_frame w' (data_of w.id false (take grant.1 (b ∷ p)))

  -- What a call of Write answers: an error where the response has ended or has no header section yet,
  -- with nothing done; and else what has been sent.
  pub data WriteAnswer (w : ResponseWriter C W R) (p : List ℕ)
      : ResponseWriter C W R × ℕ × Option Error → Type 0 where
    over : w.closed ≡ true → WriteAnswer w p (w, 0, some err_done)
    no_header :
        w.closed ≡ false → w.wrote_header ≡ false → WriteAnswer w p (w, 0, some err_no_header)
    written :
        (result : ResponseWriter C W R × ℕ × Option Error)
        → w.closed ≡ false
        → w.wrote_header ≡ true
        → Written w p 0 result
        → WriteAnswer w p result

  write_cases :
      (w : ResponseWriter C W R) (p : List ℕ) (closed headed : Bool)
      → w.closed ≡ closed
      → w.wrote_header ≡ headed
      → IsGranting R
      → WriteAnswer w p (
          if closed
          then (w, 0, some err_done)
          else if not headed
          then (w, 0, some err_no_header)
          else write_loop (length p) w 0 p)
  write_cases w p true headed c h granting = over c
  write_cases w p false false c h granting = no_header c h
  write_cases w p false true c h granting =
      written (write_loop (length p) w 0 p) c h
        (write_loop-Written (length p) w 0 p granting (omega arith))

  -- Where every grant of credit is at least an octet and at most what was asked for, Write on a response
  -- that has its header section and has not ended sends DATA frames of granted octets, each no longer than
  -- the peer allows, that carry a front part of its octets in order, and answers how many it has sent. It
  -- has sent all of them without an error, or it answers the error by which the credit or the connection
  -- refused the next ones, in the state that the refusal left. On any other response it does nothing but
  -- answer an error.
  pub write-WriteAnswer :
      (w : ResponseWriter C W R) (p : List ℕ) → IsGranting R → WriteAnswer w p (write w p)
  unfolding write
  write-WriteAnswer w p granting = write_cases w p w.closed w.wrote_header refl refl granting

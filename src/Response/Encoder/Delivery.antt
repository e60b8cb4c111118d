-- ===== src/Response/Encoder/Delivery.antt =====
-- The frames that internal/response/encoder.go makes of a block.
use zerodeps_hackk.Base.{
  ℕ, zero, suc, ◌≤◌, ◌<◌, ◌≡◌, refl, ap, subst, Bool, ◌==◌, List, [], ◌∷◌, ◌++◌, Option, none, some,
  length, length-take, length-drop, take, drop, append-take-drop, min, arith,
}
use zerodeps_hackk.H2.{Error}
use zerodeps_hackk.Stream.State.{Writer}
use zerodeps_hackk.Response.Encoder.{headers_of, continuation_of, continue_section, write_block}

module _ {W : Type 0} ⦃writer : Writer W⦄ where
  -- CONTINUATION frames that carry a block, END_HEADERS on the last of them alone.
  pub data Continued (id max : ℕ) : W → List ℕ → W → Type 0 where
    ended : (w : W) → Continued id max w [] w
    continued :
        (w w1 w2 : W) (fragment rest : List ℕ)
        → 0 < length fragment
        → length fragment ≤ max
        → writer.enqueue w (continuation_of id (length rest == 0) fragment) ≡ (w1, none)
        → Continued id max w1 rest w2
        → Continued id max w (fragment ++ rest) w2

  -- A HEADERS frame and CONTINUATION frames that carry a block.
  pub record Delivered (id max : ℕ) (end_stream : Bool) (w : W) (block : List ℕ) (w2 : W)
      : Type 0 where
    pub fragment : List ℕ
    pub rest : List ℕ
    pub w1 : W
    pub whole : fragment ++ rest ≡ block
    pub bounded : length fragment ≤ max
    pub opened :
        writer.enqueue w (headers_of id end_stream (length rest == 0) fragment) ≡ (w1, none)
    pub continuations : Continued id max w1 rest w2

ends_with : (n : ℕ) (s : List ℕ) → n ≤ length s → (n == length s) ≡ (length (drop n s) == 0)
ends_with n s h = rw (length-drop n s) (ground arith)

module _ {W : Type 0} where
  -- A step that goes on where the first part of it made no error.
  accepted :
      (r : W × Option Error) (next : W → W × Option Error) (w2 : W)
      → (elim r.1 [ some err ↦ (r.0, some err) | none ↦ next r.0 ]) ≡ (w2, none)
      → (w1 : W) × (r ≡ (w1, none)) × (next w1 ≡ (w2, none))
  accepted (w1, none) next w2 h = (w1, refl, h)
  accepted (w1, some err) next w2 h = absurd (cc)

-- The part of a block that the next frame takes.
abbrev part : ℕ → List ℕ → ℕ
part max s = min (length s) max

part-bounded : (max : ℕ) (s : List ℕ) → length (take (part max s) s) ≤ max
part-bounded max s = rw (length-take (part max s) s) (omega arith)

part-positive :
    (max : ℕ) (b : ℕ) (s : List ℕ) → 0 < max → 0 < length (take (part max (b ∷ s)) (b ∷ s))
part-positive max b s positive = rw (length-take (part max (b ∷ s)) (b ∷ s)) (omega arith)

part-rest :
    (max : ℕ) (b : ℕ) (s : List ℕ) → 0 < max → length (drop (part max (b ∷ s)) (b ∷ s)) ≤ length s
part-rest max b s positive = rw (length-drop (part max (b ∷ s)) (b ∷ s)) (omega arith)

part-last : (max : ℕ) (s : List ℕ) → (part max s == length s) ≡ (length (drop (part max s) s) == 0)
part-last max s = ends_with (part max s) s (omega arith)

module _ {W : Type 0} ⦃writer : Writer W⦄ where
  continue_section-Continued :
      (fuel : ℕ) (w : W) (id max : ℕ) (s : List ℕ) (w2 : W)
      → 0 < max
      → length s ≤ fuel
      → continue_section fuel w id max s ≡ (w2, none)
      → Continued id max w s w2
  unfolding continue_section
  continue_section-Continued zero w id max [] w2 positive enough h =
      subst (Continued id max w []) (ap (λ r. r.0) h) (ended w)
  continue_section-Continued (suc fuel) w id max [] w2 positive enough h =
      subst (Continued id max w []) (ap (λ r. r.0) h) (ended w)
  continue_section-Continued zero w id max (b ∷ s) w2 positive enough h = absurd (omega arith)
  continue_section-Continued (suc fuel) w id max (b ∷ s) w2 positive enough h =
      let n : ℕ = part max (b ∷ s) in
      let (w1, one, rest) =
        accepted (writer.enqueue w (continuation_of id (n == length (b ∷ s)) (take n (b ∷ s))))
          (λ w. continue_section fuel w id max (drop n (b ∷ s))) w2 h in
      subst (λ s. Continued id max w s w2) (append-take-drop n (b ∷ s))
        (continued w w1 w2 (take n (b ∷ s)) (drop n (b ∷ s)) (part-positive max b s positive)
          (part-bounded max (b ∷ s))
          (subst (λ last. writer.enqueue w (continuation_of id last (take n (b ∷ s))) ≡ (w1, none))
            (part-last max (b ∷ s)) one)
          (continue_section-Continued fuel w1 id max (drop n (b ∷ s)) w2 positive
            (omega (arith, part-rest max b s positive)) rest))

  -- Frames that are all taken carry the block.
  pub write_block-Delivered :
      (w : W) (id max : ℕ) (block : List ℕ) (end_stream : Bool) (w2 : W)
      → 0 < max
      → write_block w id max block end_stream ≡ (w2, none)
      → Delivered id max end_stream w block w2
  unfolding write_block
  write_block-Delivered w id max block end_stream w2 positive h = record {
    fragment = take (part max block) block;
    rest = drop (part max block) block;
    w1 = sent.0;
    whole = append-take-drop (part max block) block;
    bounded = part-bounded max block;
    opened =
        subst
          (λ last.
            writer.enqueue w (headers_of id end_stream last (take (part max block) block))
            ≡ (sent.0, none))
          (part-last max block) sent.1;
    continuations =
        continue_section-Continued (length block) sent.0 id max (drop (part max block) block) w2
          positive (rw (length-drop (part max block) block) (omega arith)) sent.2;
  }
    where
      sent :
          (w1 : W) × (writer.enqueue w (
              headers_of id end_stream
                (part max block == length block)
                (take (part max block) block))
            ≡ (w1, none))
          × (continue_section (length block) w1 id max (drop (part max block) block) ≡ (w2, none))
      sent =
          accepted
            (writer.enqueue w (
              headers_of id end_stream (part max block == length block)
                (take (part max block) block)))
            (λ w. continue_section (length block) w id max (drop (part max block) block)) w2 h

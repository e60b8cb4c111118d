-- ===== src/Limits/Bucket/Rate.antt =====
-- How many events the bucket of bucket.go lets through.
use zerodeps_hackk.Base.{
  ℕ, ◌+◌, ◌-◌, ◌*◌, ◌/◌, ◌^◌, ◌≤◌, ◌<◌, ◌≡◌, Bool, true, false, List, [], ◌∷◌, arith, All,
  if◌then◌else◌,
}
use native.Mathlib.Nat.{mod-lt, div-add-mod}
use zerodeps_hackk.Base.Int.{ℤ}
use zerodeps_hackk.Limits.Bucket.{Bucket, new_bucket, earned, refill, allow}

pub record IsValid (b : Bucket) : Type 0 where
  pub burst_pos : 1 ≤ b.burst
  pub interval_pos : 1 ≤ b.interval
  pub tokens_fit : b.tokens ≤ b.burst

pub new_bucket-IsValid :
    (burst per_second : ℤ) (now : ℕ) → IsValid (new_bucket burst per_second now)
unfolding new_bucket
new_bucket-IsValid burst per_second now = ground arith

pub refill-IsValid : (b : Bucket) (now : ℕ) → IsValid b → IsValid (refill b now)
unfolding refill
refill-IsValid b now v = ground arith

pub allow-IsValid : (b : Bucket) (now : ℕ) → IsValid b → IsValid (allow b now).0
unfolding allow
allow-IsValid b now v = ground (arith, refill-IsValid b now v)

-- The time that is banked in tokens and the time since the last refill, up to a horizon.
abbrev potential : ℕ → Bucket → ℕ
potential horizon b = b.tokens * b.interval + (horizon - b.last)

earned-le : (b : Bucket) (now : ℕ) → earned b now * b.interval ≤ now - b.last
earned-le b now = grind arith

earned-pos : (b : Bucket) (now : ℕ) → 0 < earned b now → b.last ≤ now
earned-pos b now h = grind arith

mul_mono : (a b i : ℕ) → a ≤ b → a * i ≤ b * i
mul_mono a b i h = grind arith

refill-potential :
    (horizon : ℕ) (b : Bucket) (now : ℕ)
    → now ≤ horizon
    → b.last ≤ horizon
    → (potential horizon (refill b now) ≤ potential horizon b) × ((refill b now).last ≤ horizon)
unfolding refill
refill-potential horizon b now h l = ground (
  arith,
  earned-le b now,
  earned-pos b now,
  mul_mono b.burst (earned b now + b.tokens) b.interval,
)

refill-interval : (b : Bucket) (now : ℕ) → (refill b now).interval ≡ b.interval
unfolding refill
refill-interval b now = ground arith

one_fewer : (t i : ℕ) → 0 < t → i + (t - 1) * i ≡ t * i
one_fewer t i h = go (t - 1) (omega arith)
  where
    go : (r : ℕ) → t ≡ r + 1 → i + r * i ≡ t * i
    go r e = rw e (omega arith)

allow-potential :
    (horizon : ℕ) (b : Bucket) (now : ℕ)
    → now ≤ horizon
    → b.last ≤ horizon
    → ((if (allow b now).1 then b.interval else 0) + potential horizon (allow b now).0
        ≤ potential horizon b)
      × ((allow b now).0.last ≤ horizon)
      × ((allow b now).0.interval ≡ b.interval)
unfolding allow
allow-potential horizon b now h l = ground (
  arith,
  refill-potential horizon b now h l,
  refill-interval b now,
  one_fewer (refill b now).tokens b.interval,
)

-- How many of the calls at these times are let through.
unfoldable pub allowed : Bucket → List ℕ → ℕ
allowed b [] = 0
allowed b (now ∷ times) =
    let rest = allowed (allow b now).0 times in if (allow b now).1 then rest + 1 else rest

one_more :
    (passed : Bool) (rest p q j i : ℕ)
    → j ≡ i
    → (if passed then i else 0) + p ≤ q
    → rest * j ≤ p
    → (if passed then rest + 1 else rest) * i ≤ q
one_more true rest p q j i e h r = let r' : rest * i ≤ p = rw e at r in omega arith
one_more false rest p q j i e h r = let r' : rest * i ≤ p = rw e at r in omega arith

allowed-potential :
    (horizon : ℕ) (b : Bucket) (times : List ℕ)
    → All (λ now. now ≤ horizon) times
    → b.last ≤ horizon
    → allowed b times * b.interval ≤ potential horizon b
unfolding allowed
allowed-potential horizon b [] a l = omega arith
allowed-potential horizon b (now ∷ times) (h, a) l =
    let (p, last, same) = allow-potential horizon b now h l in
    one_more (allow b now).1 (allowed (allow b now).0 times) _ _ _ b.interval same p
      (allowed-potential horizon (allow b now).0 times a last)

whole_intervals : (n t d i : ℕ) → 1 ≤ i → n * i ≤ t * i + d → n ≤ t + d / i
whole_intervals n t d i h p =
    ground (arith, mul_mono (t + d / i + 1) n i, div-add-mod d i, mod-lt d h)

-- Whatever the clock does, going back included: of the calls made up to a time `horizon`, those
-- let through number at most the tokens at hand and one more for each whole interval since the
-- bucket was last refilled.
pub allowed-le :
    (horizon : ℕ) (b : Bucket) (times : List ℕ)
    → IsValid b
    → All (λ now. now ≤ horizon) times
    → b.last ≤ horizon
    → allowed b times ≤ b.tokens + (horizon - b.last) / b.interval
allowed-le horizon b times v a l =
    whole_intervals (allowed b times) b.tokens (horizon - b.last) b.interval v.interval_pos
      (allowed-potential horizon b times a l)

earned-pos_of :
    (b : Bucket) (now : ℕ)
    → 1 ≤ b.interval
    → b.last + b.interval ≤ now
    → b.interval < 2 ^ 63
    → 1 ≤ earned b now
earned-pos_of b now v h i = grind arith

-- And the bucket recovers: a whole interval after its last refill a call is let through.
pub allow_after_interval :
    (b : Bucket) (now : ℕ)
    → IsValid b
    → b.last + b.interval ≤ now
    → b.interval < 2 ^ 63
    → (allow b now).1 ≡ true
unfolding allow refill
allow_after_interval b now v h i = ground (arith, earned-pos_of b now)

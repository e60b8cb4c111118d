-- ===== src/Limits/Bucket.antt =====
-- internal/limits/bucket.go: the token bucket. A time is a number of nanoseconds, and an interval
-- that a Duration cannot hold is cut to the largest one, as `Time.Sub` does. A clock that goes
-- back gives Go a negative quotient or 0 and the model 0, which earns nothing in both.
pub mod Rate
use zerodeps_hackk.Base.{
  ℕ, ◌+◌, ◌-◌, ◌*◌, ◌/◌, ◌^◌, min, Bool, true, false, leb, ltb, ◌==◌, if◌then◌else◌,
}
use zerodeps_hackk.Base.Int.{ℤ, pos, pos_part, ltb_ℤ}

pub record Bucket : Type 0 where
  pub burst : ℕ
  pub interval : ℕ
  pub tokens : ℕ
  pub last : ℕ

abbrev pub reset_burst : ℤ
reset_burst = pos 100

abbrev pub reset_refill_per_second : ℤ
reset_refill_per_second = pos 20

abbrev second : ℕ
second = 1_000_000_000

-- `if x < 1 { x = 1 }`.
abbrev at_least_one : ℤ → ℕ
at_least_one x = if ltb_ℤ x (pos 1) then 1 else pos_part x

unfoldable pub new_bucket : ℤ → ℤ → ℕ → Bucket
new_bucket burst refill now = record {
  burst = at_least_one burst;
  interval = at_least_one (pos (second / at_least_one refill));
  tokens = at_least_one burst;
  last = now;
}

unfoldable pub new_reset_bucket : ℕ → Bucket
unfolding new_bucket
new_reset_bucket now = new_bucket reset_burst reset_refill_per_second now

-- `now.Sub(b.last) / b.interval`.
abbrev pub earned : Bucket → ℕ → ℕ
earned b now = min (now - b.last) (2 ^ 63 - 1) / b.interval

-- The test `earned >= b.burst - b.tokens`, with no subtraction.
unfoldable pub refill : Bucket → ℕ → Bucket
refill b now =
    if earned b now == 0
    then b
    else if leb b.burst (earned b now + b.tokens)
    then record b { tokens = b.burst; last = now }
    else record b { tokens = b.tokens + earned b now; last = b.last + earned b now * b.interval }

unfoldable pub allow : Bucket → ℕ → Bucket × Bool
allow b now =
    let b' = refill b now in
    if b'.tokens == 0 then (b', false) else (record b' { tokens = b'.tokens - 1 }, true)

unfoldable pub tokens_at : Bucket → ℕ → Bucket × ℕ
tokens_at b now = (refill b now, (refill b now).tokens)

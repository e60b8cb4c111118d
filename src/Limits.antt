-- ===== src/Limits.antt =====
-- internal/limits: the numbers of bounds.go and the token bucket.
pub mod Bucket
use zerodeps_hackk.Base.{ℕ, ◌-◌, ◌/◌, ◌^◌}

abbrev pub max_frame_size : ℕ
max_frame_size = 2 ^ 14

abbrev pub max_header_block_size : ℕ
max_header_block_size = 2 ^ 17

abbrev pub max_continuation_frames : ℕ
max_continuation_frames = 32

abbrev pub max_concurrent_streams : ℕ
max_concurrent_streams = 100

abbrev pub replenish_threshold : ℕ
replenish_threshold = (2 ^ 16 - 1) / 2

abbrev pub max_encoder_table_size : ℕ
max_encoder_table_size = 2 ^ 16

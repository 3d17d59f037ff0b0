-- ===== src/Timeout.antt =====
-- timeout.h and timeout.c. `difftime` gives the difference as a `double`, exact below 2 ^ 53
-- microseconds, so the comparisons are those of the numbers.
use omnixtend_c.Base.{ℕ, ◌+◌, ◌*◌, ◌/◌, Bool, leb}

pub record Timespec : Type 0 where
  pub tv_sec : ℕ
  pub tv_nsec : ℕ

abbrev pub timeout_time : ℕ
timeout_time = 100000

unfoldable pub get_current_timestamp : Timespec → ℕ
get_current_timestamp ts = ts.tv_sec * 1000000 + ts.tv_nsec / 1000

unfoldable pub is_timeout_tx : Timespec → ℕ → Bool
unfolding get_current_timestamp
is_timeout_tx ts ref_time = leb (ref_time + timeout_time) (get_current_timestamp ts)

unfoldable pub is_timeout_tx_half : Timespec → ℕ → Bool
unfolding get_current_timestamp
is_timeout_tx_half ts ref_time = leb (ref_time + timeout_time / 2) (get_current_timestamp ts)

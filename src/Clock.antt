-- ===== src/Clock.antt =====
-- `LamportClock` of types/src/clock.rs. The clock is one atomic u64, and an operation here is one
-- uninterrupted call; Clock/Concurrent.antt has the interleavings of `witness`. The additions wrap
-- at 2^64, as `fetch_add` does always and `time.0 + 1` does in a release build.
pub mod Concurrent
pub mod Order
use ruserf.Prelude.{ℕ, ◌+◌, ◌%◌, ltb, if◌then◌else◌}

abbrev pub u64_mod : ℕ
u64_mod = 18446744073709551616

unfoldable pub new : ℕ
new = 0

-- The new clock, and the time that is returned.
unfoldable pub increment : ℕ → ℕ × ℕ
increment clock = ((clock + 1) % u64_mod, (clock + 1) % u64_mod)

unfoldable pub witness : ℕ → ℕ → ℕ
witness clock t = if ltb t clock then clock else (t + 1) % u64_mod

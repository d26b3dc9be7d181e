-- ===== src/TaskRepo/Backoff.antt =====
-- `BackoffDelay` of internal/repo/task_repo/tasks.go: an exponential delay with jitter, in
-- nanoseconds. `random n` stands for `rand.Int63n(n)`.
use get_magnet.Common.{ℕ, ◌+◌, ◌*◌, ◌/◌, ◌^◌, ltb, if◌then◌else◌}
use get_magnet.TaskRepo.Store.{second}

-- The attempt number between 1 and 8.
unfoldable pub clamp_attempt : ℕ → ℕ
clamp_attempt attempt = if ltb attempt 1 then 1 else if ltb 8 attempt then 8 else attempt

abbrev pub base_delay : ℕ → ℕ
base_delay attempt = second * 2 ^ clamp_attempt attempt

unfoldable pub backoff_delay : ℕ → (ℕ → ℕ) → ℕ
unfolding clamp_attempt
backoff_delay attempt random = base_delay attempt + random (base_delay attempt / 2 + 1)

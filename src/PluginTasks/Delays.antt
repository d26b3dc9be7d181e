-- ===== src/PluginTasks/Delays.antt =====
-- The delay between two attempts of a plugin task (internal/repo/plugin_repo/tasks.go).
use get_magnet.Common.{ℕ, zero, suc, ◌*◌, ◌^◌, ◌≤◌, arith}
use get_magnet.PluginTasks.Rows.{second}
use get_magnet.PluginTasks.Ending.{smaller, retry_delay}

pow_mono : (a b : ℕ) → a ≤ b → 2 ^ a ≤ 2 ^ b
pow_mono zero zero h = omega arith
pow_mono zero (suc b) h = omega (arith, pow_mono zero b (omega arith))
pow_mono (suc a) zero h = absurd (omega arith)
pow_mono (suc a) (suc b) h = omega (arith, pow_mono a b (omega arith))

smaller-bounds : (a b : ℕ) → a ≤ b → (smaller a 6 ≤ smaller b 6) × (smaller b 6 ≤ 6)
unfolding smaller
smaller-bounds a b h = ground arith

-- The wait between two attempts is at least a second and at most 64 seconds, and does not get
-- shorter with more attempts.
pub retry_delay-bounds :
    (a b : ℕ)
    → a ≤ b
    → (second ≤ retry_delay a) × (retry_delay a ≤ retry_delay b) × (retry_delay b ≤ 64 * second)
unfolding retry_delay
retry_delay-bounds a b h =
    let bounds = smaller-bounds a b h in
    omega (
      arith,
      pow_mono 0 (smaller a 6) (omega arith),
      pow_mono (smaller a 6) (smaller b 6) (bounds.0),
      pow_mono (smaller b 6) 6 (bounds.1),
    )

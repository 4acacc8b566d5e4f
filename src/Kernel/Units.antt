-- ===== src/Kernel/Units.antt =====
-- Conversions between budgets in MB/s, bytes and LLC events (cl_mem_reg.c).
pub mod Bounds
use cl_mem_regulation.Common.{ℕ, ◌+◌, ◌-◌, ◌*◌, ◌/◌, u32, u64, sext64, sdiv32, two32, two64}

abbrev pub cache_line_size : ℕ
cache_line_size = 64

-- `g_regulation_period_us` and `mb` are the patterns of `int`s; a division by zero gives 0 here,
-- and faults in the kernel.
unfoldable pub convert_mb_to_events : ℕ → ℕ → ℕ
convert_mb_to_events period_us mb =
    u64 (u64 (sext64 mb * 1024) * 1024) / u64 (cache_line_size * (1000000 / sext64 period_us))

unfoldable pub convert_events_to_mb : ℕ → ℕ → ℕ
convert_events_to_mb period_us events =
    let divisor = u64 (sext64 period_us * 1024 * 1024) in
    u32 (u64 (events * cache_line_size * 1000000 + (divisor + two64 - 1)) / divisor)

-- The result is returned as an `int`.
unfoldable pub convert_bytes_to_events : ℕ → ℕ
convert_bytes_to_events bytes = u32 (bytes / cache_line_size)

-- `int ceiling(int a, int b)`, on the patterns of `int`s; the sum wraps.
unfoldable pub ceiling : ℕ → ℕ → ℕ
ceiling a b = sdiv32 (u32 (a + b + (two32 - 1))) b

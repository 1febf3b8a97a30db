-- ===== src/Sync/Retry.antt =====
-- crates/sync/src/lib.rs: `retry_delay`, in seconds.
use imapped_lightmode.Base.{ℕ, ◌^◌, min}

-- 2 to the power of at most 10 stays below the bound at which `saturating_pow` stops.
unfoldable pub retry_delay : ℕ → ℕ
retry_delay attempt = min (2 ^ min attempt 10) 300

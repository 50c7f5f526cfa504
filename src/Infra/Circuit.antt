-- ===== src/Infra/Circuit.antt =====
-- backend/crates/ferum-infrastructure/src/plugins/circuit_breaker.rs: the breaker of one plugin. The
-- clock, read once in each call, is the argument `now`; the counter is a `u32` that wraps.
pub mod Window
use ferum_board.Prelude.{
  ℕ, ◌+◌, ◌-◌, ◌%◌, ◌^◌, Bool, true, false, Option, none, some, ltb, leb, if◌then◌else◌,
}

pub record CircuitBreaker : Type 0 where
  pub failure_count : ℕ
  pub last_failure_at : Option ℕ
  pub circuit_opened_at : Option ℕ
  pub threshold : ℕ
  pub window : ℕ
  pub reset : ℕ

abbrev pub u32_mod : ℕ
u32_mod = 4294967296

-- `CircuitBreaker::new`.
unfoldable pub new : ℕ → ℕ → ℕ → CircuitBreaker
new threshold window_secs reset_secs = record {
  failure_count = 0;
  last_failure_at = none;
  circuit_opened_at = none;
  threshold = threshold;
  window = window_secs;
  reset = reset_secs;
}

-- `t.elapsed()` is saturating.
abbrev open_at : Option ℕ → ℕ → ℕ → Bool
open_at none reset now = false
open_at (some t) reset now = ltb (now - t) reset

unfoldable pub is_open : CircuitBreaker → ℕ → Bool
is_open cb now = open_at cb.circuit_opened_at cb.reset now

unfoldable pub record_success : CircuitBreaker → CircuitBreaker
record_success cb = record cb {
  failure_count = 0;
  last_failure_at = none;
  circuit_opened_at = none;
}

abbrev pub outside : Option ℕ → ℕ → ℕ → Bool
outside none window now = true
outside (some t) window now = ltb window (now - t)

-- `if opened.is_none() { *opened = Some(now); return true }`.
abbrev trip : Option ℕ → ℕ → Option ℕ × Bool
trip none now = (some now, true)
trip (some t) now = (some t, false)

-- The new state, and whether the circuit has just opened.
unfoldable pub record_failure : CircuitBreaker → ℕ → CircuitBreaker × Bool
record_failure cb now =
    let base : ℕ = if outside cb.last_failure_at cb.window now then 0 else cb.failure_count in
    let count : ℕ = (base + 1) % u32_mod in
    let counted = record cb { failure_count = count; last_failure_at = some now } in
    if leb cb.threshold count
    then (
      record counted { circuit_opened_at = (trip cb.circuit_opened_at now).0 },
      (trip cb.circuit_opened_at now).1,
    )
    else (counted, false)

-- ===== src/Infra/RateLimit.antt =====
-- backend/crates/ferum-infrastructure/src/rate_limit/in_memory.rs: fixed windows, one for each key. The
-- counter is a `u32`, which wraps in a release build; the clock is the argument `now`.
pub mod Limits
use ferum_board.Prelude.{
  ℕ, ◌+◌, ◌-◌, ◌%◌, String, Bool, Option, none, some, List, [], ◌∷◌, str_eq, ltb, if◌then◌else◌,
}

pub data RateLimitResult : Type 0 where
  allowed : (remaining : ℕ) → RateLimitResult
  limited : (retry_after : ℕ) → RateLimitResult

pub record Window : Type 0 where
  pub count : ℕ
  pub reset_at : ℕ

abbrev pub Windows : Type 0
Windows = List (String × Window)

abbrev pub u32_mod : ℕ
u32_mod = 4294967296

unfoldable pub lookup : String → Windows → Option Window
lookup k [] = none
lookup k ((j, w) ∷ m) = if str_eq j k then some w else lookup k m

unfoldable pub insert : String → Window → Windows → Windows
insert k v [] = (k, v) ∷ []
insert k v ((j, w) ∷ m) = if str_eq j k then (k, v) ∷ m else (j, w) ∷ insert k v m

-- The entry that a check works on: `or_insert`, then the reset of a window that has passed.
abbrev entry : Option Window → ℕ → ℕ → Window
entry none now window = record { count = 0; reset_at = now + window }
entry (some w) now window =
    if ltb w.reset_at now then record { count = 0; reset_at = now + window } else w

abbrev pub bumped : Option Window → ℕ → ℕ → Window
bumped o now window = record (entry o now window) {
  count = ((entry o now window).count + 1) % u32_mod;
}

abbrev pub verdict : Window → ℕ → ℕ → RateLimitResult
verdict w limit now =
    if ltb limit w.count then limited (w.reset_at - now) else allowed (limit - w.count)

-- `InMemoryRateLimiter::check`.
unfoldable pub check : String → ℕ → ℕ → ℕ → Windows → RateLimitResult × Windows
unfolding lookup insert
check key limit window now store =
    let w = bumped (lookup key store) now window in (verdict w limit now, insert key w store)

-- The eviction that the background task makes: `retain(|_, w| w.reset_at > now)`.
unfoldable pub evict : ℕ → Windows → Windows
evict now [] = []
evict now ((k, w) ∷ m) =
    let rest = evict now m in if ltb now w.reset_at then (k, w) ∷ rest else rest

-- `NullRateLimiter::check`.
unfoldable pub null_check : String → ℕ → ℕ → RateLimitResult
null_check key limit window = allowed limit

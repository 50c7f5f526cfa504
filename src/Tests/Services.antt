-- ===== src/Tests/Services.antt =====
-- The circuit breaker, the rate limiter and the cache at concrete inputs.
use ferum_board.Prelude.{
  ℕ, ◌+◌, ◌-◌, String, ◌≡◌, ◌≢◌, refl, false, Option, none, some, List, [], ◌∷◌, arith, ltb,
  if◌then◌else◌, str_eq, eq_iff,
}
use ferum_board.Infra.Circuit.{CircuitBreaker, is_open, record_success}
use ferum_board.Infra.Circuit.Window.{failures, open_once, opens_at_threshold}
use ferum_board.Infra.RateLimit
use ferum_board.Infra.RateLimit.{Window, allowed, limited}
use ferum_board.Infra.RateLimit.Limits.{allowed_among, allowed_in_window, retry_succeeds}
use ferum_board.Infra.Cache
use ferum_board.Infra.Cache.{CacheEntry, is_expired}
use ferum_board.Infra.Cache.Laws.{claim_once}

-- Three failures within a minute open the circuit for five minutes.
abbrev breaker : CircuitBreaker
breaker = record {
  failure_count = 0;
  last_failure_at = none;
  circuit_opened_at = none;
  threshold = 3;
  window = 60;
  reset = 300;
}

opens_at_threshold_example :
    (failures (record_success breaker) (10 ∷ 20 ∷ 30 ∷ [])).circuit_opened_at ≡ some 30
opens_at_threshold_example =
    opens_at_threshold breaker 10 20 (30 ∷ []) (omega arith) (omega arith)
      (omega arith, (omega arith, tt)) (omega arith)

abbrev opened : CircuitBreaker
opened = record breaker { failure_count = 3; circuit_opened_at = some 30 }

-- Probes fail after the reset, and the circuit stays closed.
open_once_example : is_open (failures opened (340 ∷ 350 ∷ 360 ∷ 370 ∷ [])) 371 ≡ false
open_once_example = open_once opened 30 (340 ∷ 350 ∷ 360 ∷ 370 ∷ []) 371 refl

abbrev key_a : String
key_a = "a"

names_differ : key_a ≢ "b"
names_differ e = ground (arith, eq_iff "a" "b", e)

allowed_in_window_example : allowed_among "a" 2 60 (5 ∷ 6 ∷ 7 ∷ []) [] ≡ 2
unfolding RateLimit.lookup
allowed_in_window_example =
    allowed_in_window "a" 2 60 5 (6 ∷ 7 ∷ []) [] refl (omega arith, (omega arith, tt)) (omega arith)

abbrev full : List (String × Window)
full = ("a", record { count = 2; reset_at = 65 }) ∷ []

retry_succeeds_example :
    (RateLimit.check "a" 2 60 66 (RateLimit.check "a" 2 60 7 full).1).0 ≡ allowed (2 - 1)
unfolding RateLimit.check RateLimit.lookup RateLimit.insert
retry_succeeds_example = retry_succeeds "a" 2 60 7 58 66 full (omega arith) refl (omega arith)

abbrev stored : List (String × CacheEntry)
stored = ("k", record { value = "3"; expires_at = 50 }) ∷ []

claim_once_example :
    (Cache.set_nx "j" "w" 10 12 (Cache.set_nx "j" "v" 10 5 stored).1).0 ≡ ltb (5 + 10) 12
unfolding Cache.set_nx Cache.lookup
claim_once_example = claim_once "j" "v" "w" 10 10 5 12 stored refl

abbrev parse_three : String → Option ℕ
parse_three s = if str_eq s "3" then some 3 else none

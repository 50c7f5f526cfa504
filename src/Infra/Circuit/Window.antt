-- ===== src/Infra/Circuit/Window.antt =====
-- When the circuit opens, and for how long.
use ferum_board.Prelude.{
  ℕ, ◌+◌, ◌-◌, ◌≤◌, ◌<◌, ◌≡◌, refl, Option, none, some, List, [], ◌∷◌, length, arith, ltb,
  if◌then◌else◌, Bool-cases, inl, inr, ap, ◌∙◌,
}
use ferum_board.Infra.Circuit.{CircuitBreaker, u32_mod, is_open, record_success, record_failure}

-- Failures at the given times, the first in the list first.
unfoldable pub failures : CircuitBreaker → List ℕ → CircuitBreaker
failures cb [] = cb
failures cb (t ∷ ts) = failures (record_failure cb t).0 ts

failure_keeps :
    (cb : CircuitBreaker) (t now : ℕ)
    → cb.circuit_opened_at ≡ some t
    → ((record_failure cb now).0.circuit_opened_at ≡ some t)
      × ((record_failure cb now).0.reset ≡ cb.reset)
unfolding record_failure
failure_keeps cb t now h = (ground arith, ground arith)

-- Once a circuit has opened, and until a success is recorded, it is open for `reset` after the moment
-- it opened and never after, however many further failures are recorded: failures of the probes that
-- follow do not open it again.
pub open_once :
    (cb : CircuitBreaker) (t : ℕ) (ts : List ℕ) (now : ℕ)
    → cb.circuit_opened_at ≡ some t
    → is_open (failures cb ts) now ≡ ltb (now - t) cb.reset
unfolding failures is_open
open_once cb t [] now h = rw h refl
open_once cb t (u ∷ ts) now h =
    let (opened, same) = failure_keeps cb t u h in
    rw (open_once (record_failure cb u).0 t ts now opened) (rw same refl)

abbrev opened_after : List ℕ → CircuitBreaker → Option ℕ
opened_after ts cb = (failures cb ts).circuit_opened_at

-- The times of a burst: each no further than the window from the one before it.
abbrev pub IsBurst : ℕ → ℕ → List ℕ → Type 0
IsBurst window last [] = Unit
IsBurst window last (t ∷ ts) = (t - last ≤ window) × IsBurst window t ts

-- The state of a closed breaker after a failure at `last`, the `n`-th of a burst.
abbrev counting : ℕ → ℕ → ℕ → ℕ → ℕ → CircuitBreaker
counting threshold window reset n last = record {
  failure_count = n;
  last_failure_at = some last;
  circuit_opened_at = none;
  threshold = threshold;
  window = window;
  reset = reset;
}

count_up :
    (threshold window reset n last now : ℕ)
    → now - last ≤ window
    → n + 1 < threshold
    → threshold < u32_mod
    → (record_failure (counting threshold window reset n last) now).0
      ≡ counting threshold window reset (n + 1) now
unfolding record_failure
count_up threshold window reset n last now h k m = ground arith

burst_stays_closed :
    (threshold window reset n last : ℕ) (ts : List ℕ)
    → n + length ts < threshold
    → threshold < u32_mod
    → IsBurst window last ts
    → (failures (counting threshold window reset n last) ts).circuit_opened_at ≡ none
unfolding failures
burst_stays_closed threshold window reset n last [] h k b = refl
burst_stays_closed threshold window reset n last (t ∷ ts) h k b =
    ap (opened_after ts) (count_up threshold window reset n last t b.0 (omega arith) k)
    ∙ burst_stays_closed threshold window reset (n + 1) t ts (omega arith) k b.1

-- The last of a list of times.
abbrev pub last_of : ℕ → List ℕ → ℕ
last_of t [] = t
last_of t (u ∷ us) = last_of u us

trips :
    (threshold window reset n last now : ℕ)
    → now - last ≤ window
    → n + 1 ≡ threshold
    → threshold < u32_mod
    → (record_failure (counting threshold window reset n last) now).0.circuit_opened_at ≡ some now
unfolding record_failure
trips threshold window reset n last now h k m = ground arith

burst_opens :
    (threshold window reset n last t : ℕ) (ts : List ℕ)
    → n + length (t ∷ ts) ≡ threshold
    → threshold < u32_mod
    → IsBurst window last (t ∷ ts)
    → (failures (counting threshold window reset n last) (t ∷ ts)).circuit_opened_at
      ≡ some (last_of t ts)
unfolding failures
burst_opens threshold window reset n last t [] h k b =
    trips threshold window reset n last t b.0 (omega arith) k
burst_opens threshold window reset n last t (u ∷ ts) h k b =
    ap (opened_after (u ∷ ts)) (count_up threshold window reset n last t b.0 (omega arith) k)
    ∙ burst_opens threshold window reset (n + 1) t u ts (omega arith) k b.1

first_failure :
    (cb : CircuitBreaker) (t : ℕ)
    → 1 < cb.threshold
    → (record_failure (record_success cb) t).0 ≡ counting cb.threshold cb.window cb.reset 1 t
unfolding record_failure record_success
first_failure cb t h = ground arith

-- After a success, a burst of failures shorter than the threshold leaves the circuit closed, and the
-- failure that makes the burst as long as the threshold opens it, at that failure's time. The threshold
-- is above one and fits a `u32`.
pub opens_at_threshold :
    (cb : CircuitBreaker) (t u : ℕ) (ts : List ℕ)
    → 1 < cb.threshold
    → cb.threshold < u32_mod
    → IsBurst cb.window t (u ∷ ts)
    → length (t ∷ u ∷ ts) ≤ cb.threshold
    → (failures (record_success cb) (t ∷ u ∷ ts)).circuit_opened_at
      ≡ (if ltb (length (t ∷ u ∷ ts)) cb.threshold then none else some (last_of u ts))
unfolding failures
opens_at_threshold cb t u ts many fits burst short =
    elim (Bool-cases (ltb (length (t ∷ u ∷ ts)) cb.threshold)) [
      | inl fewer ↦ rw fewer (
          ap (opened_after (u ∷ ts)) (first_failure cb t many)
          ∙ burst_stays_closed cb.threshold cb.window cb.reset 1 t (u ∷ ts) (ground arith) fits
              burst)
      | inr full ↦ rw full (
          ap (opened_after (u ∷ ts)) (first_failure cb t many)
          ∙ burst_opens cb.threshold cb.window cb.reset 1 t u ts (ground arith) fits burst)
    ]

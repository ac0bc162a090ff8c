-- ===== src/Resilience/Breaker/Trip.antt =====
-- How the circuit breaker trips and recovers under calls made one after the other.
use fintech_ecosystem.Base.{
  ℕ, suc, ◌+◌, ◌≤◌, ◌<◌, ◌≡◌, ◌∙◌, ◌⊎◌, inl, inr, Bool, true, false, none, some, List, [], ◌∷◌,
  length, arith,
}
use native.Mathlib.Decide.{dec_lt}
use fintech_ecosystem.Resilience.Breaker.{
  closed, open_state, half_open, default_ready_to_trip, CircuitBreaker, breaker_open, Settings,
  execute, new_circuit_breaker,
}

-- Calls with their start and end times, all of which end the same way.
pub run : Bool → List (ℕ × ℕ) → CircuitBreaker → CircuitBreaker
run success [] cb = cb
run success ((start, end) ∷ calls) cb = run success calls (execute start end success cb).1

-- Closed with no interval and the default test, after `k` failures in a row.
record Failing (k : ℕ) (cb : CircuitBreaker) : Type 0 where
  is_closed : cb.state ≡ closed
  endless : cb.interval ≡ 0
  no_expiry : cb.expiry ≡ none
  tripping : cb.ready_to_trip ≡ default_ready_to_trip
  failures : cb.counts.consecutive_failures ≡ k

execute-Failing :
    (start end k : ℕ) (cb : CircuitBreaker)
    → k < 5
    → Failing k cb
    → Failing (suc k) (execute start end false cb).1
unfolding execute
execute-Failing start end k cb h f = ground arith

execute_trips :
    (start end : ℕ) (cb : CircuitBreaker)
    → Failing 5 cb
    → ((execute start end false cb).1.state ≡ open_state)
      × ((execute start end false cb).1.expiry ≡ some (end + cb.timeout))
unfolding execute
execute_trips start end cb f = ground arith

failures_open :
    (calls : List (ℕ × ℕ)) (k : ℕ) (cb : CircuitBreaker)
    → k ≤ 5
    → k + length calls ≡ 6
    → Failing k cb
    → (run false calls cb).state ≡ open_state
unfolding run
failures_open [] k cb h n f = absurd (omega arith)
failures_open ((start, end) ∷ []) k cb h n f =
    let five : k ≡ 5 = omega arith in
    (execute_trips start end cb (record {
      is_closed = f.is_closed;
      endless = f.endless;
      no_expiry = f.no_expiry;
      tripping = f.tripping;
      failures = f.failures ∙ five;
    })).0
failures_open ((start, end) ∷ call ∷ calls) k cb h n f =
    failures_open (call ∷ calls) (suc k) (execute start end false cb).1 (omega arith) (omega arith)
      (execute-Failing start end k cb (omega arith) f)

new-Failing :
    (st : Settings) (now : ℕ)
    → st.interval ≡ 0
    → st.ready_to_trip ≡ none
    → Failing 0 (new_circuit_breaker st now)
unfolding new_circuit_breaker
new-Failing st now h r = ground arith

-- A new breaker with the default test and no interval is opened by six failing calls in a row,
-- whenever they start and end.
pub six_failures_open :
    (st : Settings) (now : ℕ) (calls : List (ℕ × ℕ))
    → st.interval ≡ 0
    → st.ready_to_trip ≡ none
    → length calls ≡ 6
    → (run false calls (new_circuit_breaker st now)).state ≡ open_state
six_failures_open st now calls endless default six =
    failures_open calls 0 (new_circuit_breaker st now) (omega arith) (omega arith)
      (new-Failing st now endless default)

-- Until its expiry an open breaker refuses every call, runs nothing and stays as it is.
pub open_refuses :
    (start end : ℕ) (success : Bool) (cb : CircuitBreaker) {t : ℕ}
    → cb.state ≡ open_state
    → cb.expiry ≡ some t
    → start ≤ t
    → execute start end success cb ≡ (some breaker_open, cb)
unfolding execute
open_refuses start end success cb h e early = ground arith

-- Half-open, after `k` successes in a row and no other call.
record Recovering (k : ℕ) (cb : CircuitBreaker) : Type 0 where
  is_half_open : cb.state ≡ half_open
  let_in : cb.counts.requests ≡ k
  successes : cb.counts.consecutive_successes ≡ k

execute-Recovering :
    (start end k : ℕ) (cb : CircuitBreaker)
    → suc k < cb.max_requests
    → cb.max_requests < 4294967296
    → Recovering k cb
    → Recovering (suc k) (execute start end true cb).1
      × ((execute start end true cb).1.max_requests ≡ cb.max_requests)
unfolding execute
execute-Recovering start end k cb h small r = (ground arith, ground arith)

execute_recovers :
    (start end k : ℕ) (cb : CircuitBreaker)
    → suc k ≡ cb.max_requests
    → cb.max_requests < 4294967296
    → Recovering k cb
    → (execute start end true cb).1.state ≡ closed
unfolding execute
execute_recovers start end k cb h small r = ground arith

execute_first :
    (start end t : ℕ) (cb : CircuitBreaker)
    → cb.state ≡ open_state
    → cb.expiry ≡ some t
    → t < start
    → 0 < cb.max_requests
    → cb.max_requests < 4294967296
    → ((1 ≡ cb.max_requests) × ((execute start end true cb).1.state ≡ closed))
      ⊎ ((1 < cb.max_requests)
          × Recovering 1 (execute start end true cb).1
          × ((execute start end true cb).1.max_requests ≡ cb.max_requests))
unfolding execute
execute_first start end t cb o e late pos small = elim (dec_lt 1 cb.max_requests) [
  | yes more ↦ inr (more, ground arith, ground arith)
  | no one ↦ inl (omega arith, ground arith)
]

recovers :
    (calls : List (ℕ × ℕ)) (k : ℕ) (cb : CircuitBreaker)
    → k < cb.max_requests
    → k + length calls ≡ cb.max_requests
    → cb.max_requests < 4294967296
    → Recovering k cb
    → (run true calls cb).state ≡ closed
unfolding run
recovers [] k cb h n small r = absurd (omega arith)
recovers ((start, end) ∷ []) k cb h n small r =
    execute_recovers start end k cb (omega arith) small r
recovers ((start, end) ∷ call ∷ calls) k cb h n small r =
    let (r', same) = execute-Recovering start end k cb (omega arith) small r in
    recovers (call ∷ calls) (suc k) (execute start end true cb).1 (omega arith) (omega arith)
      (omega arith) r'

-- After its expiry an open breaker is closed again by `max_requests` successful calls in a row.
pub successes_close :
    (calls : List (ℕ × ℕ)) (start end t : ℕ) (cb : CircuitBreaker)
    → cb.state ≡ open_state
    → cb.expiry ≡ some t
    → t < start
    → 0 < cb.max_requests
    → cb.max_requests < 4294967296
    → suc (length calls) ≡ cb.max_requests
    → (run true ((start, end) ∷ calls) cb).state ≡ closed
unfolding run
successes_close calls start end t cb o e late pos small n =
    elim (execute_first start end t cb o e late pos small) [
      | inl (one, done) ↦ only calls (omega arith) done
      | inr (more, r, same) ↦
          recovers calls 1 (execute start end true cb).1 (omega arith) (omega arith) (omega arith) r
    ]
  where
    only :
        (calls : List (ℕ × ℕ))
        → length calls ≡ 0
        → (execute start end true cb).1.state ≡ closed
        → (run true calls (execute start end true cb).1).state ≡ closed
    only [] z done = done
    only (c ∷ cs) z done = absurd (omega arith)

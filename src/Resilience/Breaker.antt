-- ===== src/Resilience/Breaker.antt =====
-- pkg/resilience/breaker.go: the circuit breaker. Times and durations are nanoseconds; the zero time
-- is `none`. The lock makes each call of a method one step. `onStateChange` is never set by
-- `NewCircuitBreaker` and is left out.
pub mod Invariant
pub mod Trip
use fintech_ecosystem.Base.{
  ℕ, ◌+◌, ◌%◌, Bool, true, false, not, ◌&&◌, Option, none, some, ltb, leb, ◌==◌, if◌then◌else◌,
}

pub data State : Type 0 where
  closed open_state half_open : State

abbrev pub u32 : ℕ → ℕ
u32 n = n % 4294967296

abbrev pub u64 : ℕ → ℕ
u64 n = n % 18446744073709551616

pub record Counts : Type 0 where
  pub requests : ℕ
  pub total_successes : ℕ
  pub total_failures : ℕ
  pub consecutive_successes : ℕ
  pub consecutive_failures : ℕ

abbrev pub no_counts : Counts
no_counts = record {
  requests = 0;
  total_successes = 0;
  total_failures = 0;
  consecutive_successes = 0;
  consecutive_failures = 0;
}

pub record CircuitBreaker : Type 0 where
  pub max_requests : ℕ
  pub interval : ℕ
  pub timeout : ℕ
  pub ready_to_trip : Counts → Bool
  pub state : State
  pub generation : ℕ
  pub counts : Counts
  pub expiry : Option ℕ

pub data BreakerError : Type 0 where
  breaker_open too_many_requests : BreakerError

-- `cb.expiry.Before(now)`; the zero time is before every other.
abbrev pub before : Option ℕ → ℕ → Bool
before none now = true
before (some t) now = ltb t now

abbrev pub is_zero_time : Option ℕ → Bool
is_zero_time none = true
is_zero_time (some t) = false

abbrev pub expiry_of : State → CircuitBreaker → ℕ → Option ℕ
expiry_of closed cb now = if cb.interval == 0 then none else some (now + cb.interval)
expiry_of open_state cb now = some (now + cb.timeout)
expiry_of half_open cb now = none

unfoldable pub to_new_generation : ℕ → CircuitBreaker → CircuitBreaker
to_new_generation now cb = record cb {
  generation = u64 (cb.generation + 1);
  counts = no_counts;
  expiry = expiry_of cb.state cb now;
}

abbrev pub same_state : State → State → Bool
same_state closed closed = true
same_state open_state open_state = true
same_state half_open half_open = true
same_state _ _ = false

unfoldable pub set_state : State → ℕ → CircuitBreaker → CircuitBreaker
unfolding to_new_generation
set_state s now cb =
    if same_state cb.state s then cb else to_new_generation now (record cb { state = s })

abbrev pub refresh : State → ℕ → CircuitBreaker → CircuitBreaker
refresh closed now cb =
    if not (is_zero_time cb.expiry) && before cb.expiry now then to_new_generation now cb else cb
refresh open_state now cb = if before cb.expiry now then set_state half_open now cb else cb
refresh half_open now cb = cb

-- `currentState`: the state and the generation are those of the breaker that it leaves.
unfoldable pub current_state : ℕ → CircuitBreaker → CircuitBreaker
unfolding to_new_generation set_state
current_state now cb = refresh cb.state now cb

abbrev pub is_open : State → Bool
is_open open_state = true
is_open _ = false

abbrev pub is_half_open : State → Bool
is_half_open half_open = true
is_half_open _ = false

unfoldable pub before_request : ℕ → CircuitBreaker → Option BreakerError × ℕ × CircuitBreaker
unfolding current_state
before_request now cb =
    let cb1 = current_state now cb in
    if is_open cb1.state
    then (some breaker_open, cb1.generation, cb1)
    else (if is_half_open cb1.state && leb cb1.max_requests cb1.counts.requests
        then (some too_many_requests, cb1.generation, cb1)
        else (
          none,
          cb1.generation,
          record cb1 { counts = record (cb1.counts) { requests = u32 (cb1.counts.requests + 1) } },
        ))

abbrev pub count_success : CircuitBreaker → CircuitBreaker
count_success cb = record cb {
  counts = record (cb.counts) {
    total_successes = u32 (cb.counts.total_successes + 1);
    consecutive_successes = u32 (cb.counts.consecutive_successes + 1);
    consecutive_failures = 0;
  };
}

abbrev pub on_success : State → ℕ → CircuitBreaker → CircuitBreaker
on_success closed now cb = count_success cb
on_success half_open now cb =
    let cb1 = count_success cb in
    if leb cb1.max_requests cb1.counts.consecutive_successes then set_state closed now cb1 else cb1
on_success open_state now cb = cb

abbrev pub count_failure : CircuitBreaker → CircuitBreaker
count_failure cb = record cb {
  counts = record (cb.counts) {
    total_failures = u32 (cb.counts.total_failures + 1);
    consecutive_failures = u32 (cb.counts.consecutive_failures + 1);
    consecutive_successes = 0;
  };
}

abbrev pub on_failure : State → ℕ → CircuitBreaker → CircuitBreaker
on_failure closed now cb =
    let cb1 = count_failure cb in
    if cb1.ready_to_trip cb1.counts then set_state open_state now cb1 else cb1
on_failure half_open now cb = set_state open_state now cb
on_failure open_state now cb = cb

unfoldable pub after_request : ℕ → Bool → ℕ → CircuitBreaker → CircuitBreaker
unfolding current_state
after_request generation success now cb =
    let cb1 = current_state now cb in
    if cb1.generation == generation
    then (if success then on_success cb1.state now cb1 else on_failure cb1.state now cb1)
    else cb1

-- `Settings`; `none` is a nil `ReadyToTrip`.
pub record Settings : Type 0 where
  pub max_requests : ℕ
  pub interval : ℕ
  pub timeout : ℕ
  pub ready_to_trip : Option (Counts → Bool)

abbrev pub default_ready_to_trip : Counts → Bool
default_ready_to_trip c = ltb 5 c.consecutive_failures

abbrev pub or_default : Option (Counts → Bool) → Counts → Bool
or_default none = default_ready_to_trip
or_default (some f) = f

-- `NewCircuitBreaker`
unfoldable pub new_circuit_breaker : Settings → ℕ → CircuitBreaker
unfolding to_new_generation
new_circuit_breaker st now = to_new_generation now (record {
  max_requests = if st.max_requests == 0 then 1 else st.max_requests;
  interval = st.interval;
  timeout = if st.timeout == 0 then 60000000000 else st.timeout;
  ready_to_trip = or_default st.ready_to_trip;
  state = closed;
  generation = 0;
  counts = no_counts;
  expiry = none;
})

-- `Execute` of a request that starts at one time and ends at another, with nothing between; `none`
-- is a call that went through.
unfoldable pub execute : ℕ → ℕ → Bool → CircuitBreaker → Option BreakerError × CircuitBreaker
unfolding before_request after_request
execute start end success cb =
    let (e, generation, cb1) = before_request start cb in
    elim e [ some x ↦ (some x, cb1) | none ↦ (none, after_request generation success end cb1) ]

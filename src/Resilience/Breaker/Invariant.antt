-- ===== src/Resilience/Breaker/Invariant.antt =====
-- What holds of a circuit breaker between any two steps of concurrent calls.
use fintech_ecosystem.Base.{
  ℕ, ◌+◌, ◌≤◌, ◌<◌, ◌≡◌, ◌≢◌, Bool, Option, none, some, ◌==◌, if◌then◌else◌, arith,
}
use fintech_ecosystem.Resilience.Breaker.{
  State, open_state, half_open, CircuitBreaker, BreakerError, Settings, before_request,
  after_request, new_circuit_breaker,
}

-- A breaker, and how many requests it let through since it last became half-open: a count that the
-- program does not keep.
pub record Watched : Type 0 where
  pub breaker : CircuitBreaker
  pub admitted : ℕ

-- What is left of the count in a state: only the half-open one is watched.
abbrev pub watched : State → ℕ → ℕ
watched half_open n = n
watched _ n = 0

-- A request counts if no error kept it from going through.
abbrev pub one_more : Option BreakerError → ℕ → ℕ
one_more none n = n + 1
one_more (some e) n = n

unfoldable pub begin_call : ℕ → Watched → Watched
unfolding before_request
begin_call now w =
    let (e, generation, cb) = before_request now w.breaker in
    record {
      breaker = cb;
      admitted = watched cb.state (one_more e (watched w.breaker.state w.admitted));
    }

unfoldable pub end_call : ℕ → Bool → ℕ → Watched → Watched
unfolding after_request
end_call generation success now w =
    let cb = after_request generation success now w.breaker in
    record { breaker = cb; admitted = watched cb.state (watched w.breaker.state w.admitted) }

-- In the half-open state at most `max` requests were let through, as many as the breaker counted,
-- and fewer have succeeded in a row; the open state has an end.
pub record IsValid (max : ℕ) (w : Watched) : Type 0 where
  pub same_max : w.breaker.max_requests ≡ max
  pub some_allowed : 0 < max
  pub max_u32 : max < 4294967296
  pub half_open_counted : w.breaker.state ≡ half_open → w.breaker.counts.requests ≡ w.admitted
  pub half_open_admitted : w.breaker.state ≡ half_open → w.admitted ≤ max
  pub half_open_successes :
      w.breaker.state ≡ half_open → w.breaker.counts.consecutive_successes < max
  pub open_ends : w.breaker.state ≡ open_state → w.breaker.expiry ≢ none

-- `Settings.MaxRequests`, where 0 stands for 1.
abbrev pub allowed : Settings → ℕ
allowed st = if st.max_requests == 0 then 1 else st.max_requests

abbrev pub new_watched : Settings → ℕ → Watched
new_watched st now = record { breaker = new_circuit_breaker st now; admitted = 0 }

new-IsValid :
    (st : Settings) (now : ℕ)
    → st.max_requests < 4294967296
    → IsValid (allowed st) (new_watched st now)
unfolding new_circuit_breaker
new-IsValid st now h = ground arith

begin_call-IsValid : (max now : ℕ) (w : Watched) → IsValid max w → IsValid max (begin_call now w)
unfolding begin_call
begin_call-IsValid max now w v = ground arith

end_call-IsValid :
    (max generation : ℕ) (success : Bool) (now : ℕ) (w : Watched)
    → IsValid max w
    → IsValid max (end_call generation success now w)
unfolding end_call
end_call-IsValid max generation success now w v = ground arith

-- The steps of any number of concurrent calls: each call begins by `beforeRequest`, and ends by
-- `afterRequest` with the generation that it was given, at any later time.
pub data Step : Watched → Watched → Type 0 where
  begins : (w : Watched) (now : ℕ) → Step w (begin_call now w)
  ends :
      (w : Watched) (generation : ℕ) (success : Bool) (now : ℕ)
      → Step w (end_call generation success now w)

-- Any number of steps: the first one, and what comes of it.
pub data Reach : Watched → Watched → Type 0 where
  unchanged : (w : Watched) → Reach w w
  after : {first second last : Watched} → Step first second → Reach second last → Reach first last

Reach-kept :
    {max : ℕ} {first last : Watched} → IsValid max first → Reach first last → IsValid max last
Reach-kept v (unchanged w) = v
Reach-kept {max} v (after (begins w now) rest) = Reach-kept (begin_call-IsValid max now w v) rest
Reach-kept {max} v (after (ends w generation success now) rest) =
    Reach-kept (end_call-IsValid max generation success now w v) rest

-- Whatever calls begin and end, in whatever order and at whatever times, a new breaker has let
-- through at most `MaxRequests` requests since it last became half-open, as long as it is half-open,
-- and it is open only until an expiry time. The bound of the settings is 1 where they say 0.
pub Reach-IsValid :
    (st : Settings) (now : ℕ) {w : Watched}
    → st.max_requests < 4294967296
    → Reach (new_watched st now) w
    → IsValid (allowed st) w
Reach-IsValid st now h r = Reach-kept (new-IsValid st now h) r

-- ===== src/Tests/Resilience.antt =====
-- The circuit breaker's theorems at concrete inputs.
use fintech_ecosystem.Base.{ℕ, ◌≡◌, refl, true, false, none, some, List, [], ◌∷◌, arith}
use fintech_ecosystem.Resilience.Breaker.{
  open_state, half_open, too_many_requests, Settings, CircuitBreaker, new_circuit_breaker,
  before_request,
}
use fintech_ecosystem.Resilience.Breaker.Invariant.{
  Watched, IsValid, begin_call, end_call, new_watched, after, unchanged, begins, ends,
  Reach-IsValid,
}
use fintech_ecosystem.Resilience.Breaker.Trip.{run, six_failures_open}

abbrev settings : Settings
settings = record { max_requests = 2; interval = 0; timeout = 60; ready_to_trip = none }

-- One failure trips the breaker, and one request is let through half-open.
abbrev touchy : Settings
touchy = record settings { max_requests = 1; ready_to_trip = some (λ _. true) }

abbrev recovering : Watched
recovering = begin_call 100 (end_call 1 false 2 (begin_call 1 (new_watched touchy 0)))

recovering_lem :
    (recovering.breaker.state ≡ half_open)
    × (recovering.admitted ≡ 1)
    × ((before_request 101 recovering.breaker).0 ≡ some too_many_requests)
unfolding begin_call end_call new_circuit_breaker
recovering_lem = (refl, refl, refl)

Reach-IsValid_example : IsValid 1 (begin_call 101 recovering)
Reach-IsValid_example = Reach-IsValid touchy 0 (ground arith) (
    after (begins (new_watched touchy 0) 1) (
      after (ends (begin_call 1 (new_watched touchy 0)) 1 false 2) (
        after (begins (end_call 1 false 2 (begin_call 1 (new_watched touchy 0))) 100)
          (after (begins recovering 101) (unchanged _)))))

abbrev six_calls : List (ℕ × ℕ)
six_calls = (1, 2) ∷ (3, 4) ∷ (5, 6) ∷ (7, 8) ∷ (9, 10) ∷ (11, 12) ∷ []

six_failures_open_example :
    (run false six_calls (new_circuit_breaker settings 0)).state ≡ open_state
six_failures_open_example = six_failures_open settings 0 six_calls refl refl refl

abbrev tripped : CircuitBreaker
tripped = record (new_circuit_breaker settings 0) { state = open_state; expiry = some 72 }

-- ===== src/Tests/Delivery.antt =====
-- The theorems on failing deliveries and on scopes at concrete inputs.
use fintech_ecosystem.Base.{ℕ, ◌≡◌, refl, true, none, some, List, [], ◌∷◌, find}
use fintech_ecosystem.Delivery.Dlq.{DlqEntry, DeadLetterQueue, pending, has_id}
use fintech_ecosystem.Delivery.Exhaustion.{Failure, fail_all, HasFailed, failures_exhaust}
use fintech_ecosystem.Delivery.Retry.{RetryConfig, Surroundings, new_retrier, execute}
use fintech_ecosystem.Delivery.Attempts.{IsRun, execute-IsRun}
use fintech_ecosystem.Scopes.{runes, is_space, parse_scopes, join_scopes}
use fintech_ecosystem.Scopes.Words.{parse_scopes-join_scopes}

abbrev queue : DeadLetterQueue
queue = record { max_retries = 3; retry_delays = 60 ∷ 300 ∷ []; ttl = 9000 }

abbrev letter : DlqEntry
letter = record {
  id = "d1";
  webhook_id = "w1";
  zone_id = "z1";
  url = "https://x.org";
  payload = "{}";
  headers = "{}";
  failure_reason = "timeout";
  last_status_code = 0;
  attempt_count = 1;
  max_attempts = 3;
  first_failed_at = 10;
  last_attempted_at = 10;
  next_retry_at = some 70;
  expires_at = 9010;
  status = pending;
}

abbrev failure : ℕ → Failure
failure now = record { now = now; reason = "refused"; code = 503 }

failures_exhaust_example :
    (rows' : List DlqEntry) × (e' : DlqEntry) × (fail_all queue "d1"
        (failure 80 ∷ failure 400 ∷ [])
        (some (letter ∷ []))
      ≡ some rows')
    × (find (has_id "d1") rows' ≡ some e')
    × HasFailed letter 2 e'
failures_exhaust_example =
    failures_exhaust queue "d1" (failure 80) (failure 400 ∷ []) (letter ∷ []) letter refl

abbrev surroundings : Surroundings
surroundings = record { op = λ _. some "down"; canceled = λ _. none }

abbrev config : RetryConfig
config = record {
  max_attempts = 3;
  initial_delay = 0;
  max_delay = 0;
  dlq_enabled = true;
  dlq_stream_prefix = "";
}

execute-IsRun_example : IsRun surroundings 1 3 (execute surroundings (new_retrier config))
unfolding new_retrier
execute-IsRun_example = execute-IsRun surroundings config

parse_scopes-join_scopes_example :
    parse_scopes (join_scopes (runes "pay" ∷ runes "*" ∷ [])) ≡ runes "pay" ∷ runes "*" ∷ []
unfolding is_space
parse_scopes-join_scopes_example =
    parse_scopes-join_scopes (runes "pay" ∷ runes "*" ∷ [])
      ((refl, (refl, (refl, (refl, tt)))), ((refl, (refl, tt)), tt))

-- ===== src/Delivery/Dlq.antt =====
-- pkg/webhook/dlq.go: the dead letter queue of webhooks. The database answers every statement;
-- what a statement that it refuses changes is nothing.
use fintech_ecosystem.Base.{
  ℕ, zero, suc, ◌+◌, ◌-◌, ◌*◌, String, Bool, true, false, ◌&&◌, Option, none, some, List, [], ◌∷◌,
  ◌++◌, take, find, select, update, length, str_eq, leb, ltb, ◌==◌, if◌then◌else◌,
}

pub data DlqStatus : Type 0 where
  pending retrying succeeded exhausted expired abandoned : DlqStatus

-- `DLQEntry`; the payload and the headers are kept by their JSON.
pub record DlqEntry : Type 0 where
  pub id : String
  pub webhook_id : String
  pub zone_id : String
  pub url : String
  pub payload : String
  pub headers : String
  pub failure_reason : String
  pub last_status_code : ℕ
  pub attempt_count : ℕ
  pub max_attempts : ℕ
  pub first_failed_at : ℕ
  pub last_attempted_at : ℕ
  pub next_retry_at : Option ℕ
  pub expires_at : ℕ
  pub status : DlqStatus

pub record DeadLetterQueue : Type 0 where
  pub max_retries : ℕ
  pub retry_delays : List ℕ
  pub ttl : ℕ

abbrev pub seconds : ℕ → ℕ
seconds n = n * 1000000000

abbrev pub default_delays : List ℕ
default_delays = seconds 60 ∷ seconds 300 ∷ seconds 1800 ∷ seconds 7200 ∷ seconds 21600 ∷ []

abbrev pub or_delays : List ℕ → List ℕ
or_delays [] = default_delays
or_delays (d ∷ ds) = d ∷ ds

-- `NewDeadLetterQueue`
unfoldable pub new_dead_letter_queue : DeadLetterQueue → DeadLetterQueue
new_dead_letter_queue cfg = record {
  max_retries = if cfg.max_retries == 0 then 5 else cfg.max_retries;
  retry_delays = or_delays cfg.retry_delays;
  ttl = if cfg.ttl == 0 then seconds 604800 else cfg.ttl;
}

abbrev pub delay_at : ℕ → List ℕ → Option ℕ
delay_at n [] = none
delay_at zero (d ∷ ds) = some d
delay_at (suc n) (d ∷ ds) = delay_at n ds

-- `getRetryDelay`: `none` is an index out of range.
unfoldable pub get_retry_delay : DeadLetterQueue → ℕ → Option ℕ
get_retry_delay q attempt_count =
    let count = if attempt_count == 0 then 1 else attempt_count in
    delay_at
      (if leb (length q.retry_delays) (count - 1) then length q.retry_delays - 1 else count - 1)
      q.retry_delays

-- The time of the next retry; the queue of `NewDeadLetterQueue` always has a delay.
abbrev pub after : ℕ → Option ℕ → Option ℕ
after now none = none
after now (some delay) = some (now + delay)

-- `Add`
unfoldable pub add : DeadLetterQueue → ℕ → DlqEntry → List DlqEntry → List DlqEntry
add q now e rows =
    rows
    ++ record e {
      status = pending;
      first_failed_at = now;
      last_attempted_at = now;
      attempt_count = 1;
      max_attempts = q.max_retries;
      expires_at = now + q.ttl;
      next_retry_at = after now (get_retry_delay q 1);
    }
      ∷ []

abbrev pub has_id : String → DlqEntry → Bool
has_id id e = str_eq e.id id

abbrev pub is_pending : DlqStatus → Bool
is_pending pending = true
is_pending _ = false

abbrev pub has_come : ℕ → Option ℕ → Bool
has_come now none = false
has_come now (some t) = leb t now

-- The `WHERE` of `GetPendingRetries`
abbrev pub is_ready : ℕ → DlqEntry → Bool
is_ready now e = is_pending e.status && (has_come now e.next_retry_at && ltb now e.expires_at)

abbrev pub retry_before : Option ℕ → Option ℕ → Bool
retry_before (some s) (some t) = leb s t
retry_before _ _ = true

abbrev pub place : DlqEntry → List DlqEntry → List DlqEntry
place e [] = e ∷ []
place e (x ∷ xs) =
    let rest = place e xs in
    if retry_before e.next_retry_at x.next_retry_at then e ∷ x ∷ xs else x ∷ rest

abbrev pub by_retry : List DlqEntry → List DlqEntry
by_retry [] = []
by_retry (x ∷ xs) = place x (by_retry xs)

-- `GetPendingRetries`
unfoldable pub get_pending_retries : ℕ → ℕ → List DlqEntry → List DlqEntry
get_pending_retries now limit rows = take limit (by_retry (select (is_ready now) rows))

-- `MarkRetrying`, `RecordSuccess`, `Abandon` and `Replay`
unfoldable pub mark_retrying : String → List DlqEntry → List DlqEntry
mark_retrying id rows = update (has_id id) (λ e. record e { status = retrying }) rows

unfoldable pub record_success : ℕ → String → List DlqEntry → List DlqEntry
record_success now id rows =
    update (has_id id)
      (λ e. record e { status = succeeded; last_attempted_at = now; next_retry_at = none }) rows

unfoldable pub abandon : String → List DlqEntry → List DlqEntry
abandon id rows = update (has_id id) (λ e. record e { status = abandoned }) rows

unfoldable pub replay : ℕ → String → List DlqEntry → List DlqEntry
replay now id rows =
    update (has_id id) (λ e. record e { status = pending; next_retry_at = some now }) rows

-- What `RecordFailure` writes, from the counts that it read.
abbrev pub failed_entry : DeadLetterQueue → ℕ → String → ℕ → ℕ → ℕ → DlqEntry → DlqEntry
failed_entry q now reason code count most e =
    if leb most count
    then record e {
      status = exhausted;
      attempt_count = count;
      last_attempted_at = now;
      next_retry_at = none;
      failure_reason = reason;
      last_status_code = code;
    }
    else record e {
      status = pending;
      attempt_count = count;
      last_attempted_at = now;
      next_retry_at = after now (get_retry_delay q count);
      failure_reason = reason;
      last_status_code = code;
    }

abbrev pub with_counts :
    DeadLetterQueue
    → ℕ
    → String
    → String
    → ℕ
    → List DlqEntry
    → Option DlqEntry
    → Option (List DlqEntry)
with_counts q now id reason code rows none = none
with_counts q now id reason code rows (some r) =
    some (
      update (has_id id) (failed_entry q now reason code (r.attempt_count + 1) r.max_attempts) rows)

-- `RecordFailure`: `none` is the error that no row has the id.
unfoldable pub record_failure :
    DeadLetterQueue → ℕ → String → String → ℕ → List DlqEntry → Option (List DlqEntry)
record_failure q now id reason code rows =
    with_counts q now id reason code rows (find (has_id id) rows)

abbrev pub is_stale : ℕ → DlqEntry → Bool
is_stale now e = is_pending e.status && leb e.expires_at now

-- `CleanupExpired`, with the number of rows it changed
unfoldable pub cleanup_expired : ℕ → List DlqEntry → ℕ × List DlqEntry
cleanup_expired now rows = (
  length (select (is_stale now) rows),
  update (is_stale now) (λ e. record e { status = expired }) rows,
)

pub record DlqStats : Type 0 where
  pub pending_count : ℕ
  pub retrying_count : ℕ
  pub succeeded_count : ℕ
  pub exhausted_count : ℕ
  pub expired_count : ℕ
  pub abandoned_count : ℕ

abbrev pub no_stats : DlqStats
no_stats = record {
  pending_count = 0;
  retrying_count = 0;
  succeeded_count = 0;
  exhausted_count = 0;
  expired_count = 0;
  abandoned_count = 0;
}

abbrev pub count_status : DlqStatus → DlqStats → DlqStats
count_status pending s = record s { pending_count = s.pending_count + 1 }
count_status retrying s = record s { retrying_count = s.retrying_count + 1 }
count_status succeeded s = record s { succeeded_count = s.succeeded_count + 1 }
count_status exhausted s = record s { exhausted_count = s.exhausted_count + 1 }
count_status expired s = record s { expired_count = s.expired_count + 1 }
count_status abandoned s = record s { abandoned_count = s.abandoned_count + 1 }

abbrev pub is_in_zone : String → DlqEntry → Bool
is_in_zone zone e = str_eq e.zone_id zone

abbrev pub count_all : List DlqEntry → DlqStats
count_all [] = no_stats
count_all (e ∷ es) = count_status e.status (count_all es)

-- `GetStats`
unfoldable pub get_stats : String → List DlqEntry → DlqStats
get_stats zone rows = count_all (select (is_in_zone zone) rows)

-- ===== src/Delivery/Retry.antt =====
-- pkg/retry/retry.go: `Retrier`. The delays are products of `float64` numbers and are outside, as
-- `delay_of`; the operation is outside too, and answers by the number of the attempt.
use fintech_ecosystem.Base.{
  ℕ, zero, suc, ◌+◌, String, ◌<>◌, Bool, true, false, ◌&&◌, Option, none, some, List, [], ◌∷◌, ◌++◌,
  select, delete, str_eq, ltb, ◌==◌, if◌then◌else◌,
}

pub record RetryConfig : Type 0 where
  pub max_attempts : ℕ
  pub initial_delay : ℕ
  pub max_delay : ℕ
  pub dlq_enabled : Bool
  pub dlq_stream_prefix : String

-- `NewRetrier`; an `int` below 1 is 0 here.
unfoldable pub new_retrier : RetryConfig → RetryConfig
new_retrier c = record {
  max_attempts = if ltb c.max_attempts 1 then 1 else c.max_attempts;
  initial_delay = if c.initial_delay == 0 then 1000000000 else c.initial_delay;
  max_delay = if c.max_delay == 0 then 30000000000 else c.max_delay;
  dlq_enabled = c.dlq_enabled;
  dlq_stream_prefix = if str_eq c.dlq_stream_prefix "" then "dlq" else c.dlq_stream_prefix;
}

-- The operation's error at an attempt, and whether the context ends while the delay behind an
-- attempt runs.
pub record Surroundings : Type 0 where
  pub op : ℕ → Option String
  pub canceled : ℕ → Option String

-- What the run did: its error, and the attempts that it made.
pub record Run : Type 0 where
  pub error : Option String
  pub attempts : ℕ

-- An attempt: its error, that of the context behind it, and the run from the next one on.
abbrev pub attempted : ℕ → Option String → Option String → Run → Run
attempted n none ended rest = record { error = none; attempts = n }
attempted n (some text) (some ended) rest = record { error = some ended; attempts = n }
attempted n (some text) none rest = rest

-- The rounds from an attempt on, `left` behind it.
unfoldable pub attempt_from : Surroundings → ℕ → ℕ → Run
attempt_from s n zero = record { error = s.op n; attempts = n }
attempt_from s n (suc left) = attempted n (s.op n) (s.canceled n) (attempt_from s (n + 1) left)

abbrev pub attempt_at_most : Surroundings → ℕ → Run
attempt_at_most s zero = record { error = none; attempts = 0 }
attempt_at_most s (suc left) = attempt_from s 1 left

-- `Execute`
unfoldable pub execute : Surroundings → RetryConfig → Run
execute s c = attempt_at_most s c.max_attempts

pub record RetryEntry : Type 0 where
  pub original_stream : String
  pub event_id : String
  pub zone_id : String
  pub type : String
  pub payload : String
  pub error : String
  pub attempts : ℕ
  pub failed_at : ℕ
  pub last_attempt_at : ℕ

-- The streams of Redis: the name, the message's id and what it carries.
pub data Message : Type 0 where
  dead : RetryEntry → Message
  replayed : String → Message

abbrev pub Streams : Type 0
Streams = List (String × (String × Message))

-- `sendToDLQ`; a refused `XADD` is only logged, `taken` says whether it is taken.
abbrev pub send_to_dlq : Bool → String → RetryConfig → RetryEntry → Streams → Streams
send_to_dlq false message_id c e streams = streams
send_to_dlq true message_id c e streams =
    streams ++ (c.dlq_stream_prefix <> "." <> e.zone_id, (message_id, dead e)) ∷ []

abbrev pub dead_entry : ℕ → RetryConfig → RetryEntry → String → RetryEntry
dead_entry now c e text = record e {
  error = text;
  attempts = c.max_attempts;
  failed_at = now;
  last_attempt_at = now;
}

abbrev pub concluded :
    Bool → String → ℕ → RetryConfig → RetryEntry → Option Streams → Option String → Option Streams
concluded taken message_id now c e none error = none
concluded taken message_id now c e (some streams) none = some streams
concluded taken message_id now c e (some streams) (some text) =
    if c.dlq_enabled
    then some (send_to_dlq taken message_id c (dead_entry now c e text) streams)
    else some streams

-- `ExecuteWithDLQ`; no streams stand for a Redis that is nil.
unfoldable pub execute_with_dlq :
    Surroundings
    → Bool
    → String
    → ℕ
    → RetryConfig
    → RetryEntry
    → Option Streams
    → Run × Option Streams
execute_with_dlq s taken message_id now c e streams =
    let run = execute s c in (run, concluded taken message_id now c e streams run.error)

abbrev pub is_stream : String → String × (String × Message) → Bool
is_stream name (n, _) = str_eq n name

abbrev pub entries_of : Streams → List RetryEntry
entries_of [] = []
entries_of ((_, (_, dead e)) ∷ ms) = e ∷ entries_of ms
entries_of ((_, (_, replayed p)) ∷ ms) = entries_of ms

-- `GetDLQEntries`, which reads the whole stream whatever `count` says
unfoldable pub get_dlq_entries : RetryConfig → String → ℕ → Streams → List RetryEntry
get_dlq_entries c zone_id count streams =
    entries_of (select (is_stream (c.dlq_stream_prefix <> "." <> zone_id)) streams)

-- `ReplayDLQEntry`
unfoldable pub replay_dlq_entry : String → RetryEntry → Streams → Streams
replay_dlq_entry message_id e streams =
    streams ++ (e.original_stream, (message_id, replayed e.payload)) ∷ []

abbrev pub is_message : String → String → String × (String × Message) → Bool
is_message name id (n, (i, _)) = str_eq n name && str_eq i id

-- `PurgeDLQEntry`
unfoldable pub purge_dlq_entry : RetryConfig → String → String → Streams → Streams
purge_dlq_entry c zone_id message_id streams =
    delete (is_message (c.dlq_stream_prefix <> "." <> zone_id) message_id) streams

-- ===== src/Delivery/Attempts.antt =====
-- What `Execute` and `ExecuteWithDLQ` of pkg/retry/retry.go promise.
use fintech_ecosystem.Base.{
  ℕ, zero, suc, ◌+◌, ◌≤◌, ◌<◌, String, ◌<>◌, ◌≡◌, refl, sym, ◌∙◌, ap, subst, ◌≢◌, ◌⊎◌, inl, inr,
  true, none, some, [], ◌∷◌, ◌++◌, select, str_eq_self, ltb, Bool-cases, Option-cases, arith,
}
use fintech_ecosystem.Delivery.Retry.{
  RetryConfig, new_retrier, Surroundings, Run, attempt_from, attempt_at_most, execute, RetryEntry,
  Message, dead, replayed, Streams, dead_entry, execute_with_dlq, is_stream, entries_of,
  get_dlq_entries,
}

-- How a run ends, with at most `most` attempts.
pub record IsRun (s : Surroundings) (first most : ℕ) (run : Run) : Type 0 where
  pub some_attempt : first ≤ run.attempts
  pub bounded : run.attempts ≤ most
  -- every attempt before the last one failed, and its delay went by
  pub failed : (i : ℕ) → first ≤ i → i < run.attempts → s.op i ≢ none
  pub waited : (i : ℕ) → first ≤ i → i < run.attempts → s.canceled i ≡ none
  -- the answer of the last attempt, or success before it, or the end of the context
  pub ends :
      ((run.attempts ≡ most) × (run.error ≡ s.op most))
      ⊎ ((run.attempts < most) × (s.op run.attempts ≡ none) × (run.error ≡ none))
      ⊎ ((run.attempts < most)
          × (s.op run.attempts ≢ none)
          × (run.error ≡ s.canceled run.attempts)
          × (run.error ≢ none))

-- A fact about an attempt and about all later ones is one about all from it on.
from_here :
    (P : ℕ → Type 0) (n most : ℕ)
    → P n
    → ((i : ℕ) → n + 1 ≤ i → i < most → P i)
    → (i : ℕ) → n ≤ i
    → i < most
    → P i
from_here P n most here later i lo hi = elim (Bool-cases (ltb n i)) [
  | inl after ↦ later i (ground (arith, after)) hi
  | inr same ↦ let at : n ≡ i = ground (arith, lo, same) in subst P at here
]

attempt_from-IsRun :
    (s : Surroundings) (n left most : ℕ) → n + left ≡ most → IsRun s n most (attempt_from s n left)
unfolding attempt_from
attempt_from-IsRun s n zero most full =
    let at : n ≡ most = omega (arith, full) in
    record {
      some_attempt = omega arith;
      bounded = omega (arith, full);
      failed = λ i lo hi. absurd (omega (arith, lo, hi));
      waited = λ i lo hi. absurd (omega (arith, lo, hi));
      ends = inl (at, ap s.op at);
    }
attempt_from-IsRun s n (suc left) most full = elim (Option-cases (s.op n)) [
  | inl ok ↦
      let stop : attempt_from s n (suc left) ≡ record { error = none; attempts = n } = rw ok refl in
      rw stop (record {
        some_attempt = omega arith;
        bounded = omega (arith, full);
        failed = λ i lo hi. absurd (omega (arith, lo, hi));
        waited = λ i lo hi. absurd (omega (arith, lo, hi));
        ends = inr (inl (omega (arith, full), ok, refl));
      })
  | inr (text, wrong) ↦ elim (Option-cases (s.canceled n)) [
    | inr (ended, e) ↦
        let stop : attempt_from s n (suc left) ≡ record { error = some ended; attempts = n } =
          rw (wrong, e) refl in
        rw stop (record {
          some_attempt = omega arith;
          bounded = omega (arith, full);
          failed = λ i lo hi. absurd (omega (arith, lo, hi));
          waited = λ i lo hi. absurd (omega (arith, lo, hi));
          ends = inr (inr (omega (arith, full), ground (arith, wrong), sym e, ground arith));
        })
    | inl e ↦
        let rest = attempt_from-IsRun s (n + 1) left most (omega (arith, full)) in
        let go_on : attempt_from s n (suc left) ≡ attempt_from s (n + 1) left =
          rw (wrong, e) refl in
        rw go_on (record {
          some_attempt = omega (arith, rest.some_attempt);
          bounded = rest.bounded;
          failed =
              from_here (λ i. s.op i ≢ none) n (attempt_from s (n + 1) left).attempts
                (ground (arith, wrong)) rest.failed;
          waited =
              from_here (λ i. s.canceled i ≡ none) n (attempt_from s (n + 1) left).attempts e
                rest.waited;
          ends = rest.ends;
        })
  ]
]

-- Every run of a retrier ends after at least one and at most its number of attempts: all attempts
-- before the last one failed, and their delays went by; it ends with the answer of its last
-- attempt if there is none left, with no error behind an attempt that succeeded, or else with the
-- error of the context, which ended in the delay behind a failed attempt.
pub execute-IsRun :
    (s : Surroundings) (c : RetryConfig)
    → IsRun s 1 (new_retrier c).max_attempts (execute s (new_retrier c))
unfolding execute new_retrier
execute-IsRun s c = at_least (new_retrier c).max_attempts (ground arith)
  where
    at_least : (most : ℕ) → 1 ≤ most → IsRun s 1 most (attempt_at_most s most)
    at_least zero lo = absurd (omega (arith, lo))
    at_least (suc left) lo = attempt_from-IsRun s 1 left (suc left) (omega arith)

select-append :
    (name : String) (front : Streams) (m : String × (String × Message))
    → is_stream name m ≡ true
    → select (is_stream name) (front ++ m ∷ []) ≡ select (is_stream name) front ++ m ∷ []
select-append name [] m here = ground (arith, here)
select-append name (x ∷ front) m here = ground (arith, select-append name front m here)

entries_of-append :
    (front : Streams) (name id : String) (e : RetryEntry)
    → entries_of (front ++ (name, (id, dead e)) ∷ []) ≡ entries_of front ++ e ∷ []
entries_of-append [] name id e = refl
entries_of-append ((n, (i, dead x)) ∷ front) name id e =
    ap (λ es. x ∷ es) (entries_of-append front name id e)
entries_of-append ((n, (i, replayed p)) ∷ front) name id e = entries_of-append front name id e

-- A run that fails leaves a dead letter: where the queue is enabled and Redis takes the message,
-- `GetDLQEntries` for the zone of the entry gives what it gave before, and then the entry with the
-- error and the time; as its attempts it names the most that were allowed.
pub dead_letter_kept :
    (s : Surroundings) (message_id text : String) (now count : ℕ) (c : RetryConfig) (e : RetryEntry)
    (streams : Streams)
    → (execute s c).error ≡ some text
    → c.dlq_enabled ≡ true
    → (streams' : Streams) × (execute_with_dlq s true message_id now c e (some streams)
        ≡ (execute s c, some streams'))
      × (get_dlq_entries c e.zone_id count streams'
          ≡ get_dlq_entries c e.zone_id count streams ++ dead_entry now c e text ∷ [])
unfolding execute_with_dlq get_dlq_entries
dead_letter_kept s message_id text now count c e streams wrong enabled =
    let name = c.dlq_stream_prefix <> "." <> e.zone_id in
    let m : String × (String × Message) = (name, (message_id, dead (dead_entry now c e text))) in
    (
      streams ++ m ∷ [],
      rw (wrong, enabled) refl,
      ap entries_of (select-append name streams m (str_eq_self name))
          ∙ entries_of-append (select (is_stream name) streams) name message_id
              (dead_entry now c e text),
    )

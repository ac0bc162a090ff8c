-- ===== src/Delivery/Exhaustion.antt =====
-- How the entries of the dead letter queue end (pkg/webhook/dlq.go).
use fintech_ecosystem.Base.{
  ℕ, suc, ◌+◌, ◌<◌, String, ◌≡◌, refl, ◌∙◌, ap, Option, none, some, List, [], ◌∷◌, find, update,
  length, leb, arith, if◌then◌else◌,
}
use fintech_ecosystem.Delivery.Dlq.{
  pending, exhausted, abandoned, DlqEntry, DeadLetterQueue, has_id, after, get_retry_delay,
  failed_entry, record_failure, abandon,
}

-- A failed retry: its time, the reason and the status code.
pub record Failure : Type 0 where
  pub now : ℕ
  pub reason : String
  pub code : ℕ

-- Calls of `RecordFailure` for an entry, one after the other.
abbrev pub and_fail :
    DeadLetterQueue → String → Failure → Option (List DlqEntry) → Option (List DlqEntry)
and_fail q id f none = none
and_fail q id f (some rows) = record_failure q f.now id f.reason f.code rows

abbrev pub fail_all :
    DeadLetterQueue → String → List Failure → Option (List DlqEntry) → Option (List DlqEntry)
fail_all q id [] rows = rows
fail_all q id (f ∷ fs) rows = fail_all q id fs (and_fail q id f rows)

-- The first row of an id behind an update that keeps the ids.
find-update :
    (id : String) (change : DlqEntry → DlqEntry) (rows : List DlqEntry) (e : DlqEntry)
    → ((x : DlqEntry) → (change x).id ≡ x.id)
    → find (has_id id) rows ≡ some e
    → find (has_id id) (update (has_id id) change rows) ≡ some (change e)
find-update id change [] e keeps found = absurd (ground (arith, found))
find-update id change (x ∷ rows) e keeps found =
    ground (arith, found, keeps x, keeps e, find-update id change rows e keeps)

failed_entry-id :
    (q : DeadLetterQueue) (f : Failure) (count most : ℕ) (x : DlqEntry)
    → (failed_entry q f.now f.reason f.code count most x).id ≡ x.id
failed_entry-id q f count most x = ground arith

fail_once :
    (q : DeadLetterQueue) (id : String) (f : Failure) (rows : List DlqEntry) (e : DlqEntry)
    → find (has_id id) rows ≡ some e
    → (rows' : List DlqEntry) × (record_failure q f.now id f.reason f.code rows ≡ some rows')
      × (find (has_id id) rows'
          ≡ some (failed_entry q f.now f.reason f.code (e.attempt_count + 1) e.max_attempts e))
unfolding record_failure
fail_once q id f rows e found =
    let change = failed_entry q f.now f.reason f.code (e.attempt_count + 1) e.max_attempts in
    (
      update (has_id id) change rows,
      rw found refl,
      find-update id change rows e (failed_entry-id q f (e.attempt_count + 1) e.max_attempts) found,
    )

-- What failures make of an entry.
pub record HasFailed (e : DlqEntry) (failures : ℕ) (e' : DlqEntry) : Type 0 where
  pub counted : e'.attempt_count ≡ e.attempt_count + failures
  pub same_most : e'.max_attempts ≡ e.max_attempts
  pub same_expiry : e'.expires_at ≡ e.expires_at
  pub ended :
      e'.status ≡ (if leb e.max_attempts (e.attempt_count + failures) then exhausted else pending)

HasFailed-step :
    (e e1 e' : DlqEntry) (n : ℕ)
    → e1.attempt_count ≡ e.attempt_count + 1
    → e1.max_attempts ≡ e.max_attempts
    → e1.expires_at ≡ e.expires_at
    → HasFailed e1 n e'
    → HasFailed e (suc n) e'
HasFailed-step e e1 e' n counted same_most same_expiry has =
    let sum : e1.attempt_count + n ≡ e.attempt_count + suc n = omega (arith, counted) in
    record {
      counted = has.counted ∙ sum;
      same_most = has.same_most ∙ same_most;
      same_expiry = has.same_expiry ∙ same_expiry;
      ended =
          has.ended
          ∙ ap (λ most. if leb most (e1.attempt_count + n) then exhausted else pending) same_most
          ∙ ap (λ count. if leb e.max_attempts count then exhausted else pending) sum;
    }

-- The queue gives up after exactly its number of attempts: after one or more failures of an entry
-- that is there, its attempts are counted, its expiry is what it was, and it is exhausted if the
-- attempts have reached its maximum and pending otherwise, whatever its status was before.
pub failures_exhaust :
    (q : DeadLetterQueue) (id : String) (f : Failure) (fs : List Failure) (rows : List DlqEntry)
    (e : DlqEntry)
    → find (has_id id) rows ≡ some e
    → (rows' : List DlqEntry) × (e' : DlqEntry) × (fail_all q id (f ∷ fs) (some rows) ≡ some rows')
      × (find (has_id id) rows' ≡ some e')
      × HasFailed e (length (f ∷ fs)) e'
failures_exhaust q id f [] rows e found =
    let (rows', run, now_found) = fail_once q id f rows e found in
    (
      rows',
      failed_entry q f.now f.reason f.code (e.attempt_count + 1) e.max_attempts e,
      run,
      now_found,
      record {
        counted = ground arith;
        same_most = ground arith;
        same_expiry = ground arith;
        ended = ground arith;
      },
    )
failures_exhaust q id f (g ∷ fs) rows e found =
    let (rows1, run1, found1) = fail_once q id f rows e found in
    let e1 = failed_entry q f.now f.reason f.code (e.attempt_count + 1) e.max_attempts e in
    let (rows', e', run, last, has) = failures_exhaust q id g fs rows1 e1 found1 in
    let counted1 : e1.attempt_count ≡ e.attempt_count + 1 = ground arith in
    let most1 : e1.max_attempts ≡ e.max_attempts = ground arith in
    let expiry1 : e1.expires_at ≡ e.expires_at = ground arith in
    (
      rows',
      e',
      rw run1 run,
      last,
      HasFailed-step e e1 e' (length (g ∷ fs)) counted1 most1 expiry1 has,
    )

-- An abandoned entry comes back: where an operator abandons an entry while it is retried, and the
-- retry fails with attempts left, the entry is pending again.
pub abandoned_revives :
    (q : DeadLetterQueue) (id : String) (f : Failure) (rows : List DlqEntry) (e : DlqEntry)
    → find (has_id id) rows ≡ some e
    → e.attempt_count + 1 < e.max_attempts
    → (rows' : List DlqEntry) × (e' : DlqEntry) × (record_failure q f.now id f.reason f.code
          (abandon id rows)
        ≡ some rows')
      × (find (has_id id) rows' ≡ some e')
      × (e'.status ≡ pending)
      × (e'.next_retry_at ≡ after f.now (get_retry_delay q (e.attempt_count + 1)))
unfolding abandon
abandoned_revives q id f rows e found left =
    let e1 : DlqEntry = record e { status = abandoned } in
    let gone = find-update id (λ x. record x { status = abandoned }) rows e (λ x. refl) found in
    let (rows', run, last) = fail_once q id f (abandon id rows) e1 gone in
    (
      rows',
      failed_entry q f.now f.reason f.code (e.attempt_count + 1) e.max_attempts e1,
      run,
      last,
      ground (arith, left),
      ground (arith, left),
    )

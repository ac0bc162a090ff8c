-- ===== src/Audit/Breaks.antt =====
-- Untouched audit tables of which `VerifyChain` reports errors (pkg/audit/secure.go).
use fintech_ecosystem.Base.{
  ℕ, suc, ◌*◌, ◌≤◌, inl, inr, String, ◌≡◌, refl, sym, ◌∙◌, ap, subst, ◌≢◌, false, Option, none,
  some, List, [], ◌∷◌, ◌++◌, take, select, eq_iff, str_eq_self, str_eq_ne, Option-cases, arith,
}
use fintech_ecosystem.Audit.{
  SignedAuditLog, AuditEnv, SecureLogger, canonical, sign, verify, verify_logs, verify_chain,
  ChainError, invalid_signature, chain_broken, link_errors, is_empty, is_zone, log, chained,
  as_stored,
}
use fintech_ecosystem.Audit.Zones.{IsUpTo, KeepsMicroseconds, insert_row-newest}

-- What a call of `Log` that went through has done: the entry is in front as it is stored, with the
-- signature of the entry as it was, which the next entry will name.
record IsLogged (env : AuditEnv) (now : ℕ) (e : SignedAuditLog) (l l' : SecureLogger) : Type 0 where
  signed : sign env l.signing_key (chained now e l) ≡ some l'.last_hash
  rows : l'.rows ≡ as_stored env (record (chained now e l) { signature = l'.last_hash }) ∷ l.rows
  same_key : l'.signing_key ≡ l.signing_key

log-IsLogged :
    (env : AuditEnv) (now : ℕ) (e : SignedAuditLog) (l l' : SecureLogger)
    → IsUpTo (env.kept_time now) l.rows
    → log env now e l ≡ (none, l')
    → IsLogged env now e l l'
unfolding log sign
log-IsLogged env now e l l' newest done =
    elim (Option-cases (env.hmac l.signing_key (canonical (chained now e l)))) [
      | inl unsigned ↦ absurd (ground (arith, unsigned, done))
      | inr (sig, signed) ↦ elim (Option-cases (env.refuses_insert l.rows)) [
        | inr (text, refused) ↦ absurd (ground (arith, signed, refused, done))
        | inl kept ↦
            let row : SignedAuditLog =
              as_stored env (record (chained now e l) { signature = sig }) in
            let made : record l { rows = row ∷ l.rows; last_hash = sig } ≡ l' =
              ap (λ (r : Option String × SecureLogger). r.1)
                (rw (signed, kept, insert_row-newest row l.rows newest) at done) in
            rw (← made) (record { signed = signed; rows = refl; same_key = refl })
      ]
    ]

is_empty-append :
    (earlier later : List ChainError) (e : ChainError)
    → is_empty ((earlier ++ e ∷ []) ++ later) ≡ false
is_empty-append [] later e = refl
is_empty-append (x ∷ earlier) later e = refl

-- An entry that reads back with another signature than it was given is reported: where the column
-- keeps less of the time than `sign` reads, and the HMAC tells the two times apart, `VerifyChain`
-- says of the newest entry of an untouched table that its signature is invalid.
pub stored_time_invalid :
    (env : AuditEnv) (zone again : String) (limit now : ℕ) (e : SignedAuditLog)
    (l l' : SecureLogger)
    → IsUpTo (env.kept_time now) l.rows
    → e.zone_id ≡ zone
    → log env now e l ≡ (none, l')
    → sign env l.signing_key (as_stored env (chained now e l)) ≡ some again
    → again ≢ l'.last_hash
    → env.refuses_select l'.rows ≡ none
    → (earlier later : List ChainError) × (verify_chain env zone (suc limit) l'
        ≡ some (false, (earlier ++ invalid_signature e.id ∷ []) ++ later))
unfolding verify_chain verify_logs verify sign
stored_time_invalid env zone again limit now e l l' newest own done reads_as differ reads =
    let made = log-IsLogged env now e l l' newest done in
    let row : SignedAuditLog =
      as_stored env (record (chained now e l) { signature = l'.last_hash }) in
    let seen : select (is_zone zone) l'.rows ≡ row ∷ select (is_zone zone) l.rows =
      rw made.rows (ground (arith, own, str_eq_self zone)) in
    let older = take limit (select (is_zone zone) l.rows) in
    let before = verify_logs env l.signing_key older in
    let other = str_eq_ne l'.last_hash again (λ same. differ (sym same)) in
    let later = link_errors row before.0 in
    (
      before.1,
      later,
      rw
          (
            seen,
            made.same_key,
            reads,
            reads_as,
            other,
            is_empty-append before.1 later (invalid_signature e.id),
          )
          refl,
    )

two_entries :
    (env : AuditEnv) (key : String) (first last : SignedAuditLog)
    → sign env key first ≡ some first.signature
    → sign env key last ≡ some last.signature
    → first.signature ≢ ""
    → last.previous_hash ≢ first.signature
    → verify_logs env key (last ∷ first ∷ []) ≡ (last.signature, chain_broken last.id ∷ [])
unfolding verify_logs verify
two_entries env key first last signed signed' named differ =
    rw
      (
        signed,
        signed',
        str_eq_self first.signature,
        str_eq_self last.signature,
        str_eq_ne first.signature "" named,
        str_eq_ne last.previous_hash first.signature differ,
      )
      refl

-- The chain is one for all zones, while `VerifyChain` looks at one of them: where three calls of
-- `Log` fill an empty table, the first and the last for a zone and the second for another, the
-- signatures of the first two differ, the first is not empty, and the columns give back what they
-- were given, `VerifyChain` reports for the untouched table that the chain is broken at the last
-- entry, and nothing else.
pub zones_break :
    (env : AuditEnv) (zone : String) (t1 t2 t3 : ℕ) (first other last : SignedAuditLog)
    (l l1 l2 l3 : SecureLogger)
    → KeepsMicroseconds env
    → l.rows ≡ []
    → t1 ≤ t2
    → t2 ≤ t3
    → first.zone_id ≡ zone
    → other.zone_id ≢ zone
    → last.zone_id ≡ zone
    → env.kept_metadata first.metadata ≡ first.metadata
    → env.kept_metadata last.metadata ≡ last.metadata
    → log env (t1 * 1000) first l ≡ (none, l1)
    → log env (t2 * 1000) other l1 ≡ (none, l2)
    → log env (t3 * 1000) last l2 ≡ (none, l3)
    → l1.last_hash ≢ ""
    → l2.last_hash ≢ l1.last_hash
    → env.refuses_select l3.rows ≡ none
    → verify_chain env zone 2 l3 ≡ some (false, chain_broken last.id ∷ [])
unfolding verify_chain sign
zones_break env zone t1 t2 t3 first other last l l1 l2 l3 keeps empty t12 t23 own differs own' text
      text' done1 done2 done3 named differ reads =
    let made1 = log-IsLogged env (t1 * 1000) first l l1 (subst (IsUpTo _) (sym empty) tt) done1 in
    let made2 =
      log-IsLogged env (t2 * 1000) other l1 l2
        (rw (made1.rows, keeps t1, keeps t2) (omega (arith, t12))) done2 in
    let made3 =
      log-IsLogged env (t3 * 1000) last l2 l3
        (rw (made2.rows, keeps t2, keeps t3) (omega (arith, t23))) done3 in
    let row1 : SignedAuditLog = record (chained (t1 * 1000) first l) { signature = l1.last_hash } in
    let row2 : SignedAuditLog =
      as_stored env (record (chained (t2 * 1000) other l1) { signature = l2.last_hash }) in
    let row3 : SignedAuditLog = record (chained (t3 * 1000) last l2) { signature = l3.last_hash } in
    let rows1 : l1.rows ≡ row1 ∷ [] = rw (made1.rows, empty, keeps t1, text) refl in
    let rows3 : l3.rows ≡ row3 ∷ row2 ∷ row1 ∷ [] =
      rw (made3.rows, made2.rows, rows1, keeps t3, text') refl in
    let seen : take 2 (select (is_zone zone) l3.rows) ≡ row3 ∷ row1 ∷ [] = rw rows3 (
      ground (
        arith,
        own,
        own',
        eq_iff first.zone_id zone,
        eq_iff last.zone_id zone,
        str_eq_ne other.zone_id zone differs,
      )) in
    let key2 : l2.signing_key ≡ l.signing_key = made2.same_key ∙ made1.same_key in
    let key3 : l3.signing_key ≡ l.signing_key = made3.same_key ∙ key2 in
    rw (reads, seen, key3)
      (rw
        (two_entries env l.signing_key row1 row3 made1.signed (rw key2 at made3.signed) named
          differ)
        refl)

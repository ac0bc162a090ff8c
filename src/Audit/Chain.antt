-- ===== src/Audit/Chain.antt =====
-- What the audit chain promises (pkg/audit/secure.go).
use fintech_ecosystem.Base.{
  ℕ, String, ◌≡◌, refl, ap, ◌⊎◌, inl, inr, ◌↔◌, Bool, true, false, Option, none, some, List, [],
  ◌∷◌, ◌++◌, take, select, str_eq, eq_iff, str_eq_self, Bool-cases, Option-cases, arith,
}
use fintech_ecosystem.Audit.{
  SignedAuditLog, AuditEnv, SecureLogger, sign, verify, verify_logs, verify_round, verify_chain,
  link_errors, is_zone, ChainError, verification_error, invalid_signature,
}

-- The signature of the newest entry.
abbrev pub head_signature : List SignedAuditLog → String
head_signature [] = ""
head_signature (e ∷ older) = e.signature

-- Every entry has its own signature, and names the one before it.
pub data IsLinked (env : AuditEnv) (key : String) : List SignedAuditLog → Type 0 where
  oldest : IsLinked env key []
  newer :
      {e : SignedAuditLog} {older : List SignedAuditLog}
      → sign env key e ≡ some e.signature
      → (head_signature older ≡ "") ⊎ (e.previous_hash ≡ head_signature older)
      → IsLinked env key older
      → IsLinked env key (e ∷ older)

-- A round adds no error exactly where the entry is signed and linked.
link_errors-none :
    (e : SignedAuditLog) (previous : String)
    → link_errors e previous ≡ []
    → (previous ≡ "") ⊎ (e.previous_hash ≡ previous)
link_errors-none e previous h = elim (Bool-cases (str_eq previous "")) [
  | inl first ↦ inl (ground (arith, first, eq_iff previous ""))
  | inr later ↦ inr (ground (arith, h, later, eq_iff e.previous_hash previous))
]

none-link_errors :
    (e : SignedAuditLog) (previous : String)
    → (previous ≡ "") ⊎ (e.previous_hash ≡ previous)
    → link_errors e previous ≡ []
none-link_errors e previous (inl first) = ground (arith, first, eq_iff previous "")
none-link_errors e previous (inr same) = ground (arith, same, eq_iff e.previous_hash previous)

verified_newest :
    (env : AuditEnv) (key : String) (logs : List SignedAuditLog)
    → IsLinked env key logs
    → verify_logs env key logs ≡ (head_signature logs, [])
unfolding verify_logs verify
verified_newest env key [] oldest = refl
verified_newest env key (e ∷ older) (newer signed link linked) =
    rw
      (
        signed,
        verified_newest env key older linked,
        str_eq_self e.signature,
        none-link_errors e (head_signature older) link,
      )
      refl

append-nil_left : (front back : List ChainError) → front ++ back ≡ [] → (front ≡ []) × (back ≡ [])
append-nil_left [] back h = (refl, h)
append-nil_left (x ∷ front) back h = absurd (ground (arith, h))

round_empty :
    (e : SignedAuditLog) (v : Option Bool) (previous : String) (errors : List ChainError)
    → (verify_round e v (previous, errors)).1 ≡ []
    → (v ≡ some true) × (errors ≡ []) × (link_errors e previous ≡ [])
round_empty e none previous errors h =
    absurd (ground (arith, append-nil_left errors (verification_error e.id ∷ []) h))
round_empty e (some true) previous errors h =
    let (front, linked) = append-nil_left (errors ++ []) (link_errors e previous) h in
    let (older, _) = append-nil_left errors [] front in (refl, older, linked)
round_empty e (some false) previous errors h =
    let (front, _) =
      append-nil_left (errors ++ invalid_signature e.id ∷ []) (link_errors e previous) h in
    absurd (ground (arith, append-nil_left errors (invalid_signature e.id ∷ []) front))

verify-signed :
    (env : AuditEnv) (key : String) (e : SignedAuditLog)
    → verify env key e ≡ some true
    → sign env key e ≡ some e.signature
unfolding verify
verify-signed env key e h = elim (Option-cases (sign env key e)) [
  | inl none_signed ↦ absurd (ground (arith, h, none_signed))
  | inr (s, signed) ↦ ground (arith, h, signed, eq_iff e.signature s)
]

linked_of :
    (env : AuditEnv) (key : String) (logs : List SignedAuditLog)
    → (verify_logs env key logs).1 ≡ []
    → IsLinked env key logs
unfolding verify_logs
linked_of env key [] h = oldest
linked_of env key (e ∷ older) h =
    let past = verify_logs env key older in
    let (valid, none_before, link) = round_empty e (verify env key e) past.0 past.1 h in
    let linked = linked_of env key older none_before in
    let named : past.0 ≡ head_signature older =
      ap (λ x. x.0) (verified_newest env key older linked) in
    newer (verify-signed env key e valid) (rw named at (link_errors-none e past.0 link)) linked

-- `VerifyChain` says that a chain is valid exactly where the newest entries of the zone, up to the
-- limit, carry their own signatures and each names the signature of the one before it, if that is
-- not empty; this is under the condition that the database gives the rows.
pub verify_chain_iff :
    (env : AuditEnv) (zone : String) (limit : ℕ) (l : SecureLogger)
    → env.refuses_select l.rows ≡ none
    → (verify_chain env zone limit l ≡ some (true, []))
      ↔ IsLinked env l.signing_key (take limit (select (is_zone zone) l.rows))
unfolding verify_chain
verify_chain_iff env zone limit l reads =
    let logs = take limit (select (is_zone zone) l.rows) in
    (
      λ h. linked_of env l.signing_key logs (ground (arith, reads, h)),
      λ linked. rw (reads, verified_newest env l.signing_key logs linked) refl,
    )

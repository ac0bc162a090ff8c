-- ===== src/Audit/Zones.antt =====
-- The audit chain of one zone, and of several (pkg/audit/secure.go).
use fintech_ecosystem.Base.{
  ℕ, ◌*◌, ◌≤◌, String, ◌≡◌, refl, ◌⊎◌, true, some, List, [], ◌∷◌, select, All, arith,
}
use fintech_ecosystem.Audit.{
  SignedAuditLog, AuditEnv, SecureLogger, new_secure_logger, is_zone, log, insert_row,
}
use fintech_ecosystem.Audit.Chain.{IsLinked, head_signature}

-- No entry is later than a time.
abbrev pub IsUpTo : ℕ → List SignedAuditLog → Type 0
IsUpTo now [] = Unit
IsUpTo now (e ∷ older) = e.timestamp ≤ now

-- The column for the time keeps microseconds.
abbrev pub KeepsMicroseconds : AuditEnv → Type 0
KeepsMicroseconds env = (micros : ℕ) → env.kept_time (micros * 1000) ≡ micros * 1000

-- The loggers that calls of `Log` reach from a new one on an empty table, when the clock does not
-- go back and reads whole microseconds, all entries are of one zone, and the column for the metadata
-- gives back the JSON of theirs.
pub data Reach (env : AuditEnv) (zone : String) : SecureLogger → Type 0 where
  started :
      {l : SecureLogger} (key : String) → new_secure_logger env [] key ≡ some l → Reach env zone l
  logged :
      {l : SecureLogger} (micros : ℕ) (e : SignedAuditLog)
      → Reach env zone l
      → e.zone_id ≡ zone
      → env.kept_metadata e.metadata ≡ e.metadata
      → IsUpTo (micros * 1000) l.rows
      → Reach env zone (log env (micros * 1000) e l).1

-- What the logger and its table have in common.
pub record IsChained (env : AuditEnv) (zone : String) (l : SecureLogger) : Type 0 where
  pub linked : IsLinked env l.signing_key l.rows
  pub continues : (head_signature l.rows ≡ "") ⊎ (l.last_hash ≡ head_signature l.rows)
  pub zoned : All (λ e. is_zone zone e ≡ true) l.rows

pub insert_row-newest :
    (e : SignedAuditLog) (rows : List SignedAuditLog)
    → IsUpTo e.timestamp rows
    → insert_row e rows ≡ e ∷ rows
insert_row-newest e [] newest = refl
insert_row-newest e (row ∷ rows) newest = ground (arith, newest)

pub select-All :
    (zone : String) (rows : List SignedAuditLog)
    → All (λ e. is_zone zone e ≡ true) rows
    → select (is_zone zone) rows ≡ rows
select-All zone [] all = refl
select-All zone (e ∷ rows) (here, there) = ground (arith, here, select-All zone rows there)

-- ===== src/Audit.antt =====
-- pkg/audit/secure.go: the signed and chained audit log. The HMAC over the canonical JSON and the
-- database are outside.
pub mod Chain
pub mod Zones
pub mod Breaks
use fintech_ecosystem.Base.{
  ℕ, String, ◌<>◌, Bool, true, false, Option, none, some, List, [], ◌∷◌, ◌++◌, take, select, str_eq,
  leb, ltb, if◌then◌else◌,
}
use Prim.Native.String.{len}

-- `SignedAuditLog` with the fields of `AuditLog` that it stores; the metadata is kept by its JSON.
-- `signed_at`, which is not stored, is not modelled.
pub record SignedAuditLog : Type 0 where
  pub id : String
  pub zone_id : String
  pub timestamp : ℕ
  pub actor_id : String
  pub action : String
  pub resource_type : String
  pub resource_id : String
  pub metadata : String
  pub ip_address : String
  pub user_agent : String
  pub previous_hash : String
  pub signature : String

-- The part of an entry that is signed.
pub record Canonical : Type 0 where
  pub timestamp : ℕ
  pub actor_id : String
  pub zone_id : String
  pub action : String
  pub resource_type : String
  pub resource_id : String
  pub metadata : String
  pub previous_hash : String

pub record AuditEnv : Type 0 where
  -- HMAC-SHA256 in hexadecimal, by the key, of the JSON (`none` if there is none)
  pub hmac : String → Canonical → Option String
  -- what the columns for the time and the metadata give back
  pub kept_time : ℕ → ℕ
  pub kept_metadata : String → String
  -- the statements that the database refuses, by the table before them
  pub refuses_insert : List SignedAuditLog → Option String
  pub refuses_select : List SignedAuditLog → Option String

-- The table, by its column `timestamp` with the newest row in front.
pub record SecureLogger : Type 0 where
  pub rows : List SignedAuditLog
  pub signing_key : String
  pub last_hash : String

abbrev pub newest_hash : List SignedAuditLog → Option String → String
newest_hash rows (some text) = "genesis"
newest_hash [] none = "genesis"
newest_hash (row ∷ rows) none = row.signature

-- `NewSecureLogger` with `loadLastHash`
unfoldable pub new_secure_logger : AuditEnv → List SignedAuditLog → String → Option SecureLogger
new_secure_logger env rows key =
    if ltb (len key) 32
    then none
    else some (record {
      rows = rows;
      signing_key = key;
      last_hash = newest_hash rows (env.refuses_select rows);
    })

abbrev pub canonical : SignedAuditLog → Canonical
canonical e = record {
  timestamp = e.timestamp;
  actor_id = e.actor_id;
  zone_id = e.zone_id;
  action = e.action;
  resource_type = e.resource_type;
  resource_id = e.resource_id;
  metadata = e.metadata;
  previous_hash = e.previous_hash;
}

-- `sign`
unfoldable pub sign : AuditEnv → String → SignedAuditLog → Option String
sign env key e = env.hmac key (canonical e)

abbrev pub insert_row : SignedAuditLog → List SignedAuditLog → List SignedAuditLog
insert_row e [] = e ∷ []
insert_row e (row ∷ rows) =
    let rest = insert_row e rows in
    if leb row.timestamp e.timestamp then e ∷ row ∷ rows else row ∷ rest

abbrev pub as_stored : AuditEnv → SignedAuditLog → SignedAuditLog
as_stored env e = record e {
  timestamp = env.kept_time e.timestamp;
  metadata = env.kept_metadata e.metadata;
}

-- `store`, and the update of the chain behind it
abbrev pub stored :
    AuditEnv → SignedAuditLog → SecureLogger → Option String → Option String × SecureLogger
stored env e l (some text) = (some ("failed to store audit log: " <> text), l)
stored env e l none =
    (none, record l { rows = insert_row (as_stored env e) l.rows; last_hash = e.signature })

abbrev pub with_signature :
    AuditEnv → SignedAuditLog → SecureLogger → Option String → Option String × SecureLogger
with_signature env e l none = (some "failed to sign audit log", l)
with_signature env e l (some sig) =
    stored env (record e { signature = sig }) l (env.refuses_insert l.rows)

abbrev pub chained : ℕ → SignedAuditLog → SecureLogger → SignedAuditLog
chained now e l = record e { timestamp = now; previous_hash = l.last_hash }

-- `Log`
unfoldable pub log : AuditEnv → ℕ → SignedAuditLog → SecureLogger → Option String × SecureLogger
log env now e l = with_signature env (chained now e l) l (sign env l.signing_key (chained now e l))

abbrev pub is_zone : String → SignedAuditLog → Bool
is_zone zone e = str_eq e.zone_id zone

-- `Verify`: `none` if the entry cannot be signed
abbrev pub matches : String → Option String → Option Bool
matches signature none = none
matches signature (some expected) = some (str_eq signature expected)

unfoldable pub verify : AuditEnv → String → SignedAuditLog → Option Bool
verify env key e = matches e.signature (sign env key e)

pub data ChainError : Type 0 where
  verification_error invalid_signature chain_broken : String → ChainError

abbrev pub link_errors : SignedAuditLog → String → List ChainError
link_errors e previous =
    if str_eq previous ""
    then []
    else (if str_eq e.previous_hash previous then [] else chain_broken e.id ∷ [])

abbrev pub signature_errors : SignedAuditLog → Bool → List ChainError
signature_errors e true = []
signature_errors e false = invalid_signature e.id ∷ []

-- One round: the hash that the next entry should name, and the errors so far.
abbrev pub verify_round :
    SignedAuditLog → Option Bool → String × List ChainError → String × List ChainError
verify_round e none (previous, errors) = (previous, errors ++ verification_error e.id ∷ [])
verify_round e (some valid) (previous, errors) =
    (e.signature, (errors ++ signature_errors e valid) ++ link_errors e previous)

-- The loop of `VerifyChain`, which goes from the oldest entry to the newest.
unfoldable pub verify_logs : AuditEnv → String → List SignedAuditLog → String × List ChainError
verify_logs env key [] = ("", [])
verify_logs env key (e ∷ older) = verify_round e (verify env key e) (verify_logs env key older)

abbrev pub is_empty : List ChainError → Bool
is_empty [] = true
is_empty (e ∷ es) = false

abbrev pub verdict :
    AuditEnv → String → List SignedAuditLog → Option String → Option (Bool × List ChainError)
verdict env key logs (some text) = none
verdict env key logs none =
    let errors = (verify_logs env key logs).1 in some (is_empty errors, errors)

-- `VerifyChain` with `getRecentLogs`; `none` if the rows are not read
unfoldable pub verify_chain : AuditEnv → String → ℕ → SecureLogger → Option (Bool × List ChainError)
verify_chain env zone limit l =
    verdict env l.signing_key (take limit (select (is_zone zone) l.rows))
      (env.refuses_select l.rows)

-- ===== src/Auth/Service.antt =====
-- internal/auth/domain/service.go: `AuthService`. The methods that only pass a call on to the
-- repository stand for themselves in `Store` and `Tables`.
pub mod Accounts
use fintech_ecosystem.Base.{
  ℕ, ◌+◌, ◌*◌, String, ◌<>◌, Bool, true, false, Option, none, some, List, [], ◌∷◌, ◌++◌, str_eq,
  ltb, leb, if◌then◌else◌,
}
use fintech_ecosystem.Auth.Model.{User, AccountToken, Membership, OauthToken, AuthEvent, AuthDb}
use fintech_ecosystem.Auth.Store.{
  AuthEnv, AuthResult, done, fault, ◌>>=◌, is_unset, create_user_row, get_user_by_id,
  update_user_password, set_email_verified, create_password_reset_token, get_password_reset_token,
  mark_password_reset_token_used, create_email_verification_token, get_email_verification_token,
  mark_email_verification_token_used,
}
use fintech_ecosystem.Auth.Tables.{get_membership_row, get_oauth_token_row}

-- The clock, the random texts that a call draws in turn (`none` if the source of randomness
-- fails), and the next UUID.
pub record Draw : Type 0 where
  pub now : ℕ
  pub random : ℕ → Option String
  pub uuid : String

-- The tables, and what the publisher took (`none` if there is no publisher).
pub record AuthService : Type 0 where
  pub db : AuthDb
  pub published : Option (List AuthEvent)

abbrev pub publish : AuthEnv → AuthEvent → Option (List AuthEvent) → Option (List AuthEvent)
publish env e none = none
publish env e (some es) = if env.publish_refuses e then some es else some (es ++ e ∷ [])

abbrev pub base_url : AuthEnv → String
base_url env = if str_eq env.app_base_url "" then "https://sapliy.com" else env.app_base_url

-- `GenerateRandomString`
abbrev pub drawn : Option String → AuthResult String
drawn none = fault "rand"
drawn (some s) = done s

abbrev pub minutes : ℕ → ℕ
minutes n = n * 60000000000

abbrev pub account_token : AuthEnv → Draw → ℕ → String → String → AccountToken
account_token env draw lifetime user_id raw = record {
  id = draw.uuid;
  user_id = user_id;
  token = env.hash_string raw;
  expires_at = draw.now + minutes lifetime;
  used_at = none;
}

-- `CreateEmailVerificationToken`
unfoldable pub create_email_verification :
    AuthEnv → Draw → String → AuthDb → AuthResult (String × AuthDb)
create_email_verification env draw user_id db = do
  raw ← drawn (draw.random 0)
  db' ← create_email_verification_token env (account_token env draw 15 user_id raw) db
  done (raw, db')

abbrev pub registered_event : AuthEnv → User → String → AuthEvent
registered_event env user token = record {
  type = "user.registered";
  user_id = user.id;
  email = user.email;
  token = token;
  link = base_url env <> "/verify-email?token=" <> token;
}

-- A token that was not made leaves the user without an event.
abbrev pub registered :
    AuthEnv
    → User
    → AuthDb
    → AuthResult (String × AuthDb)
    → Option (List AuthEvent)
    → User × AuthService
registered env user db (fault e) published = (user, record { db = db; published = published })
registered env user db (done (token, db')) published =
    (user, record { db = db'; published = publish env (registered_event env user token) published })

-- `CreateUser`
unfoldable pub create_user :
    AuthEnv → Draw → String → String → AuthService → AuthResult (User × AuthService)
create_user env draw email password_hash s = do
  (user, db) ← create_user_row env email password_hash s.db
  done (registered env user db (create_email_verification env draw user.id db) s.published)

-- The map `roles` of `HasPermission`, 0 for a role that is no key.
unfoldable pub rank : String → ℕ
rank role =
    if str_eq role "owner"
    then 4
    else (if str_eq role "admin"
        then 3
        else (if str_eq role "developer" then 2 else (if str_eq role "member" then 1 else 0)))

abbrev pub permits : String → Option Membership → Bool
permits required none = false
permits required (some m) = leb (rank required) (rank m.role)

-- `HasPermission`
unfoldable pub has_permission : AuthEnv → String → String → String → AuthDb → AuthResult Bool
has_permission env user_id org_id required db = do
  m ← get_membership_row env user_id org_id db
  done (permits required m)

abbrev pub live_token : ℕ → Option OauthToken → AuthResult (Option OauthToken)
live_token now none = done none
live_token now (some t) = if ltb t.expires_at now then fault "token expired" else done (some t)

-- `ValidateOAuthToken`
unfoldable pub validate_oauth_token : AuthEnv → ℕ → String → AuthDb → AuthResult (Option OauthToken)
validate_oauth_token env now access db = do t ← get_oauth_token_row env access db; live_token now t

-- `VerifyCodeChallenge`
unfoldable pub verify_code_challenge : AuthEnv → String → String → String → Bool
verify_code_challenge env verifier challenge method =
    if str_eq method "S256" then str_eq (env.s256 verifier) challenge else str_eq verifier challenge

abbrev pub reset_event : AuthEnv → String → User → String → AuthEvent
reset_event env user_id user raw = record {
  type = "password.reset";
  user_id = user_id;
  email = user.email;
  token = raw;
  link = base_url env <> "/reset-password?token=" <> raw;
}

-- The event is sent if the user is read.
abbrev pub publish_reset :
    AuthEnv
    → String
    → String
    → AuthResult (Option User)
    → Option (List AuthEvent)
    → Option (List AuthEvent)
publish_reset env user_id raw (done (some user)) published =
    publish env (reset_event env user_id user raw) published
publish_reset env user_id raw _ published = published

-- `CreatePasswordResetToken`
unfoldable pub create_password_reset :
    AuthEnv → Draw → String → AuthService → AuthResult (String × AuthService)
create_password_reset env draw user_id s = do
  raw ← drawn (draw.random 0)
  db ← create_password_reset_token env (account_token env draw 60 user_id raw) s.db
  done (
    raw,
    record {
      db = db;
      published = publish_reset env user_id raw (get_user_by_id env user_id db) s.published;
    },
  )

-- The guards that both kinds of token share, with their error texts.
abbrev pub usable : ℕ → String → Option AccountToken → AuthResult AccountToken
usable now kind none = fault ("invalid " <> kind <> " token")
usable now kind (some t) =
    if is_unset t.used_at
    then (if ltb t.expires_at now then fault (kind <> " token expired") else done t)
    else fault (kind <> " token already used")

-- `ValidatePasswordResetToken`
unfoldable pub validate_password_reset_token :
    AuthEnv → ℕ → String → AuthDb → AuthResult AccountToken
validate_password_reset_token env now raw db = do
  t ← get_password_reset_token env (env.hash_string raw) db
  usable now "reset" t

-- The state after a write: what it made, or what was there before it failed.
abbrev pub settled : AuthDb → AuthResult AuthDb → Option String × AuthDb
settled before (done db) = (none, db)
settled before (fault e) = (some e, before)

abbrev pub then_mark :
    (AuthDb → AuthResult AuthDb) → AuthDb → AuthResult AuthDb → Option String × AuthDb
then_mark mark before (done db) = settled db (mark db)
then_mark mark before (fault e) = (some e, before)

-- `ResetPassword` behind the validation.
unfoldable pub apply_reset :
    AuthEnv → ℕ → String → String → AuthDb → AuthResult AccountToken → Option String × AuthDb
apply_reset env now raw hash db (fault e) = (some e, db)
apply_reset env now raw hash db (done t) =
    then_mark (mark_password_reset_token_used env now (env.hash_string raw)) db
      (update_user_password env t.user_id hash db)

-- `ResetPassword`
unfoldable pub reset_password : AuthEnv → ℕ → String → String → AuthDb → Option String × AuthDb
reset_password env now raw hash db =
    apply_reset env now raw hash db (validate_password_reset_token env now raw db)

abbrev pub apply_verification :
    AuthEnv → ℕ → String → AuthDb → AuthResult AccountToken → Option String × AuthDb
apply_verification env now hash db (fault e) = (some e, db)
apply_verification env now hash db (done t) =
    then_mark (mark_email_verification_token_used env now hash) db
      (set_email_verified env t.user_id db)

abbrev pub checked_verification :
    AuthEnv → ℕ → AuthResult (Option AccountToken) → AuthResult AccountToken
checked_verification env now (fault e) = fault e
checked_verification env now (done t) = usable now "verification" t

-- `VerifyEmail`
unfoldable pub verify_email : AuthEnv → ℕ → String → AuthDb → Option String × AuthDb
verify_email env now raw db =
    let hash = env.hash_string raw in
    apply_verification env now hash db
      (checked_verification env now (get_email_verification_token env hash db))

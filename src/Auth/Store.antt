-- ===== src/Auth/Store.antt =====
-- internal/auth/infrastructure/sql_repository.go: users, account tokens, authorization codes and
-- OAuth tokens. The database is outside: `AuthEnv` says which statements it refuses (unique
-- columns included) and which ids it gives. The other tables are in `Tables`.
use fintech_ecosystem.Base.{
  ℕ, String, Bool, true, false, ◌&&◌, Option, none, some, List, [], ◌∷◌, ◌++◌, length, find, exists,
  update, str_eq, if◌then◌else◌,
}
use fintech_ecosystem.Auth.Model.{User, AuthEvent, AccountToken, ExternalIdentity, AuthDb}

-- The statements, by the operation of the repository that sends them.
pub data AuthStatement : Type 0 where
  create_user get_user link_identity update_password set_verified : AuthStatement
  create_token get_token mark_token : AuthStatement
  create_org get_org add_member remove_member update_role list_members get_membership :
      AuthStatement
  create_key get_key create_client get_client add_uri validate_uri : AuthStatement
  create_oauth_token get_oauth_token create_code get_code mark_code : AuthStatement
  create_provider get_provider create_log get_logs : AuthStatement

pub record AuthEnv : Type 0 where
  pub refuses : AuthDb → AuthStatement → Option String
  -- the id of the n-th row
  pub new_id : ℕ → String
  -- SHA-256 in hexadecimal and in raw base64url, HMAC-SHA256 of API keys
  pub hash_string : String → String
  pub s256 : String → String
  pub hash_key : String → String
  -- bcrypt, and the token library
  pub generate_hash : String → Option String
  pub compare_hash : String → String → Bool
  pub generate_jwt : User → Option String
  pub validate_jwt : String → Option String
  -- `APP_BASE_URL`, and which events the publisher does not take
  pub app_base_url : String
  pub publish_refuses : AuthEvent → Bool

pub data AuthResult (A : Type 0) : Type 0 where
  done : A → AuthResult A
  fault : String → AuthResult A

-- `if err != nil { return err }` after a call.
infixl 5 ◌>>=◌
abbrev pub ◌>>=◌ : {A B : Type 0} → AuthResult A → (A → AuthResult B) → AuthResult B
call >>= rest = elim call [ done value ↦ rest value | fault text ↦ fault text ]

abbrev pub answered : {A : Type 0} → Option String → A → AuthResult A
answered none a = done a
answered (some text) a = fault text

-- What the database answers, unless it refuses the statement.
abbrev pub query : {A : Type 0} → AuthEnv → AuthDb → AuthStatement → A → AuthResult A
query env db st a = answered (env.refuses db st) a

-- An update whose `RowsAffected` is tested: no affected row is an error.
abbrev pub affected : {A : Type 0} → Bool → String → A → AuthResult A
affected true text a = done a
affected false text a = fault text

-- `CreateUser`
unfoldable pub create_user_row : AuthEnv → String → String → AuthDb → AuthResult (User × AuthDb)
create_user_row env email password_hash db =
    let user : User = record {
      id = env.new_id (length db.users);
      org_id = "";
      email = email;
      password = password_hash;
      email_verified = false;
    } in
    query env db create_user
      (record user { password = "" }, record db { users = db.users ++ user ∷ [] })

abbrev pub has_email : String → User → Bool
has_email email u = str_eq u.email email

abbrev pub has_user_id : String → User → Bool
has_user_id id u = str_eq u.id id

-- `GetUserByEmail`: the id, the address and the password hash are read, and nothing else.
abbrev pub scan_user : Option User → Option User
scan_user none = none
scan_user (some u) = some (record u { org_id = ""; email_verified = false })

unfoldable pub get_user_by_email : AuthEnv → String → AuthDb → AuthResult (Option User)
get_user_by_email env email db = query env db get_user (scan_user (find (has_email email) db.users))

abbrev pub scan_public : Option User → Option User
scan_public none = none
scan_public (some u) = some (record u { org_id = ""; password = ""; email_verified = false })

-- `GetUserByID`
unfoldable pub get_user_by_id : AuthEnv → String → AuthDb → AuthResult (Option User)
get_user_by_id env id db = query env db get_user (scan_public (find (has_user_id id) db.users))

abbrev pub is_identity : String → String → ExternalIdentity → Bool
is_identity provider id e = str_eq e.provider provider && str_eq e.provider_user_id id

abbrev pub scan_external : Option User → Option User
scan_external none = none
scan_external (some u) = some (record u { password = ""; email_verified = false })

abbrev pub joined : List User → Option ExternalIdentity → Option User
joined users none = none
joined users (some e) = scan_external (find (has_user_id e.user_id) users)

-- `GetUserByExternalID`
unfoldable pub get_user_by_external_id :
    AuthEnv → String → String → AuthDb → AuthResult (Option User)
get_user_by_external_id env provider id db =
    query env db get_user (joined db.users (find (is_identity provider id) db.identities))

-- `LinkExternalIdentity`, which moves an identity that is there to the user.
unfoldable pub link_external_identity :
    AuthEnv → String → String → String → AuthDb → AuthResult AuthDb
link_external_identity env user_id provider id db =
    let row : ExternalIdentity = record {
      user_id = user_id;
      provider = provider;
      provider_user_id = id;
    } in
    query env db link_identity (record db {
      identities =
          if exists (is_identity provider id) db.identities
          then update (is_identity provider id) (λ _. row) db.identities
          else db.identities ++ row ∷ [];
    })

-- `UpdateUserPassword`
unfoldable pub update_user_password : AuthEnv → String → String → AuthDb → AuthResult AuthDb
update_user_password env id hash db = do
  db' ←
      query env db update_password
        (record db { users = update (has_user_id id) (λ u. record u { password = hash }) db.users })
  affected (exists (has_user_id id) db.users) "user not found" db'

-- `SetEmailVerified`
unfoldable pub set_email_verified : AuthEnv → String → AuthDb → AuthResult AuthDb
set_email_verified env id db = do
  db' ← query env db set_verified (record db {
    users = update (has_user_id id) (λ u. record u { email_verified = true }) db.users;
  })
  affected (exists (has_user_id id) db.users) "user not found" db'

abbrev pub has_token : String → AccountToken → Bool
has_token hash t = str_eq t.token hash

abbrev pub is_unset : Option ℕ → Bool
is_unset none = true
is_unset (some t) = false

-- `WHERE token_hash = $1 AND used_at IS NULL`
abbrev pub is_unused : String → AccountToken → Bool
is_unused hash t = str_eq t.token hash && is_unset t.used_at

abbrev pub use_token : ℕ → AccountToken → AccountToken
use_token now t = record t { used_at = some now }

-- `CreatePasswordResetToken`, `GetPasswordResetToken` and `MarkPasswordResetTokenUsed`
unfoldable pub create_password_reset_token : AuthEnv → AccountToken → AuthDb → AuthResult AuthDb
create_password_reset_token env t db =
    query env db create_token (record db { reset_tokens = db.reset_tokens ++ t ∷ [] })

unfoldable pub get_password_reset_token :
    AuthEnv → String → AuthDb → AuthResult (Option AccountToken)
get_password_reset_token env hash db =
    query env db get_token (find (has_token hash) db.reset_tokens)

unfoldable pub mark_password_reset_token_used : AuthEnv → ℕ → String → AuthDb → AuthResult AuthDb
mark_password_reset_token_used env now hash db = do
  db' ←
      query env db mark_token
        (record db { reset_tokens = update (is_unused hash) (use_token now) db.reset_tokens })
  affected (exists (is_unused hash) db.reset_tokens) "token already used or not found" db'

-- `CreateEmailVerificationToken`, `GetEmailVerificationToken` and `MarkEmailVerificationTokenUsed`
unfoldable pub create_email_verification_token : AuthEnv → AccountToken → AuthDb → AuthResult AuthDb
create_email_verification_token env t db =
    query env db create_token (record db { verification_tokens = db.verification_tokens ++ t ∷ [] })

unfoldable pub get_email_verification_token :
    AuthEnv → String → AuthDb → AuthResult (Option AccountToken)
get_email_verification_token env hash db =
    query env db get_token (find (has_token hash) db.verification_tokens)

unfoldable pub mark_email_verification_token_used :
    AuthEnv → ℕ → String → AuthDb → AuthResult AuthDb
mark_email_verification_token_used env now hash db = do
  db' ← query env db mark_token (record db {
    verification_tokens = update (is_unused hash) (use_token now) db.verification_tokens;
  })
  affected (exists (is_unused hash) db.verification_tokens) "token already used or not found" db'

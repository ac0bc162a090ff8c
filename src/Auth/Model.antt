-- ===== src/Auth/Model.antt =====
-- internal/auth/domain/models.go. `created_at` columns are not modelled; a nullable time is an
-- option.
use fintech_ecosystem.Base.{ℕ, String, Bool, Option, List}

pub record User : Type 0 where
  pub id : String
  pub org_id : String
  pub email : String
  pub password : String
  pub email_verified : Bool

-- `PasswordResetToken` and `EmailVerificationToken`, which have the same fields.
pub record AccountToken : Type 0 where
  pub id : String
  pub user_id : String
  pub token : String
  pub expires_at : ℕ
  pub used_at : Option ℕ

pub record Organization : Type 0 where
  pub id : String
  pub name : String
  pub domain : String

pub record Membership : Type 0 where
  pub user_id : String
  pub org_id : String
  pub role : String

-- `RateLimitQuota` is in no column that the repository reads or writes.
pub record ApiKey : Type 0 where
  pub id : String
  pub user_id : String
  pub org_id : String
  pub zone_id : String
  pub mode : String
  pub key_prefix : String
  pub key_hash : String
  pub truncated_key : String
  pub environment : String
  pub type : String
  pub scopes : String
  pub revoked_at : Option ℕ

pub record OauthClient : Type 0 where
  pub id : String
  pub client_secret_hash : String
  pub user_id : String
  pub name : String
  pub is_public : Bool

pub record OauthToken : Type 0 where
  pub access_token : String
  pub refresh_token : String
  pub client_id : String
  pub user_id : String
  pub scope : String
  pub expires_at : ℕ

pub record AuthorizationCode : Type 0 where
  pub code : String
  pub client_id : String
  pub user_id : String
  pub redirect_uri : String
  pub scope : String
  pub code_challenge : String
  pub code_challenge_method : String
  pub expires_at : ℕ
  pub used : Bool

pub record ExternalIdentity : Type 0 where
  pub user_id : String
  pub provider : String
  pub provider_user_id : String

pub record SsoProvider : Type 0 where
  pub id : String
  pub org_id : String
  pub name : String
  pub provider_type : String
  pub issuer_url : String
  pub client_id : String
  pub client_secret : String
  pub metadata_url : String
  pub sso_url : String
  pub certificate : String
  pub active : Bool

pub record AuditLog : Type 0 where
  pub org_id : String
  pub user_id : String
  pub action : String
  pub resource_type : String
  pub resource_id : String
  pub metadata : String
  pub ip_address : String
  pub user_agent : String

-- What goes to the publisher; its id and its time are not modelled.
pub record AuthEvent : Type 0 where
  pub type : String
  pub user_id : String
  pub email : String
  pub token : String
  pub link : String

-- The tables behind the repository.
pub record AuthDb : Type 0 where
  pub users : List User
  pub reset_tokens : List AccountToken
  pub verification_tokens : List AccountToken
  pub organizations : List Organization
  pub memberships : List Membership
  pub api_keys : List ApiKey
  pub clients : List OauthClient
  pub redirect_uris : List (String × String)
  pub oauth_tokens : List OauthToken
  pub codes : List AuthorizationCode
  pub identities : List ExternalIdentity
  pub sso_providers : List SsoProvider
  pub audit_logs : List AuditLog

-- ===== src/Auth/Handlers.antt =====
-- cmd/auth/handlers.go: accounts. `AuthHandler` with its service and its Redis, in which it leaves
-- the tokens that it mails; a Redis that is nil is none, and one that fails is not modelled, since
-- the handlers do not look at its answer.
use fintech_ecosystem.Base.{
  ℕ, String, ◌<>◌, Bool, true, false, not, ◌||◌, Option, none, some, List, ◌∷◌, str_eq,
  if◌then◌else◌,
}
use fintech_ecosystem.Auth.Model.{User, AuthDb}
use fintech_ecosystem.Auth.Store.{
  AuthEnv, AuthResult, done, fault, get_user_by_email, get_user_by_external_id,
  link_external_identity,
}
use fintech_ecosystem.Auth.Service.{Draw, AuthService, create_user, create_email_verification}

-- What a handler writes: `WriteErrorJSON`, or `WriteJSON` with its status.
pub data Answer (A : Type 0) : Type 0 where
  refuse : String → Answer A
  reply : ℕ → A → Answer A

pub record AuthHandler : Type 0 where
  pub service : AuthService
  pub redis : Option (List (String × String))

-- `h.rdb.Set`
abbrev pub remember :
    String → String → Option (List (String × String)) → Option (List (String × String))
remember key token none = none
remember key token (some entries) = some ((key, token) ∷ entries)

-- A request of the account handlers: its method, and its body unless that is no JSON.
pub record AuthRequest (Body : Type 0) : Type 0 where
  pub method : String
  pub body : Option Body

-- The guards that the handlers share: the method and the body.
abbrev pub accept :
    {Body A : Type 0}
    → AuthRequest Body
    → AuthHandler
    → (Body → Answer A × AuthHandler)
    → Answer A × AuthHandler
accept r h handle =
    if not (str_eq r.method "POST")
    then (refuse "Method not allowed", h)
    else elim r.body [ none ↦ (refuse "Invalid request body", h) | some body ↦ handle body ]

-- `RegisterRequest` and `LoginRequest`
pub record Credentials : Type 0 where
  pub email : String
  pub password : String

pub record LoginResponse : Type 0 where
  pub token : String
  pub user : Option User

-- The handler's own verification token; the one of `CreateUser` is made before it.
abbrev pub mailed : User → AuthHandler → AuthResult (String × AuthDb) → Answer User × AuthHandler
mailed user h (fault e) = (reply 201 user, h)
mailed user h (done (token, db)) = (
  reply 201 user,
  record {
    service = record h.service { db = db };
    redis = remember ("debug:verify:" <> user.email) token h.redis;
  },
)

abbrev pub enrolled :
    AuthEnv → Draw → AuthHandler → AuthResult (User × AuthService) → Answer User × AuthHandler
enrolled env draw h (fault e) = (refuse "Failed to create user (email might be taken)", h)
enrolled env draw h (done (user, s)) =
    mailed user (record h { service = s }) (create_email_verification env draw user.id s.db)

abbrev pub hashed_user :
    AuthEnv → Draw → Draw → String → AuthHandler → Option String → Answer User × AuthHandler
hashed_user env draw draw' email h none = (refuse "Failed to hash password", h)
hashed_user env draw draw' email h (some hash) =
    enrolled env draw' h (create_user env draw email hash h.service)

-- `Register`; `draw` is for the token of `CreateUser`, `draw'` for the handler's.
unfoldable pub register :
    AuthEnv → Draw → Draw → AuthRequest Credentials → AuthHandler → Answer User × AuthHandler
register env draw draw' r h = accept r h (λ c.
    if str_eq c.email "" || str_eq c.password ""
    then (refuse "Email and password are required", h)
    else hashed_user env draw draw' c.email h (env.generate_hash c.password))

abbrev pub signed : Option User → Option String → Answer LoginResponse
signed user none = refuse "Failed to generate token"
signed user (some token) = reply 200 (record { token = token; user = user })

-- The user of the answer has no password hash.
abbrev pub matched : AuthEnv → User → Bool → Answer LoginResponse
matched env user false = refuse "Invalid email or password"
matched env user true = signed (some (record user { password = "" })) (env.generate_jwt user)

abbrev pub known_user : AuthEnv → String → AuthResult (Option User) → Answer LoginResponse
known_user env password (fault e) = refuse "Internal server error"
known_user env password (done none) = refuse "Invalid email or password"
known_user env password (done (some user)) =
    matched env user (env.compare_hash password user.password)

-- `Login`
unfoldable pub login :
    AuthEnv → AuthRequest Credentials → AuthHandler → Answer LoginResponse × AuthHandler
login env r h = accept r h (λ c.
    if str_eq c.email "" || str_eq c.password ""
    then (refuse "Email and password are required", h)
    else (known_user env c.password (get_user_by_email env c.email h.service.db), h))

pub record SsoCallbackRequest : Type 0 where
  pub provider : String
  pub provider_user_id : String
  pub email : String

-- An identity that was not linked is only logged.
abbrev pub linked : AuthHandler → AuthResult AuthDb → AuthHandler
linked h (fault e) = h
linked h (done db) = record h { service = record h.service { db = db } }

abbrev pub provisioned :
    AuthEnv
    → SsoCallbackRequest
    → AuthHandler
    → AuthResult (User × AuthService)
    → Answer LoginResponse × AuthHandler
provisioned env r h (fault e) = (refuse "Failed to provision user", h)
provisioned env r h (done (user, s)) = (
  signed none (env.generate_jwt user),
  linked (record h { service = s })
      (link_external_identity env user.id r.provider r.provider_user_id s.db),
)

abbrev pub recognised :
    AuthEnv
    → Draw
    → SsoCallbackRequest
    → AuthHandler
    → AuthResult (Option User)
    → Answer LoginResponse × AuthHandler
recognised env draw r h (fault e) = (refuse "Internal server error", h)
recognised env draw r h (done (some user)) = (signed none (env.generate_jwt user), h)
recognised env draw r h (done none) =
    provisioned env r h (create_user env draw r.email "SSO_MANAGED" h.service)

-- `SSOCallback`
unfoldable pub sso_callback :
    AuthEnv → Draw → Option SsoCallbackRequest → AuthHandler → Answer LoginResponse × AuthHandler
sso_callback env draw none h = (refuse "Invalid request body", h)
sso_callback env draw (some r) h =
    recognised env draw r h (get_user_by_external_id env r.provider r.provider_user_id h.service.db)

-- ===== src/Auth/Oauth.antt =====
-- cmd/auth/handlers.go: the OAuth handlers. A request is given by the form values that a handler
-- reads; the token of a user's session is checked by the token library.
use fintech_ecosystem.Base.{
  ℕ, ◌+◌, ◌*◌, ◌/◌, String, Bool, true, false, not, ◌&&◌, ◌||◌, Option, none, some, str_eq, ltb,
  if◌then◌else◌,
}
use fintech_ecosystem.Auth.Model.{OauthClient, OauthToken, AuthorizationCode, AuthDb}
use fintech_ecosystem.Auth.Store.{AuthEnv, AuthResult, done, fault}
use fintech_ecosystem.Auth.Tables.{
  get_client_by_id, create_oauth_token_row, get_authorization_code, mark_authorization_code_used,
}
use fintech_ecosystem.Auth.Service.{Draw, validate_oauth_token, verify_code_challenge}

pub record OauthTokenResponse : Type 0 where
  pub access_token : String
  pub refresh_token : String
  pub expires_in : ℕ
  pub scope : String

pub data OauthResponse : Type 0 where
  -- the status and the code of `writeOAuthError`
  refused : ℕ → String → OauthResponse
  issued : OauthTokenResponse → OauthResponse
  redirect : String → OauthResponse
  -- `WriteErrorJSON`, by its text
  not_allowed : String → OauthResponse

-- `none` for `basic` is a request with no basic authentication.
pub record TokenRequest : Type 0 where
  pub is_post : Bool
  pub grant_type : String
  pub basic : Option (String × String)
  pub client_id : String
  pub client_secret : String
  pub scope : String
  pub code : String
  pub redirect_uri : String
  pub code_verifier : String

abbrev pub server_error : OauthResponse
server_error = refused 500 "server_error"

-- The status and the code of a refusal.
abbrev pub invalid_grant : ℕ × String
invalid_grant = (400, "invalid_grant")

abbrev pub stored : OauthTokenResponse → AuthDb → AuthResult AuthDb → OauthResponse × AuthDb
stored res db (fault e) = (server_error, db)
stored res _ (done db) = (issued res, db)

abbrev pub issue_drawn :
    AuthEnv
    → ℕ
    → String
    → String
    → String
    → Option String
    → Option String
    → AuthDb
    → OauthResponse × AuthDb
issue_drawn env now client_id user_id scope (some access) (some refresh) db =
    stored
      (record { access_token = access; refresh_token = refresh; expires_in = 3600; scope = scope })
      db
      (create_oauth_token_row env
        (record {
          access_token = access;
          refresh_token = refresh;
          client_id = client_id;
          user_id = user_id;
          scope = scope;
          expires_at = now + 3600 * 1000000000;
        })
        db)
issue_drawn env now client_id user_id scope _ _ db = (server_error, db)

-- `issueTokens`
unfoldable pub issue_tokens :
    AuthEnv → Draw → String → String → String → AuthDb → OauthResponse × AuthDb
issue_tokens env draw client_id user_id scope db =
    issue_drawn env draw.now client_id user_id scope (draw.random 0) (draw.random 1) db

-- The client's id and secret, from the basic authentication or the form.
abbrev pub credentials : TokenRequest → Option (String × String) → String × String
credentials r (some given) = given
credentials r none = (r.client_id, r.client_secret)

abbrev pub with_client :
    AuthEnv
    → Draw
    → String
    → String
    → AuthResult (Option OauthClient)
    → AuthDb
    → OauthResponse × AuthDb
with_client env draw secret scope (fault e) db = (server_error, db)
with_client env draw secret scope (done none) db = (refused 401 "invalid_client", db)
with_client env draw secret scope (done (some c)) db =
    if str_eq (env.hash_string secret) c.client_secret_hash
    then issue_tokens env draw c.id c.user_id (if str_eq scope "" then "default" else scope) db
    else (refused 401 "invalid_client", db)

-- `handleClientCredentials`
unfoldable pub handle_client_credentials :
    AuthEnv → Draw → TokenRequest → AuthDb → OauthResponse × AuthDb
handle_client_credentials env draw r db =
    let (id, secret) = credentials r r.basic in
    if str_eq id "" || str_eq secret ""
    then (refused 401 "invalid_client", db)
    else with_client env draw secret r.scope (get_client_by_id env id db) db

-- The test of the code's challenge: the refusal, if any.
abbrev pub check_challenge : AuthEnv → TokenRequest → AuthorizationCode → Option (ℕ × String)
check_challenge env r c =
    if str_eq c.code_challenge ""
    then none
    else (if str_eq r.code_verifier ""
        then some (400, "invalid_request")
        else (if verify_code_challenge env r.code_verifier c.code_challenge c.code_challenge_method
            then none
            else some invalid_grant))

-- The guards of `handleAuthorizationCode` on the code that was read: the refusal, if any.
unfoldable pub check_code : AuthEnv → ℕ → TokenRequest → AuthorizationCode → Option (ℕ × String)
check_code env now r c =
    if c.used
    then some invalid_grant
    else (if ltb c.expires_at now
        then some invalid_grant
        else (if not (str_eq r.client_id "") && not (str_eq r.client_id c.client_id)
            then some invalid_grant
            else (if not (str_eq r.redirect_uri "") && not (str_eq r.redirect_uri c.redirect_uri)
                then some invalid_grant
                else check_challenge env r c)))

abbrev pub marked :
    AuthEnv → Draw → AuthorizationCode → AuthDb → AuthResult AuthDb → OauthResponse × AuthDb
marked env draw c db (fault e) = (server_error, db)
marked env draw c _ (done db) = issue_tokens env draw c.client_id c.user_id c.scope db

-- What follows the guards: the code is marked as used, and tokens are issued.
unfoldable pub redeem :
    AuthEnv → Draw → String → AuthorizationCode → AuthDb → OauthResponse × AuthDb
redeem env draw code c db = marked env draw c db (mark_authorization_code_used env code db)

abbrev pub admitted :
    AuthEnv
    → Draw
    → TokenRequest
    → AuthorizationCode
    → AuthDb
    → Option (ℕ × String)
    → OauthResponse × AuthDb
admitted env draw r c db (some (status, text)) = (refused status text, db)
admitted env draw r c db none = redeem env draw r.code c db

abbrev pub with_code :
    AuthEnv
    → Draw
    → TokenRequest
    → AuthDb
    → AuthResult (Option AuthorizationCode)
    → OauthResponse × AuthDb
with_code env draw r db (fault e) = (server_error, db)
with_code env draw r db (done none) = (refused 400 "invalid_grant", db)
with_code env draw r db (done (some c)) = admitted env draw r c db (check_code env draw.now r c)

-- `handleAuthorizationCode`
unfoldable pub handle_authorization_code :
    AuthEnv → Draw → TokenRequest → AuthDb → OauthResponse × AuthDb
handle_authorization_code env draw r db =
    if str_eq r.code ""
    then (refused 400 "invalid_request", db)
    else with_code env draw r db (get_authorization_code env r.code db)

-- `OAuthTokenHandler`
unfoldable pub oauth_token : AuthEnv → Draw → TokenRequest → AuthDb → OauthResponse × AuthDb
oauth_token env draw r db =
    if r.is_post
    then (if str_eq r.grant_type "client_credentials"
        then handle_client_credentials env draw r db
        else (if str_eq r.grant_type "authorization_code"
            then handle_authorization_code env draw r db
            else (refused 400 "unsupported_grant_type", db)))
    else (not_allowed "Method not allowed", db)

pub record Introspection : Type 0 where
  pub active : Bool
  pub scope : String
  pub client_id : String
  pub sub : String
  pub exp : ℕ

abbrev pub inactive : Introspection
inactive = record { active = false; scope = ""; client_id = ""; sub = ""; exp = 0 }

-- `ExpiresAt.Unix()` is in seconds.
abbrev pub introspected : AuthResult (Option OauthToken) → Introspection
introspected (done (some t)) = record {
  active = true;
  scope = t.scope;
  client_id = t.client_id;
  sub = t.user_id;
  exp = t.expires_at / 1000000000;
}
introspected _ = inactive

-- `TokenIntrospectionHandler`
unfoldable pub introspect : AuthEnv → ℕ → String → AuthDb → Introspection
introspect env now token db =
    if str_eq token "" then inactive else introspected (validate_oauth_token env now token db)

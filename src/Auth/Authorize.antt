-- ===== src/Auth/Authorize.antt =====
-- cmd/auth/handlers.go: `AuthorizeHandler` and `RegisterClientHandler`.
use fintech_ecosystem.Base.{
  ◌+◌, String, ◌<>◌, Bool, true, false, not, ◌&&◌, Option, none, some, List, [], ◌∷◌, str_eq,
  if◌then◌else◌,
}
use fintech_ecosystem.Auth.Model.{OauthClient, AuthorizationCode, AuthDb}
use fintech_ecosystem.Auth.Store.{AuthEnv, AuthResult, done, fault}
use fintech_ecosystem.Auth.Tables.{
  get_client_by_id, create_oauth_client, add_redirect_uri, validate_redirect_uri,
  create_authorization_code,
}
use fintech_ecosystem.Auth.Service.{Draw, minutes}
use fintech_ecosystem.Auth.Oauth.{OauthResponse, refused, redirect, server_error}

pub record AuthorizeRequest : Type 0 where
  pub response_type : String
  pub client_id : String
  pub redirect_uri : String
  pub scope : String
  pub state : String
  pub code_challenge : String
  pub code_challenge_method : String
  -- "Authorization" without its "Bearer " prefix
  pub bearer : String

-- `extractUserIDFromToken`: `none` is an invalid token, the empty text no authentication.
unfoldable pub session_user : AuthEnv → String → Option String
session_user env bearer = if str_eq bearer "" then some "" else env.validate_jwt bearer

abbrev pub challenge_method : AuthorizeRequest → String
challenge_method r =
    if not (str_eq r.code_challenge "") && str_eq r.code_challenge_method ""
    then "S256"
    else r.code_challenge_method

abbrev pub code_of : Draw → AuthorizeRequest → String → String → AuthorizationCode
code_of draw r user_id code = record {
  code = code;
  client_id = r.client_id;
  user_id = user_id;
  redirect_uri = r.redirect_uri;
  scope = r.scope;
  code_challenge = r.code_challenge;
  code_challenge_method = challenge_method r;
  expires_at = draw.now + minutes 10;
  used = false;
}

abbrev pub redirect_url : AuthorizeRequest → String → String
redirect_url r code =
    r.redirect_uri <> "?code=" <> code <> (if str_eq r.state "" then "" else "&state=" <> r.state)

abbrev pub sent : AuthorizeRequest → String → AuthDb → AuthResult AuthDb → OauthResponse × AuthDb
sent r code db (fault e) = (server_error, db)
sent r code _ (done db) = (redirect (redirect_url r code), db)

abbrev pub make_code :
    AuthEnv → Draw → AuthorizeRequest → String → Option String → AuthDb → OauthResponse × AuthDb
make_code env draw r user_id none db = (server_error, db)
make_code env draw r user_id (some code) db =
    sent r code db (create_authorization_code env (code_of draw r user_id code) db)

abbrev pub authorize_user :
    AuthEnv → Draw → AuthorizeRequest → Option String → AuthDb → OauthResponse × AuthDb
authorize_user env draw r none db = (refused 401 "access_denied", db)
authorize_user env draw r (some user_id) db =
    if str_eq user_id ""
    then (refused 401 "access_denied", db)
    else make_code env draw r user_id (draw.random 0) db

abbrev pub authorize_uri :
    AuthEnv
    → Draw
    → AuthorizeRequest
    → OauthClient
    → AuthResult Bool
    → AuthDb
    → OauthResponse × AuthDb
authorize_uri env draw r c (fault e) db = (server_error, db)
authorize_uri env draw r c (done false) db = (refused 400 "invalid_request", db)
authorize_uri env draw r c (done true) db =
    if c.is_public && str_eq r.code_challenge ""
    then (refused 400 "invalid_request", db)
    else authorize_user env draw r (session_user env r.bearer) db

abbrev pub authorize_client :
    AuthEnv
    → Draw
    → AuthorizeRequest
    → AuthResult (Option OauthClient)
    → AuthDb
    → OauthResponse × AuthDb
authorize_client env draw r (fault e) db = (server_error, db)
authorize_client env draw r (done none) db = (refused 400 "invalid_request", db)
authorize_client env draw r (done (some c)) db =
    if str_eq r.redirect_uri ""
    then (refused 400 "invalid_request", db)
    else authorize_uri env draw r c (validate_redirect_uri env r.client_id r.redirect_uri db) db

-- `AuthorizeHandler`
unfoldable pub authorize : AuthEnv → Draw → AuthorizeRequest → AuthDb → OauthResponse × AuthDb
authorize env draw r db =
    if str_eq r.response_type "code"
    then authorize_client env draw r (get_client_by_id env r.client_id db) db
    else (refused 400 "unsupported_response_type", db)

pub record RegisterClientRequest : Type 0 where
  pub name : String
  pub redirect_uris : List String
  pub is_public : Bool

pub data Registration : Type 0 where
  rejected : String → Registration
  -- the id and the secret of the client
  registered : String → String → Registration

-- The loop over the redirect URIs: an error is only logged.
unfoldable pub add_uris : AuthEnv → String → List String → AuthDb → AuthDb
add_uris env id [] db = db
add_uris env id (uri ∷ uris) db = add_uris env id uris (kept (add_redirect_uri env id uri db))
  where
    kept : AuthResult AuthDb → AuthDb
    kept (done db') = db'
    kept (fault e) = db

abbrev pub client_made :
    AuthEnv
    → RegisterClientRequest
    → String
    → String
    → AuthDb
    → AuthResult AuthDb
    → Registration × AuthDb
client_made env r id secret db (fault e) = (rejected "Failed to create client", db)
client_made env r id secret _ (done db) = (registered id secret, add_uris env id r.redirect_uris db)

abbrev pub make_client :
    AuthEnv
    → RegisterClientRequest
    → String
    → String
    → String
    → String
    → AuthDb
    → Registration × AuthDb
make_client env r user_id id secret secret_hash db = client_made env r id secret db (
    create_oauth_client env
      (record {
        id = id;
        client_secret_hash = secret_hash;
        user_id = user_id;
        name = r.name;
        is_public = r.is_public;
      })
      db)

-- A public client has no secret, and the hash of none.
abbrev pub with_secret :
    AuthEnv
    → RegisterClientRequest
    → String
    → String
    → Option String
    → AuthDb
    → Registration × AuthDb
with_secret env r user_id id secret db =
    if r.is_public then make_client env r user_id id "" "" db else elim secret [
      | none ↦ (rejected "Failed to generate client secret", db)
      | some s ↦ make_client env r user_id id s (env.hash_string s) db
    ]

abbrev pub register_drawn :
    AuthEnv → Draw → RegisterClientRequest → String → Option String → AuthDb → Registration × AuthDb
register_drawn env draw r user_id none db = (rejected "Failed to generate client ID", db)
register_drawn env draw r user_id (some id) db = with_secret env r user_id id (draw.random 1) db

abbrev pub register_body :
    AuthEnv → Draw → String → Option RegisterClientRequest → AuthDb → Registration × AuthDb
register_body env draw user_id none db = (rejected "Invalid request body", db)
register_body env draw user_id (some r) db =
    if str_eq r.name "" then (rejected "Client name required", db) else elim r.redirect_uris [
      | [] ↦ (rejected "At least one redirect URI required", db)
      | _ ∷ _ ↦ register_drawn env draw r user_id (draw.random 0) db
    ]

abbrev pub register_as :
    AuthEnv → Draw → Option String → Option RegisterClientRequest → AuthDb → Registration × AuthDb
register_as env draw none body db = (rejected "Unauthorized", db)
register_as env draw (some user_id) body db =
    if str_eq user_id ""
    then (rejected "Unauthorized", db)
    else register_body env draw user_id body db

-- `RegisterClientHandler`, on the decoded body.
unfoldable pub register_client :
    AuthEnv → Draw → String → Option RegisterClientRequest → AuthDb → Registration × AuthDb
register_client env draw bearer body db = register_as env draw (session_user env bearer) body db

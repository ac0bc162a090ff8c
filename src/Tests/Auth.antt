-- ===== src/Tests/Auth.antt =====
-- The theorems on identity at concrete inputs: one user, one public client.
use fintech_ecosystem.Base.{
  String, ◌<>◌, ◌≡◌, refl, ◌≢◌, true, false, none, some, [], ◌∷◌, find, update, str_eq, str_ne,
  arith,
}
use fintech_ecosystem.Auth.Model.{User, ApiKey, OauthClient, AuthorizationCode, AuthDb}
use fintech_ecosystem.Auth.Store.{
  AuthEnv, get_user_by_email, get_password_reset_token, update_user_password,
  mark_password_reset_token_used,
}
use fintech_ecosystem.Auth.Tables.{
  has_code, is_fresh, spend, get_authorization_code, mark_authorization_code_used,
  create_oauth_token_row,
}
use fintech_ecosystem.Auth.Service.{
  Draw, verify_code_challenge, reset_password, apply_reset, validate_password_reset_token,
}
use fintech_ecosystem.Auth.Service.Accounts.{reset_password_once}
use fintech_ecosystem.Auth.Oauth.{
  OauthTokenResponse, server_error, TokenRequest, introspect, check_code, redeem, issue_tokens,
  handle_authorization_code,
}
use fintech_ecosystem.Auth.Authorize.{AuthorizeRequest, session_user, code_of, authorize}
use fintech_ecosystem.Auth.Exchange.{Entitled, redeem_once, exchange-Entitled}
use fintech_ecosystem.Auth.Grant.{IsWilling, CanAuthorize, CanExchange, grant_introspects}
use fintech_ecosystem.Auth.Handlers.{
  reply, AuthHandler, AuthRequest, Credentials, LoginResponse, register, login,
}
use fintech_ecosystem.Auth.Sessions.{CanLogin, CanRegister, login_entitled, register_logs_in}
use fintech_ecosystem.Auth.Keys.{GenerateApiKeyRequest, key_row, generate_api_key, validate_key}
use fintech_ecosystem.Auth.KeyLife.{answer_of, generated_key_validates}

abbrev auth_env : AuthEnv
auth_env = record {
  refuses = λ _ _. none;
  new_id = λ _. "row";
  hash_string = λ s. "h" <> s;
  s256 = λ s. "s" <> s;
  hash_key = λ s. "k" <> s;
  generate_hash = λ p. some ("b" <> p);
  compare_hash = λ p h. str_eq ("b" <> p) h;
  generate_jwt = λ u. some u.id;
  validate_jwt = λ t. some t;
  app_base_url = "";
  publish_refuses = λ _. false;
}

abbrev draw : Draw
draw = record { now = 1000; random = λ _. some "abcd"; uuid = "u" }

auth_env-IsWilling : IsWilling auth_env
auth_env-IsWilling db st = refl

abbrev ann : User
ann = record {
  id = "ann";
  org_id = "";
  email = "ann@x.org";
  password = "bsecret";
  email_verified = false;
}

abbrev client : OauthClient
client = record {
  id = "app";
  client_secret_hash = "";
  user_id = "ann";
  name = "App";
  is_public = true;
}

abbrev auth_db : AuthDb
auth_db = record {
  users = ann ∷ [];
  reset_tokens =
      record { id = "t1"; user_id = "ann"; token = "hraw"; expires_at = 5000; used_at = none } ∷ [];
  verification_tokens = [];
  organizations = [];
  memberships = [];
  api_keys = [];
  clients = client ∷ [];
  redirect_uris = ("app", "https://app/cb") ∷ [];
  oauth_tokens = [];
  codes = [];
  identities = [];
  sso_providers = [];
  audit_logs = [];
}

abbrev ask : AuthorizeRequest
ask = record {
  response_type = "code";
  client_id = "app";
  redirect_uri = "https://app/cb";
  scope = "read";
  state = "";
  code_challenge = "sv";
  code_challenge_method = "S256";
  bearer = "ann";
}

abbrev exchange : TokenRequest
exchange = record {
  is_post = true;
  grant_type = "authorization_code";
  basic = none;
  client_id = "app";
  client_secret = "";
  scope = "";
  code = "abcd";
  redirect_uri = "https://app/cb";
  code_verifier = "v";
}

can_authorize : CanAuthorize auth_env draw ask "ann" "abcd" auth_db
unfolding session_user
can_authorize = record {
  client = client;
  is_code = refl;
  known = refl;
  has_uri = str_ne "https://app/cb" "" refl;
  registered = refl;
  challenged = refl;
  logged_in = refl;
  named = str_ne "ann" "" refl;
  drawn = refl;
  new_code = refl;
}

can_exchange : CanExchange auth_env draw draw ask exchange "abcd" "abcd" "abcd"
unfolding verify_code_challenge
can_exchange = record {
  same_code = refl;
  some_code = str_ne "abcd" "" refl;
  in_time = ground arith;
  same_client = refl;
  same_uri = refl;
  some_verifier = str_ne "v" "" refl;
  verified = refl;
  access_drawn = refl;
  refresh_drawn = refl;
}

grant_introspects_example :
    let db1 = (authorize auth_env draw ask auth_db).1 in
    let db2 = (handle_authorization_code auth_env draw exchange db1).1 in
    introspect auth_env 2000 "abcd" db2
    ≡ record { active = true; scope = "read"; client_id = "app"; sub = "ann"; exp = 3600 }
grant_introspects_example =
    grant_introspects auth_env draw draw 2000 ask exchange "ann" "abcd" "abcd" "abcd" auth_db
      auth_env-IsWilling can_authorize can_exchange (str_ne "abcd" "" refl) refl (ground arith)

abbrev issued_code : AuthorizationCode
issued_code = code_of draw ask "ann" "abcd"

abbrev code_db : AuthDb
code_db = record auth_db { codes = issued_code ∷ [] }

abbrev tokens : OauthTokenResponse
tokens = record { access_token = "abcd"; expires_in = 3600; refresh_token = "abcd"; scope = "read" }

redeem_once_example :
    let db1 = (redeem auth_env draw "abcd" issued_code code_db).1 in
    redeem auth_env draw "abcd" issued_code db1 ≡ (server_error, db1)
unfolding redeem mark_authorization_code_used issue_tokens create_oauth_token_row
redeem_once_example =
    redeem_once auth_env auth_env draw draw "abcd" issued_code issued_code code_db {res = tokens}
      refl

exchange-Entitled_example :
    let db1 = (handle_authorization_code auth_env draw exchange code_db).1 in
    (c : AuthorizationCode) × (find (has_code "abcd") (issued_code ∷ []) ≡ some c)
    × Entitled auth_env 1000 exchange c
    × (db1.codes ≡ update (is_fresh "abcd") spend (issued_code ∷ []))
    × (db1.oauth_tokens
        ≡ record {
          access_token = "abcd";
          refresh_token = "abcd";
          client_id = c.client_id;
          user_id = c.user_id;
          scope = c.scope;
          expires_at = 3600000001000;
        }
          ∷ [])
unfolding handle_authorization_code get_authorization_code check_code verify_code_challenge redeem
    mark_authorization_code_used issue_tokens create_oauth_token_row
exchange-Entitled_example = exchange-Entitled auth_env draw exchange code_db {res = tokens} refl

reset_password_once_example :
    let db1 = (reset_password auth_env 2000 "raw" "bnew" auth_db).1 in
    ((reset_password auth_env 3000 "raw" "bother" db1).0 ≢ none)
    × ((reset_password auth_env 3000 "raw" "bother" db1).1 ≡ db1)
unfolding reset_password apply_reset validate_password_reset_token get_password_reset_token
    update_user_password mark_password_reset_token_used
reset_password_once_example =
    reset_password_once auth_env auth_env 2000 3000 "raw" "bnew" "bother" auth_db refl refl

abbrev handler : AuthHandler
handler = record { service = record { db = auth_db; published = none }; redis = none }

abbrev post : String → AuthRequest Credentials
post email = record { method = "POST"; body = some (record { email = email; password = "secret" }) }

abbrev greeting : LoginResponse
greeting = record { token = "ann"; user = some (record ann { password = "" }) }

login_entitled_example : CanLogin auth_env (post "ann@x.org") handler greeting
unfolding login get_user_by_email
login_entitled_example = login_entitled auth_env (post "ann@x.org") handler greeting refl

abbrev can_register : CanRegister auth_env (post "bob@x.org") "bsecret" auth_db
can_register = record {
  given = record { email = "bob@x.org"; password = "secret" };
  is_post = refl;
  sent = refl;
  some_email = str_ne "bob@x.org" "" refl;
  some_password = str_ne "secret" "" refl;
  hashed = refl;
  new_email = refl;
}

abbrev bob : User
bob = record { id = "row"; org_id = ""; email = "bob@x.org"; password = ""; email_verified = false }

register_logs_in_example :
    ((register auth_env draw draw (post "bob@x.org") handler).0 ≡ reply 201 bob)
    × ((login auth_env
          (post "bob@x.org")
          (register auth_env draw draw (post "bob@x.org") handler).1).0
        ≡ reply 200 (record { token = "row"; user = some bob }))
register_logs_in_example =
    register_logs_in auth_env draw draw (post "bob@x.org") "bsecret" "row" handler can_register
      auth_env-IsWilling refl refl

abbrev wanted : GenerateApiKeyRequest
wanted = record { environment = "test"; zone_id = "z1"; type = "" }

generated_key_validates_example :
    let (answer, db1) = generate_api_key auth_env (some "ff00") "ann" (some wanted) auth_db in
    (answer ≡ reply 201 (answer_of wanted "sk_test_ff00"))
    × ((validate_key auth_env 10 "ksk_test_ff00" db1 []).0 ≡ record {
      valid = true;
      user_id = "ann";
      org_id = "";
      role = "";
      zone_id = "z1";
      mode = "test";
      environment = "test";
      scopes = "*";
      key_type = "secret";
    })
unfolding session_user
generated_key_validates_example =
    generated_key_validates auth_env "ff00" "ann" "ann" wanted 10 auth_db [] auth_env-IsWilling refl
      (str_ne "ann" "" refl) (str_ne "z1" "" refl) refl refl

abbrev saved_key : ApiKey
saved_key = record (key_row "ann" wanted "sk_test_ff00" "ksk_test_ff00") {
  id = "row";
  scopes = "*";
}

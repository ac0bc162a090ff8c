-- ===== src/Auth/Grant.antt =====
-- The authorization code grant from end to end: authorize, exchange, introspect (cmd/auth/handlers.go).
use fintech_ecosystem.Base.{
  ℕ, ◌+◌, ◌/◌, ◌≤◌, String, ◌≡◌, refl, ◌∙◌, ap, ◌≢◌, true, false, ◌&&◌, none, some, List, [], ◌∷◌,
  ◌++◌, find, exists, update, str_eq, eq_iff, str_eq_ne, str_eq_self, ltb, find-append, arith,
}
use fintech_ecosystem.Auth.Model.{OauthClient, AuthorizationCode, OauthToken, AuthDb}
use fintech_ecosystem.Auth.Store.{
  AuthEnv, AuthStatement, get_client, validate_uri, get_code, get_oauth_token, create_code,
  mark_code, create_oauth_token, done,
}
use fintech_ecosystem.Auth.Tables.{
  has_code, has_access, is_fresh, spend, is_uri, get_client_by_id, validate_redirect_uri,
  create_authorization_code, mark_authorization_code_used, create_oauth_token_row,
  get_oauth_token_row,
}
use fintech_ecosystem.Auth.Service.{Draw, verify_code_challenge, validate_oauth_token}
use fintech_ecosystem.Auth.Oauth.{
  redirect, TokenRequest, introspect, check_code, redeem, admitted, issue_tokens,
  handle_authorization_code,
}
use fintech_ecosystem.Auth.Authorize.{
  AuthorizeRequest, session_user, code_of, challenge_method, redirect_url, authorize,
}
use fintech_ecosystem.Auth.Exchange.{handle_found}

-- The database answers everything.
abbrev pub IsWilling : AuthEnv → Type 0
IsWilling env = (db : AuthDb) (st : AuthStatement) → env.refuses db st ≡ none

-- A request to authorize that the handler has no reason to refuse.
pub record CanAuthorize (env : AuthEnv) (draw : Draw) (r : AuthorizeRequest) (user_id code : String)
    (db : AuthDb) : Type 0 where
  pub client : OauthClient
  pub is_code : r.response_type ≡ "code"
  pub known : find (λ c. str_eq c.id r.client_id) db.clients ≡ some client
  pub has_uri : r.redirect_uri ≢ ""
  pub registered : exists (is_uri r.client_id r.redirect_uri) db.redirect_uris ≡ true
  pub challenged : (client.is_public && str_eq r.code_challenge "") ≡ false
  pub logged_in : session_user env r.bearer ≡ some user_id
  pub named : user_id ≢ ""
  pub drawn : draw.random 0 ≡ some code
  pub new_code : find (has_code code) db.codes ≡ none

authorize_lem :
    (env : AuthEnv) (draw : Draw) (r : AuthorizeRequest) (user_id code : String) (db : AuthDb)
    → IsWilling env
    → CanAuthorize env draw r user_id code db
    → authorize env draw r db ≡ (
      redirect (redirect_url r code),
      record db { codes = db.codes ++ code_of draw r user_id code ∷ [] },
    )
unfolding authorize get_client_by_id validate_redirect_uri create_authorization_code
authorize_lem env draw r user_id code db willing can =
    let is_code : str_eq r.response_type "code" ≡ true =
      ground (arith, can.is_code, eq_iff r.response_type "code") in
    let read : get_client_by_id env r.client_id db ≡ done (some can.client) =
      rw (willing db get_client, can.known) refl in
    let valid : validate_redirect_uri env r.client_id r.redirect_uri db ≡ done true =
      rw (willing db validate_uri, can.registered) refl in
    let kept : create_authorization_code env (code_of draw r user_id code) db
        ≡ done (record db { codes = db.codes ++ code_of draw r user_id code ∷ [] }) =
      rw (willing db create_code) refl in
    rw
      (
        is_code,
        read,
        str_eq_ne r.redirect_uri "" can.has_uri,
        valid,
        can.challenged,
        can.logged_in,
        str_eq_ne user_id "" can.named,
        can.drawn,
        kept,
      )
      refl

-- A token request that answers the authorization, in time.
pub record CanExchange (env : AuthEnv) (draw draw' : Draw) (a : AuthorizeRequest) (r : TokenRequest)
    (code access refresh : String) : Type 0 where
  pub same_code : r.code ≡ code
  pub some_code : code ≢ ""
  pub in_time : draw'.now ≤ draw.now + 600000000000
  pub same_client : r.client_id ≡ a.client_id
  pub same_uri : r.redirect_uri ≡ a.redirect_uri
  pub some_verifier : r.code_verifier ≢ ""
  pub verified :
      verify_code_challenge env r.code_verifier a.code_challenge (challenge_method a) ≡ true
  pub access_drawn : draw'.random 0 ≡ some access
  pub refresh_drawn : draw'.random 1 ≡ some refresh

code_passes :
    (env : AuthEnv) (draw draw' : Draw) (a : AuthorizeRequest) (r : TokenRequest)
    (user_id code access refresh : String)
    → CanExchange env draw draw' a r code access refresh
    → check_code env draw'.now r (code_of draw a user_id code) ≡ none
unfolding check_code
code_passes env draw draw' a r user_id code access refresh can = ground (
  arith,
  can.in_time,
  can.same_client,
  can.same_uri,
  can.verified,
  str_eq_ne r.code_verifier "" can.some_verifier,
  str_eq_self a.client_id,
  str_eq_self a.redirect_uri,
)

exists-append :
    (code : String) (cs : List AuthorizationCode) (c : AuthorizationCode)
    → is_fresh code c ≡ true
    → exists (is_fresh code) (cs ++ c ∷ []) ≡ true
exists-append code [] c h = ground (arith, h)
exists-append code (x ∷ xs) c h = ground (arith, exists-append code xs c h)

abbrev pub token_of : Draw → AuthorizationCode → String → String → OauthToken
token_of draw c access refresh = record {
  access_token = access;
  refresh_token = refresh;
  client_id = c.client_id;
  user_id = c.user_id;
  scope = c.scope;
  expires_at = draw.now + 3600000000000;
}

redeem_issues :
    (env : AuthEnv) (draw : Draw) (code : String) (c : AuthorizationCode) (db : AuthDb)
    (access refresh : String)
    → IsWilling env
    → exists (is_fresh code) db.codes ≡ true
    → draw.random 0 ≡ some access
    → draw.random 1 ≡ some refresh
    → (redeem env draw code c db).1.oauth_tokens
      ≡ db.oauth_tokens ++ token_of draw c access refresh ∷ []
unfolding redeem mark_authorization_code_used issue_tokens create_oauth_token_row
redeem_issues env draw code c db access refresh willing fresh h0 h1 = ground (
  arith,
  fresh,
  h0,
  h1,
  willing db mark_code,
  willing (record db { codes = update (is_fresh code) spend db.codes }) create_oauth_token,
)

introspect_found :
    (env : AuthEnv) (now : ℕ) (access : String) (db : AuthDb) (t : OauthToken)
    → IsWilling env
    → access ≢ ""
    → find (has_access access) db.oauth_tokens ≡ some t
    → now ≤ t.expires_at
    → introspect env now access db ≡ record {
      active = true;
      scope = t.scope;
      client_id = t.client_id;
      sub = t.user_id;
      exp = t.expires_at / 1000000000;
    }
unfolding introspect validate_oauth_token get_oauth_token_row
introspect_found env now access db t willing named found live =
    let alive : ltb t.expires_at now ≡ false = ground (arith, live) in
    rw (str_eq_ne access "" named, willing db get_oauth_token, found, alive) refl

-- The grant goes round: where the database answers everything, a user who authorizes a client as
-- `AuthorizeHandler` asks for it, and a client that exchanges the code in time, with the verifier of
-- its challenge, for an access token that is new and not empty, end with a token that introspection
-- reports as active for its hour, with the user, the client and the scope of the authorization, and
-- with the second in which it expires.
pub grant_introspects :
    (env : AuthEnv) (draw draw' : Draw) (later : ℕ) (a : AuthorizeRequest) (r : TokenRequest)
    (user_id code access refresh : String) (db : AuthDb)
    → IsWilling env
    → CanAuthorize env draw a user_id code db
    → CanExchange env draw draw' a r code access refresh
    → access ≢ ""
    → find (has_access access) db.oauth_tokens ≡ none
    → later ≤ draw'.now + 3600000000000
    → let db1 = (authorize env draw a db).1 in
      let db2 = (handle_authorization_code env draw' r db1).1 in
      introspect env later access db2 ≡ record {
        active = true;
        scope = a.scope;
        client_id = a.client_id;
        sub = user_id;
        exp = (draw'.now + 3600000000000) / 1000000000;
      }
grant_introspects env draw draw' later a r user_id code access refresh db willing can_a can_x named
      new live =
    let c = code_of draw a user_id code in
    let db1 : AuthDb = record db { codes = db.codes ++ c ∷ [] } in
    let given : str_eq r.code "" ≡ false = rw can_x.same_code (str_eq_ne code "" can_x.some_code) in
    let there : find (has_code r.code) db1.codes ≡ some c =
      rw can_x.same_code
        (find-append (has_code code) db.codes c can_a.new_code (str_eq_self code)) in
    let fresh : exists (is_fresh r.code) db1.codes ≡ true =
      rw can_x.same_code (exists-append code db.codes c (ground (arith, str_eq_self code))) in
    let run : handle_authorization_code env draw' r db1 ≡ redeem env draw' r.code c db1 =
      handle_found env draw' r db1 c given (willing db1 get_code) there
      ∙ ap (admitted env draw' r c db1)
          (code_passes env draw draw' a r user_id code access refresh can_x) in
    let tokens =
      redeem_issues env draw' r.code c db1 access refresh willing fresh can_x.access_drawn
        can_x.refresh_drawn in
    rw (authorize_lem env draw a user_id code db willing can_a, run)
      (introspect_found env later access (redeem env draw' r.code c db1).1
        (token_of draw' c access refresh) willing named
        (rw tokens (
          find-append (has_access access) db.oauth_tokens (token_of draw' c access refresh) new
            (str_eq_self access)))
        live)

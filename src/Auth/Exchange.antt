-- ===== src/Auth/Exchange.antt =====
-- The exchange of authorization codes (cmd/auth/handlers.go).
use fintech_ecosystem.Base.{
  ℕ, ◌+◌, ◌≤◌, String, ◌≡◌, refl, sym, ◌∙◌, ap, ◌⊎◌, inl, inr, true, false, not, ◌&&◌, Option, none,
  some, List, [], ◌∷◌, ◌++◌, find, exists, update, str_eq, eq_iff, Bool-cases, Option-cases, arith,
}
use fintech_ecosystem.Auth.Model.{AuthorizationCode, AuthDb}
use fintech_ecosystem.Auth.Store.{AuthEnv, get_code, done}
use fintech_ecosystem.Auth.Tables.{
  has_code, is_fresh, spend, mark_authorization_code_used, get_authorization_code,
  create_oauth_token_row,
}
use fintech_ecosystem.Auth.Service.{Draw, verify_code_challenge}
use fintech_ecosystem.Auth.Oauth.{
  OauthTokenResponse, issued, TokenRequest, server_error, issue_tokens, check_challenge, check_code,
  redeem, admitted, handle_authorization_code,
}

-- Once the rows of a code are marked, none of them is fresh.
exists-spent :
    (code : String) (cs : List AuthorizationCode)
    → exists (is_fresh code) (update (is_fresh code) spend cs) ≡ false
exists-spent code [] = refl
exists-spent code (c ∷ cs) = ground (arith, exists-spent code cs)

issue_tokens-codes :
    (env : AuthEnv) (draw : Draw) (client_id user_id scope : String) (db : AuthDb)
    → (issue_tokens env draw client_id user_id scope db).1.codes ≡ db.codes
unfolding issue_tokens create_oauth_token_row
issue_tokens-codes env draw client_id user_id scope db = ground arith

redeem-codes :
    (env : AuthEnv) (draw : Draw) (code : String) (c : AuthorizationCode) (db : AuthDb)
    {res : OauthTokenResponse}
    → (redeem env draw code c db).0 ≡ issued res
    → (redeem env draw code c db).1.codes ≡ update (is_fresh code) spend db.codes
unfolding redeem mark_authorization_code_used issue_tokens create_oauth_token_row
redeem-codes env draw code c db h = ground (arith, h)

mark_spent :
    (env : AuthEnv) (draw : Draw) (code : String) (c : AuthorizationCode) (db : AuthDb)
    → exists (is_fresh code) db.codes ≡ false
    → redeem env draw code c db ≡ (server_error, db)
unfolding redeem mark_authorization_code_used
mark_spent env draw code c db h = ground (arith, h)

-- An authorization code is redeemed once, also by requests that overlap: after tokens were issued
-- for it, a request that passed the guards earlier, on a copy of the row that it read before,
-- issues nothing and changes nothing.
pub redeem_once :
    (env env' : AuthEnv) (draw draw' : Draw) (code : String) (c c' : AuthorizationCode)
    (db : AuthDb) {res : OauthTokenResponse}
    → (redeem env draw code c db).0 ≡ issued res
    → let db1 = (redeem env draw code c db).1 in redeem env' draw' code c' db1 ≡ (server_error, db1)
redeem_once env env' draw draw' code c c' db h =
    mark_spent env' draw' code c' (redeem env draw code c db).1
      (rw (redeem-codes env draw code c db h) (exists-spent code db.codes))

-- What a request shows for the code that it exchanges.
pub record Entitled (env : AuthEnv) (now : ℕ) (r : TokenRequest) (c : AuthorizationCode)
    : Type 0 where
  pub unused : c.used ≡ false
  pub in_time : now ≤ c.expires_at
  pub same_client : (r.client_id ≡ "") ⊎ (r.client_id ≡ c.client_id)
  pub same_uri : (r.redirect_uri ≡ "") ⊎ (r.redirect_uri ≡ c.redirect_uri)
  pub challenged :
      (c.code_challenge ≡ "")
      ⊎ (verify_code_challenge env r.code_verifier c.code_challenge c.code_challenge_method ≡ true)

given_matches :
    (given kept : String)
    → (not (str_eq given "") && not (str_eq given kept)) ≡ false
    → (given ≡ "") ⊎ (given ≡ kept)
given_matches given kept h = elim (Bool-cases (str_eq given "")) [
  | inl e ↦ inl (ground (arith, e, eq_iff given ""))
  | inr e ↦ inr (ground (arith, e, h, eq_iff given kept))
]

check_challenge-none :
    (env : AuthEnv) (r : TokenRequest) (c : AuthorizationCode)
    → check_challenge env r c ≡ none
    → (c.code_challenge ≡ "")
      ⊎ (verify_code_challenge env r.code_verifier c.code_challenge c.code_challenge_method ≡ true)
check_challenge-none env r c h = elim (Bool-cases (str_eq c.code_challenge "")) [
  | inl e ↦ inl (ground (arith, e, eq_iff c.code_challenge ""))
  | inr e ↦ inr (ground (arith, e, h))
]

check_code-none :
    (env : AuthEnv) (now : ℕ) (r : TokenRequest) (c : AuthorizationCode)
    → check_code env now r c ≡ none
    → Entitled env now r c
unfolding check_code
check_code-none env now r c h = record {
  unused = ground (arith, h);
  in_time = ground (arith, h);
  same_client = given_matches r.client_id c.client_id (ground (arith, h));
  same_uri = given_matches r.redirect_uri c.redirect_uri (ground (arith, h));
  challenged = check_challenge-none env r c (ground (arith, h));
}

redeem-tokens :
    (env : AuthEnv) (draw : Draw) (code : String) (c : AuthorizationCode) (db : AuthDb)
    {res : OauthTokenResponse}
    → (redeem env draw code c db).0 ≡ issued res
    → (redeem env draw code c db).1.oauth_tokens
      ≡ db.oauth_tokens
        ++ record {
          access_token = res.access_token;
          refresh_token = res.refresh_token;
          client_id = c.client_id;
          user_id = c.user_id;
          scope = c.scope;
          expires_at = draw.now + 3600000000000;
        }
          ∷ []
unfolding redeem mark_authorization_code_used issue_tokens create_oauth_token_row
redeem-tokens env draw code c db h = ground (arith, h)

pub handle_found :
    (env : AuthEnv) (draw : Draw) (r : TokenRequest) (db : AuthDb) (c : AuthorizationCode)
    → str_eq r.code "" ≡ false
    → env.refuses db get_code ≡ none
    → find (has_code r.code) db.codes ≡ some c
    → handle_authorization_code env draw r db
      ≡ admitted env draw r c db (check_code env draw.now r c)
unfolding handle_authorization_code get_authorization_code
handle_found env draw r db c given reads found =
    let read : get_authorization_code env r.code db ≡ done (some c) = rw (reads, found) refl in
    rw (given, read) refl

admitted_passed :
    (env : AuthEnv) (draw : Draw) (r : TokenRequest) (db : AuthDb) (c : AuthorizationCode)
    (o : Option (ℕ × String)) {res : OauthTokenResponse}
    → (admitted env draw r c db o).0 ≡ issued res
    → o ≡ none
admitted_passed env draw r db c none h = refl
admitted_passed env draw r db c (some x) h = ground (arith, h)

-- An exchange that issues tokens was entitled to them: the code is in the table, unused and in
-- time, client and redirect URI are the code's where the request names them, and the verifier
-- answers the code's challenge if it has one. The new token is the code's client's and user's, with
-- its scope, and the code is used up.
pub exchange-Entitled :
    (env : AuthEnv) (draw : Draw) (r : TokenRequest) (db : AuthDb) {res : OauthTokenResponse}
    → (handle_authorization_code env draw r db).0 ≡ issued res
    → let db1 = (handle_authorization_code env draw r db).1 in
      (c : AuthorizationCode) × (find (has_code r.code) db.codes ≡ some c)
      × Entitled env draw.now r c
      × (db1.codes ≡ update (is_fresh r.code) spend db.codes)
      × (db1.oauth_tokens
          ≡ db.oauth_tokens
            ++ record {
              access_token = res.access_token;
              refresh_token = res.refresh_token;
              client_id = c.client_id;
              user_id = c.user_id;
              scope = c.scope;
              expires_at = draw.now + 3600000000000;
            }
              ∷ [])
unfolding handle_authorization_code get_authorization_code
exchange-Entitled env draw r db {res} h =
    let given : str_eq r.code "" ≡ false = ground (arith, h) in
    let reads : env.refuses db get_code ≡ none = ground (arith, h) in
    elim (Option-cases (find (has_code r.code) db.codes)) [
      | inl e ↦ absurd (ground (arith, h, e))
      | inr (c, e) ↦
          let run = handle_found env draw r db c given reads e in
          let passed =
            admitted_passed env draw r db c (check_code env draw.now r c)
              (ap (λ x. x.0) (sym run) ∙ h) in
          let same : handle_authorization_code env draw r db ≡ redeem env draw r.code c db =
            run ∙ ap (admitted env draw r c db) passed in
          let done' : (redeem env draw r.code c db).0 ≡ issued res = ap (λ x. x.0) (sym same) ∙ h in
          (
            c,
            e,
            check_code-none env draw.now r c passed,
            ap (λ x. x.1.codes) same ∙ redeem-codes env draw r.code c db done',
            ap (λ x. x.1.oauth_tokens) same ∙ redeem-tokens env draw r.code c db done',
          )
    ]

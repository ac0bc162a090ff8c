-- ===== src/Auth/Teams.antt =====
-- cmd/auth/grpc.go (team members, SSO providers, audit logs, access tokens) and the organization
-- handler of cmd/auth/handlers.go.
use fintech_ecosystem.Base.{
  ℕ, ◌+◌, ◌/◌, String, ◌<>◌, Bool, true, false, not, ◌&&◌, Option, none, some, List, [], ◌∷◌,
  str_eq, leb, if◌then◌else◌,
}
use Prim.Native.String.{len, slice, find as position}
use fintech_ecosystem.Auth.Model.{
  Organization, Membership, OauthToken, SsoProvider, AuditLog, AuthDb,
}
use fintech_ecosystem.Auth.Store.{AuthEnv, AuthResult, done, fault, ◌>>=◌}
use fintech_ecosystem.Auth.Tables.{
  create_organization, add_member_row, remove_member_row, list_org_members, get_user_memberships,
  create_sso_provider, get_sso_provider_by_id, get_sso_provider_by_domain, get_audit_logs,
}
use fintech_ecosystem.Auth.Service.{validate_oauth_token}
use fintech_ecosystem.Auth.Authorize.{session_user}
use fintech_ecosystem.Auth.Handlers.{Answer, refuse, reply}
use fintech_ecosystem.Auth.Keys.{with_session}

-- The creator becomes the owner; a membership that was not added is only logged.
abbrev pub owned : Organization → AuthDb → AuthResult AuthDb → Answer Organization × AuthDb
owned org db (fault e) = (reply 201 org, db)
owned org _ (done db) = (reply 201 org, db)

abbrev pub founded :
    AuthEnv → String → AuthDb → AuthResult (Organization × AuthDb) → Answer Organization × AuthDb
founded env user_id db (fault e) = (refuse "Failed to create organization", db)
founded env user_id _ (done (org, db)) = owned org db (add_member_row env user_id org.id "owner" db)

-- `CreateOrganization`, with the body's name and domain
unfoldable pub handle_create_organization :
    AuthEnv → String → Option (String × String) → AuthDb → Answer Organization × AuthDb
handle_create_organization env bearer body db =
    with_session (session_user env bearer) db (λ user_id. elim body [
      | none ↦ (refuse "Invalid request body", db)
      | some (name, domain) ↦
          if str_eq name ""
          then (refuse "Name is required", db)
          else founded env user_id db (create_organization env name domain db)
    ])

abbrev pub listed_in : String → AuthDb → List Membership → AuthResult Membership × AuthDb
listed_in org_id db [] = (fault "failed to retrieve added membership", db)
listed_in org_id db (m ∷ ms) =
    let rest = listed_in org_id db ms in if str_eq m.org_id org_id then (done m, db) else rest

abbrev pub read_back :
    String → AuthDb → AuthResult (List Membership) → AuthResult Membership × AuthDb
read_back org_id db (fault e) = (fault e, db)
read_back org_id db (done ms) = listed_in org_id db ms

abbrev pub member_added :
    AuthEnv → String → String → AuthDb → AuthResult AuthDb → AuthResult Membership × AuthDb
member_added env user_id org_id db (fault e) = (fault e, db)
member_added env user_id org_id _ (done db) =
    read_back org_id db (get_user_memberships env user_id db)

-- `AddTeamMember`
unfoldable pub add_team_member :
    AuthEnv → String → String → String → AuthDb → AuthResult Membership × AuthDb
add_team_member env user_id org_id role db =
    member_added env user_id org_id db (add_member_row env user_id org_id role db)

-- `RemoveTeamMember` and `ListTeamMembers`
unfoldable pub remove_team_member : AuthEnv → String → String → AuthDb → AuthResult AuthDb
remove_team_member env user_id org_id db = remove_member_row env user_id org_id db

unfoldable pub list_team_members : AuthEnv → String → AuthDb → AuthResult (List Membership)
list_team_members env org_id db = list_org_members env org_id db

-- The fields of a provider that an answer shows.
abbrev pub shown_provider : SsoProvider → SsoProvider
shown_provider p = record p {
  client_secret = "";
  metadata_url = "";
  sso_url = "";
  certificate = "";
}

abbrev pub provider_row : SsoProvider → SsoProvider
provider_row p = record p {
  id = "";
  metadata_url = "";
  sso_url = "";
  certificate = "";
  active = false;
}

-- `CreateSSOProvider`
unfoldable pub handle_create_sso_provider :
    AuthEnv → SsoProvider → AuthDb → AuthResult (SsoProvider × AuthDb)
handle_create_sso_provider env p db = do
  (made, db') ← create_sso_provider env (provider_row p) db
  done (shown_provider made, db')

abbrev pub or_missing : {A : Type 0} → String → Option A → AuthResult A
or_missing text none = fault text
or_missing text (some a) = done a

-- `GetSSOProvider`
unfoldable pub handle_get_sso_provider : AuthEnv → String → AuthDb → AuthResult SsoProvider
handle_get_sso_provider env id db = do
  p ← get_sso_provider_by_id env id db
  q ← or_missing "SSO provider not found" p
  done (shown_provider q)

-- `strings.Split(email, "@")` with two parts: one `@`, and what stands behind it.
unfoldable pub domain_of : String → Option String
domain_of email =
    let rest = slice email (position email "@" + 1) (len email) in
    if leb (position email "@") (len email) && not (leb (position rest "@") (len rest))
    then some rest
    else none

abbrev pub auth_url : String → SsoProvider → String
auth_url redirect_uri p =
    if str_eq p.provider_type "oidc"
    then p.issuer_url <> "?client_id=" <> p.client_id <> "&redirect_uri=" <> redirect_uri
      <> "&response_type=code&scope=openid email profile&state=sso_" <> p.id
    else (if str_eq p.provider_type "saml" then p.sso_url <> "?SAMLRequest=..." else "")

-- `InitiateSSO`
unfoldable pub initiate_sso : AuthEnv → String → String → AuthDb → AuthResult String
initiate_sso env email redirect_uri db = do
  domain ← or_missing "invalid email format" (domain_of email)
  p ← get_sso_provider_by_domain env domain db
  q ← or_missing ("no SSO provider configured for domain " <> domain) p
  done (auth_url redirect_uri q)

-- `GetAuditLogs`
unfoldable pub handle_get_audit_logs :
    AuthEnv → String → ℕ → ℕ → String → AuthDb → AuthResult (List AuditLog × ℕ)
handle_get_audit_logs env org_id limit offset action db =
    get_audit_logs env org_id limit offset action db

pub record ValidateTokenResponse : Type 0 where
  pub valid : Bool
  pub client_id : String
  pub user_id : String
  pub scope : String
  -- in seconds
  pub expires_at : ℕ

abbrev pub token_answer : AuthResult (Option OauthToken) → ValidateTokenResponse
token_answer (done (some t)) = record {
  valid = true;
  client_id = t.client_id;
  user_id = t.user_id;
  scope = t.scope;
  expires_at = t.expires_at / 1000000000;
}
token_answer _ = record { valid = false; client_id = ""; user_id = ""; scope = ""; expires_at = 0 }

-- `ValidateToken`
unfoldable pub validate_token : AuthEnv → ℕ → String → AuthDb → ValidateTokenResponse
validate_token env now access db = token_answer (validate_oauth_token env now access db)

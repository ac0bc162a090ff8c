-- ===== src/Auth/Tables.antt =====
-- internal/auth/infrastructure/sql_repository.go: organizations, memberships, API keys, OAuth and
-- providers.
use fintech_ecosystem.Base.{
  ℕ, zero, suc, String, Bool, true, false, not, ◌&&◌, ◌||◌, Option, none, some, List, [], ◌∷◌, ◌++◌,
  length, map, take, find, select, exists, update, delete, str_eq, if◌then◌else◌,
}
use mathlib.Core.List.{reverse}
use fintech_ecosystem.Auth.Model.{
  Organization, Membership, ApiKey, OauthClient, OauthToken, AuthorizationCode, SsoProvider,
  AuditLog, AuthDb,
}
use fintech_ecosystem.Auth.Store.{
  AuthEnv, create_org, get_org, add_member, remove_member, update_role, list_members,
  get_membership, create_key, get_key, create_client, get_client, add_uri, validate_uri,
  create_oauth_token, get_oauth_token, create_code, get_code, mark_code, create_provider,
  get_provider, create_log, get_logs, AuthResult, ◌>>=◌, query, affected,
}

-- `CreateOrganization`
unfoldable pub create_organization :
    AuthEnv → String → String → AuthDb → AuthResult (Organization × AuthDb)
create_organization env name domain db =
    let org : Organization = record {
      id = env.new_id (length db.organizations);
      name = name;
      domain = domain;
    } in
    query env db create_org (org, record db { organizations = db.organizations ++ org ∷ [] })

-- `GetOrganization`
unfoldable pub get_organization : AuthEnv → String → AuthDb → AuthResult (Option Organization)
get_organization env id db = query env db get_org (find (λ o. str_eq o.id id) db.organizations)

abbrev pub is_member : String → String → Membership → Bool
is_member user_id org_id m = str_eq m.user_id user_id && str_eq m.org_id org_id

-- `AddMember`: the primary key is (user_id, org_id), and a row that is there stays.
unfoldable pub add_member_row : AuthEnv → String → String → String → AuthDb → AuthResult AuthDb
add_member_row env user_id org_id role db =
    let row : Membership = record { user_id = user_id; org_id = org_id; role = role } in
    query env db add_member (record db {
      memberships =
          if exists (is_member user_id org_id) db.memberships
          then db.memberships
          else db.memberships ++ row ∷ [];
    })

-- `RemoveMember`
unfoldable pub remove_member_row : AuthEnv → String → String → AuthDb → AuthResult AuthDb
remove_member_row env user_id org_id db = do
  db' ←
      query env db remove_member
        (record db { memberships = delete (is_member user_id org_id) db.memberships })
  affected (exists (is_member user_id org_id) db.memberships) "membership not found" db'

-- `UpdateMemberRole`
unfoldable pub update_member_role : AuthEnv → String → String → String → AuthDb → AuthResult AuthDb
update_member_role env user_id org_id role db = do
  db' ← query env db update_role (record db {
    memberships = update (is_member user_id org_id) (λ m. record m { role = role }) db.memberships;
  })
  affected (exists (is_member user_id org_id) db.memberships) "membership not found" db'

-- `ListOrgMembers`, `GetUserMemberships` and `GetMembership`
unfoldable pub list_org_members : AuthEnv → String → AuthDb → AuthResult (List Membership)
list_org_members env org_id db =
    query env db list_members (select (λ m. str_eq m.org_id org_id) db.memberships)

unfoldable pub get_user_memberships : AuthEnv → String → AuthDb → AuthResult (List Membership)
get_user_memberships env user_id db =
    query env db list_members (select (λ m. str_eq m.user_id user_id) db.memberships)

unfoldable pub get_membership_row :
    AuthEnv → String → String → AuthDb → AuthResult (Option Membership)
get_membership_row env user_id org_id db =
    query env db get_membership (find (is_member user_id org_id) db.memberships)

abbrev pub or_text : String → String → String
or_text s default = if str_eq s "" then default else s

-- `CreateAPIKey`
unfoldable pub create_api_key : AuthEnv → ApiKey → AuthDb → AuthResult (ApiKey × AuthDb)
create_api_key env key db =
    let row = record key {
      id = env.new_id (length db.api_keys);
      scopes = or_text key.scopes "*";
    } in
    query env db create_key (row, record db { api_keys = db.api_keys ++ row ∷ [] })

abbrev pub has_hash : String → ApiKey → Bool
has_hash hash k = str_eq k.key_hash hash

-- The columns that `GetAPIKeyByHash` reads, and its defaults.
abbrev pub scan_key : Option ApiKey → Option ApiKey
scan_key none = none
scan_key (some k) = some (record k {
  key_hash = "";
  truncated_key = "";
  type = or_text k.type "secret";
  scopes = or_text k.scopes "*";
})

-- `GetAPIKeyByHash`
unfoldable pub get_api_key_by_hash : AuthEnv → String → AuthDb → AuthResult (Option ApiKey)
get_api_key_by_hash env hash db = query env db get_key (scan_key (find (has_hash hash) db.api_keys))

-- `GetClientByID`, `CreateOAuthClient`, `AddRedirectURI` and `ValidateRedirectURI`
unfoldable pub get_client_by_id : AuthEnv → String → AuthDb → AuthResult (Option OauthClient)
get_client_by_id env id db = query env db get_client (find (λ c. str_eq c.id id) db.clients)

unfoldable pub create_oauth_client : AuthEnv → OauthClient → AuthDb → AuthResult AuthDb
create_oauth_client env c db =
    query env db create_client (record db { clients = db.clients ++ c ∷ [] })

abbrev pub is_uri : String → String → String × String → Bool
is_uri client_id uri (c, u) = str_eq c client_id && str_eq u uri

unfoldable pub add_redirect_uri : AuthEnv → String → String → AuthDb → AuthResult AuthDb
add_redirect_uri env client_id uri db = query env db add_uri (record db {
  redirect_uris =
      if exists (is_uri client_id uri) db.redirect_uris
      then db.redirect_uris
      else db.redirect_uris ++ (client_id, uri) ∷ [];
})

unfoldable pub validate_redirect_uri : AuthEnv → String → String → AuthDb → AuthResult Bool
validate_redirect_uri env client_id uri db =
    query env db validate_uri (exists (is_uri client_id uri) db.redirect_uris)

-- `CreateOAuthToken` and `ValidateOAuthToken`
unfoldable pub create_oauth_token_row : AuthEnv → OauthToken → AuthDb → AuthResult AuthDb
create_oauth_token_row env t db =
    query env db create_oauth_token (record db { oauth_tokens = db.oauth_tokens ++ t ∷ [] })

abbrev pub has_access : String → OauthToken → Bool
has_access access t = str_eq t.access_token access

unfoldable pub get_oauth_token_row : AuthEnv → String → AuthDb → AuthResult (Option OauthToken)
get_oauth_token_row env access db =
    query env db get_oauth_token (find (has_access access) db.oauth_tokens)

-- `CreateAuthorizationCode`, `GetAuthorizationCode` and `MarkAuthorizationCodeUsed`
unfoldable pub create_authorization_code : AuthEnv → AuthorizationCode → AuthDb → AuthResult AuthDb
create_authorization_code env c db =
    query env db create_code (record db { codes = db.codes ++ record c { used = false } ∷ [] })

abbrev pub has_code : String → AuthorizationCode → Bool
has_code code c = str_eq c.code code

unfoldable pub get_authorization_code :
    AuthEnv → String → AuthDb → AuthResult (Option AuthorizationCode)
get_authorization_code env code db = query env db get_code (find (has_code code) db.codes)

-- `WHERE code = $1 AND used = FALSE`
abbrev pub is_fresh : String → AuthorizationCode → Bool
is_fresh code c = str_eq c.code code && not c.used

abbrev pub spend : AuthorizationCode → AuthorizationCode
spend c = record c { used = true }

unfoldable pub mark_authorization_code_used : AuthEnv → String → AuthDb → AuthResult AuthDb
mark_authorization_code_used env code db = do
  db' ← query env db mark_code (record db { codes = update (is_fresh code) spend db.codes })
  affected (exists (is_fresh code) db.codes) "code already used or not found" db'

-- `CreateSSOProvider`; a new row is active by the default of its column.
unfoldable pub create_sso_provider :
    AuthEnv → SsoProvider → AuthDb → AuthResult (SsoProvider × AuthDb)
create_sso_provider env p db =
    let given = record p { id = env.new_id (length db.sso_providers) } in
    query env db create_provider
      (given, record db { sso_providers = db.sso_providers ++ record given { active = true } ∷ [] })

-- `GetSSOProviderByID` and `GetSSOProviderByDomain`
unfoldable pub get_sso_provider_by_id : AuthEnv → String → AuthDb → AuthResult (Option SsoProvider)
get_sso_provider_by_id env id db =
    query env db get_provider (find (λ p. str_eq p.id id) db.sso_providers)

-- The join on organizations: a provider whose organization has the domain, and which is active.
abbrev pub serves_domain : List Organization → String → SsoProvider → Bool
serves_domain orgs domain p =
    exists (λ o. str_eq o.id p.org_id && str_eq o.domain domain) orgs && p.active

unfoldable pub get_sso_provider_by_domain :
    AuthEnv → String → AuthDb → AuthResult (Option SsoProvider)
get_sso_provider_by_domain env domain db =
    query env db get_provider (find (serves_domain db.organizations domain) db.sso_providers)

-- `CreateAuditLog`
unfoldable pub create_audit_log : AuthEnv → AuditLog → AuthDb → AuthResult AuthDb
create_audit_log env l db =
    query env db create_log (record db { audit_logs = db.audit_logs ++ l ∷ [] })

abbrev pub is_log : String → String → AuditLog → Bool
is_log org_id action l = str_eq l.org_id org_id && (str_eq action "" || str_eq l.action action)

abbrev pub scan_log : AuditLog → AuditLog
scan_log l = record l { user_agent = "" }

abbrev pub drop : {A : Type 0} → ℕ → List A → List A
drop n [] = []
drop zero (x ∷ xs) = x ∷ xs
drop (suc n) (x ∷ xs) = drop n xs

-- `GetAuditLogs`: a page of the newest rows first, and how many rows there are.
unfoldable pub get_audit_logs :
    AuthEnv → String → ℕ → ℕ → String → AuthDb → AuthResult (List AuditLog × ℕ)
get_audit_logs env org_id limit offset action db =
    let rows = select (is_log org_id action) db.audit_logs in
    query env db get_logs (map scan_log (take limit (drop offset (reverse rows))), length rows)

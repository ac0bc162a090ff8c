-- ===== src/Guard/Policy.antt =====
-- internal/policy/hardcoded.go and internal/policy/json.go: the two role-based policy engines, the
-- helpers that require a role, and the middleware's check.
use fintech_ecosystem.Base.{
  String, ◌<>◌, Bool, true, false, ◌||◌, Option, none, some, List, [], ◌∷◌, str_eq, if◌then◌else◌,
}
pub mod Rules

-- An `Action` and a `Role` are strings in the source, which come from outside too.
abbrev pub Action : Type 0
Action = String

abbrev pub Role : Type 0
Role = String

pub record PolicyContext : Type 0 where
  pub roles : List Role
  pub action : Action

pub record PolicyResult : Type 0 where
  pub allowed : Bool
  pub reason : String
  pub rules : List String

abbrev pub role_admin : Role
role_admin = "admin"

-- A membership test as the source's loops do it.
unfoldable pub contains : String → List String → Bool
contains x [] = false
contains x (y ∷ ys) = if str_eq y x then true else contains x ys

-- The rows of the permissions matrix.
abbrev pub finance_actions : List Action
finance_actions = "payment.create" ∷ "refund.create" ∷ "flow.deploy" ∷ "flow.deploy.live" ∷ []

abbrev pub developer_actions : List Action
developer_actions = "zone.create" ∷ "flow.deploy" ∷ "key.create" ∷ []

-- The matrix of `roleAllowsAction`; `none` is a role that is no key.
unfoldable pub permissions : Role → Option (List Action)
permissions role =
    if str_eq role "finance"
    then some finance_actions
    else (if str_eq role "developer"
        then some developer_actions
        else (if str_eq role "viewer" then some [] else none))

abbrev pub allowed_by : Option (List Action) → Action → Bool
allowed_by none action = false
allowed_by (some actions) action = contains action actions

unfoldable pub role_allows_action : Role → Action → Bool
role_allows_action role action =
    if str_eq role role_admin then true else allowed_by (permissions role) action

abbrev pub allow : String → String → PolicyResult
allow reason rule = record { allowed = true; reason = reason; rules = rule ∷ [] }

abbrev pub deny : String → PolicyResult
deny reason = record { allowed = false; reason = reason; rules = [] }

-- The loop of `HardcodedPolicyEngine.Check`.
unfoldable pub check_roles : List Role → Action → PolicyResult
check_roles [] action = deny "no matching policy found"
check_roles (role ∷ roles) action =
    if role_allows_action role action
    then allow ("allowed by role: " <> role) ("role:" <> role)
    else check_roles roles action

abbrev pub check : PolicyContext → PolicyResult
check pctx = check_roles pctx.roles pctx.action

-- `JSONPolicyEngine`: its map of roles, by its pairs.
abbrev pub JsonPolicyEngine : Type 0
JsonPolicyEngine = List (Role × List Action)

unfoldable pub role_policy : JsonPolicyEngine → Role → Option (List Action)
role_policy [] role = none
role_policy ((r, perms) ∷ e) role = if str_eq role r then some perms else role_policy e role

-- The loop over the permissions of one role: the result it returns, if it does.
unfoldable pub match_permission : Role → Action → List Action → Option PolicyResult
match_permission role action [] = none
match_permission role action (perm ∷ perms) =
    if str_eq perm "*"
    then some (allow ("allowed by wildcard rule for role: " <> role) ("role:" <> role <> ":*"))
    else (if str_eq perm action
        then some
            (allow ("allowed by explicit rule for role: " <> role) ("role:" <> role <> ":" <> perm))
        else match_permission role action perms)

unfoldable pub match_role : Role → Action → Option (List Action) → Option PolicyResult
match_role role action none = none
match_role role action (some perms) = match_permission role action perms

-- A `return` inside the loop, or the rest of it.
unfoldable pub or_else : Option PolicyResult → PolicyResult → PolicyResult
or_else (some result) rest = result
or_else none rest = rest

-- The loop of `JSONPolicyEngine.Check`.
unfoldable pub json_check : JsonPolicyEngine → List Role → Action → PolicyResult
json_check e [] action = deny "no matching policy found in JSON configuration"
json_check e (role ∷ roles) action =
    or_else (match_role role action (role_policy e role)) (json_check e roles action)

-- `RequireAdmin`: the error, if any.
unfoldable pub require_admin : List Role → Option String
require_admin [] = some "admin role required"
require_admin (role ∷ roles) = if str_eq role role_admin then none else require_admin roles

-- `RequireRole`: the error, if any.
unfoldable pub require_role : List Role → Role → Option String
require_role [] required = some ("role " <> required <> " required")
require_role (role ∷ roles) required =
    if str_eq role required || str_eq role role_admin then none else require_role roles required

-- `RequireAnyRole`, which is true where it returns nil.
unfoldable pub require_any_role : List Role → List Role → Bool
require_any_role [] required = false
require_any_role (role ∷ roles) required =
    if str_eq role role_admin
    then true
    else (if contains role required then true else require_any_role roles required)

-- `PolicyMiddleware.Check` over the result of an engine that does not fail.
abbrev pub middleware_check : PolicyResult → Option String
middleware_check result = if result.allowed then none else some ("denied: " <> result.reason)

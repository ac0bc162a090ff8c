-- ===== src/Guard/Policy/Rules.antt =====
-- The two policy engines against each other.
use fintech_ecosystem.Base.{
  ◌≡◌, refl, Bool, true, false, Option, none, some, List, [], ◌∷◌, str_eq, Bool-cases, inl, inr,
  arith,
}
use fintech_ecosystem.Guard.Policy.{
  Action, Role, PolicyResult, contains, finance_actions, developer_actions, permissions,
  role_allows_action, check_roles, role_policy, match_permission, match_role, or_else, json_check,
  JsonPolicyEngine,
}

-- The matrix of the hardcoded engine as a JSON configuration.
abbrev pub matrix : JsonPolicyEngine
matrix =
    ("admin", "*" ∷ [])
    ∷ ("finance", finance_actions)
    ∷ ("developer", developer_actions)
    ∷ ("viewer", [])
    ∷ []

-- A search of the JSON engine ends as the test of the hardcoded one.
data Matches (m : Option PolicyResult) (b : Bool) : Type 0 where
  misses : m ≡ none → b ≡ false → Matches m b
  hits : (r : PolicyResult) → m ≡ some r → r.allowed ≡ true → b ≡ true → Matches m b

match_permission-Matches :
    (role : Role) (action : Action) (perms : List Action)
    → contains "*" perms ≡ false
    → Matches (match_permission role action perms) (contains action perms)
unfolding match_permission contains
match_permission-Matches role action [] h = misses refl refl
match_permission-Matches role action (perm ∷ perms) h = elim (Bool-cases (str_eq perm "*")) [
  | inl e ↦ absurd (ground (arith, e, h))
  | inr e ↦ elim (Bool-cases (str_eq perm action)) [
    | inl f ↦ rw (e, f) (hits _ refl refl refl)
    | inr f ↦ rw (e, f) (match_permission-Matches role action perms (ground (arith, e, h)))
  ]
]

match_role-Matches :
    (role : Role) (action : Action)
    → Matches (match_role role action (role_policy matrix role)) (role_allows_action role action)
unfolding role_policy role_allows_action permissions contains match_permission match_role
match_role-Matches role action = elim (Bool-cases (str_eq role "admin")) [
  | inl a ↦ rw a (hits _ refl refl refl)
  | inr a ↦ elim (Bool-cases (str_eq role "finance")) [
    | inl b ↦ rw (a, b) (match_permission-Matches role action finance_actions refl)
    | inr b ↦ elim (Bool-cases (str_eq role "developer")) [
      | inl c ↦ rw (a, b, c) (match_permission-Matches role action developer_actions refl)
      | inr c ↦ elim (Bool-cases (str_eq role "viewer")) [
        | inl d ↦ rw (a, b, c, d) (misses refl refl)
        | inr d ↦ rw (a, b, c, d) (misses refl refl)
      ]
    ]
  ]
]

-- The JSON engine on the matrix of the hardcoded engine allows an action to a list of roles exactly
-- when the hardcoded engine does.
pub json_check_agrees :
    (roles : List Role) (action : Action)
    → (json_check matrix roles action).allowed ≡ (check_roles roles action).allowed
unfolding json_check check_roles or_else
json_check_agrees [] action = refl
json_check_agrees (role ∷ roles) action = elim (match_role-Matches role action) [
  | misses n f ↦ rw (n, f) (json_check_agrees roles action)
  | hits r s a t ↦ rw (s, t) a
]

-- ===== src/Auth/Sessions.antt =====
-- What `Register` and `Login` of cmd/auth/handlers.go promise.
use fintech_ecosystem.Base.{
  String, ◌≡◌, refl, ◌∙◌, ◌≢◌, ◌⊎◌, inl, inr, true, false, none, some, [], ◌∷◌, ◌++◌, find, length,
  str_eq, str_eq_ne, str_eq_self, Option-cases, Bool-cases, find-append, arith, eq_iff,
}
use fintech_ecosystem.Auth.Model.{User, AuthDb}
use fintech_ecosystem.Auth.Store.{
  AuthEnv, create_user as insert_user, get_user, create_token, done, fault, has_email,
  get_user_by_email, create_user_row, create_email_verification_token,
}
use fintech_ecosystem.Auth.Service.{
  Draw, AuthService, registered, create_user, create_email_verification, account_token,
}
use fintech_ecosystem.Auth.Handlers.{
  reply, AuthHandler, AuthRequest, Credentials, LoginResponse, mailed, register, known_user, login,
}
use fintech_ecosystem.Auth.Grant.{IsWilling}

-- Who may log in with a response.
pub record CanLogin (env : AuthEnv) (r : AuthRequest Credentials) (h : AuthHandler)
    (response : LoginResponse) : Type 0 where
  pub given : Credentials
  pub user : User
  pub sent : r.body ≡ some given
  pub named : find (has_email given.email) h.service.db.users ≡ some user
  pub matches : env.compare_hash given.password user.password ≡ true
  pub token :
      env.generate_jwt (record user { org_id = ""; email_verified = false }) ≡ some response.token
  pub shown :
      response.user ≡ some (record user { org_id = ""; password = ""; email_verified = false })

known_entitled :
    (env : AuthEnv) (r : AuthRequest Credentials) (h : AuthHandler) (c : Credentials)
    (response : LoginResponse)
    → r.body ≡ some c
    → known_user env c.password (get_user_by_email env c.email h.service.db) ≡ reply 200 response
    → CanLogin env r h response
unfolding get_user_by_email
known_entitled env r h c response sent ok =
    elim (Option-cases (env.refuses h.service.db get_user)) [
      | inr (e, refused) ↦ absurd (ground (arith, refused, ok))
      | inl answers ↦ elim (Option-cases (find (has_email c.email) h.service.db.users)) [
        | inl nobody ↦ absurd (ground (arith, answers, nobody, ok))
        | inr (u, found) ↦ elim (Bool-cases (env.compare_hash c.password u.password)) [
          | inr differs ↦ absurd (ground (arith, answers, found, differs, ok))
          | inl matches ↦
              elim (Option-cases
                (env.generate_jwt (record u { org_id = ""; email_verified = false }))) [
                  | inl unsigned ↦ absurd (ground (arith, answers, found, matches, unsigned, ok))
                  | inr (t, jwt) ↦ record {
                    given = c;
                    user = u;
                    sent = sent;
                    named = found;
                    matches = matches;
                    token = ground (arith, answers, found, matches, jwt, ok);
                    shown = ground (arith, answers, found, matches, jwt, ok);
                  }
                ]
        ]
      ]
    ]

-- A login succeeds for the right password only: where `Login` answers with a token, the body names
-- the address of a user whose stored hash the password matches, the token is the one for that
-- user, and the user that is shown has no hash.
pub login_entitled :
    (env : AuthEnv) (r : AuthRequest Credentials) (h : AuthHandler) (response : LoginResponse)
    → (login env r h).0 ≡ reply 200 response
    → CanLogin env r h response
unfolding login
login_entitled env r h response ok = elim (Option-cases r.body) [
  | inl nobody ↦ absurd (elim (Bool-cases (str_eq r.method "POST")) [
    | inl post ↦ ground (arith, nobody, post, ok)
    | inr other ↦ ground (arith, nobody, other, ok)
  ])
  | inr (c, sent) ↦ known_entitled env r h c response sent (ground (arith, sent, ok))
]

-- The row of a new user.
abbrev pub user_row : AuthEnv → String → String → AuthDb → User
user_row env email hash db = record {
  id = env.new_id (length db.users);
  org_id = "";
  email = email;
  password = hash;
  email_verified = false;
}

-- A verification token leaves the users as they are, made or not.
verification_users :
    (env : AuthEnv) (draw : Draw) (id : String) (db : AuthDb)
    → ((text : String) × (create_email_verification env draw id db ≡ fault text))
      ⊎ ((token : String) × (db' : AuthDb) × (create_email_verification env draw id db
            ≡ done (token, db'))
          × (db'.users ≡ db.users))
unfolding create_email_verification create_email_verification_token
verification_users env draw id db = elim (Option-cases (draw.random 0)) [
  | inl e ↦ inl ("rand", rw e refl)
  | inr (raw, e) ↦ elim (Option-cases (env.refuses db create_token)) [
    | inl answers ↦ inr (
      raw,
      record db {
        verification_tokens = db.verification_tokens ++ account_token env draw 15 id raw ∷ [];
      },
      rw (e, answers) refl,
      refl,
    )
    | inr (text, refused) ↦ inl (text, rw (e, refused) refl)
  ]
]

create_user_users :
    (env : AuthEnv) (draw : Draw) (email hash : String) (s : AuthService)
    → IsWilling env
    → let row = user_row env email hash s.db in
      (s' : AuthService) × (create_user env draw email hash s
        ≡ done (record row { password = "" }, s'))
      × (s'.db.users ≡ s.db.users ++ row ∷ [])
unfolding create_user create_user_row
create_user_users env draw email hash s willing =
    let row = user_row env email hash s.db in
    let db1 : AuthDb = record s.db { users = s.db.users ++ row ∷ [] } in
    let user = record row { password = "" } in
    elim (verification_users env draw row.id db1) [
      | inl (text, e) ↦ (
        (registered env user db1 (fault text) s.published).1,
        rw (willing s.db insert_user, e) refl,
        refl,
      )
      | inr (token, db', e, same) ↦ (
        (registered env user db1 (done (token, db')) s.published).1,
        rw (willing s.db insert_user, e) refl,
        same,
      )
    ]

-- A registration that the handler has no reason to refuse.
pub record CanRegister (env : AuthEnv) (r : AuthRequest Credentials) (hash : String) (db : AuthDb)
    : Type 0 where
  pub given : Credentials
  pub is_post : r.method ≡ "POST"
  pub sent : r.body ≡ some given
  pub some_email : given.email ≢ ""
  pub some_password : given.password ≢ ""
  pub hashed : env.generate_hash given.password ≡ some hash
  pub new_email : find (has_email given.email) db.users ≡ none

register_users :
    (env : AuthEnv) (draw draw' : Draw) (r : AuthRequest Credentials) (hash : String)
    (h : AuthHandler) (can : CanRegister env r hash h.service.db)
    → IsWilling env
    → let row = user_row env can.given.email hash h.service.db in
      ((register env draw draw' r h).0 ≡ reply 201 (record row { password = "" }))
      × ((register env draw draw' r h).1.service.db.users ≡ h.service.db.users ++ row ∷ [])
unfolding register
register_users env draw draw' r hash h can willing =
    let c = can.given in
    let row = user_row env c.email hash h.service.db in
    let post : str_eq r.method "POST" ≡ true =
      ground (arith, can.is_post, eq_iff r.method "POST") in
    let (s, made, users) = create_user_users env draw c.email hash h.service willing in
    let start : register env draw draw' r h
        ≡ mailed (record row { password = "" }) (record h { service = s })
            (create_email_verification env draw' row.id s.db) =
      rw
        (
          post,
          can.sent,
          str_eq_ne c.email "" can.some_email,
          str_eq_ne c.password "" can.some_password,
          can.hashed,
          made,
        )
        refl in
    elim (verification_users env draw' row.id s.db) [
      | inl (text, e) ↦ (rw (start, e) refl, rw (start, e) users)
      | inr (token, db', e, same) ↦ (rw (start, e) refl, rw (start, e) (same ∙ users))
    ]

-- A registration works: where the database answers everything, the address is new, the hash of a
-- password matches it, and a token can be signed, the user who registers is answered with status
-- 201, whether or not the verification tokens could be made, and can log in with the same request
-- right after that.
pub register_logs_in :
    (env : AuthEnv) (draw draw' : Draw) (r : AuthRequest Credentials) (hash jwt : String)
    (h : AuthHandler) (can : CanRegister env r hash h.service.db)
    → IsWilling env
    → env.compare_hash can.given.password hash ≡ true
    → let row = user_row env can.given.email hash h.service.db in
      env.generate_jwt row ≡ some jwt
      → ((register env draw draw' r h).0 ≡ reply 201 (record row { password = "" }))
        × ((login env r (register env draw draw' r h).1).0
            ≡ reply 200 (record { token = jwt; user = some (record row { password = "" }) }))
unfolding login get_user_by_email
register_logs_in env draw draw' r hash jwt h can willing matches signs =
    let c = can.given in
    let row = user_row env c.email hash h.service.db in
    let post : str_eq r.method "POST" ≡ true =
      ground (arith, can.is_post, eq_iff r.method "POST") in
    let (answer, users) = register_users env draw draw' r hash h can willing in
    let h' = (register env draw draw' r h).1 in
    let found : find (has_email c.email) h'.service.db.users ≡ some row = rw users (
      find-append (has_email c.email) h.service.db.users row can.new_email (str_eq_self c.email)) in
    let read : get_user_by_email env c.email h'.service.db ≡ done (some row) =
      rw (willing h'.service.db get_user, found) refl in
    (
      answer,
      rw
          (
            post,
            can.sent,
            str_eq_ne c.email "" can.some_email,
            str_eq_ne c.password "" can.some_password,
            read,
            matches,
            signs,
          )
          refl,
    )

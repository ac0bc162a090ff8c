-- ===== src/Auth/Service/Accounts.antt =====
-- What the account tokens promise (internal/auth/domain/service.go).
use fintech_ecosystem.Base.{
  ℕ, String, ◌≡◌, ◌≢◌, inl, inr, false, none, some, List, [], ◌∷◌, find, update, Option-cases,
  arith,
}
use fintech_ecosystem.Auth.Model.{AccountToken, AuthDb}
use fintech_ecosystem.Auth.Store.{
  AuthEnv, AuthResult, done, fault, has_token, is_unused, use_token, is_unset,
  mark_password_reset_token_used, update_user_password, get_password_reset_token,
}
use fintech_ecosystem.Auth.Service.{validate_password_reset_token, apply_reset, reset_password}

-- After the rows of a token were marked, the first row of that token is used.
find-used :
    (hash : String) (now : ℕ) (ts : List AccountToken) {t : AccountToken}
    → find (has_token hash) (update (is_unused hash) (use_token now) ts) ≡ some t
    → is_unset t.used_at ≡ false
find-used hash now [] {t} h = ground arith
find-used hash now (x ∷ xs) {t} h = ground (arith, find-used hash now xs {t = t})

reset_password_marks :
    (env : AuthEnv) (now : ℕ) (raw hash : String) (db : AuthDb)
    → (reset_password env now raw hash db).0 ≡ none
    → (reset_password env now raw hash db).1.reset_tokens
      ≡ update (is_unused (env.hash_string raw)) (use_token now) db.reset_tokens
unfolding reset_password apply_reset mark_password_reset_token_used update_user_password
reset_password_marks env now raw hash db ok = go (validate_password_reset_token env now raw db) ok
  where
    go :
        (r : AuthResult AccountToken)
        → (apply_reset env now raw hash db r).0 ≡ none
        → (apply_reset env now raw hash db r).1.reset_tokens
          ≡ update (is_unused (env.hash_string raw)) (use_token now) db.reset_tokens
    go (fault e) ok = absurd (ground (arith, ok))
    go (done t) ok = ground (arith, ok)

reset_password_refused :
    (env : AuthEnv) (now : ℕ) (raw hash : String) (db : AuthDb)
    → ((t : AccountToken)
        → find (has_token (env.hash_string raw)) db.reset_tokens ≡ some t
        → is_unset t.used_at ≡ false)
    → ((reset_password env now raw hash db).0 ≢ none)
      × ((reset_password env now raw hash db).1 ≡ db)
unfolding reset_password apply_reset validate_password_reset_token get_password_reset_token
reset_password_refused env now raw hash db used =
    elim (Option-cases (find (has_token (env.hash_string raw)) db.reset_tokens)) [
      | inl e ↦ ground (arith, e)
      | inr (t, e) ↦ ground (arith, e, used t e)
    ]

-- A password reset that reports no error uses its token up: a reset with that token right behind
-- it, at whatever time and whatever the database then refuses, under the same hash of tokens, ends
-- in an error and changes nothing.
pub reset_password_once :
    (env env' : AuthEnv) (now now' : ℕ) (raw hash hash' : String) (db : AuthDb)
    → env'.hash_string raw ≡ env.hash_string raw
    → (reset_password env now raw hash db).0 ≡ none
    → let db1 = (reset_password env now raw hash db).1 in
      ((reset_password env' now' raw hash' db1).0 ≢ none)
      × ((reset_password env' now' raw hash' db1).1 ≡ db1)
reset_password_once env env' now now' raw hash hash' db same ok =
    reset_password_refused env' now' raw hash' (reset_password env now raw hash db).1 used
  where
    used :
        (t : AccountToken)
        → find
            (has_token (env'.hash_string raw))
            (reset_password env now raw hash db).1.reset_tokens
          ≡ some t
        → is_unset t.used_at ≡ false
    used t h =
        find-used (env.hash_string raw) now db.reset_tokens {t = t}
          (rw (← reset_password_marks env now raw hash db ok, ← same) h)

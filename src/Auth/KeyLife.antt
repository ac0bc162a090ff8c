-- ===== src/Auth/KeyLife.antt =====
-- The life of an API key: made by `GenerateAPIKey`, checked by `ValidateKey` through the cache.
use fintech_ecosystem.Base.{
  ℕ, String, ◌<>◌, ◌≡◌, refl, ap, ◌≢◌, true, none, some, [], ◌∷◌, ◌++◌, find, length, str_eq,
  str_eq_ne, str_eq_self, Bool-cases, inl, inr, find-append,
}
use fintech_ecosystem.Auth.Model.{ApiKey, AuthDb}
use fintech_ecosystem.Auth.Store.{AuthEnv, create_key, get_key}
use fintech_ecosystem.Auth.Tables.{has_hash, create_api_key, get_api_key_by_hash}
use fintech_ecosystem.Auth.Authorize.{session_user}
use fintech_ecosystem.Auth.Handlers.{reply}
use fintech_ecosystem.Auth.Keys.{
  GenerateApiKeyRequest, GenerateApiKeyResponse, key_type, key_prefix_of, truncate, key_row,
  generate_key, generate_api_key, KeyCache, is_live, get_cached_key, validate_key,
}
use fintech_ecosystem.Auth.Grant.{IsWilling}

abbrev pub answer_of : GenerateApiKeyRequest → String → GenerateApiKeyResponse
answer_of r key = record {
  key = key;
  environment = r.environment;
  zone_id = r.zone_id;
  mode = r.environment;
  type = key_type r;
  truncated_key = truncate key;
}

-- A new key validates: where the database answers everything, the user is logged in and names a
-- zone, no key has its hash and the cache has no entry of it, the key that `GenerateAPIKey` returns
-- is found by its hash, with the user, the zone, the mode and the type it was made for, and with
-- all scopes.
pub generated_key_validates :
    (env : AuthEnv) (hex bearer user_id : String) (r : GenerateApiKeyRequest) (now : ℕ)
    (db : AuthDb) (cache : KeyCache)
    → IsWilling env
    → session_user env bearer ≡ some user_id
    → user_id ≢ ""
    → r.zone_id ≢ ""
    → let key = key_prefix_of r <> "_" <> hex in
      find (has_hash (env.hash_key key)) db.api_keys ≡ none
      → find (is_live now (env.hash_key key)) cache ≡ none
      → let (answer, db1) = generate_api_key env (some hex) bearer (some r) db in
        (answer ≡ reply 201 (answer_of r key))
        × ((validate_key env now (env.hash_key key) db1 cache).0 ≡ record {
          valid = true;
          user_id = user_id;
          org_id = "";
          role = "";
          zone_id = r.zone_id;
          mode = r.environment;
          environment = r.environment;
          scopes = "*";
          key_type = key_type r;
        })
unfolding generate_api_key generate_key create_api_key get_api_key_by_hash get_cached_key
    validate_key
generated_key_validates env hex bearer user_id r now db cache willing session user zone new miss =
    let key = key_prefix_of r <> "_" <> hex in
    let row : ApiKey = record (key_row user_id r key (env.hash_key key)) {
      id = env.new_id (length db.api_keys);
      scopes = "*";
    } in
    let db1 : AuthDb = record db { api_keys = db.api_keys ++ row ∷ [] } in
    let run : generate_api_key env (some hex) bearer (some r) db
        ≡ (reply 201 (answer_of r key), db1) =
      rw (session, str_eq_ne user_id "" user, str_eq_ne r.zone_id "" zone, willing db create_key)
        refl in
    let found : find (has_hash (env.hash_key key)) db1.api_keys ≡ some row =
      find-append (has_hash (env.hash_key key)) db.api_keys row new
        (str_eq_self (env.hash_key key)) in
    (
      ap (λ x. x.0) run,
      elim (Bool-cases (str_eq r.type "")) [
        | inl default ↦ rw (run, miss, willing db1 get_key, found, default) refl
        | inr given ↦ rw (run, miss, willing db1 get_key, found, given, given) refl
      ],
    )

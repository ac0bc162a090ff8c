-- ===== src/Auth/Keys.antt =====
-- API keys: pkg/apikey, internal/auth/infrastructure/cache_repository.go, the key handlers of
-- cmd/auth/handlers.go and `ValidateKey` of cmd/auth/grpc.go.
use fintech_ecosystem.Base.{
  ℕ, ◌+◌, ◌-◌, String, ◌<>◌, Bool, true, false, ◌&&◌, Option, none, some, List, ◌∷◌, find, str_eq,
  ltb, if◌then◌else◌,
}
use Prim.Native.String.{len, slice}
use fintech_ecosystem.Auth.Model.{ApiKey, AuthDb}
use fintech_ecosystem.Auth.Store.{AuthEnv, AuthResult, done, fault, is_unset}
use fintech_ecosystem.Auth.Tables.{create_api_key, get_api_key_by_hash}
use fintech_ecosystem.Auth.Authorize.{session_user}
use fintech_ecosystem.Auth.Service.{minutes}
use fintech_ecosystem.Auth.Handlers.{Answer, refuse, reply}

-- `GenerateKey`: the key and its hash, from the hexadecimal of 24 random bytes (`none` if the
-- source of randomness fails).
unfoldable pub generate_key : AuthEnv → String → Option String → Option (String × String)
generate_key env prefix none = none
generate_key env prefix (some hex) = let key = prefix <> "_" <> hex in some (key, env.hash_key key)

pub record GenerateApiKeyRequest : Type 0 where
  pub environment : String
  pub zone_id : String
  pub type : String

pub record GenerateApiKeyResponse : Type 0 where
  pub key : String
  pub environment : String
  pub zone_id : String
  pub mode : String
  pub type : String
  pub truncated_key : String

abbrev pub key_type : GenerateApiKeyRequest → String
key_type r = if str_eq r.type "" then "secret" else r.type

abbrev pub key_prefix_of : GenerateApiKeyRequest → String
key_prefix_of r = (if str_eq r.type "publishable" then "pk_" else "sk_") <> r.environment

-- The last four characters of a key, which has only ASCII from its separator on.
abbrev pub truncate : String → String
truncate key = slice key (len key - 4) (len key)

abbrev pub key_row : String → GenerateApiKeyRequest → String → String → ApiKey
key_row user_id r full hash = record {
  id = "";
  user_id = user_id;
  org_id = "";
  zone_id = r.zone_id;
  mode = r.environment;
  key_prefix = key_prefix_of r;
  key_hash = hash;
  truncated_key = truncate full;
  environment = r.environment;
  type = key_type r;
  scopes = "";
  revoked_at = none;
}

abbrev pub saved_key :
    GenerateApiKeyRequest
    → String
    → AuthDb
    → AuthResult (ApiKey × AuthDb)
    → Answer GenerateApiKeyResponse × AuthDb
saved_key r full db (fault e) = (refuse "Failed to save API key (verify zone_id)", db)
saved_key r full _ (done (key, db)) = (
  reply 201 (record {
    key = full;
    environment = r.environment;
    zone_id = r.zone_id;
    mode = r.environment;
    type = key_type r;
    truncated_key = truncate full;
  }),
  db,
)

abbrev pub made_key :
    AuthEnv
    → String
    → GenerateApiKeyRequest
    → AuthDb
    → Option (String × String)
    → Answer GenerateApiKeyResponse × AuthDb
made_key env user_id r db none = (refuse "Failed to generate key", db)
made_key env user_id r db (some (full, hash)) =
    saved_key r full db (create_api_key env (key_row user_id r full hash) db)

abbrev pub with_key_request :
    AuthEnv
    → Option String
    → String
    → Option GenerateApiKeyRequest
    → AuthDb
    → Answer GenerateApiKeyResponse × AuthDb
with_key_request env hex user_id none db = (refuse "Invalid request body", db)
with_key_request env hex user_id (some r) db =
    if str_eq r.zone_id ""
    then (refuse "zone_id is required", db)
    else made_key env user_id r db (generate_key env (key_prefix_of r) hex)

-- A handler behind `extractUserIDFromToken`.
abbrev pub with_session :
    {A : Type 0} → Option String → AuthDb → (String → Answer A × AuthDb) → Answer A × AuthDb
with_session none db handle = (refuse "Unauthorized", db)
with_session (some user_id) db handle =
    if str_eq user_id "" then (refuse "Unauthorized", db) else handle user_id

-- `GenerateAPIKey`
unfoldable pub generate_api_key :
    AuthEnv
    → Option String
    → String
    → Option GenerateApiKeyRequest
    → AuthDb
    → Answer GenerateApiKeyResponse × AuthDb
generate_api_key env hex bearer body db =
    with_session (session_user env bearer) db (λ user_id. with_key_request env hex user_id body db)

-- The keys in Redis: hash, key and the time at which the entry ends.
abbrev pub KeyCache : Type 0
KeyCache = List (String × (ApiKey × ℕ))

abbrev pub is_live : ℕ → String → String × (ApiKey × ℕ) → Bool
is_live now hash (h, (_, end)) = str_eq h hash && ltb now end

abbrev pub store_key :
    ℕ → String → KeyCache → AuthResult (Option ApiKey) → AuthResult (Option ApiKey) × KeyCache
store_key now hash cache (done (some key)) =
    (done (some key), (hash, (key, now + minutes 5)) ∷ cache)
store_key now hash cache r = (r, cache)

abbrev pub cached_or :
    Option (String × (ApiKey × ℕ))
    → KeyCache
    → AuthResult (Option ApiKey) × KeyCache
    → AuthResult (Option ApiKey) × KeyCache
cached_or (some (_, (key, _))) cache miss = (done (some key), cache)
cached_or none cache miss = miss

-- `CachedRepository.GetAPIKeyByHash`. The JSON of a key has every field that the query reads, so
-- an entry always decodes.
unfoldable pub get_cached_key :
    AuthEnv → ℕ → String → AuthDb → KeyCache → AuthResult (Option ApiKey) × KeyCache
get_cached_key env now hash db cache =
    cached_or (find (is_live now hash) cache) cache
      (store_key now hash cache (get_api_key_by_hash env hash db))

pub record ValidateKeyResponse : Type 0 where
  pub valid : Bool
  pub user_id : String
  pub org_id : String
  pub role : String
  pub zone_id : String
  pub mode : String
  pub environment : String
  pub scopes : String
  pub key_type : String

abbrev pub invalid_key : ValidateKeyResponse
invalid_key = record {
  valid = false;
  user_id = "";
  org_id = "";
  role = "";
  zone_id = "";
  mode = "";
  environment = "";
  scopes = "";
  key_type = "";
}

abbrev pub key_answer : String → ApiKey → ValidateKeyResponse
key_answer role k = record {
  valid = true;
  user_id = k.user_id;
  org_id = k.org_id;
  role = role;
  zone_id = k.zone_id;
  mode = k.mode;
  environment = k.environment;
  scopes = k.scopes;
  key_type = k.type;
}

abbrev pub api_key_role : ApiKey → String
api_key_role k = if str_eq k.org_id "" then "" else "admin"

abbrev pub validated : AuthResult (Option ApiKey) → ValidateKeyResponse
validated (fault e) = invalid_key
validated (done none) = invalid_key
validated (done (some k)) =
    if is_unset k.revoked_at then key_answer (api_key_role k) k else invalid_key

-- `AuthGRPCServer.ValidateKey`
unfoldable pub validate_key :
    AuthEnv → ℕ → String → AuthDb → KeyCache → ValidateKeyResponse × KeyCache
validate_key env now hash db cache =
    let (r, cache') = get_cached_key env now hash db cache in (validated r, cache')

abbrev pub validated_http : AuthResult (Option ApiKey) → Answer ValidateKeyResponse
validated_http (fault e) = refuse "Validation failed"
validated_http (done none) = reply 200 invalid_key
validated_http (done (some k)) =
    reply 200 (if is_unset k.revoked_at then key_answer "" k else invalid_key)

-- `AuthHandler.ValidateAPIKey`, whose answer has no role.
unfoldable pub validate_api_key :
    AuthEnv → ℕ → Option String → AuthDb → KeyCache → Answer ValidateKeyResponse × KeyCache
validate_api_key env now none db cache = (refuse "Invalid request body", cache)
validate_api_key env now (some hash) db cache =
    let (r, cache') = get_cached_key env now hash db cache in (validated_http r, cache')

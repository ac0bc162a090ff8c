-- ===== src/Guard/Limiter.antt =====
-- pkg/ratelimit/limiter.go and pkg/ratelimit/tenant.go. A sorted set of Redis is a list of members
-- with their scores; times and durations are nanoseconds, scores are milliseconds.
pub mod Window
pub mod Paths
use fintech_ecosystem.Base.{
  ℕ, zero, suc, ◌+◌, ◌-◌, ◌*◌, ◌/◌, String, ◌<>◌, Bool, true, false, ◌&&◌, Option, none, some, List,
  [], ◌∷◌, ◌++◌, length, select, find, ltb, leb, ◌==◌, str_eq, if◌then◌else◌,
}

pub record Config : Type 0 where
  pub limit : ℕ
  pub window : ℕ
  pub burst : ℕ

pub record Verdict : Type 0 where
  pub allowed : Bool
  pub remaining : ℕ
  pub reset_at : ℕ
  pub retry_after : ℕ

-- A member "<nano>-<i>" with its score.
pub record Member : Type 0 where
  pub nano : ℕ
  pub index : ℕ
  pub score : ℕ

abbrev pub milli : ℕ → ℕ
milli t = t / 1000000

-- `ZRemRangeByScore key -inf windowStart`
unfoldable pub prune : ℕ → List Member → List Member
prune window_start = select (λ m. ltb window_start m.score)

-- `ZAdd` of one member: it sets the score of a member that is there.
unfoldable pub zadd : Member → List Member → List Member
zadd m [] = m ∷ []
zadd m (x ∷ xs) = if (x.nano == m.nano) && (x.index == m.index) then m ∷ xs else x ∷ zadd m xs

-- The members of one call, from index `i`, `n` of them.
unfoldable pub add_members : ℕ → ℕ → ℕ → List Member → List Member
unfolding zadd
add_members now i zero set = set
add_members now i (suc n) set =
    add_members now (suc i) n (zadd (record { nano = now; index = i; score = milli now }) set)

-- The lowest score, which `ZRangeWithScores 0 0` reads.
abbrev pub lower : Member → Option ℕ → ℕ
lower m none = m.score
lower m (some s) = if ltb s m.score then s else m.score

unfoldable pub oldest : List Member → Option ℕ
oldest [] = none
oldest (m ∷ ms) = some (lower m (oldest ms))

abbrev pub retry_after_of : Config → ℕ → Option ℕ → ℕ
retry_after_of cfg later none = 0
retry_after_of cfg later (some score) = (score * 1000000 + cfg.window) - later

-- The first pipeline of `AllowN`: the pruned set, whose size is the count.
unfoldable pub check_window : Config → ℕ → List Member → List Member
unfolding prune
check_window cfg now set = prune (milli (now - cfg.window)) set

-- The rest of `AllowN`, given the count that the first pipeline returned; `later` is the time at
-- which `time.Until` reads the clock.
unfoldable pub record_request : Config → ℕ → ℕ → ℕ → ℕ → List Member → Verdict × List Member
unfolding oldest add_members
record_request cfg now later n count set =
    if ltb cfg.limit (count + n)
    then (
      record {
        allowed = false;
        remaining = cfg.limit - count;
        reset_at = now + cfg.window;
        retry_after = retry_after_of cfg later (oldest set);
      },
      set,
    )
    else (
      record {
        allowed = true;
        remaining = cfg.limit - count - n;
        reset_at = now + cfg.window;
        retry_after = 0;
      },
      add_members now 0 n set,
    )

-- `Limiter.AllowN` with no other call between its two pipelines.
unfoldable pub allow_n : Config → ℕ → ℕ → ℕ → List Member → Verdict × List Member
unfolding check_window record_request
allow_n cfg now later n set =
    let pruned = check_window cfg now set in record_request cfg now later n (length pruned) pruned

abbrev pub default_config : Config
default_config = record { limit = 100; window = 60000000000; burst = 100 }

-- `Limiter.Allow`
unfoldable pub allow : ℕ → ℕ → List Member → Verdict × List Member
unfolding allow_n
allow now later set = allow_n default_config now later 1 set

-- A Go map, by its pairs.
abbrev pub lookup {ℓ} : {Value : Type ℓ} → String → List (String × Value) → Option Value
lookup wanted [] = none
lookup wanted ((key, value) ∷ others) = elim (str_eq key wanted) [
  | true ↦ some value
  | false ↦ lookup wanted others
]

pub record TenantLimiter : Type 0 where
  pub tier_configs : List (String × Config)
  pub tenant_tiers : List (String × String)
  pub default_tier : String

abbrev pub per_minute : ℕ → Config
per_minute n = record { limit = n; window = 60000000000; burst = n }

-- `NewTenantLimiter` with no options.
unfoldable pub new_tenant_limiter : TenantLimiter
new_tenant_limiter = record {
  tier_configs =
      ("free", per_minute 100)
      ∷ ("starter", per_minute 1000)
      ∷ ("pro", per_minute 10000)
      ∷ ("enterprise", per_minute 100000)
      ∷ [];
  tenant_tiers = [];
  default_tier = "free";
}

-- `SetTenantTier`
unfoldable pub set_tenant_tier : String → String → TenantLimiter → TenantLimiter
set_tenant_tier tenant tier tl = record tl { tenant_tiers = (tenant, tier) ∷ tl.tenant_tiers }

abbrev pub or_else {ℓ} : {A : Type ℓ} → Option A → A → A
or_else none a = a
or_else (some x) a = x

-- `GetTenantTier`
unfoldable pub get_tenant_tier : String → TenantLimiter → String
get_tenant_tier tenant tl = or_else (lookup tenant tl.tenant_tiers) tl.default_tier

-- The zero value that a map gives for a key that is not there.
abbrev pub no_config : Config
no_config = record { limit = 0; window = 0; burst = 0 }

-- The configuration that `Allow` and `AllowGlobal` choose.
unfoldable pub tenant_config : String → TenantLimiter → Config
unfolding get_tenant_tier
tenant_config tenant tl =
    or_else (lookup (get_tenant_tier tenant tl) tl.tier_configs)
      (or_else (lookup tl.default_tier tl.tier_configs) no_config)

-- `TenantLimiter.Allow` on the set behind its key.
unfoldable pub allow_tenant : TenantLimiter → String → ℕ → ℕ → List Member → Verdict × List Member
unfolding tenant_config allow_n
allow_tenant tl tenant now later set = allow_n (tenant_config tenant tl) now later 1 set

-- Text as its bytes, for patterns.
abbrev pub bytes_eq : List ℕ → List ℕ → Bool
bytes_eq [] [] = true
bytes_eq [] (y ∷ ys) = false
bytes_eq (x ∷ xs) [] = false
bytes_eq (x ∷ xs) (y ∷ ys) = (x == y) && bytes_eq xs ys

abbrev pub is_prefix : List ℕ → List ℕ → Bool
is_prefix [] path = true
is_prefix (x ∷ xs) [] = false
is_prefix (x ∷ xs) (y ∷ ys) = (x == y) && is_prefix xs ys

-- The pattern without a trailing '*', if it has one.
abbrev pub trim_star : List ℕ → Option (List ℕ)
trim_star [] = none
trim_star (x ∷ []) = if x == b'*' then some [] else none
trim_star (x ∷ y ∷ ys) = elim (trim_star (y ∷ ys)) [ none ↦ none | some zs ↦ some (x ∷ zs) ]

abbrev pub starts_with_stem : Option (List ℕ) → List ℕ → Bool
starts_with_stem none path = false
starts_with_stem (some stem) path = is_prefix stem path

-- `matchPath`
unfoldable pub match_path : List ℕ → List ℕ → Bool
match_path pattern path =
    if bytes_eq pattern path then true else starts_with_stem (trim_star pattern) path

pub record EndpointConfig : Type 0 where
  pub patterns : List (List ℕ)
  pub config : Config

unfoldable pub any_match : List (List ℕ) → List ℕ → Bool
unfolding match_path
any_match [] path = false
any_match (p ∷ ps) path = elim (match_path p path) [ true ↦ true | false ↦ any_match ps path ]

-- `findConfig`
unfoldable pub find_config : List EndpointConfig → Config → List ℕ → Config
unfolding any_match
find_config [] fallback path = fallback
find_config (ep ∷ eps) fallback path = elim (any_match ep.patterns path) [
  | true ↦ ep.config
  | false ↦ find_config eps fallback path
]

-- `EndpointLimiter.Allow` on the set behind its key.
unfoldable pub allow_endpoint :
    List EndpointConfig → Config → List ℕ → ℕ → ℕ → List Member → Verdict × List Member
unfolding find_config allow_n
allow_endpoint eps fallback path now later set =
    allow_n (find_config eps fallback path) now later 1 set

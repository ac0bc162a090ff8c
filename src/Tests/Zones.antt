-- ===== src/Tests/Zones.antt =====
-- The cache of zones at a concrete input.
use fintech_ecosystem.Base.{◌≡◌, refl, false, some, [], ◌∷◌, exists}
use fintech_ecosystem.Zones.{
  live, Zone, insert_zone, ZoneEnv, ZoneStore, done, has_id, create, get_by_id, list_by_org_id,
}
use fintech_ecosystem.Zones.Coherence.{IsKeyed, Reach, empty, created, cache_unseen}

abbrev zone_env : ZoneEnv
zone_env zs (insert_zone id) = exists (has_id id) zs
zone_env zs _ = false

abbrev zone : Zone
zone = record { id = "zone_1"; org_id = "o1"; name = "Shop"; mode = live; metadata = some [] }

abbrev no_zones : ZoneStore
no_zones = record { zones = []; by_id = []; by_org = [] }

abbrev with_zone : ZoneStore
with_zone = record no_zones { zones = zone ∷ [] }

zone_env-IsKeyed : IsKeyed zone_env
zone_env-IsKeyed = record { keyed = λ zs id there. there; reads = λ _. refl; lists = λ _. refl }

reach : Reach zone_env with_zone
unfolding create
reach = created {s = no_zones} zone empty

cache_unseen_example :
    ((get_by_id zone_env "zone_1" with_zone).0 ≡ done (some zone))
    × ((list_by_org_id zone_env "o1" with_zone).0 ≡ done (zone ∷ []))
cache_unseen_example = cache_unseen zone_env with_zone "zone_1" "o1" zone_env-IsKeyed reach

-- ===== src/Zones.antt =====
-- internal/zone: zones, their repository, its cache in Redis and the service. The templates, which
-- only call other services, and the times of a zone are not modelled.
mod Rows
mod Entries
pub mod Coherence
use fintech_ecosystem.Base.{
  ℕ, suc, String, ◌<>◌, Bool, true, false, not, Option, none, some, List, [], ◌∷◌, ◌++◌, find,
  select, exists, update, delete, str_eq, if◌then◌else◌,
}
use mathlib.Core.List.{reverse}

pub data Mode : Type 0 where
  test live : Mode

-- The metadata as a map of Go; `none` is nil, which is stored as the JSON null.
abbrev pub Metadata : Type 0
Metadata = Option (List (String × String))

pub record Zone : Type 0 where
  pub id : String
  pub org_id : String
  pub name : String
  pub mode : Mode
  pub metadata : Metadata

pub data ZoneStatement : Type 0 where
  -- with the id of the row
  insert_zone : String → ZoneStatement
  read_zone list_zones update_zone delete_zone : ZoneStatement

-- The table in the order of creation, and what Redis holds: zones by id, lists by organization.
pub record ZoneStore : Type 0 where
  pub zones : List Zone
  pub by_id : List (String × Zone)
  pub by_org : List (String × List Zone)

-- Which statements the database refuses.
abbrev pub ZoneEnv : Type 0
ZoneEnv = List Zone → ZoneStatement → Bool

pub data ZoneResult (A : Type 0) : Type 0 where
  done : A → ZoneResult A
  failed : String → ZoneResult A

abbrev pub has_id : String → Zone → Bool
has_id id z = str_eq z.id id

abbrev pub is_org : String → Zone → Bool
is_org org z = str_eq z.org_id org

abbrev pub of_org : String → List Zone → List Zone
of_org org zones = reverse (select (is_org org) zones)

-- An entry of the cache under another key.
abbrev pub is_key : {A : Type 0} → String → String × A → Bool
is_key key (k, _) = str_eq k key

abbrev pub forget_org : Option Zone → List (String × List Zone) → List (String × List Zone)
forget_org none entries = entries
forget_org (some z) entries = delete (is_key z.org_id) entries

-- `SQLRepository.GetByID` where a zone that could not be read is none
abbrev pub read_or_none : ZoneEnv → String → List Zone → Option Zone
read_or_none refuses id zones = if refuses zones read_zone then none else find (has_id id) zones

-- `CachedRepository.Create`
unfoldable pub create : ZoneEnv → Zone → ZoneStore → Option String × ZoneStore
create refuses z s =
    if refuses s.zones (insert_zone z.id)
    then (some "failed to create zone", s)
    else (none, record s { zones = s.zones ++ z ∷ []; by_org = delete (is_key z.org_id) s.by_org })

abbrev pub remember_zone : String → ZoneStore → Option Zone → ZoneResult (Option Zone) × ZoneStore
remember_zone id s none = (done none, s)
remember_zone id s (some z) = (done (some z), record s { by_id = (id, z) ∷ s.by_id })

abbrev pub zone_hit :
    ZoneEnv → String → ZoneStore → Option (String × Zone) → ZoneResult (Option Zone) × ZoneStore
zone_hit refuses id s (some (_, z)) = (done (some z), s)
zone_hit refuses id s none =
    if refuses s.zones read_zone
    then (failed "failed to get zone", s)
    else remember_zone id s (find (has_id id) s.zones)

-- `CachedRepository.GetByID`
unfoldable pub get_by_id : ZoneEnv → String → ZoneStore → ZoneResult (Option Zone) × ZoneStore
get_by_id refuses id s = zone_hit refuses id s (find (is_key id) s.by_id)

-- A list of no zones is nil, and is not kept.
abbrev pub remember_list : String → ZoneStore → List Zone → ZoneResult (List Zone) × ZoneStore
remember_list org s [] = (done [], s)
remember_list org s (z ∷ zs) = (done (z ∷ zs), record s { by_org = (org, z ∷ zs) ∷ s.by_org })

abbrev pub list_hit :
    ZoneEnv → String → ZoneStore → Option (String × List Zone) → ZoneResult (List Zone) × ZoneStore
list_hit refuses org s (some (_, zs)) = (done zs, s)
list_hit refuses org s none =
    if refuses s.zones list_zones
    then (failed "failed to list zones", s)
    else remember_list org s (of_org org s.zones)

-- `CachedRepository.ListByOrgID`
unfoldable pub list_by_org_id : ZoneEnv → String → ZoneStore → ZoneResult (List Zone) × ZoneStore
list_by_org_id refuses org s = list_hit refuses org s (find (is_key org) s.by_org)

-- `metadata || $2` of two objects: the new pairs, and the old ones with other keys.
abbrev pub merge_pairs : List (String × String) → List (String × String) → List (String × String)
merge_pairs old [] = old
merge_pairs old ((key, value) ∷ new) = (key, value) ∷ delete (is_key key) (merge_pairs old new)

-- `metadata || $2` as it is read back: where one side is not an object the database makes an array,
-- which no later update makes an object again, and which is read as nil.
abbrev pub merge : Metadata → Metadata → Metadata
merge (some old) (some new) = some (merge_pairs old new)
merge _ _ = none

abbrev pub merged : Metadata → Zone → Zone
merged new z = record z { metadata = merge z.metadata new }

-- `CachedRepository.UpdateMetadata`
unfoldable pub update_metadata : ZoneEnv → String → Metadata → ZoneStore → Option String × ZoneStore
update_metadata refuses id new s =
    if refuses s.zones update_zone then (some "failed to update zone metadata", s) else (
      none,
      let zones = update (has_id id) (merged new) s.zones in
          record {
            zones = zones;
            by_id = delete (is_key id) s.by_id;
            by_org = forget_org (read_or_none refuses id zones) s.by_org;
          },
    )

-- `CachedRepository.Delete`
unfoldable pub delete_zone_of : ZoneEnv → String → ZoneStore → Option String × ZoneStore
delete_zone_of refuses id s =
    if refuses s.zones delete_zone
    then (some "failed to delete zone", s)
    else (if exists (has_id id) s.zones
        then (
          none,
          record {
            zones = delete (has_id id) s.zones;
            by_id = delete (is_key id) s.by_id;
            by_org = forget_org (read_or_none refuses id s.zones) s.by_org;
          },
        )
        else (some "zone not found", s))

pub record CreateZoneParams : Type 0 where
  pub org_id : String
  pub name : String
  pub mode : Option Mode
  pub metadata : Metadata

abbrev pub or_test : Option Mode → Mode
or_test none = test
or_test (some m) = m

abbrev pub made_zone : Zone → Option String × ZoneStore → ZoneResult Zone × ZoneStore
made_zone z (none, s) = (done z, s)
made_zone z (some text, s) = (failed ("failed to create zone: " <> text), s)

abbrev pub zone_of : String → CreateZoneParams → Zone
zone_of uuid p = record {
  id = "zone_" <> uuid;
  org_id = p.org_id;
  name = p.name;
  mode = or_test p.mode;
  metadata = p.metadata;
}

-- `Service.CreateZone` without its template, with the next UUID less its dashes
unfoldable pub create_zone :
    ZoneEnv → String → CreateZoneParams → ZoneStore → ZoneResult Zone × ZoneStore
create_zone refuses uuid p s =
    if str_eq p.org_id ""
    then (failed "org_id is required", s)
    else (if str_eq p.name ""
        then (failed "name is required", s)
        else made_zone (zone_of uuid p) (create refuses (zone_of uuid p) s))

-- `Service.BulkUpdateMetadata`
abbrev pub count_one : Option String → ℕ → ℕ
count_one none n = suc n
count_one (some text) n = n

unfoldable pub bulk_update_metadata : ZoneEnv → List String → Metadata → ZoneStore → ℕ × ZoneStore
bulk_update_metadata refuses [] new s = (0, s)
bulk_update_metadata refuses (id ∷ ids) new s =
    let (e, s1) = update_metadata refuses id new s in
    let (n, s2) = bulk_update_metadata refuses ids new s1 in (count_one e n, s2)

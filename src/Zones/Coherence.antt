-- ===== src/Zones/Coherence.antt =====
-- The cache of zones agrees with the table (internal/zone/infrastructure/cached_repository.go).
use fintech_ecosystem.Base.{
  String, ◌≡◌, refl, ap, inl, inr, Bool, true, false, some, List, [], ◌∷◌, ◌++◌, find, exists,
  update, delete, Bool-cases, Option-cases, arith,
}
use fintech_ecosystem.Zones.{
  Metadata, Zone, insert_zone, read_zone, list_zones, update_zone, delete_zone, ZoneEnv, ZoneStore,
  done, has_id, of_org, is_key, create, get_by_id, list_by_org_id, remember_list, merged,
  update_metadata, delete_zone_of,
}
use fintech_ecosystem.Zones.Entries.{
  ById, ByOrg, find-All, ById-delete, ByOrg-delete, ById-append, delete-All,
}
use fintech_ecosystem.Zones.Rows.{
  AreUnique, update-none, select-update, select-delete, find-update, find-delete, update-AreUnique,
  delete-AreUnique, append-AreUnique, select-append, find-changed, find-exists,
}

pub record IsCoherent (s : ZoneStore) : Type 0 where
  pub unique : AreUnique s.zones
  pub zones_agree : ById s.zones s.by_id
  pub lists_agree : ByOrg s.zones s.by_org

-- The database knows the primary key, and answers the reads of zones and lists.
pub record IsKeyed (refuses : ZoneEnv) : Type 0 where
  pub keyed :
      (zs : List Zone) (id : String)
      → exists (has_id id) zs ≡ true
      → refuses zs (insert_zone id) ≡ true
  pub reads : (zs : List Zone) → refuses zs read_zone ≡ false
  pub lists : (zs : List Zone) → refuses zs list_zones ≡ false

create-IsCoherent :
    (refuses : ZoneEnv) (z : Zone) (s : ZoneStore)
    → IsKeyed refuses
    → IsCoherent s
    → IsCoherent (create refuses z s).1
unfolding create
create-IsCoherent refuses z s env ok = elim (Bool-cases (refuses s.zones (insert_zone z.id))) [
  | inl refused ↦ rw refused ok
  | inr taken ↦
      let absent : exists (has_id z.id) s.zones ≡ false =
        ground (arith, taken, env.keyed s.zones z.id) in
      rw taken (record {
        unique = append-AreUnique s.zones z ok.unique absent;
        zones_agree = ById-append s.zones z s.by_id ok.zones_agree;
        lists_agree =
            ByOrg-delete z.org_id s.zones (s.zones ++ z ∷ []) s.by_org
              (λ org other. select-append org s.zones z other) ok.lists_agree;
      })
]

get_by_id-IsCoherent :
    (refuses : ZoneEnv) (id : String) (s : ZoneStore)
    → IsKeyed refuses
    → IsCoherent s
    → IsCoherent (get_by_id refuses id s).1
      × ((get_by_id refuses id s).0 ≡ done (find (has_id id) s.zones))
unfolding get_by_id
get_by_id-IsCoherent refuses id s env ok = elim (Option-cases (find (is_key id) s.by_id)) [
  | inr (e, hit) ↦
      let (agrees, named) =
        find-All (λ e. find (has_id e.0) s.zones ≡ some e.1) id s.by_id {e = e} ok.zones_agree
          hit in
      let there : find (has_id id) s.zones ≡ some e.1 = rw named at agrees in
      (rw hit ok, rw (hit, there) refl)
  | inl miss ↦ elim (Option-cases (find (has_id id) s.zones)) [
    | inl nobody ↦
        (rw (miss, env.reads s.zones, nobody) ok, rw (miss, env.reads s.zones, nobody) refl)
    | inr (z, found) ↦ (
      rw (miss, env.reads s.zones, found)
          (record {
            unique = ok.unique;
            zones_agree = (found, ok.zones_agree);
            lists_agree = ok.lists_agree;
          }),
      rw (miss, env.reads s.zones, found) refl,
    )
  ]
]

remember_list-IsCoherent :
    (org : String) (s : ZoneStore) (zs : List Zone)
    → zs ≡ of_org org s.zones
    → IsCoherent s
    → IsCoherent (remember_list org s zs).1 × ((remember_list org s zs).0 ≡ done zs)
remember_list-IsCoherent org s [] same ok = (ok, refl)
remember_list-IsCoherent org s (z ∷ zs) same ok = (
  record { unique = ok.unique; zones_agree = ok.zones_agree; lists_agree = (same, ok.lists_agree) },
  refl,
)

list_by_org_id-IsCoherent :
    (refuses : ZoneEnv) (org : String) (s : ZoneStore)
    → IsKeyed refuses
    → IsCoherent s
    → IsCoherent (list_by_org_id refuses org s).1
      × ((list_by_org_id refuses org s).0 ≡ done (of_org org s.zones))
unfolding list_by_org_id
list_by_org_id-IsCoherent refuses org s env ok = elim (Option-cases (find (is_key org) s.by_org)) [
  | inr (e, hit) ↦
      let (agrees, named) =
        find-All (λ e. e.1 ≡ of_org e.0 s.zones) org s.by_org {e = e} ok.lists_agree hit in
      (rw hit ok, rw hit (ap done (rw named at agrees)))
  | inl miss ↦
      rw (miss, env.lists s.zones) (remember_list-IsCoherent org s (of_org org s.zones) refl ok)
]

update_metadata-IsCoherent :
    (refuses : ZoneEnv) (id : String) (new : Metadata) (s : ZoneStore)
    → IsKeyed refuses
    → IsCoherent s
    → IsCoherent (update_metadata refuses id new s).1
unfolding update_metadata
update_metadata-IsCoherent refuses id new s env ok =
    let zones = update (has_id id) (merged new) s.zones in
    let by_id =
      ById-delete id s.zones zones s.by_id
        (λ key z other found. find-update id key new s.zones z other found) ok.zones_agree in
    elim (Bool-cases (refuses s.zones update_zone)) [
      | inl refused ↦ rw refused ok
      | inr taken ↦ elim (Option-cases (find (has_id id) s.zones)) [
        | inl nobody ↦
            let same : zones ≡ s.zones =
              update-none id (merged new) s.zones (find-exists id s.zones nobody) in
            rw (taken, env.reads zones, same, nobody)
              (record {
                unique = ok.unique;
                zones_agree = rw same at by_id;
                lists_agree = ok.lists_agree;
              })
        | inr (z, found) ↦
            rw (taken, env.reads zones, find-changed id new s.zones z found)
              (record {
                unique = update-AreUnique id new s.zones ok.unique;
                zones_agree = by_id;
                lists_agree =
                    ByOrg-delete z.org_id s.zones zones s.by_org
                      (λ org other. select-update id org new s.zones z ok.unique found other)
                      ok.lists_agree;
              })
      ]
    ]

delete_zone_of-IsCoherent :
    (refuses : ZoneEnv) (id : String) (s : ZoneStore)
    → IsKeyed refuses
    → IsCoherent s
    → IsCoherent (delete_zone_of refuses id s).1
unfolding delete_zone_of
delete_zone_of-IsCoherent refuses id s env ok = elim (Bool-cases (refuses s.zones delete_zone)) [
  | inl refused ↦ rw refused ok
  | inr taken ↦ elim (Bool-cases (exists (has_id id) s.zones)) [
    | inr absent ↦ rw (taken, absent) ok
    | inl present ↦ elim (Option-cases (find (has_id id) s.zones)) [
      | inl nobody ↦ absurd (ground (arith, present, find-exists id s.zones nobody))
      | inr (z, found) ↦
          let zones = delete (has_id id) s.zones in
          rw (taken, present, env.reads s.zones, found)
            (record {
              unique = delete-AreUnique id s.zones ok.unique;
              zones_agree =
                  ById-delete id s.zones zones s.by_id
                    (λ key x other there. find-delete id key s.zones x other there) ok.zones_agree;
              lists_agree =
                  ByOrg-delete z.org_id s.zones zones s.by_org
                    (λ org other. select-delete id org s.zones z ok.unique found other)
                    ok.lists_agree;
            })
    ]
  ]
]

-- The stores that calls of the repository reach from an empty one, one after the other; entries of
-- the cache end at any time.
pub data Reach (refuses : ZoneEnv) : ZoneStore → Type 0 where
  empty : Reach refuses (record { zones = []; by_id = []; by_org = [] })
  created : {s : ZoneStore} (z : Zone) → Reach refuses s → Reach refuses (create refuses z s).1
  got : {s : ZoneStore} (id : String) → Reach refuses s → Reach refuses (get_by_id refuses id s).1
  listed :
      {s : ZoneStore} (org : String)
      → Reach refuses s
      → Reach refuses (list_by_org_id refuses org s).1
  updated :
      {s : ZoneStore} (id : String) (new : Metadata)
      → Reach refuses s
      → Reach refuses (update_metadata refuses id new s).1
  deleted :
      {s : ZoneStore} (id : String)
      → Reach refuses s
      → Reach refuses (delete_zone_of refuses id s).1
  expired :
      {s : ZoneStore} (p : String × Zone → Bool) (q : String × List Zone → Bool)
      → Reach refuses s
      → Reach refuses (record s { by_id = delete p s.by_id; by_org = delete q s.by_org })

Reach-IsCoherent :
    (refuses : ZoneEnv) {s : ZoneStore} → IsKeyed refuses → Reach refuses s → IsCoherent s
Reach-IsCoherent refuses {s} env empty = record { unique = tt; zones_agree = tt; lists_agree = tt }
Reach-IsCoherent refuses {s} env (created z before) =
    create-IsCoherent refuses z _ env (Reach-IsCoherent refuses env before)
Reach-IsCoherent refuses {s} env (got id before) =
    (get_by_id-IsCoherent refuses id _ env (Reach-IsCoherent refuses env before)).0
Reach-IsCoherent refuses {s} env (listed org before) =
    (list_by_org_id-IsCoherent refuses org _ env (Reach-IsCoherent refuses env before)).0
Reach-IsCoherent refuses {s} env (updated id new before) =
    update_metadata-IsCoherent refuses id new _ env (Reach-IsCoherent refuses env before)
Reach-IsCoherent refuses {s} env (deleted id before) =
    delete_zone_of-IsCoherent refuses id _ env (Reach-IsCoherent refuses env before)
Reach-IsCoherent refuses {s} env (expired {s = t} p q before) =
    let ok = Reach-IsCoherent refuses env before in
    record {
      unique = ok.unique;
      zones_agree = delete-All (λ e. find (has_id e.0) t.zones ≡ some e.1) p t.by_id ok.zones_agree;
      lists_agree = delete-All (λ e. e.1 ≡ of_org e.0 t.zones) q t.by_org ok.lists_agree;
    }

-- The cache cannot be seen: after any calls of the cached repository, one after the other, with
-- refused writes and with entries that end at any time, a zone and the list of an organization are
-- answered as the table has them. The database keeps ids unique and answers the reads: a
-- read that fails behind an update leaves an old list in the cache.
pub cache_unseen :
    (refuses : ZoneEnv) (s : ZoneStore) (id org : String)
    → IsKeyed refuses
    → Reach refuses s
    → ((get_by_id refuses id s).0 ≡ done (find (has_id id) s.zones))
      × ((list_by_org_id refuses org s).0 ≡ done (of_org org s.zones))
cache_unseen refuses s id org env reach =
    let ok = Reach-IsCoherent refuses env reach in
    (
      (get_by_id-IsCoherent refuses id s env ok).1,
      (list_by_org_id-IsCoherent refuses org s env ok).1,
    )

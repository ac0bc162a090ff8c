-- ===== src/Zones/Rows.antt =====
-- Rows of the table of zones, for the proofs in `Coherence`.
use fintech_ecosystem.Base.{
  String, ◌≡◌, refl, sym, ◌∙◌, subst, inl, inr, false, none, some, List, [], ◌∷◌, ◌++◌, find,
  select, exists, update, delete, str_eq, eq_iff, Bool-cases, arith,
}
use fintech_ecosystem.Zones.{Metadata, Zone, has_id, is_org, merged}

-- Ids are unique, as the primary key says.
abbrev pub AreUnique : List Zone → Type 0
AreUnique [] = Unit
AreUnique (z ∷ zs) = (exists (has_id z.id) zs ≡ false) × AreUnique zs

pub update-none :
    (id : String) (f : Zone → Zone) (zs : List Zone)
    → exists (has_id id) zs ≡ false
    → update (has_id id) f zs ≡ zs
update-none id f [] h = refl
update-none id f (z ∷ zs) h = ground (arith, h, update-none id f zs)

delete-none :
    (id : String) (zs : List Zone) → exists (has_id id) zs ≡ false → delete (has_id id) zs ≡ zs
delete-none id [] h = refl
delete-none id (z ∷ zs) h = ground (arith, h, delete-none id zs)

-- Another organization's zones stay as they are, where the zone of an id changes or goes.
pub select-update :
    (id org : String) (new : Metadata) (zs : List Zone) (z : Zone)
    → AreUnique zs
    → find (has_id id) zs ≡ some z
    → str_eq z.org_id org ≡ false
    → select (is_org org) (update (has_id id) (merged new) zs) ≡ select (is_org org) zs
select-update id org new [] z unique found other = refl
select-update id org new (x ∷ zs) z (single, unique) found other =
    elim (Bool-cases (str_eq x.id id)) [
      | inl hit ↦
          let same : x.id ≡ id = ground (arith, hit, eq_iff x.id id) in
          let gone : exists (has_id id) zs ≡ false = rw same at single in
          ground (arith, hit, found, other, update-none id (merged new) zs gone)
      | inr miss ↦
          let later : find (has_id id) zs ≡ some z = ground (arith, miss, found) in
          ground (arith, miss, select-update id org new zs z unique later other)
    ]

pub select-delete :
    (id org : String) (zs : List Zone) (z : Zone)
    → AreUnique zs
    → find (has_id id) zs ≡ some z
    → str_eq z.org_id org ≡ false
    → select (is_org org) (delete (has_id id) zs) ≡ select (is_org org) zs
select-delete id org [] z unique found other = refl
select-delete id org (x ∷ zs) z (single, unique) found other = elim (Bool-cases (str_eq x.id id)) [
  | inl hit ↦
      let same : x.id ≡ id = ground (arith, hit, eq_iff x.id id) in
      let gone : exists (has_id id) zs ≡ false = rw same at single in
      ground (arith, hit, found, other, delete-none id zs gone)
  | inr miss ↦
      let later : find (has_id id) zs ≡ some z = ground (arith, miss, found) in
      ground (arith, miss, select-delete id org zs z unique later other)
]

pub find-update :
    (id key : String) (new : Metadata) (zs : List Zone) (z : Zone)
    → str_eq key id ≡ false
    → find (has_id key) zs ≡ some z
    → find (has_id key) (update (has_id id) (merged new) zs) ≡ some z
find-update id key new [] z other found = absurd (ground (arith, found))
find-update id key new (x ∷ zs) z other found = ground (
  arith,
  other,
  found,
  eq_iff x.id key,
  eq_iff x.id id,
  eq_iff key id,
  find-update id key new zs z other,
)

pub find-delete :
    (id key : String) (zs : List Zone) (z : Zone)
    → str_eq key id ≡ false
    → find (has_id key) zs ≡ some z
    → find (has_id key) (delete (has_id id) zs) ≡ some z
find-delete id key [] z other found = absurd (ground (arith, found))
find-delete id key (x ∷ zs) z other found = ground (
  arith,
  other,
  found,
  eq_iff x.id key,
  eq_iff x.id id,
  eq_iff key id,
  find-delete id key zs z other,
)

pub find-front :
    (key : String) (zs : List Zone) (x z : Zone)
    → find (has_id key) zs ≡ some z
    → find (has_id key) (zs ++ x ∷ []) ≡ some z
find-front key [] x z found = absurd (ground (arith, found))
find-front key (y ∷ zs) x z found = ground (arith, found, find-front key zs x z)

exists-update :
    (id key : String) (new : Metadata) (zs : List Zone)
    → exists (has_id key) (update (has_id id) (merged new) zs) ≡ exists (has_id key) zs
exists-update id key new [] = refl
exists-update id key new (z ∷ zs) = ground (arith, exists-update id key new zs)

exists-delete :
    (id key : String) (zs : List Zone)
    → exists (has_id key) zs ≡ false
    → exists (has_id key) (delete (has_id id) zs) ≡ false
exists-delete id key [] absent = refl
exists-delete id key (z ∷ zs) absent = ground (arith, absent, exists-delete id key zs)

pub update-AreUnique :
    (id : String) (new : Metadata) (zs : List Zone)
    → AreUnique zs
    → AreUnique (update (has_id id) (merged new) zs)
update-AreUnique id new [] unique = tt
update-AreUnique id new (z ∷ zs) (single, unique) =
    let still = exists-update id z.id new zs ∙ single in
    let rest = update-AreUnique id new zs unique in
    elim (Bool-cases (str_eq z.id id)) [
      | inl hit ↦
          let shape : update (has_id id) (merged new) (z ∷ zs)
              ≡ merged new z ∷ update (has_id id) (merged new) zs =
            ground (arith, hit) in
          subst AreUnique (sym shape) (still, rest)
      | inr miss ↦
          let shape : update (has_id id) (merged new) (z ∷ zs)
              ≡ z ∷ update (has_id id) (merged new) zs =
            ground (arith, miss) in
          subst AreUnique (sym shape) (still, rest)
    ]

pub delete-AreUnique :
    (id : String) (zs : List Zone) → AreUnique zs → AreUnique (delete (has_id id) zs)
delete-AreUnique id [] unique = tt
delete-AreUnique id (z ∷ zs) (single, unique) =
    let rest = delete-AreUnique id zs unique in
    elim (Bool-cases (str_eq z.id id)) [
      | inl hit ↦
          let shape : delete (has_id id) (z ∷ zs) ≡ delete (has_id id) zs = ground (arith, hit) in
          subst AreUnique (sym shape) rest
      | inr miss ↦
          let shape : delete (has_id id) (z ∷ zs) ≡ z ∷ delete (has_id id) zs =
            ground (arith, miss) in
          subst AreUnique (sym shape) (exists-delete id z.id zs single, rest)
    ]

pub append-AreUnique :
    (zs : List Zone) (z : Zone)
    → AreUnique zs
    → exists (has_id z.id) zs ≡ false
    → AreUnique (zs ++ z ∷ [])
append-AreUnique [] z unique absent = (refl, tt)
append-AreUnique (x ∷ zs) z (single, unique) absent = (
  apart x zs single (ground (arith, absent, eq_iff x.id z.id, eq_iff z.id x.id)),
  append-AreUnique zs z unique (ground (arith, absent)),
)
  where
    apart :
        (x : Zone) (ys : List Zone)
        → exists (has_id x.id) ys ≡ false
        → str_eq z.id x.id ≡ false
        → exists (has_id x.id) (ys ++ z ∷ []) ≡ false
    apart x [] single other = ground (arith, other)
    apart x (y ∷ ys) single other = ground (arith, single, apart x ys, other)

pub select-append :
    (org : String) (zs : List Zone) (z : Zone)
    → str_eq z.org_id org ≡ false
    → select (is_org org) (zs ++ z ∷ []) ≡ select (is_org org) zs
select-append org [] z other = ground (arith, other)
select-append org (x ∷ zs) z other = ground (arith, select-append org zs z other)

pub find-changed :
    (id : String) (new : Metadata) (zs : List Zone) (z : Zone)
    → find (has_id id) zs ≡ some z
    → find (has_id id) (update (has_id id) (merged new) zs) ≡ some (merged new z)
find-changed id new [] z found = absurd (ground (arith, found))
find-changed id new (x ∷ zs) z found = ground (arith, found, find-changed id new zs z)

pub find-exists :
    (id : String) (zs : List Zone) → find (has_id id) zs ≡ none → exists (has_id id) zs ≡ false
find-exists id [] absent = refl
find-exists id (x ∷ zs) absent = ground (arith, absent, find-exists id zs)

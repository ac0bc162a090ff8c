-- ===== src/Zones/Entries.antt =====
-- Entries of the cache of zones, for the proofs in `Coherence`.
use fintech_ecosystem.Base.{
  String, ◌≡◌, sym, ◌∙◌, ap, subst, inl, inr, Bool, false, some, List, [], ◌∷◌, ◌++◌, find, select,
  delete, All, str_eq, eq_iff, Bool-cases, arith,
}
use mathlib.Core.List.{reverse}
use fintech_ecosystem.Zones.{Zone, has_id, is_org, of_org, is_key}
use fintech_ecosystem.Zones.Rows.{find-front}

abbrev pub ById : List Zone → List (String × Zone) → Type 0
ById zones = All (λ (e : String × Zone). find (has_id e.0) zones ≡ some e.1)

abbrev pub ByOrg : List Zone → List (String × List Zone) → Type 0
ByOrg zones = All (λ (e : String × List Zone). e.1 ≡ of_org e.0 zones)

pub find-All :
    {A : Type 0} (P : String × A → Type 0) (key : String) (es : List (String × A)) {e : String × A}
    → All P es
    → find (is_key key) es ≡ some e
    → P e × (e.0 ≡ key)
find-All P key [] {e} all h = absurd (ground (arith, h))
find-All P key ((k, a) ∷ es) {e} (here, there) h = elim (Bool-cases (str_eq k key)) [
  | inl hit ↦
      let at : (k, a) ≡ e = ground (arith, h, hit) in
      (subst P at here, rw (← at) (ground (arith, hit, eq_iff k key)))
  | inr miss ↦ find-All P key es {e = e} there (ground (arith, h, miss))
]

-- What is left of the cache when an entry is dropped, by how the table changed for the others.
pub ById-delete :
    (id : String) (before after : List Zone) (es : List (String × Zone))
    → ((key : String) (z : Zone)
        → str_eq key id ≡ false
        → find (has_id key) before ≡ some z
        → find (has_id key) after ≡ some z)
    → ById before es
    → ById after (delete (is_key id) es)
ById-delete id before after [] keeps all = tt
ById-delete id before after ((k, z) ∷ es) keeps (here, there) = elim (Bool-cases (str_eq k id)) [
  | inl hit ↦
      let gone : delete (is_key id) ((k, z) ∷ es) ≡ delete (is_key id) es = ground (arith, hit) in
      rw gone (ById-delete id before after es keeps there)
  | inr miss ↦
      let left : delete (is_key id) ((k, z) ∷ es) ≡ (k, z) ∷ delete (is_key id) es =
        ground (arith, miss) in
      rw left (keeps k z miss here, ById-delete id before after es keeps there)
]

pub ByOrg-delete :
    (org : String) (before after : List Zone) (es : List (String × List Zone))
    → ((key : String)
        → str_eq org key ≡ false
        → select (is_org key) after ≡ select (is_org key) before)
    → ByOrg before es
    → ByOrg after (delete (is_key org) es)
ByOrg-delete org before after [] keeps all = tt
ByOrg-delete org before after ((k, zs) ∷ es) keeps (here, there) =
    elim (Bool-cases (str_eq k org)) [
      | inl hit ↦
          let gone : delete (is_key org) ((k, zs) ∷ es) ≡ delete (is_key org) es =
            ground (arith, hit) in
          rw gone (ByOrg-delete org before after es keeps there)
      | inr miss ↦
          let left : delete (is_key org) ((k, zs) ∷ es) ≡ (k, zs) ∷ delete (is_key org) es =
            ground (arith, miss) in
          let apart : str_eq org k ≡ false = ground (arith, miss, eq_iff k org, eq_iff org k) in
          rw left
            (here ∙ ap reverse (sym (keeps k apart)), ByOrg-delete org before after es keeps there)
    ]

pub ById-append :
    (zs : List Zone) (z : Zone) (es : List (String × Zone)) → ById zs es → ById (zs ++ z ∷ []) es
ById-append zs z [] all = tt
ById-append zs z ((k, x) ∷ es) (here, there) = (find-front k zs z x here, ById-append zs z es there)

pub delete-All :
    {A : Type 0} (P : String × A → Type 0) (p : String × A → Bool) (es : List (String × A))
    → All P es
    → All P (delete p es)
delete-All P p [] all = tt
delete-All P p (e ∷ es) (here, there) = elim (Bool-cases (p e)) [
  | inl gone ↦
      let shape : delete p (e ∷ es) ≡ delete p es = ground (arith, gone) in
      rw shape (delete-All P p es there)
  | inr stays ↦
      let shape : delete p (e ∷ es) ≡ e ∷ delete p es = ground (arith, stays) in
      rw shape (here, delete-All P p es there)
]

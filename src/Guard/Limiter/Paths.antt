-- ===== src/Guard/Limiter/Paths.antt =====
-- The path patterns of pkg/ratelimit/tenant.go (`matchPath`).
use fintech_ecosystem.Base.{
  ℕ, ◌≡◌, refl, true, some, List, [], ◌∷◌, ◌++◌, Bool-cases, inl, inr, arith,
}
use fintech_ecosystem.Guard.Limiter.{bytes_eq, is_prefix, trim_star, match_path}

trim_star-append : (stem : List ℕ) → trim_star (stem ++ b'*' ∷ []) ≡ some stem
trim_star-append [] = refl
trim_star-append (x ∷ []) = refl
trim_star-append (x ∷ y ∷ ys) = rw (trim_star-append (y ∷ ys)) refl

bytes_eq-is_prefix :
    (stem path : List ℕ) → bytes_eq (stem ++ b'*' ∷ []) path ≡ true → is_prefix stem path ≡ true
bytes_eq-is_prefix [] path h = refl
bytes_eq-is_prefix (x ∷ xs) [] h = h
bytes_eq-is_prefix (x ∷ xs) (y ∷ ys) h = ground (arith, bytes_eq-is_prefix xs ys)

-- A pattern that ends in '*' matches exactly the paths that begin with what stands before the '*'.
pub match_path_star :
    (stem path : List ℕ) → match_path (stem ++ b'*' ∷ []) path ≡ is_prefix stem path
unfolding match_path
match_path_star stem path = elim (Bool-cases (bytes_eq (stem ++ b'*' ∷ []) path)) [
  | inl e ↦ rw (e, bytes_eq-is_prefix stem path e) refl
  | inr e ↦ rw (e, trim_star-append stem) refl
]

-- ===== src/Files/Paths.antt =====
-- Paths as their components, and finite maps from paths.
use keyvisor.Prelude.{
  ◌≡◌, refl, subst, ◌↔◌, Bool, true, false, ◌&&◌, Option, none, some, List, [], ◌∷◌, arith,
  if◌then◌else◌, bytes_eq, bytes_eq_sound, bytes_eq_refl,
}
use keyvisor.Wire.Endian.{Bytes}

abbrev pub FilePath : Type 0
FilePath = List Bytes

unfoldable pub path_eq : FilePath → FilePath → Bool
path_eq [] [] = true
path_eq [] (b ∷ q) = false
path_eq (a ∷ p) [] = false
path_eq (a ∷ p) (b ∷ q) = bytes_eq a b && path_eq p q

path_eq_sound : (p q : FilePath) → path_eq p q ≡ true → p ≡ q
unfolding path_eq
path_eq_sound [] [] h = refl
path_eq_sound [] (b ∷ q) h = cc
path_eq_sound (a ∷ p) [] h = cc
path_eq_sound (a ∷ p) (b ∷ q) h = ground (arith, bytes_eq_sound a b, path_eq_sound p q)

path_eq_refl : (p : FilePath) → path_eq p p ≡ true
unfolding path_eq
path_eq_refl [] = refl
path_eq_refl (a ∷ p) = ground (arith, bytes_eq_refl a, path_eq_refl p)

pub path_eq_iff : (p q : FilePath) → (path_eq p q ≡ true) ↔ (p ≡ q)
path_eq_iff p q = (path_eq_sound p q, λ e. subst (λ r. path_eq p r ≡ true) e (path_eq_refl p))

module _ {ℓ} {A : Type ℓ} where
  unfoldable pub lookup : FilePath → List (FilePath × A) → Option A
  lookup q [] = none
  lookup q ((p, a) ∷ m) = if path_eq p q then some a else lookup q m

  unfoldable pub remove : FilePath → List (FilePath × A) → List (FilePath × A)
  remove q [] = []
  remove q ((p, a) ∷ m) = let rest = remove q m in if path_eq p q then rest else (p, a) ∷ rest

  unfoldable pub insert : FilePath → A → List (FilePath × A) → List (FilePath × A)
  insert q a m = (q, a) ∷ remove q m

  pub lookup-remove :
      (q r : FilePath) (m : List (FilePath × A))
      → lookup r (remove q m) ≡ (if path_eq q r then none else lookup r m)
  unfolding lookup remove
  lookup-remove q r [] = ground arith
  lookup-remove q r ((p, a) ∷ m) =
      ground (arith, lookup-remove q r m, path_eq_iff p q, path_eq_iff p r, path_eq_iff q r)

  pub lookup-insert :
      (q r : FilePath) (a : A) (m : List (FilePath × A))
      → lookup r (insert q a m) ≡ (if path_eq q r then some a else lookup r m)
  unfolding insert lookup
  lookup-insert q r a m = ground (arith, lookup-remove q r m)

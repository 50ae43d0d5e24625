-- ===== src/Base/Sort.antt =====
-- Stable sorting by a numeric key, as `sort.SliceStable` does.
use mathlib.Core.List.{Perm}
use mathlib.Core.List.Perm
use openwrt_starwatch.Base.{
  ℕ, suc, ◌≤◌, ◌≡◌, refl, Bool, List, [], ◌∷◌, ap, leb, keep, if◌then◌else◌, arith, Bool-cases, inl,
  inr, ◌∙◌, length,
}
use openwrt_starwatch.Base.Effects.{All}

module _ {ℓ} {A : Type ℓ} (key : A → ℕ) where
  unfoldable pub place : A → List A → List A
  place x [] = x ∷ []
  place x (y ∷ ys) = if leb (key x) (key y) then x ∷ y ∷ ys else y ∷ place x ys

  unfoldable pub sort_by : List A → List A
  unfolding place
  sort_by [] = []
  sort_by (x ∷ xs) = place x (sort_by xs)

  abbrev pub IsSorted : List A → Type 0
  IsSorted [] = Unit
  IsSorted (x ∷ xs) = All (λ y. key x ≤ key y) xs × IsSorted xs

  All-le : (a b : ℕ) (xs : List A) → a ≤ b → All (λ y. b ≤ key y) xs → All (λ y. a ≤ key y) xs
  All-le a b [] h k = tt
  All-le a b (x ∷ xs) h k = (omega arith, All-le a b xs h k.1)

  All-place :
      (a : ℕ) (x : A) (xs : List A)
      → a ≤ key x
      → All (λ y. a ≤ key y) xs
      → All (λ y. a ≤ key y) (place x xs)
  unfolding place
  All-place a x [] h k = (h, tt)
  All-place a x (y ∷ ys) h k = ground (arith, All-place a x ys h k.1)

  place-IsSorted : (x : A) (xs : List A) → IsSorted xs → IsSorted (place x xs)
  unfolding place
  place-IsSorted x [] h = (tt, tt)
  place-IsSorted x (y ∷ ys) h =
      ground (arith, place-IsSorted x ys h.1, All-place (key y) x ys, All-le (key x) (key y) ys)

  pub sort_by-IsSorted : (xs : List A) → IsSorted (sort_by xs)
  unfolding sort_by
  sort_by-IsSorted [] = tt
  sort_by-IsSorted (x ∷ xs) = place-IsSorted x (sort_by xs) (sort_by-IsSorted xs)

  place_first : (x : A) (xs : List A) → All (λ y. key x ≤ key y) xs → place x xs ≡ x ∷ xs
  unfolding place
  place_first x [] h = refl
  place_first x (y ∷ ys) h = ground arith

  -- Sorting leaves a sorted list as it is.
  pub sort_by_of_IsSorted : (xs : List A) → IsSorted xs → sort_by xs ≡ xs
  unfolding sort_by
  sort_by_of_IsSorted [] h = refl
  sort_by_of_IsSorted (x ∷ xs) h = ap (place x) (sort_by_of_IsSorted xs h.1) ∙ place_first x xs h.0

  place-perm : (x : A) (xs : List A) → Perm (place x xs) (x ∷ xs)
  unfolding place
  place-perm x [] = Perm.refl (x ∷ [])
  place-perm x (y ∷ ys) = elim (Bool-cases (leb (key x) (key y))) [
    | inl le ↦ rw le (Perm.refl (x ∷ y ∷ ys))
    | inr gt ↦ rw gt (Perm.trans (Perm.cons y (place-perm x ys)) (Perm.swap x y ys))
  ]

  pub sort_by-perm : (xs : List A) → Perm (sort_by xs) xs
  unfolding sort_by
  sort_by-perm [] = Perm.refl []
  sort_by-perm (x ∷ xs) = Perm.trans (place-perm x (sort_by xs)) (Perm.cons x (sort_by-perm xs))

  length-place : (x : A) (xs : List A) → length (place x xs) ≡ suc (length xs)
  unfolding place
  length-place x [] = refl
  length-place x (y ∷ ys) = ground (arith, length-place x ys)

  pub length-sort_by : (xs : List A) → length (sort_by xs) ≡ length xs
  unfolding sort_by
  length-sort_by [] = refl
  length-sort_by (x ∷ xs) = length-place x (sort_by xs) ∙ ap suc (length-sort_by xs)

  All-keep :
      (f : A → Bool) (a : ℕ) (xs : List A)
      → All (λ y. a ≤ key y) xs
      → All (λ y. a ≤ key y) (keep f xs)
  All-keep f a [] h = tt
  All-keep f a (x ∷ xs) h = ground (arith, All-keep f a xs h.1)

  pub keep-IsSorted : (f : A → Bool) (xs : List A) → IsSorted xs → IsSorted (keep f xs)
  keep-IsSorted f [] h = tt
  keep-IsSorted f (x ∷ xs) h = ground (arith, keep-IsSorted f xs h.1, All-keep f (key x) xs h.0)

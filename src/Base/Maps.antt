-- ===== src/Base/Maps.antt =====
-- Equality of keys as an instance, and Go maps as association lists. Inserting replaces the entry of
-- the key where it stands, or adds one at the end; erasing removes every entry of the key.
use text.Mathlib.Text.{◌==◌ as str_eq}
use text.Mathlib.TextEquality.{eq_iff}
use openwrt_starwatch.Base.{
  ℕ, ◌≡◌, ◌↔◌, Bool, true, false, ◌||◌, List, [], ◌∷◌, ◌++◌, Option, none, some, String, refl,
  if◌then◌else◌, arith, ==_iff, ◌==◌ as nat_beq,
}

-- A test of equality, and what it decides.
pub record Keys {ℓ} (K : Type ℓ) : Type ℓ where
  pub same : K → K → Bool
  pub test_iff : (x y : K) → (same x y ≡ true) ↔ (x ≡ y)

instance abbrev pub nat_eq : Keys ℕ
nat_eq = record { same = nat_beq; test_iff = ==_iff }

instance abbrev pub string_eq : Keys String
string_eq = record { same = str_eq; test_iff = eq_iff }

infix 50 ◌==◌
abbrev pub ◌==◌ {ℓ} : {A : Type ℓ} ⦃e : Keys A⦄ → A → A → Bool
◌==◌ ⦃e⦄ = e.same

module _ {ℓ} {A : Type ℓ} ⦃e : Keys A⦄ where
  pub ==-refl : (a : A) → (a == a) ≡ true
  ==-refl a = (e.test_iff a a).1 refl

  pub ==→≡ : (a b : A) → (a == b) ≡ true → a ≡ b
  ==→≡ a b = (e.test_iff a b).0

  pub ==-sym : (a b : A) → (a == b) ≡ (b == a)
  ==-sym a b = ground (arith, e.test_iff a b, e.test_iff b a)

module _ {κ ℓ} {K : Type κ} {V : Type ℓ} ⦃e : Keys K⦄ where
  unfoldable pub lookup : K → List (K × V) → Option V
  lookup key [] = none
  lookup key ((own, value) ∷ rest) = if own == key then some value else lookup key rest

  unfoldable pub insert : K → V → List (K × V) → List (K × V)
  insert new value [] = (new, value) ∷ []
  insert new value ((own, old) ∷ rest) =
      if own == new then (new, value) ∷ rest else (own, old) ∷ insert new value rest

  unfoldable pub erase : K → List (K × V) → List (K × V)
  erase key [] = []
  erase key ((own, value) ∷ rest) =
      if own == key then erase key rest else (own, value) ∷ erase key rest

  pub lookup-insert :
      (new key : K) (value : V) (entries : List (K × V))
      → lookup key (insert new value entries)
        ≡ (if new == key then some value else lookup key entries)
  unfolding lookup insert
  lookup-insert new key value [] = refl
  lookup-insert new key value (first ∷ entries) = ground (
    arith,
    lookup-insert new key value entries,
    e.test_iff first.0 new,
    e.test_iff first.0 key,
    e.test_iff new key,
  )

  pub lookup-erase :
      (k j : K) (m : List (K × V)) → lookup j (erase k m) ≡ (if k == j then none else lookup j m)
  unfolding lookup erase
  lookup-erase k j [] = ground arith
  lookup-erase k j ((i, w) ∷ m) =
      ground (arith, e.test_iff k j, e.test_iff i k, e.test_iff i j, lookup-erase k j m)

-- Sets of keys as lists: `contains`, `remove` and lists with no key twice.
module _ {κ} {K : Type κ} ⦃e : Keys K⦄ where
  unfoldable pub contains : List K → K → Bool
  contains [] a = false
  contains (x ∷ xs) a = x == a || contains xs a

  unfoldable pub remove : K → List K → List K
  remove a [] = []
  remove a (x ∷ xs) = if x == a then remove a xs else x ∷ remove a xs

  abbrev pub NoRepeat : List K → Type 0
  NoRepeat [] = Unit
  NoRepeat (x ∷ xs) = (contains xs x ≡ false) × NoRepeat xs

  pub contains-remove :
      (a b : K) (xs : List K) → contains (remove a xs) b ≡ (if a == b then false else contains xs b)
  unfolding contains remove
  contains-remove a b [] = ground arith
  contains-remove a b (x ∷ xs) =
      ground (arith, e.test_iff a b, e.test_iff x a, e.test_iff x b, contains-remove a b xs)

  pub remove-NoRepeat : (a : K) (xs : List K) → NoRepeat xs → NoRepeat (remove a xs)
  unfolding contains remove
  remove-NoRepeat a [] h = tt
  remove-NoRepeat a (x ∷ xs) h =
      ground
        (arith, remove-NoRepeat a xs h.1, contains-remove a x xs, e.test_iff x a, e.test_iff a x)

  pub contains-append :
      (xs ys : List K) (a : K) → contains (xs ++ ys) a ≡ (contains xs a || contains ys a)
  unfolding contains
  contains-append [] ys a = refl
  contains-append (x ∷ xs) ys a = ground (arith, contains-append xs ys a)

  pub contains-head : (a : K) (xs : List K) → contains (a ∷ xs) a ≡ true
  unfolding contains
  contains-head a xs = ground (arith, e.test_iff a a)

  pub contains-tail : (a b : K) (xs : List K) → contains xs b ≡ true → contains (a ∷ xs) b ≡ true
  unfolding contains
  contains-tail a b xs h = ground arith

  pub not_head :
      (a b : K) (xs : List K) → contains xs a ≡ false → contains xs b ≡ true → (a == b) ≡ false
  not_head a b xs n h = ground (arith, e.test_iff a b)

-- ===== src/History/Ring/Slide.antt =====
-- A window that slides over a list, and writes into an array.
use openwrt_starwatch.Base.{
  ℕ, zero, suc, ◌-◌, ◌<◌, ◌≤◌, ◌≡◌, ◌≢◌, refl, false, List, [], ◌∷◌, ◌++◌, ap, length, ltb, set,
  get_or, drop, if◌then◌else◌, arith, Bool-cases, inl, inr, length-append, length-drop,
}
use openwrt_starwatch.History.Ring.Window.{collect}

module _ {ℓ} {A : Type ℓ} where
  pub get_or-set_self :
      (xs : List A) (i : ℕ) (v d : A) → i < length xs → get_or (set xs i v) i d ≡ v
  get_or-set_self [] i v d h = absurd (omega arith)
  get_or-set_self (x ∷ xs) zero v d h = refl
  get_or-set_self (x ∷ xs) (suc i) v d h = get_or-set_self xs i v d (omega arith)

  pub get_or-set_ne :
      (xs : List A) (i j : ℕ) (v d : A) → i ≢ j → get_or (set xs i v) j d ≡ get_or xs j d
  get_or-set_ne [] i j v d h = refl
  get_or-set_ne (x ∷ xs) zero zero v d h = absurd (h refl)
  get_or-set_ne (x ∷ xs) zero (suc j) v d h = refl
  get_or-set_ne (x ∷ xs) (suc i) zero v d h = refl
  get_or-set_ne (x ∷ xs) (suc i) (suc j) v d h = get_or-set_ne xs i j v d (λ e. h (ap suc e))

  -- The last `n` items of a list.
  abbrev pub take_last : ℕ → List A → List A
  take_last n xs = drop (length xs - n) xs

  -- A sliding window of `n` items.
  abbrev pub slide : ℕ → List A → A → List A
  slide n q x = if ltb (length q) n then q ++ x ∷ [] else drop 1 (q ++ x ∷ [])

  drop-append_le : (n : ℕ) (xs ys : List A) → n ≤ length xs → drop n (xs ++ ys) ≡ drop n xs ++ ys
  drop-append_le zero xs ys h = refl
  drop-append_le (suc n) [] ys h = absurd (omega arith)
  drop-append_le (suc n) (x ∷ xs) ys h = drop-append_le n xs ys (omega arith)

  drop-suc : (n : ℕ) (xs : List A) → drop (suc n) xs ≡ drop 1 (drop n xs)
  drop-suc zero xs = refl
  drop-suc (suc n) [] = refl
  drop-suc (suc n) (x ∷ xs) = drop-suc n xs

  pub slide-take_last :
      (n : ℕ) (xs : List A) (x : A)
      → 0 < n
      → slide n (take_last n xs) x ≡ take_last n (xs ++ x ∷ [])
  slide-take_last n xs x h = elim (Bool-cases (ltb (length xs) n)) [
    | inl short ↦
        let e : length xs - n ≡ 0 = ground arith in
        let e' : length (xs ++ x ∷ []) - n ≡ 0 = ground (arith, length-append xs (x ∷ [])) in
        rw (e, e', short)
    | inr long ↦
        let e : length (xs ++ x ∷ []) - n ≡ suc (length xs - n) =
          ground (arith, length-append xs (x ∷ [])) in
        let full : ltb (length (drop (length xs - n) xs)) n ≡ false =
          ground (arith, length-drop (length xs - n) xs) in
        rw (
          e,
          full,
          drop-suc (length xs - n) (xs ++ x ∷ []),
          drop-append_le (length xs - n) xs (x ∷ []) (omega arith),
        )
  ]

module _ {ℓ} {A : Type ℓ} where
  pub collect-cong :
      (f : ℕ → A) (n n' s s' k k' : ℕ)
      → n ≡ n'
      → s ≡ s'
      → k ≡ k'
      → collect f n s 0 k ≡ collect f n' s' 0 k'
  collect-cong f n n' s s' k k' p q r = cc

  pub slide-short : (n : ℕ) (q : List A) (x : A) → length q < n → q ++ x ∷ [] ≡ slide n q x
  slide-short n q x h = ground arith

  pub slide-long : (n : ℕ) (q : List A) (x : A) → n ≤ length q → drop 1 (q ++ x ∷ []) ≡ slide n q x
  slide-long n q x h = ground arith

  pub drop-nil : (n : ℕ) → drop {A = A} n [] ≡ []
  drop-nil zero = refl
  drop-nil (suc n) = refl

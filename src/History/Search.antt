-- ===== src/History/Search.antt =====
-- `sort.Search` of Go's standard library: the binary search that `Query` uses to find where a series
-- begins. Its loop halves `[i, j)`; `n` rounds are enough, since each round shortens that range.
use openwrt_starwatch.Base.{
  ℕ, zero, suc, ◌+◌, ◌/◌, ◌<◌, ◌≤◌, ◌≡◌, refl, Bool, true, false, List, [], ◌∷◌, none, some, length,
  ltb, drop, keep, get_elem?, arith, Bool-cases, inl, inr,
}

pub search_loop : (ℕ → Bool) → ℕ → ℕ → ℕ → ℕ
search_loop f zero i j = i
search_loop f (suc k) i j = elim (ltb i j) [
  | true ↦ elim (f ((i + j) / 2)) [
    | true ↦ search_loop f k i ((i + j) / 2)
    | false ↦ search_loop f k ((i + j) / 2 + 1) j
  ]
  | false ↦ i
]

unfoldable pub search : ℕ → (ℕ → Bool) → ℕ
unfolding search_loop
search n f = search_loop f n 0 n

-- The least index that passes, or `n`.
pub record IsFirst (f : ℕ → Bool) (n m : ℕ) : Type 0 where
  pub within : m ≤ n
  pub below : (a : ℕ) → a < m → f a ≡ false
  pub above : (a : ℕ) → m ≤ a → a < n → f a ≡ true

module _ (f : ℕ → Bool) (mono : (a b : ℕ) → a ≤ b → f a ≡ true → f b ≡ true) (n : ℕ) where
  search_loop_lem :
      (k i j : ℕ)
      → j ≤ i + k
      → i ≤ j
      → j ≤ n
      → ((a : ℕ) → a < i → f a ≡ false)
      → ((a : ℕ) → j ≤ a → a < n → f a ≡ true)
      → IsFirst f n (search_loop f k i j)
  unfolding search_loop
  search_loop_lem zero i j enough ij jn lo hi = record {
    within = omega arith;
    below = lo;
    above = λ a h l. hi a (omega arith) l;
  }
  search_loop_lem (suc k) i j enough ij jn lo hi = elim (Bool-cases (ltb i j)) [
    | inr done ↦
        rw (done, search_loop)
          (record { within = omega arith; below = lo; above = λ a h l. hi a (ground arith) l })
    | inl more ↦ elim (Bool-cases (f ((i + j) / 2))) [
      | inl pass ↦
          rw (more, pass, search_loop)
            (search_loop_lem k i ((i + j) / 2) (ground arith) (ground arith) (ground arith) lo
              (λ a h l. mono ((i + j) / 2) a h pass))
      | inr miss ↦
          rw (more, miss, search_loop)
            (search_loop_lem k ((i + j) / 2 + 1) j (ground arith) (ground arith) jn
              (λ a h. elim (Bool-cases (f a)) [
                | inl t ↦ absurd (ground (arith, mono a ((i + j) / 2) (omega arith) t))
                | inr e ↦ e
              ])
              hi)
    ]
  ]

  -- On a test that stays true once it is true, the search finds the least index that passes.
  pub search_lem : IsFirst f n (search n f)
  unfolding search
  search_lem =
      search_loop_lem n 0 n (omega arith) (omega arith) (omega arith) (λ a h. absurd (omega arith))
        (λ a h l. absurd (omega arith))

module _ {ℓ} {A : Type ℓ} where
  -- The test at an index of a list.
  abbrev pub test_at : (A → Bool) → List A → ℕ → Bool
  test_at g xs i = elim (get_elem? xs i) [ none ↦ true | some x ↦ g x ]

  pub drop-first :
      (g : A → Bool) (xs : List A) (m : ℕ)
      → IsFirst (test_at g xs) (length xs) m
      → drop m xs ≡ keep g xs
  drop-first g [] zero h = refl
  drop-first g [] (suc m) h = refl
  drop-first g (x ∷ xs) zero h = ground (
    arith,
    drop-first g xs 0 (record {
      within = omega arith;
      below = λ a l. absurd (omega arith);
      above = λ a p l. h.above (suc a) (omega arith) (omega arith);
    }),
    h.above 0 (omega arith) (omega arith),
  )
  drop-first g (x ∷ xs) (suc m) h = ground (
    arith,
    drop-first g xs m (record {
      within = ground (arith, h.within);
      below = λ a l. h.below (suc a) (omega arith);
      above = λ a p l. h.above (suc a) (omega arith) (omega arith);
    }),
    h.below 0 (omega arith),
  )

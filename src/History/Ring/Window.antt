-- ===== src/History/Ring/Window.antt =====
-- Reading `k` slots of a circular array in order.
use native.Mathlib.Nat.{mod-eq_of_lt, mod-eq-sub-mod}
use openwrt_starwatch.Base.{
  ℕ, zero, suc, ◌+◌, ◌-◌, ◌%◌, ◌<◌, ◌≡◌, refl, List, [], ◌∷◌, ◌++◌, ap, ap₂, ltb, if◌then◌else◌,
  arith, Bool-cases, inl, inr, ltb→lt, length,
}

-- `omega` and `ground` read a remainder below twice the modulus through this.
pub wrap : (a n : ℕ) → a < n + n → a % n ≡ (if ltb a n then a else a - n)
wrap a n h = elim (Bool-cases (ltb a n)) [
  | inl lt ↦ rw lt (mod-eq_of_lt (ltb→lt a n lt))
  | inr ge ↦ ground (
    arith,
    mod-eq-sub-mod {n = a} {m = n} (ground arith),
    mod-eq_of_lt {n = a - n} {m = n} (ground arith),
  )
]

add_0 : (i : ℕ) → i + 0 ≡ i
add_0 i = omega arith

next : (j i : ℕ) → i + 1 + j ≡ i + suc j
next j i = omega arith

module _ {ℓ} {P : Type ℓ} where
  abbrev pub collect : (ℕ → P) → ℕ → ℕ → ℕ → ℕ → List P
  collect f n s i zero = []
  collect f n s i (suc k) = f ((s + i) % n) ∷ collect f n s (i + 1) k

  pub length-collect : (f : ℕ → P) (n s i k : ℕ) → length (collect f n s i k) ≡ k
  length-collect f n s i zero = refl
  length-collect f n s i (suc k) = ap suc (length-collect f n s (i + 1) k)

  -- Two readings agree where their slots do.
  pub collect-ext :
      (f g : ℕ → P) (n s s' i i' k : ℕ)
      → ((j : ℕ) → j < k → f ((s + (i + j)) % n) ≡ g ((s' + (i' + j)) % n))
      → collect f n s i k ≡ collect g n s' i' k
  collect-ext f g n s s' i i' zero h = refl
  collect-ext f g n s s' i i' (suc k) h =
      ap₂ ◌∷◌ head
        (collect-ext f g n s s' (i + 1) (i' + 1) k (λ j lt. shift j (h (suc j) (omega arith))))
    where
      head : f ((s + i) % n) ≡ g ((s' + i') % n)
      head = cc (h 0 (omega arith), add_0 i, add_0 i')

      shift :
          (j : ℕ)
          → f ((s + (i + suc j)) % n) ≡ g ((s' + (i' + suc j)) % n)
          → f ((s + (i + 1 + j)) % n) ≡ g ((s' + (i' + 1 + j)) % n)
      shift j e = cc (e, next j i, next j i')

  pub collect-snoc :
      (f : ℕ → P) (n s i k : ℕ)
      → collect f n s i (suc k) ≡ collect f n s i k ++ f ((s + (i + k)) % n) ∷ []
  collect-snoc f n s i zero = ap (λ t. f ((s + t) % n) ∷ []) (omega arith)
  collect-snoc f n s i (suc k) =
      ap (λ l. f ((s + i) % n) ∷ l) (rw (collect-snoc f n s (i + 1) k, next k i))

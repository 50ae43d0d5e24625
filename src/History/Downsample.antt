-- ===== src/History/Downsample.antt =====
-- `downsample` of router/internal/history/store.go: at most `limit` points, evenly spread.
use openwrt_starwatch.Base.{
  ℕ, zero, suc, ◌+◌, ◌-◌, ◌*◌, ◌/◌, ◌<◌, ◌≤◌, ◌≡◌, refl, false, List, [], ◌∷◌, Option, none, some,
  ap, length, leb, ◌==◌, ◌||◌, ◌∙◌, sym, get_elem?, if◌then◌else◌, arith, Bool-cases, inl, inr,
  leb→le,
}
use openwrt_starwatch.Base.Int.{ℤ, pos, negsuc}

module _ {ℓ} {P : Type ℓ} where
  -- `points[index]`; `none` is the panic of an index out of range.
  unfoldable pub pick : List P → ℕ → ℕ → ℕ → Option (List P)
  pick points limit i zero = some []
  pick points limit i (suc k) = elim (get_elem? points (i * (length points - 1) / (limit - 1))) [
    | none ↦ none
    | some p ↦ elim (pick points limit (i + 1) k) [ none ↦ none | some ps ↦ some (p ∷ ps) ]
  ]

  -- `[]Point{points[len(points)-1]}`
  abbrev pub only : Option P → Option (List P)
  only none = none
  only (some p) = some (p ∷ [])

  unfoldable pub downsample : List P → ℤ → Option (List P)
  unfolding pick
  downsample points (negsuc n) = some points
  downsample points (pos limit) =
      if limit == 0 || leb (length points) limit
      then some points
      else if limit == 1
      then only (get_elem? points (length points - 1))
      else pick points limit 0 limit

  get_elem?_in_range : (xs : List P) (i : ℕ) → i < length xs → (x : P) × (get_elem? xs i ≡ some x)
  get_elem?_in_range [] i h = absurd (omega arith)
  get_elem?_in_range (x ∷ xs) zero h = (x, refl)
  get_elem?_in_range (x ∷ xs) (suc i) h = get_elem?_in_range xs i (omega arith)

-- The index of the `i`-th point of `d + 1` spread over `m + 1`.
abbrev pub spread : ℕ → ℕ → ℕ → ℕ
spread m d i = i * m / d

spread-le : (i m d : ℕ) → i ≤ d → 0 < d → i * m / d ≤ m
spread-le i m d h k = grind arith

spread_last : (m d : ℕ) → 0 < d → (0 + d) * m / d ≡ m
spread_last m d k = grind arith

spread_first : (m d : ℕ) → (0 + 0) * m / d ≡ 0
spread_first m d = grind arith

spread_mono : (i m d : ℕ) → 0 < d → d ≤ m → i * m / d < (i + 1) * m / d
spread_mono i m d k h = grind arith

module _ {ℓ} {P : Type ℓ} where
  at_cons :
      (points : List P) (m d i k : ℕ) (x : P) (ps : List P)
      → get_elem? points (i * m / d) ≡ some x
      → ((j : ℕ) → j < k → get_elem? ps j ≡ get_elem? points (spread m d (i + 1 + j)))
      → (j : ℕ) → j < suc k
      → get_elem? (x ∷ ps) j ≡ get_elem? points (spread m d (i + j))
  at_cons points m d i k x ps e at zero h =
      sym (ap (λ t. get_elem? points (t * m / d)) (omega arith) ∙ e)
  at_cons points m d i k x ps e at (suc j) h =
      at j (omega arith) ∙ ap (λ t. get_elem? points (t * m / d)) (omega arith)

  pick_lem :
      (points : List P) (limit i k : ℕ)
      → 2 ≤ limit
      → limit < length points
      → i + k ≤ limit
      → (ps : List P) × (pick points limit i k ≡ some ps)
        × (length ps ≡ k)
        × ((j : ℕ)
            → j < k
            → get_elem? ps j ≡ get_elem? points (spread (length points - 1) (limit - 1) (i + j)))
  unfolding pick
  pick_lem points limit i zero two fewer room = ([], refl, refl, λ j h. absurd (omega arith))
  pick_lem points limit i (suc k) two fewer room =
      let (x, e) =
        get_elem?_in_range points (i * (length points - 1) / (limit - 1)) (
          omega (arith, spread-le i (length points - 1) (limit - 1) (omega arith) (omega arith))) in
      let (ps, r, n, at) = pick_lem points limit (i + 1) k two fewer (omega arith) in
      (
        x ∷ ps,
        rw (e, r, pick),
        ap suc n,
        λ j h. at_cons points (length points - 1) (limit - 1) i k x ps e at j h,
      )

  -- The bound of `limit` on the number of points; 0 and less is none.
  abbrev pub IsWithin : List P → ℤ → Type 0
  IsWithin ps (negsuc n) = Unit
  IsWithin ps (pos zero) = Unit
  IsWithin ps (pos (suc n)) = length ps ≤ suc n

  downsample_many :
      (points : List P) (limit : ℕ)
      → 2 ≤ limit
      → limit < length points
      → downsample points (pos limit) ≡ pick points limit 0 limit
  unfolding downsample
  downsample_many points limit two fewer = ground arith

  -- `downsample` never reads out of range, and returns at most `limit` points where `limit` is
  -- positive.
  pub downsample_total :
      (points : List P) (limit : ℤ)
      → (ps : List P) × (downsample points limit ≡ some ps) × IsWithin ps limit
  unfolding downsample
  downsample_total points (negsuc n) = (points, refl, tt)
  downsample_total points (pos zero) = (points, refl, tt)
  downsample_total points (pos (suc n)) = elim (Bool-cases (leb (length points) (suc n))) [
    | inl few ↦ (points, ground arith, leb→le (length points) (suc n) few)
    | inr many ↦ many_points n many
  ]
    where
      many_points :
          (n : ℕ)
          → leb (length points) (suc n) ≡ false
          → (ps : List P) × (downsample points (pos (suc n)) ≡ some ps) × (length ps ≤ suc n)
      many_points zero many =
          let (x, e) = get_elem?_in_range points (length points - 1) (ground arith) in
          (x ∷ [], ground arith, omega arith)
      many_points (suc m) many =
          let (ps, r, n, at) =
            pick_lem points (suc (suc m)) 0 (suc (suc m)) (omega arith) (ground arith)
              (omega arith) in
          (ps, downsample_many points (suc (suc m)) (omega arith) (ground arith) ∙ r, omega arith)

  -- Of more points than a limit of at least 2, `downsample` keeps exactly `limit`: the first, the
  -- last, and as the `j`-th the one at the `j`-th of the evenly spread indices, which increase.
  pub downsample-spread :
      (points : List P) (limit j : ℕ)
      → 2 ≤ limit
      → limit < length points
      → j < limit
      → (ps : List P) × (downsample points (pos limit) ≡ some ps)
        × (length ps ≡ limit)
        × (get_elem? ps 0 ≡ get_elem? points 0)
        × (get_elem? ps (limit - 1) ≡ get_elem? points (length points - 1))
        × (get_elem? ps j ≡ get_elem? points (spread (length points - 1) (limit - 1) j))
        × (spread (length points - 1) (limit - 1) j
            < spread (length points - 1) (limit - 1) (j + 1))
  downsample-spread points limit j two fewer lt =
      let (ps, r, n, at) = pick_lem points limit 0 limit two fewer (omega arith) in
      (
        ps,
        downsample_many points limit two fewer ∙ r,
        n,
        at 0 (omega arith)
            ∙ ap {A = ℕ} (get_elem? points) (spread_first (length points - 1) (limit - 1)),
        at (limit - 1) (omega arith)
            ∙ ap {A = ℕ} (get_elem? points)
                (spread_last (length points - 1) (limit - 1) (omega arith)),
        at j lt
            ∙ ap (λ t. get_elem? points (spread (length points - 1) (limit - 1) t)) (omega arith),
        spread_mono j (length points - 1) (limit - 1) (omega arith) (omega arith),
      )

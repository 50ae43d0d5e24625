-- ===== src/History/Store/Query.antt =====
-- `Query` against its reference: the points with a time, in order, from `since` on.
use mathlib.Core.Path.{subst}
use openwrt_starwatch.Base.{
  ℕ, zero, suc, ◌≤◌, ◌≡◌, refl, sym, ap, ◌∙◌, Bool, true, false, not, List, [], ◌∷◌, none, some,
  length, leb, drop, keep, if◌then◌else◌, arith, Bool-cases, inl, inr,
}
use openwrt_starwatch.Base.Int.{ℤ}
use openwrt_starwatch.Base.Effects.{All}
use openwrt_starwatch.Base.Maps.{string_eq, nat_eq, ◌==◌}
use openwrt_starwatch.Base.Sort.{
  sort_by, IsSorted, sort_by-IsSorted, sort_by_of_IsSorted, keep-IsSorted,
}
use openwrt_starwatch.History.{Point}
use openwrt_starwatch.History.Ring.{Ring, snapshot, is_ordered}
use openwrt_starwatch.History.Search.{search, test_at, search_lem, drop-first}
use openwrt_starwatch.History.Downsample.{downsample}
use openwrt_starwatch.History.Store.{panic, Outcome, ok, err, not_before, read_ring}

module _ {V : Type 0} where
  All-get_elem? :
      (a : ℕ) (ps : List (Point V)) (i : ℕ)
      → All (λ q. a ≤ q.time) ps
      → leb a a ≡ true
      → (s : ℕ) → s ≤ a
      → test_at (not_before s) ps i ≡ true
  All-get_elem? a [] i h r s le = refl
  All-get_elem? a (p ∷ ps) zero h r s le = ground arith
  All-get_elem? a (p ∷ ps) (suc i) h r s le = All-get_elem? a ps i h.1 r s le

  -- On sorted points the test of the search stays true.
  test_mono :
      (s : ℕ) (ps : List (Point V))
      → IsSorted (λ p. p.time) ps
      → (a b : ℕ) → a ≤ b
      → test_at (not_before s) ps a ≡ true
      → test_at (not_before s) ps b ≡ true
  test_mono s [] h a b le t = refl
  test_mono s (p ∷ ps) h zero zero le t = t
  test_mono s (p ∷ ps) h zero (suc b) le t =
      All-get_elem? p.time ps b h.0 (ground arith) s (ground arith)
  test_mono s (p ∷ ps) h (suc a) zero le t = absurd (omega arith)
  test_mono s (p ∷ ps) h (suc a) (suc b) le t = test_mono s ps h.1 a b (omega arith) t

  -- The binary search finds where the points from `since` begin.
  drop-search :
      (since : ℕ) (ps : List (Point V))
      → IsSorted (λ p. p.time) ps
      → drop (search (length ps) (test_at (not_before since) ps)) ps ≡ keep (not_before since) ps
  drop-search since ps h =
      drop-first (not_before since) ps (search (length ps) (test_at (not_before since) ps))
        (search_lem (test_at (not_before since) ps) (test_mono since ps h) (length ps))

  keep_all : (ps : List (Point V)) → keep (not_before 0) ps ≡ ps
  keep_all [] = refl
  keep_all (p ∷ ps) = ground (arith, keep_all ps)

  -- The points that a query is about: those with a time, in order of time, from `since` on.
  abbrev pub wanted : ℕ → List (Point V) → List (Point V)
  wanted since ps =
      keep (not_before since) (sort_by (λ p. p.time) (keep (λ p. not (p.time == 0)) ps))

  abbrev pub limited : List (Point V) → ℤ → Outcome (List (Point V))
  limited ps limit = elim (downsample ps limit) [ none ↦ err panic | some qs ↦ ok qs ]

  from_since :
      (since : ℕ) (ps : List (Point V))
      → IsSorted (λ p. p.time) ps
      → drop (if since == 0 then 0 else search (length ps) (test_at (not_before since) ps)) ps
        ≡ keep (not_before since) ps
  from_since since ps h = elim (Bool-cases (since == 0)) [
    | inl zero_time ↦ ground (arith, keep_all ps)
    | inr later ↦ rw later (drop-search since ps h)
  ]

  same_if : (b : Bool) (x y : List (Point V)) → (b ≡ true → x ≡ y) → (if b then x else y) ≡ y
  same_if true x y h = h refl
  same_if false x y h = refl

  module _ (v₀ : V) where
    -- A ring whose flag is set only where its snapshot is in order.
    abbrev pub IsHonest : Ring V → Type 0
    IsHonest r = is_ordered r ≡ true → IsSorted (λ p. p.time) (snapshot v₀ r)

    pub read_ring_lem :
        (r : Ring V) (since : ℕ) (limit : ℤ)
        → IsHonest r
        → read_ring v₀ r since limit ≡ limited (wanted since (snapshot v₀ r)) limit
    unfolding read_ring
    read_ring_lem r since limit h =
        ap (λ l. limited l limit)
          (from_since since all (
              subst (IsSorted (λ p. p.time)) (sym all_sorted)
                (sort_by-IsSorted (λ p. p.time) valid))
            ∙ ap (keep (not_before since)) all_sorted)
      where
        valid : List (Point V)
        valid = keep (λ p. not (p.time == 0)) (snapshot v₀ r)

        all : List (Point V)
        all = if is_ordered r then valid else sort_by (λ p. p.time) valid

        all_sorted : all ≡ sort_by (λ p. p.time) valid
        all_sorted = same_if (is_ordered r) valid (sort_by (λ p. p.time) valid) (λ o. sym (
            sort_by_of_IsSorted (λ p. p.time) valid
              (keep-IsSorted (λ p. p.time) (λ p. not (p.time == 0)) (snapshot v₀ r) (h o))))

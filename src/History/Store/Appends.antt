-- ===== src/History/Store/Appends.antt =====
-- What a query returns after any sequence of appends.
use mathlib.Core.Option
use openwrt_starwatch.Base.{
  ℕ, ◌≡◌, refl, ap, ◌∙◌, true, false, List, [], ◌∷◌, map, none, some, String, if◌then◌else◌, arith,
  Bool-cases, Option-cases, inl, inr,
}
use openwrt_starwatch.Base.Int.{ℤ}
use openwrt_starwatch.Base.Maps.{lookup, string_eq, nat_eq, ◌==◌, lookup-insert}
use openwrt_starwatch.History.{Point}
use openwrt_starwatch.History.Ring
use openwrt_starwatch.History.Ring.{Ring, new_ring, snapshot, is_ordered}
use openwrt_starwatch.History.Ring.Refine.{append_all}
use openwrt_starwatch.History.Ring.Ordered.{snapshot-IsSorted}
use openwrt_starwatch.History.Store.{
  unknown_series, Outcome, ok, err, Store, new_store, append, read_ring, query, known_series,
}
use openwrt_starwatch.History.Downsample.{downsample, downsample_total, IsWithin}
use openwrt_starwatch.Bus.{at_least_one}
use openwrt_starwatch.History.Ring.Slide.{take_last}
use openwrt_starwatch.History.Ring.Refine.{stored, snapshot-append_all}
use openwrt_starwatch.History.Store.{series_names, with_series, any_eq}
use openwrt_starwatch.History.Store.Query.{wanted, limited, read_ring_lem}

module _ {V : Type 0} (v₀ : V) where
  -- The store after a sequence of appends, of which the failing ones change nothing.
  abbrev pub kept : Outcome (Store v₀) → Store v₀ → Store v₀
  kept (ok s') s = s'
  kept (err e) s = s

  unfoldable pub append_each : List (String × Point V) → Store v₀ → Store v₀
  append_each [] s = s
  append_each ((n, p) ∷ h) s = append_each h (kept (append v₀ n p s) s)

  -- The points that the sequence gives one series.
  abbrev pub points_of : String → List (String × Point V) → List (Point V)
  points_of series [] = []
  points_of series ((n, p) ∷ h) =
      let rest = points_of series h in if n == series then p ∷ rest else rest

  lookup-append :
      (series n : String) (p : Point V) (s : Store v₀)
      → lookup series (kept (append v₀ n p s) s)
        ≡ (if n == series then Option.map (Ring.append p) (lookup series s) else lookup series s)
  unfolding append
  lookup-append series n p s = elim (Option-cases (lookup n s)) [
    | inl e ↦ ground (arith, string_eq.test_iff n series)
    | inr (r, e) ↦
        ground (arith, string_eq.test_iff n series, lookup-insert n series (Ring.append p r) s)
  ]

  lookup-append_each :
      (series : String) (h : List (String × Point V)) (s : Store v₀)
      → lookup series (append_each h s)
        ≡ Option.map (append_all v₀ (points_of series h)) (lookup series s)
  unfolding append_each append_all
  lookup-append_each series [] s = ground arith
  lookup-append_each series ((n, p) ∷ h) s =
      ground
        (arith, lookup-append_each series h (kept (append v₀ n p s) s), lookup-append series n p s)

  lookup-with_series :
      (series : String) (c : ℤ) (names : List String)
      → lookup series (with_series v₀ c names)
        ≡ (if any_eq series names then some (new_ring v₀ c) else none)
  unfolding lookup any_eq
  lookup-with_series series c [] = refl
  lookup-with_series series c (n ∷ names) = ground (
    arith,
    lookup-with_series series c names,
    string_eq.test_iff n series,
    string_eq.test_iff series n,
  )

  lookup-new_store :
      (series : String) (c : ℤ)
      → lookup series (new_store v₀ c)
        ≡ (if known_series series then some (new_ring v₀ c) else none)
  unfolding new_store known_series
  lookup-new_store series c = lookup-with_series series c series_names

  lookup-new_known :
      (series : String) (c : ℤ)
      → known_series series ≡ true
      → lookup series (new_store v₀ c) ≡ some (new_ring v₀ c)
  lookup-new_known series c known = ground (arith, lookup-new_store series c)

  lookup-new_unknown :
      (series : String) (c : ℤ)
      → known_series series ≡ false
      → lookup series (new_store v₀ c) ≡ none
  lookup-new_unknown series c unknown = ground (arith, lookup-new_store series c)

  query_missing :
      (series : String) (since : ℕ) (limit : ℤ) (s : Store v₀)
      → lookup series s ≡ none
      → query v₀ series since limit s ≡ err unknown_series
  unfolding query
  query_missing series since limit s e = rw (e, query)

  query_found :
      (series : String) (since : ℕ) (limit : ℤ) (s : Store v₀) (r : Ring V)
      → lookup series s ≡ some r
      → query v₀ series since limit s ≡ read_ring v₀ r since limit
  unfolding query
  query_found series since limit s r e = rw (e, query)

  -- The points of a series that a query is about: the last ones that the ring holds, those with a
  -- time and not before `since`, in order of time.
  abbrev pub asked : ℤ → List (String × Point V) → String → ℕ → List (Point V)
  asked c h series since =
      wanted since (take_last (at_least_one c) (map (stored v₀) (points_of series h)))

  limited-some :
      (points ps : List (Point V)) (limit : ℤ)
      → downsample points limit ≡ some ps
      → limited points limit ≡ ok ps
  limited-some points ps limit h = rw (limited, h)

  query_known :
      (c : ℤ) (h : List (String × Point V)) (series : String) (since : ℕ) (limit : ℤ)
      → known_series series ≡ true
      → query v₀ series since limit (append_each h (new_store v₀ c))
        ≡ limited (asked c h series since) limit
  query_known c h series since limit known =
      query_found series since limit (append_each h (new_store v₀ c)) ring (
        lookup-append_each series h (new_store v₀ c)
        ∙ ap (Option.map (append_all v₀ (points_of series h))) (lookup-new_known series c known))
      ∙ read_ring_lem v₀ ring since limit (snapshot-IsSorted v₀ c (points_of series h))
      ∙ ap (λ l. limited (wanted since l) limit) (snapshot-append_all v₀ c (points_of series h))
    where
      ring : Ring V
      ring = append_all v₀ (points_of series h) (new_ring v₀ c)

  query_unknown :
      (c : ℤ) (h : List (String × Point V)) (series : String) (since : ℕ) (limit : ℤ)
      → known_series series ≡ false
      → query v₀ series since limit (append_each h (new_store v₀ c)) ≡ err unknown_series
  query_unknown c h series since limit unknown =
      query_missing series since limit (append_each h (new_store v₀ c)) (
        lookup-append_each series h (new_store v₀ c)
        ∙ ap (Option.map (append_all v₀ (points_of series h)))
            (lookup-new_unknown series c unknown))

  -- After any sequence of appends to a new store, a query of a known series succeeds, with the
  -- points that `downsample` makes of the asked ones: the last points of that series that the ring
  -- holds, those with a time and not before `since`, in order of time. They are at most `limit` if
  -- `limit` is positive. A query of an unknown series fails with the error for it.
  pub query_lem :
      (c : ℤ) (h : List (String × Point V)) (series : String) (since : ℕ) (limit : ℤ)
      → (ps : List (Point V)) × (downsample (asked c h series since) limit ≡ some ps)
        × IsWithin ps limit
        × (query v₀ series since limit (append_each h (new_store v₀ c))
            ≡ (if known_series series then ok ps else err unknown_series))
  query_lem c h series since limit =
      let (ps, made, within) = downsample_total (asked c h series since) limit in
      (
        ps,
        made,
        within,
        elim (Bool-cases (known_series series)) [
          | inl known ↦ rw known (
              query_known c h series since limit known
              ∙ limited-some (asked c h series since) ps limit made)
          | inr unknown ↦ rw unknown (query_unknown c h series since limit unknown)
        ],
      )

-- ===== src/History/Store.antt =====
-- router/internal/history/store.go: the RAM tier, one ring for each known series.
pub mod Query
pub mod Appends
use openwrt_starwatch.Base.{
  ℕ, ◌+◌, ◌*◌, ◌≡◌, refl, Bool, true, false, not, List, [], ◌∷◌, ◌++◌, map, Option, none, some,
  String, length, ltb, leb, drop, keep, if◌then◌else◌, ◌||◌,
}
use openwrt_starwatch.Base.Text.{sort_texts}
use openwrt_starwatch.Base.Int.{ℤ}
use openwrt_starwatch.Base.Maps.{lookup, insert, string_eq, nat_eq, ◌==◌}
use openwrt_starwatch.Base.Sort.{sort_by}
use openwrt_starwatch.History.{Point}
use openwrt_starwatch.History.Ring
use openwrt_starwatch.History.Ring.{Ring, new_ring, snapshot, is_ordered}
use openwrt_starwatch.History.Search.{search, test_at}
use openwrt_starwatch.History.Downsample.{downsample}

abbrev pub series_names : List String
series_names =
    "dish_down_bps" ∷ "dish_up_bps" ∷ "router_down_bps" ∷ "router_up_bps" ∷ "latency_ms"
    ∷ "drop_rate" ∷ "power_w" ∷ "obstruction_fraction" ∷ "wan_probe_rtt_ms" ∷ "wan_probe_loss" ∷ []

-- `ErrUnknownSeries`, and the panic of an index out of range.
pub data Failure : Type 0 where
  unknown_series panic : Failure

pub data Outcome {ℓ} (A : Type ℓ) : Type ℓ where
  ok : A → Outcome A
  err : Failure → Outcome A

-- The test of `sort.Search`: a point that is not before `since`.
abbrev pub not_before : {V : Type 0} → ℕ → Point V → Bool
not_before since p = leb since p.time

module _ {V : Type 0} (v₀ : V) where
  abbrev pub Store : Type 0
  Store = List (String × Ring V)

  -- The loop of `NewStore` over the names.
  abbrev pub with_series : ℤ → List String → Store
  with_series capacity [] = []
  with_series capacity (name ∷ names) = (name, new_ring v₀ capacity) ∷ with_series capacity names

  unfoldable pub new_store : ℤ → Store
  new_store capacity = with_series capacity series_names

  unfoldable pub append : String → Point V → Store → Outcome Store
  append series p s = elim (lookup series s) [
    | none ↦ err unknown_series
    | some r ↦ ok (insert series (Ring.append p r) s)
  ]

  -- The part of `Query` after the lookup: zero times out, sorting if the ring is out of order, the
  -- binary search for `since`, and at most `limit` points.
  unfoldable pub read_ring : Ring V → ℕ → ℤ → Outcome (List (Point V))
  read_ring r since limit =
      let valid = keep (λ p. not (p.time == 0)) (snapshot v₀ r) in
      let all = if is_ordered r then valid else sort_by (λ p. p.time) valid in
      let start = if since == 0 then 0 else search (length all) (test_at (not_before since) all) in
      elim (downsample (drop start all) limit) [ none ↦ err panic | some ps ↦ ok ps ]

  unfoldable pub query : String → ℕ → ℤ → Store → Outcome (List (Point V))
  unfolding read_ring
  query series since limit s = elim (lookup series s) [
    | none ↦ err unknown_series
    | some r ↦ read_ring r since limit
  ]

module _ {V : Type 0} (v₀ : V) where
  -- `QuerySpan`, whose answer's tier is always RAM.
  abbrev pub query_ram_span : String → ℕ → ℤ → ℤ → Store v₀ → Outcome (List (Point V))
  query_ram_span series since span limit s = query v₀ series since limit s

  abbrev pub names_of : Store v₀ → List String
  names_of [] = []
  names_of ((name, r) ∷ s) = name ∷ names_of s

  abbrev pub series : Store v₀ → List String
  series s = sort_texts (names_of s)

-- The loop of `knownSeries` over the names.
unfoldable pub any_eq : String → List String → Bool
any_eq name [] = false
any_eq name (candidate ∷ rest) = name == candidate || any_eq name rest

unfoldable pub known_series : String → Bool
unfolding any_eq
known_series name = any_eq name series_names

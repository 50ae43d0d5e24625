-- ===== src/History/Tests.antt =====
-- Runs of the history tiers on concrete inputs, and their theorems at such inputs.
use openwrt_starwatch.Base.{
  ◌≤◌, ℕ, ◌*◌, ◌<◌, ◌≡◌, refl, true, false, List, [], ◌∷◌, none, some, String, arith, length,
  get_elem?,
}
use openwrt_starwatch.Base.Int.{pos}
use openwrt_starwatch.Base.Sort.{IsSorted, sort_by}
use openwrt_starwatch.Base.Maps.{lookup, insert}
use openwrt_starwatch.History.{Point, second}
use openwrt_starwatch.History.Ring
use openwrt_starwatch.History.Ring.{Ring, new_ring, snapshot, is_ordered}
use openwrt_starwatch.History.Ring.Slide.{take_last}
use openwrt_starwatch.History.Ring.Refine.{append_all, snapshot-append_all, stored}
use openwrt_starwatch.History.Ring.Ordered.{is_ordered-append_all, snapshot-IsSorted, steady_from}
use openwrt_starwatch.History.Search.{search}
use openwrt_starwatch.History.Downsample.{downsample, downsample-spread, spread}
use openwrt_starwatch.History.Store.{ok, known_series, query, new_store, append}
use openwrt_starwatch.History.Store.Appends.{append_each, query_lem}
use openwrt_starwatch.History.Tiered.{minute, Persistent, Reader, query_span, choose_tier}
use openwrt_starwatch.History.Tiered.Fallback.{query_span_lem, Request, lines, lines_lem}

abbrev at_second : ℕ → ℕ → Point ℕ
at_second t v = record { time = t * second; value = v; min = none; max = none; samples = 0 }

abbrev three : List (Point ℕ)
three = at_second 5 50 ∷ at_second 6 60 ∷ at_second 7 70 ∷ []

-- A ring of two keeps the last two points.
two_of_three :
    snapshot 0 (append_all 0 three (new_ring 0 (pos 2))) ≡ at_second 6 60 ∷ at_second 7 70 ∷ []
unfolding snapshot append_all new_ring Ring.append
two_of_three = refl

snapshot-append_all_example :
    snapshot 0 (append_all 0 three (new_ring 0 (pos 2)))
    ≡ take_last 2
        (stored 0 (at_second 5 50) ∷ stored 0 (at_second 6 60) ∷ stored 0 (at_second 7 70) ∷ [])
snapshot-append_all_example = snapshot-append_all 0 (pos 2) three

is_ordered-append_all_example :
    is_ordered (append_all 0 three (new_ring 0 (pos 2))) ≡ steady_from none (5 ∷ 6 ∷ 7 ∷ [])
is_ordered-append_all_example = is_ordered-append_all 0 (pos 2) three

snapshot-IsSorted_example :
    IsSorted (λ p. p.time) (snapshot 0 (append_all 0 three (new_ring 0 (pos 2))))
unfolding append_all new_ring Ring.append
snapshot-IsSorted_example = snapshot-IsSorted 0 (pos 2) three refl

downsample_runs : downsample {P = ℕ} (1 ∷ 2 ∷ 3 ∷ 4 ∷ 5 ∷ []) (pos 3) ≡ some (1 ∷ 3 ∷ 5 ∷ [])
unfolding downsample
downsample_runs = refl

downsample-spread_example :
    (ps : List ℕ) × (downsample (1 ∷ 2 ∷ 3 ∷ []) (pos 2) ≡ some ps)
    × (length ps ≡ 2)
    × (get_elem? ps 0 ≡ some 1)
    × (get_elem? ps 1 ≡ some 3)
    × (get_elem? ps 1 ≡ some 3)
    × (spread 2 1 1 < spread 2 1 2)
downsample-spread_example =
    downsample-spread (1 ∷ 2 ∷ 3 ∷ []) 2 1 (omega arith) (omega arith) (omega arith)

abbrev appended : List (String × Point ℕ)
appended =
    ("power_w", at_second 5 50)
    ∷ ("latency_ms", at_second 6 60)
    ∷ ("power_w", at_second 4 40)
    ∷ ("power_w", at_second 7 70)
    ∷ []

-- Out of order: the query sorts, and starts at the fifth second.
query_runs :
    query 0 "power_w" (5 * second) (pos 10) (append_each 0 appended (new_store 0 (pos 8)))
    ≡ ok (at_second 5 50 ∷ at_second 7 70 ∷ [])
unfolding query append_each new_store append lookup insert sort_by downsample search Ring.append
    new_ring snapshot
query_runs = refl

query_lem_example :
    (ps : List (Point ℕ)) × (downsample (at_second 5 50 ∷ at_second 7 70 ∷ []) (pos 10) ≡ some ps)
    × (length ps ≤ 10)
    × (query 0 "power_w" (5 * second) (pos 10) (append_each 0 appended (new_store 0 (pos 8)))
        ≡ ok ps)
unfolding known_series sort_by
query_lem_example = query_lem 0 (pos 8) appended "power_w" (5 * second) (pos 10)

-- A persistent store that holds one point for spans of a minute, and fails for longer ones.
abbrev disk : Persistent ℕ String
disk = record {
  minute_retention = pos (60 * second);
  query_tier = λ name tier since limit. elim tier [
    | minute ↦ (at_second 1 10 ∷ [], none)
    | _ ↦ ([], some "disk I/O error")
  ];
}

abbrev tiers : Reader ℕ String
tiers = record {
  ram_query = λ name since limit. (at_second 2 20 ∷ [], none);
  persistent = some disk;
  ram_span = pos second;
  has_logger = true;
}

query_span_lem_example :
    (query_span tiers "power_w" 0 (pos (30 * second)) (pos 1) false).0
    ≡ (minute, (at_second 1 10 ∷ [], none))
query_span_lem_example = query_span_lem tiers "power_w" 0 (pos (30 * second)) (pos 1) false

abbrev long_query : Request
long_query = record { series = "power_w"; since = 0; span = pos (90 * second); limit = pos 1 }

lines_lem_example : lines tiers false (long_query ∷ long_query ∷ []) ≡ 1
unfolding choose_tier
lines_lem_example = lines_lem tiers (long_query ∷ long_query ∷ [])

-- ===== src/Outage/Tests.antt =====
-- Runs of the outage timeline on concrete inputs, and its theorems at such inputs.
use openwrt_starwatch.History.{second}
use openwrt_starwatch.Base.{
  length, ℕ, ◌+◌, ◌*◌, ◌≤◌, ◌≡◌, refl, true, false, ◌&&◌, List, [], ◌∷◌, ◌++◌, Option, some,
}
use openwrt_starwatch.Base.Int.{ℤ, pos}
use openwrt_starwatch.Base.Sort.{sort_by, IsSorted}
use openwrt_starwatch.Base.Maps.{lookup, insert}
use openwrt_starwatch.Outage.{
  Entry, DishReport, Wiring, new_timeline, observe_path, begin_outage, query, values,
}
use openwrt_starwatch.Outage.Notices.{
  Call, reporting, observing_dish, observing_path, run, follow, is_active, notices_alternate,
}
use openwrt_starwatch.Outage.Debounce.{Streak, path_observations, path_start_confirmed}
use openwrt_starwatch.Outage.Listing.{listed, listing_lem}

abbrev wired : Wiring
wired = record { has_persistence = true; has_events = true }

abbrev rain : DishReport
rain = record { cause = "OBSTRUCTED"; start = 5 * second; duration = pos 0 }

abbrev lost_and_found : List Call
lost_and_found =
    observing_dish (1 * second) false 0
    ∷ observing_dish (2 * second) false 0
    ∷ reporting (2 * second) (rain ∷ [])
    ∷ observing_dish (4 * second) true 0
    ∷ []

notices_alternate_example :
    follow "dish_unreachable" false (run wired lost_and_found new_timeline).1
    ≡ some (is_active "dish_unreachable" (run wired lost_and_found new_timeline).0)
notices_alternate_example = notices_alternate wired "dish_unreachable" lost_and_found refl refl

abbrev bad_path : List Call
bad_path =
    observing_path (1 * second) true false
    ∷ observing_path (2 * second) true true
    ∷ observing_path (20 * second) true true
    ∷ []

abbrev path_entry : Entry
path_entry = record {
  source = "path";
  cause = "probe_loss";
  start = 2 * second;
  duration = pos 0;
  ongoing = true;
}

path_start_confirmed_example :
    Streak (2 * second) (path_observations bad_path)
    × (2 * second + 30 * second ≤ 32 * second)
    × ((true && true) ≡ true)
unfolding run observe_path begin_outage lookup insert new_timeline
path_start_confirmed_example =
    path_start_confirmed wired bad_path (32 * second) (32 * second) true true path_entry refl

abbrev disk : ℕ → ℤ → Option (List Entry)
disk since limit = some (path_entry ∷ [])

listing_lem_example :
    (rs : List Entry) × (query (some disk) 9 0 (pos 1) new_timeline ≡ some rs)
    × IsSorted (λ e. e.start) rs
    × (length rs ≡ 1)
    × (pre : List Entry) × (pre ++ rs
        ≡ sort_by (λ e. e.start) (values (listed 9 0 new_timeline (path_entry ∷ []))))
unfolding openwrt_starwatch.Outage.merge openwrt_starwatch.Outage.combine insert new_timeline
listing_lem_example = listing_lem disk 9 0 (pos 1) new_timeline (path_entry ∷ []) refl

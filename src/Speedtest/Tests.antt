-- ===== src/Speedtest/Tests.antt =====
-- Runs of the speed test on concrete inputs, and its theorems at such inputs.
use openwrt_starwatch.Base.{
  ℕ, ◌*◌, ◌≡◌, refl, true, false, List, [], ◌∷◌, none, some, ltb, if◌then◌else◌,
}
use openwrt_starwatch.Speedtest.{
  unsupported, unimplemented, RpcError, Floats, SpeedtestStatus, Speedtest, Wiring, answered,
  waited, status_got, new_manager, work, start, step, poll_failed, poll_got, start_answered,
  set_state, fail, start_waited,
}
use openwrt_starwatch.Speedtest.Workers.{
  Call, calling_start, working, run, call, IsConsistent, workers_lem,
}
use openwrt_starwatch.Speedtest.Latest.{published_results, latest_lem}

-- Natural numbers in the place of floats.
abbrev whole : Floats
whole = record {
  F32 = ℕ;
  F = ℕ;
  zero_float = 0;
  max_float = λ a b. if ltb a b then b else a;
  widen = λ a. a;
  millions = λ a. a * 1000000;
}

abbrev wired : Wiring whole
wired = record { has_store = true; has_live = true }

abbrev fast : SpeedtestStatus whole
fast = record {
  running_now = false;
  down = record { err = none; throughputs_mbps = 90 ∷ 110 ∷ [] };
  up = record { err = none; throughputs_mbps = 12 ∷ [] };
}

abbrev measured : Speedtest whole
measured = record { at = 7; down_bps = 110 * 1000000; up_bps = 12 * 1000000 }

abbrev not_there : RpcError
not_there = record { code = unimplemented; message = "unimplemented" }

-- A test that succeeds, and one that the dish does not support.
abbrev two_tests : List (Call whole)
two_tests =
    calling_start
    ∷ working 0 (answered none)
    ∷ calling_start
    ∷ working 0 (status_got (some fast) 7)
    ∷ calling_start
    ∷ working 0 (answered (some not_there))
    ∷ working 0 (waited none)
    ∷ working 0 (answered (some not_there))
    ∷ working 0 (waited none)
    ∷ working 0 (answered (some not_there))
    ∷ []

two_tests_end : (run whole wired two_tests (new_manager whole)).0.snapshot.state ≡ unsupported
unfolding run call work start step poll_failed poll_got start_answered set_state fail start_waited
    new_manager
two_tests_end = refl

workers_lem_example : IsConsistent whole (run whole wired two_tests (new_manager whole)).0
workers_lem_example = workers_lem whole wired two_tests

latest_lem_example :
    let r = run whole wired two_tests (new_manager whole) in
    (r.0.snapshot.latest ≡ some measured) × (published_results whole r.1 ≡ measured ∷ [])
unfolding run call work start step poll_failed poll_got start_answered set_state fail start_waited
    new_manager
latest_lem_example = latest_lem whole wired two_tests refl refl

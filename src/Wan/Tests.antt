-- ===== src/Wan/Tests.antt =====
-- Runs of the WAN monitor on concrete inputs, and its theorems at such inputs.
use openwrt_starwatch.Base.{
  ℕ, ◌*◌, ◌-◌, ◌/◌, ◌≡◌, refl, Bool, true, List, [], ◌∷◌, ◌++◌, Option, none, some, String, arith,
}
use openwrt_starwatch.Base.Int.{ℤ, pos, pos_part}
use openwrt_starwatch.History.{second}
use openwrt_starwatch.Wan.Monitor.{
  Arithmetic, five_minutes, thirty_seconds, probe_window, with_interface, discover, new_monitor,
  probe_once, store_round, sample_counters, Monitor,
}
use openwrt_starwatch.Wan.Monitor.Windows.{Call, probing, run, call, taken, all_taken, windows_lem}
use openwrt_starwatch.Wan.Monitor.Counters.{sample_counters_lem, Sampled}
use openwrt_starwatch.Base.{if◌then◌else◌}
use openwrt_starwatch.Base.Maps.{string_eq, ◌==◌}
use openwrt_starwatch.Wan.Discovery.{
  swap_bytes, and_word, count_bits, route_hex, route_of, scan, route_interface,
}
use openwrt_starwatch.Wan.Discovery.Bits.{byte, swap_bytes-swap_bytes, ones, count_bits_lem}
use openwrt_starwatch.Wan.Discovery.Longest.{
  matching, longest, first_of, or_none, route_interface_lem,
}

-- Natural numbers in the place of floats: ratios in percent.
abbrev whole : Arithmetic
whole = record {
  F = ℕ;
  zero_float = 0;
  ratio = λ a b. a * 100 / b;
  average_ms = λ d n. pos_part d / n;
  bits_per_second = λ n d. n * 8 * second / d;
}

abbrev this_year : ℕ → ℕ
this_year now = 2026

abbrev only_first : String → String → ℤ × Bool
only_first name host = (pos 20, true)

-- Two rounds, the first of which is too old for the second.
abbrev rounds : List (Call whole)
rounds =
    probing (some "wan") only_first (1000 * second) ∷ probing none only_first (1400 * second) ∷ []

windows_lem_example :
    let m = run whole this_year rounds (new_monitor whole ("1.1.1.1" ∷ []) (pos 0)) in
    let r = (probe_once whole this_year none only_first (1401 * second) m).0 in
    let all_samples =
      all_taken whole this_year rounds (new_monitor whole ("1.1.1.1" ∷ []) (pos 0))
      ++ taken whole (probing none only_first (1401 * second)) m in
    (r.snapshot.last_30s ≡ probe_window whole all_samples (1401 * second - thirty_seconds))
    × (r.snapshot.last_5m ≡ probe_window whole all_samples (1401 * second - five_minutes))
unfolding run call probe_once with_interface discover new_monitor store_round
windows_lem_example =
    windows_lem whole this_year ("1.1.1.1" ∷ []) (pos 0) rounds none only_first (1401 * second)
      (omega arith, (omega arith, omega arith)) refl refl

abbrev named : Monitor whole
named = record (discover whole (some "wan") (new_monitor whole [] (pos 0))) {
  last_at = 5 * second;
  last_rx = 100;
  last_tx = 10;
}

sample_counters_lem_example :
    let q =
      sample_counters whole this_year (some "wan") (some 350) (some 10) true (7 * second) named in
    (q.0.snapshot.up ≡ true)
    × Sampled whole (some 350) (some 10) named q.0 q.1 this_year (7 * second)
unfolding discover new_monitor
sample_counters_lem_example =
    sample_counters_lem whole this_year (some "wan") (some 350) (some 10) true (7 * second) named
      refl

swap_bytes-swap_bytes_example :
    (byte (swap_bytes 3232261121) 1 ≡ 168) × (swap_bytes (swap_bytes 3232261121) ≡ 3232261121)
swap_bytes-swap_bytes_example = swap_bytes-swap_bytes 3232261121 1 (omega arith) (omega arith)

count_bits_lem_example : count_bits 32 4294967040 ≡ 24
unfolding ones
count_bits_lem_example = count_bits_lem 4294967040 (omega arith)

-- The words of the route file below.
abbrev words : String → Option ℕ
words s =
    if s == "00000000"
    then some 0
    else if s == "0064A8C0"
    then some 6596800
    else if s == "00FFFFFF"
    then some 16777215
    else none

abbrev routes : List (List String)
routes =
    ("Iface" ∷ "Destination" ∷ "Gateway" ∷ "Flags" ∷ "RefCnt" ∷ "Use" ∷ "Metric" ∷ "Mask" ∷ [])
    ∷ ("eth0" ∷ "00000000" ∷ "" ∷ "" ∷ "" ∷ "" ∷ "" ∷ "00000000" ∷ [])
    ∷ ("eth1" ∷ "0064A8C0" ∷ "" ∷ "" ∷ "" ∷ "" ∷ "" ∷ "00FFFFFF" ∷ [])
    ∷ []

route_found : route_interface words (some routes) 3232261121 ≡ "eth1"
unfolding route_interface scan route_of route_hex swap_bytes and_word count_bits
route_found = refl

route_interface_lem_example :
    route_interface words (some routes) 3232261121
    ≡ or_none words (
        first_of words
          (longest words (matching words 3232261121 routes))
          (matching words 3232261121 routes))
route_interface_lem_example = route_interface_lem words 3232261121 routes

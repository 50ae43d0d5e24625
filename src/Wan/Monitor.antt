-- ===== src/Wan/Monitor.antt =====
-- router/internal/wan/monitor.go: the probes of the WAN path and the interface's counters.
-- What the discoverer, the prober and the counters' files answer are arguments of each call. An
-- instant minus five minutes stops at the zero time, before which there is no sample anyway. The calendar's year and the
-- arithmetic on float32 and float64 are arguments, each operation with the Go expression it stands
-- for; what is appended to the history is the list of a call's effects.
pub mod Windows
pub mod Counters
use openwrt_starwatch.Base.{
  ℕ, zero, suc, ◌+◌, ◌-◌, ◌*◌, ◌≡◌, Bool, true, false, not, ◌&&◌, ◌||◌, List, [], ◌∷◌, ◌++◌, map,
  Option, none, some, String, ltb, leb, length, if◌then◌else◌,
}
use openwrt_starwatch.Base.Int.{ℤ, pos, negsuc, ltb_ℤ, add_ℤ}
use openwrt_starwatch.Base.Maps.{nat_eq, string_eq, ◌==◌}
use openwrt_starwatch.History.{second}

pub record Arithmetic : Type 1 where
  pub F : Type 0
  pub zero_float : F
  pub ratio : ℕ → ℕ → F  -- float32(a) / float32(b)
  pub average_ms : ℤ → ℕ → F  -- float32(d.Seconds()*1000) / float32(n)
  pub bits_per_second : ℕ → ℕ → F  -- float32(float64(n) * 8 / d.Seconds())

pub record ProbeSample : Type 0 where
  pub at : ℕ
  pub rtt : ℤ
  pub success : Bool

-- `sample := probeSample{at: now, rtt: rtt, success: err == nil}`
abbrev pub sample_of : ℕ → ℤ × Bool → ProbeSample
sample_of now answer = record { at = now; rtt = answer.0; success = answer.1 }

abbrev pub five_minutes : ℕ
five_minutes = 300 * second

abbrev pub thirty_seconds : ℕ
thirty_seconds = 30 * second

-- The number of samples since an instant, that of the successful ones, and their total round trip.
pub record Totals : Type 0 where
  pub count : ℕ
  pub successes : ℕ
  pub total : ℤ

abbrev pub add_sample : ProbeSample → Totals → Totals
add_sample p t =
    if p.success
    then record { count = t.count + 1; successes = t.successes + 1; total = add_ℤ t.total p.rtt }
    else record t { count = t.count + 1 }

unfoldable pub totals_since : List ProbeSample → ℕ → Totals → Totals
totals_since [] since t = t
totals_since (p ∷ ps) since t =
    let skipped = totals_since ps since t in
    let counted = totals_since ps since (add_sample p t) in
    if ltb p.at since then skipped else counted

abbrev pub no_totals : Totals
no_totals = record { count = 0; successes = 0; total = pos 0 }

-- `for first < len(m.probes) && m.probes[first].at.Before(cutoff)`, and the rest of the list.
unfoldable pub drop_before : ℕ → List ProbeSample → List ProbeSample
drop_before cutoff [] = []
drop_before cutoff (p ∷ ps) =
    let rest = drop_before cutoff ps in if ltb p.at cutoff then rest else p ∷ ps

module _ (ar : Arithmetic) where
  open ar use {F, zero_float, ratio, average_ms, bits_per_second}

  -- The results of `probeWindow`: round trip, loss, availability.
  pub record Window : Type 0 where
    pub rtt_ms : F
    pub loss : F
    pub available : Bool

  abbrev pub window_of : Totals → Window
  window_of t =
      if t.count == 0
      then record { rtt_ms = zero_float; loss = zero_float; available = false }
      else if t.successes == 0
      then record {
        rtt_ms = zero_float;
        loss = ratio (t.count - t.successes) t.count;
        available = true;
      }
      else record {
        rtt_ms = average_ms t.total t.successes;
        loss = ratio (t.count - t.successes) t.count;
        available = true;
      }

  unfoldable pub probe_window : List ProbeSample → ℕ → Window
  probe_window samples since = window_of (totals_since samples since no_totals)

  -- `WANStatus`, less the status of mwan3.
  pub record WanStatus : Type 0 where
    pub available : Bool
    pub interface_name : String
    pub up : Bool
    pub probe_loss_now : F
    pub last_30s : Window
    pub last_5m : Window
    pub router_down_bps : F
    pub router_up_bps : F

  pub record Monitor : Type 0 where
    pub snapshot : WanStatus
    pub probes : List ProbeSample
    pub last_rx : ℕ
    pub last_tx : ℕ
    pub last_at : ℕ
    pub hosts : List String
    pub probe_interval : ℤ

  -- A point appended to a series.
  pub data Appended : Type 0 where
    appended : String → ℕ → F → Appended

  unfoldable pub new_monitor : List String → ℤ → Monitor
  new_monitor hosts interval =
      let no_window : Window = record {
        rtt_ms = zero_float;
        loss = zero_float;
        available = false;
      } in
      record {
        snapshot = record {
          available = false;
          interface_name = "";
          up = false;
          probe_loss_now = zero_float;
          last_30s = no_window;
          last_5m = no_window;
          router_down_bps = zero_float;
          router_up_bps = zero_float;
        };
        probes = [];
        last_rx = 0;
        last_tx = 0;
        last_at = 0;
        hosts = hosts;
        probe_interval = if ltb_ℤ (pos 0) interval then interval else pos (2 * second);
      }

  unfoldable pub set_probe_config : List String → ℤ → Monitor → Monitor
  set_probe_config hosts interval m = record m {
    hosts = if ltb 0 (length hosts) then hosts else m.hosts;
    probe_interval = if ltb_ℤ (pos 0) interval then interval else m.probe_interval;
  }

  -- `none` is an error of the discoverer.
  unfoldable pub discover : Option String → Monitor → Monitor
  discover none m = record m { snapshot = record (m.snapshot) { available = false } }
  discover (some name) m =
      if name == ""
      then record m { snapshot = record (m.snapshot) { available = false } }
      else record m { snapshot = record (m.snapshot) { available = true; interface_name = name } }

  -- `if name == "" { m.discover() … }`
  unfoldable pub with_interface : Option String → Monitor → Monitor
  unfolding discover
  with_interface found m = if m.snapshot.interface_name == "" then discover found m else m

  -- The samples of one round of probes.
  abbrev pub probe_all : (String → ℤ × Bool) → ℕ → List String → List ProbeSample
  probe_all probe now [] = []
  probe_all probe now (host ∷ hosts) = sample_of now (probe host) ∷ probe_all probe now hosts

  abbrev pub total_of : List ProbeSample → Totals → Totals
  total_of [] t = t
  total_of (p ∷ ps) t = total_of ps (add_sample p t)

  abbrev pub update_probe_windows : ℕ → List ProbeSample → WanStatus → WanStatus
  update_probe_windows now kept s = record s {
    last_30s = probe_window kept (now - thirty_seconds);
    last_5m = probe_window kept (now - five_minutes);
  }

  unfoldable pub store_round : ℕ → List ProbeSample → Monitor → Monitor
  unfolding drop_before probe_window
  store_round now round m =
      let kept = drop_before (now - five_minutes) (m.probes ++ round) in
      let t = total_of round no_totals in
      record m {
        probes = kept;
        snapshot =
            update_probe_windows now kept
              (record (m.snapshot) { probe_loss_now = ratio (t.count - t.successes) t.count });
      }

  -- What a round appends to the history, once the clock is set.
  abbrev pub record_round : (ℕ → ℕ) → ℕ → Totals → List Appended
  record_round year now t =
      if leb 2025 (year now)
      then appended "wan_probe_loss" now (ratio (t.count - t.successes) t.count)
        ∷ (if ltb 0 t.successes
            then appended "wan_probe_rtt_ms" now (average_ms t.total t.successes) ∷ []
            else [])
      else []

  -- `probe` gives a probe's round trip, and whether it succeeded.
  unfoldable pub probe_once :
      (ℕ → ℕ) → Option String → (String → String → ℤ × Bool) → ℕ → Monitor → Monitor × List Appended
  unfolding with_interface store_round
  probe_once year found probe now m =
      let m₁ = with_interface found m in
      let name = m₁.snapshot.interface_name in
      let round = probe_all (probe name) now m₁.hosts in
      if name == "" || length m₁.hosts == 0
      then (m₁, [])
      else (store_round now round m₁, record_round year now (total_of round no_totals))

  -- `rx` and `tx` are none where the file cannot be read as a number.
  unfoldable pub sample_counters :
      (ℕ → ℕ) → Option String → Option ℕ → Option ℕ → Bool → ℕ → Monitor → Monitor × List Appended
  unfolding with_interface
  sample_counters year found rx tx up now m =
      let m₁ = with_interface found m in
      let m₂ = record m₁ { snapshot = record (m₁.snapshot) { up = up } } in
      if m₁.snapshot.interface_name == "" then (m₁, []) else elim rx [
        | none ↦ (m₂, [])
        | some r ↦ elim tx [
          | none ↦ (m₂, [])
          | some t ↦
              let m₃ = record m₂ { last_at = now; last_rx = r; last_tx = t } in
              let down = bits_per_second (r - m₁.last_rx) (now - m₁.last_at) in
              let up_rate = bits_per_second (t - m₁.last_tx) (now - m₁.last_at) in
              if m₁.last_at == 0 || not (ltb m₁.last_at now) || ltb r m₁.last_rx || ltb t m₁.last_tx
              then (m₃, [])
              else (
                record m₃ {
                  snapshot = record (m₃.snapshot) {
                    router_down_bps = down;
                    router_up_bps = up_rate;
                  };
                },
                (if leb 2025 (year now)
                    then appended "router_down_bps" now down
                      ∷ appended "router_up_bps" now up_rate
                      ∷ []
                    else []),
              )
        ]
      ]

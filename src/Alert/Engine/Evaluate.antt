-- ===== src/Alert/Engine/Evaluate.antt =====
-- The condition of each alert, its notifications, and what is saved.
use openwrt_starwatch.Base.{
  ℕ, ◌*◌, Bool, true, false, not, ◌&&◌, ◌||◌, List, [], ◌∷◌, ◌++◌, Option, none, some, String, ltb,
  length, if◌then◌else◌,
}
use openwrt_starwatch.Base.Int.{ℤ, pos, sub_ℕ, ltb_ℤ, leb_ℤ}
use openwrt_starwatch.Base.Maps.{insert, string_eq, nat_eq, ◌==◌}
use openwrt_starwatch.History.{second, unix}
use openwrt_starwatch.Outage.{Entry, source_unreachable, nonnegative_duration}
use openwrt_starwatch.Alert.Engine.{
  Severity, State, firing, resolved, Floats, text, float, seconds, Detail, Rule, Notification,
  Inputs, AlertState, ObstructionCache, Engine, Persisted, Wiring, Effect, enqueued, recorded,
  streamed, stored,
}

module _ (fl : Floats) where
  open fl use {F, gt, zero_float, add_float, div_float, of_count, narrow, widen}

  pub record Condition : Type 0 where
    pub active : Bool
    pub known : Bool
    pub started : ℕ
    pub detail : Detail fl

  -- The duration by which an outage is held: the longer of its own and the time since its start.
  abbrev pub held_for : ℕ → Entry → ℤ
  held_for now e = if ltb_ℤ e.duration (sub_ℕ now e.start) then sub_ℕ now e.start else e.duration

  -- The tests by which the loop over the outages passes one over.
  abbrev pub counts : String → Rule fl → ℕ → ℕ → Entry → Bool
  counts name rule now suppress_until e =
      not (e.cause == "expected_reboot")
      && (e.ongoing && (not (name == "dish_unreachable") || e.source == source_unreachable))
      && not (ltb_ℤ (held_for now e) rule.hold)
      && not (name == "dish_unreachable" && ltb now suppress_until)

  abbrev pub first_outage : String → Rule fl → ℕ → ℕ → List Entry → Option Entry
  first_outage name rule now suppress_until [] = none
  first_outage name rule now suppress_until (e ∷ es) =
      let rest = first_outage name rule now suppress_until es in
      if counts name rule now suppress_until e then some e else rest

  abbrev pub quiet : ℕ → Condition
  quiet now = record { active = false; known = true; started = now; detail = [] }

  abbrev pub outage_condition : String → Rule fl → ℕ → ℕ → List Entry → Condition
  outage_condition name rule now suppress_until es =
      elim (first_outage name rule now suppress_until es) [
        | none ↦ quiet now
        | some e ↦ record {
          active = true;
          known = true;
          started = e.start;
          detail = ("source", text e.source) ∷ ("cause", text e.cause) ∷ [];
        }
      ]

  abbrev pub sum_floats : F → List F → F
  sum_floats total [] = total
  sum_floats total (v ∷ vs) = sum_floats (add_float total (widen v)) vs

  abbrev pub is_fresh : ℕ → ObstructionCache fl → Bool
  is_fresh now c =
      c.valid && leb_ℤ (pos 0) (sub_ℕ now c.at) && ltb_ℤ (sub_ℕ now c.at) (pos (60 * second))

  -- `obstructionAverage`: the average if there is one, and the cache.
  unfoldable pub obstruction_average :
      Wiring fl → ℕ → ObstructionCache fl → Option F × ObstructionCache fl
  obstruction_average w now c = elim (w.history) [
    | none ↦ (none, c)
    | some query ↦ if is_fresh now c then (some c.average, c) else elim (query now) [
      | none ↦ (none, c)
      | some [] ↦ (none, c)
      | some (v ∷ vs) ↦
          let average = div_float (sum_floats zero_float (v ∷ vs)) (of_count (length (v ∷ vs))) in
          (some average, record { at = now; average = average; valid = true })
    ]
  ]

  abbrev pub dish_alert : Inputs fl → String → ℕ → Condition
  dish_alert inputs name now = elim (inputs.dish) [
    | none ↦ record { active = false; known = false; started = now; detail = [] }
    | some d ↦ record { active = d.alerts name; known = true; started = now; detail = [] }
  ]

  abbrev pub unknown : ℕ → Condition
  unknown now = record { active = false; known = false; started = now; detail = [] }

  abbrev pub path_condition : Rule fl → Inputs fl → ℕ → Condition
  path_condition rule inputs now =
      if inputs.wan_available
      then record {
        active =
            gt inputs.probe_loss_5m (narrow rule.threshold)
            || gt inputs.probe_rtt_5m_ms (narrow rule.threshold2);
        known = true;
        started = now;
        detail =
            ("loss_5m", float inputs.probe_loss_5m)
            ∷ ("rtt_5m_ms", float inputs.probe_rtt_5m_ms)
            ∷ [];
      }
      else unknown now

  abbrev pub obstruction_condition : Rule fl → ℕ → Option F → Condition
  obstruction_condition rule now none = unknown now
  obstruction_condition rule now (some average) = record {
    active = gt average rule.threshold;
    known = true;
    started = now;
    detail = ("fraction_24h", float average) ∷ [];
  }

  abbrev pub firmware_condition : Inputs fl → ℕ → Condition
  firmware_condition inputs now = elim (inputs.dish) [
    | none ↦ unknown now
    | some d ↦ record {
      active = d.software_update_state == "REBOOT_REQUIRED" || d.alerts "install_pending";
      known = true;
      started = now;
      detail = [];
    }
  ]

  -- `evaluate`: the condition of an alert, and the cache of the obstruction average.
  unfoldable pub evaluate :
      Wiring fl → String → Rule fl → Inputs fl → ℕ → Engine fl → Condition × ObstructionCache fl
  unfolding obstruction_average
  evaluate w name rule inputs now e =
      if name == "outage_started" || name == "dish_unreachable"
      then (outage_condition name rule now e.suppress_until inputs.outages, e.obstruction)
      else if name == "path_degraded"
      then (path_condition rule inputs now, e.obstruction)
      else if name == "obstruction_high"
      then (let (average, cache) = obstruction_average w now e.obstruction in
          (obstruction_condition rule now average, cache))
      else if name == "thermal_throttle"
      then (dish_alert inputs "thermal_throttle" now, e.obstruction)
      else if name == "thermal_shutdown"
      then (dish_alert inputs "thermal_shutdown" now, e.obstruction)
      else if name == "motors_stuck"
      then (dish_alert inputs "motors_stuck" now, e.obstruction)
      else if name == "water_detected"
      then (dish_alert inputs "dish_water_detected" now, e.obstruction)
      else if name == "mast_not_vertical"
      then (dish_alert inputs "mast_not_near_vertical" now, e.obstruction)
      else if name == "slow_ethernet"
      then (dish_alert inputs "slow_ethernet_speeds" now, e.obstruction)
      else if name == "firmware_pending"
      then (firmware_condition inputs now, e.obstruction)
      else (quiet now, e.obstruction)

  abbrev pub or_empty : Option String → String
  or_empty none = ""
  or_empty (some id) = id

  abbrev pub with_duration : State → AlertState fl → ℕ → Detail fl
  with_duration firing a now = a.detail
  with_duration resolved a now =
      insert "duration_seconds"
        (seconds (
          nonnegative_duration
            (sub_ℕ now (if a.subject_start == 0 then a.fired_at else a.subject_start))))
        a.detail

  abbrev pub notification :
      String → Severity → State → AlertState fl → Inputs fl → ℕ → Notification fl
  notification name severity state a inputs now = record {
    alert = name;
    severity = severity;
    state = state;
    at = unix now;
    detail = with_duration state a now;
    device = or_empty inputs.device_id;
  }

  abbrev pub event_kind : State → String
  event_kind firing = "alert_fired"
  event_kind resolved = "alert_cleared"

  unfoldable pub emit :
      Wiring fl → String → Severity → State → AlertState fl → Inputs fl → ℕ → List (Effect fl)
  emit w name severity state a inputs now =
      let n = notification name severity state a inputs now in
      (if w.has_delivery then enqueued n ∷ [] else [])
      ++ (if w.has_events then recorded (event_kind state) now n ∷ [] else [])
      ++ (if w.has_live then streamed (event_kind state) now n ∷ [] else [])

  -- The states that `persistState` saves: those of the active alerts.
  abbrev pub active_states : List (String × AlertState fl) → List (String × AlertState fl)
  active_states [] = []
  active_states ((n, a) ∷ m) =
      let rest = active_states m in if a.active then (n, a) ∷ rest else rest

  abbrev pub saved_state : Engine fl → Persisted fl
  saved_state e = record {
    states = active_states e.states;
    failover_set = e.failover_set;
    failover_ready = e.failover_ready;
  }

  unfoldable pub persist_state : Wiring fl → Engine fl → List (Effect fl)
  persist_state w e =
      if w.has_store && w.encodes (saved_state e) then stored (saved_state e) ∷ [] else []

  abbrev pub no_alert : AlertState fl
  no_alert = record {
    active = false;
    fired_at = 0;
    subject_start = 0;
    clear_since = 0;
    detail = [];
  }

-- ===== src/Config/Load.antt =====
-- `Load` of router/internal/config/config.go: the configuration that a file gives. The file's text, and
-- the rules of `alert.DefaultRules`, are arguments.
pub mod Bounds
pub mod Fields
pub mod Valid
pub mod Ran
use openwrt_starwatch.Base.{
  String, ℕ, zero, suc, ◌+◌, ◌-◌, ◌*◌, ◌/◌, ◌≡◌, Bool, true, false, not, ◌&&◌, ◌||◌, List, [], ◌∷◌,
  ◌++◌, map, Option, none, some, if◌then◌else◌,
}
use openwrt_starwatch.Alert.Engine.{Rule, default_rules}
use openwrt_starwatch.Base.Int.{ℤ, pos, negsuc, ltb_ℤ}
use openwrt_starwatch.Base.Maps.{lookup, insert}
use openwrt_starwatch.Base.Strings.{Text, text_eq, pair_eq, fields}
use openwrt_starwatch.Base.Text.{codes}
use openwrt_starwatch.Config.Uci.{Section, Failure, ok, err, parse_uci, find, is_empty}
use openwrt_starwatch.Config.Settings.{
  Numbers, HistoryConfig, AlertRuleConfig, AlertsConfig, BatteryConfig, Config, of_seconds,
  nanoseconds,
}
use openwrt_starwatch.Config.Change.{main_section, history_section, alerts_section, battery_section}
use openwrt_starwatch.Config.Readers.{
  Problem, bad_file, bad_option, Loaded, failed, loaded, text_of, read_option, tested, no_test,
  to_seconds, then_loaded, in_range, year_seconds, run_loads, parse_int, parse_seconds, parse_bool,
  parse_float, battery_number, parse_battery_number, parse_text,
}

module _ (num : Numbers) where
  open num use {floats, of_ℕ, decimal, read_time}
  open floats use {F}

  abbrev pub Load : Type 0
  Load = Config num → Loaded (Config num)

  abbrev pub main_loads : Section → List Load
  main_loads s =
      (λ cfg.
        then_loaded (parse_text num s (codes "listen") cfg.listen) (λ v. record cfg { listen = v }))
      ∷ (λ cfg.
          then_loaded (parse_text num s (codes "token") cfg.token) (λ v. record cfg { token = v }))
      ∷ (λ cfg.
          then_loaded (parse_text num s (codes "dish_addr") cfg.dish_addr)
            (λ v. record cfg { dish_addr = v }))
      ∷ (λ cfg. loaded (record cfg { wan_interface = text_of s (codes "wan_iface") }))
      ∷ (λ cfg.
          then_loaded (read_option s (codes "probe_hosts") cfg.probe_hosts (λ v. loaded (fields v)))
            (λ v. record cfg { probe_hosts = v }))
      ∷ (λ cfg.
          then_loaded (parse_int num s (codes "port") 1 65535 cfg.port)
            (λ v. record cfg { port = v }))
      ∷ (λ cfg.
          then_loaded (parse_seconds num s (codes "poll_status") cfg.poll_status)
            (λ v. record cfg { poll_status = v }))
      ∷ (λ cfg.
          then_loaded (parse_seconds num s (codes "poll_map") cfg.poll_map)
            (λ v. record cfg { poll_map = v }))
      ∷ (λ cfg.
          then_loaded (parse_seconds num s (codes "probe_interval") cfg.probe_interval)
            (λ v. record cfg { probe_interval = v }))
      ∷ (λ cfg.
          then_loaded (parse_bool num s (codes "location_enabled") cfg.location_enabled)
            (λ v. record cfg { location_enabled = v }))
      ∷ (λ cfg.
          then_loaded (parse_bool num s (codes "manage_dish_route") cfg.manage_dish_route)
            (λ v. record cfg { manage_dish_route = v }))
      ∷ []

  abbrev pub put_history : Config num → HistoryConfig → Config num
  put_history cfg h = record cfg { history = h }

  abbrev pub history_loads : Section → List Load
  history_loads s =
      (λ cfg.
        let h = cfg.history in
        then_loaded (parse_int num s (codes "ram_hours") 1 8760 h.ram_hours)
          (λ v. put_history cfg (record h { ram_hours = v })))
      ∷ (λ cfg.
          let h = cfg.history in
          then_loaded (parse_int num s (codes "minute_days") 1 3650 h.minute_days)
            (λ v. put_history cfg (record h { minute_days = v })))
      ∷ (λ cfg.
          let h = cfg.history in
          then_loaded (parse_int num s (codes "quarter_days") 1 3650 h.quarter_days)
            (λ v. put_history cfg (record h { quarter_days = v })))
      ∷ (λ cfg.
          let h = cfg.history in
          then_loaded (parse_text num s (codes "db_path") h.db_path)
            (λ v. put_history cfg (record h { db_path = v })))
      ∷ (λ cfg.
          let h = cfg.history in
          then_loaded (parse_seconds num s (codes "flush_secs") h.flush_interval)
            (λ v. put_history cfg (record h { flush_interval = v })))
      ∷ []

  -- A rule that the map does not have is the zero value.
  abbrev pub zero_rule : AlertRuleConfig num
  zero_rule = record {
    enabled = false;
    threshold = of_ℕ 0;
    threshold2 = of_ℕ 0;
    hold = pos 0;
    clear_hold = pos 0;
  }

  abbrev pub rule_of : Text → Config num → AlertRuleConfig num
  rule_of name cfg = elim (lookup name cfg.alerts.rules) [ none ↦ zero_rule | some r ↦ r ]

  abbrev pub put_loaded : Text → Config num → AlertRuleConfig num → Config num
  put_loaded name cfg rule =
      let a = cfg.alerts in record cfg { alerts = record a { rules = insert name rule a.rules } }

  abbrev pub enabled_load : Section → Text → Load
  enabled_load s name cfg =
      let rule = rule_of name cfg in
      then_loaded (parse_bool num s (name ++ codes "_enabled") rule.enabled)
        (λ v. put_loaded name cfg (record rule { enabled = v }))

  -- `parseAlertSeconds`
  abbrev pub hold_load : Section → Text → Text → Load
  hold_load s option name cfg =
      let rule = rule_of name cfg in
      then_loaded (parse_seconds num s option rule.hold)
        (λ v. put_loaded name cfg (record rule { hold = v }))

  abbrev pub clear_load : Section → Text → Text → Load
  clear_load s option name cfg =
      let rule = rule_of name cfg in
      then_loaded (parse_seconds num s option rule.clear_hold)
        (λ v. put_loaded name cfg (record rule { clear_hold = v }))

  abbrev pub threshold_load : Section → Text → ℕ → F → Text → Load
  threshold_load s option high scale name cfg =
      let rule = rule_of name cfg in
      then_loaded (parse_float num s option 0 high scale rule.threshold)
        (λ v. put_loaded name cfg (record rule { threshold = v }))

  abbrev pub threshold2_load : Section → Text → ℕ → F → Text → Load
  threshold2_load s option high scale name cfg =
      let rule = rule_of name cfg in
      then_loaded (parse_float num s option 0 high scale rule.threshold2)
        (λ v. put_loaded name cfg (record rule { threshold2 = v }))

  abbrev pub alerts_loads : Section → List Load
  alerts_loads s =
      (λ cfg.
        let a = cfg.alerts in
        loaded (record cfg {
          alerts = record a {
            webhook_url = text_of s (codes "webhook_url");
            ntfy_url = text_of s (codes "ntfy_url");
          };
        }))
      ∷ enabled_load s (codes "outage_started")
      ∷ enabled_load s (codes "dish_unreachable")
      ∷ enabled_load s (codes "path_degraded")
      ∷ enabled_load s (codes "obstruction_high")
      ∷ enabled_load s (codes "thermal_throttle")
      ∷ enabled_load s (codes "thermal_shutdown")
      ∷ enabled_load s (codes "motors_stuck")
      ∷ enabled_load s (codes "water_detected")
      ∷ enabled_load s (codes "mast_not_vertical")
      ∷ enabled_load s (codes "slow_ethernet")
      ∷ enabled_load s (codes "firmware_pending")
      ∷ enabled_load s (codes "failover_event")
      ∷ hold_load s (codes "outage_started_secs") (codes "outage_started")
      ∷ hold_load s (codes "dish_unreachable_secs") (codes "dish_unreachable")
      ∷ clear_load s (codes "path_clear_secs") (codes "path_degraded")
      ∷ threshold_load s (codes "path_loss_percent") 100 (decimal 1 2) (codes "path_degraded")
      ∷ threshold2_load s (codes "path_rtt_ms") 60000 (of_ℕ 1) (codes "path_degraded")
      ∷ threshold_load s (codes "obstruction_percent") 100 (decimal 1 2) (codes "obstruction_high")
      ∷ []

  abbrev pub put_battery : Config num → BatteryConfig num → Config num
  put_battery cfg b = record cfg { battery = b }

  abbrev pub battery_loads : Section → List Load
  battery_loads s =
      (λ cfg.
        let b = cfg.battery in
        then_loaded (parse_bool num s (codes "enabled") b.enabled)
          (λ v. put_battery cfg (record b { enabled = v })))
      ∷ (λ cfg.
          let b = cfg.battery in
          then_loaded (parse_battery_number num s (codes "capacity_wh") 0 100000 true b.capacity_wh)
            (λ v. put_battery cfg (record b { capacity_wh = v })))
      ∷ (λ cfg.
          let b = cfg.battery in
          then_loaded
            (parse_battery_number num s (codes "state_of_charge_percent") 0 100 false
              b.state_of_charge_percent)
            (λ v. put_battery cfg (record b { state_of_charge_percent = v })))
      ∷ (λ cfg.
          let b = cfg.battery in
          then_loaded
            (parse_battery_number num s (codes "reserve_percent") 0 95 false b.reserve_percent)
            (λ v. put_battery cfg (record b { reserve_percent = v })))
      ∷ (λ cfg.
          let b = cfg.battery in
          then_loaded
            (parse_battery_number num s (codes "conversion_efficiency_percent") 1 100 false
              b.conversion_efficiency_percent)
            (λ v. put_battery cfg (record b { conversion_efficiency_percent = v })))
      ∷ (λ cfg.
          let b = cfg.battery in
          then_loaded
            (read_option s (codes "state_of_charge_updated_at") b.state_of_charge_updated_at (λ v.
              then_loaded (tested (codes "state_of_charge_updated_at") no_test (read_time v))
                (λ t. some t)))
            (λ v. put_battery cfg (record b { state_of_charge_updated_at = v })))
      ∷ []

  -- A section's options, where the file has the section.
  abbrev pub section_loads : (Section → List Load) → Text × Text → List Section → Load
  section_loads loads key doc cfg = elim (find key doc) [
    | none ↦ loaded cfg
    | some s ↦ run_loads (loads s) cfg
  ]

  abbrev pub rule_config : String × Rule floats → Text × AlertRuleConfig num
  rule_config e = (
    codes e.0,
    record {
      enabled = (e.1).enabled;
      threshold = (e.1).threshold;
      threshold2 = (e.1).threshold2;
      hold = (e.1).hold;
      clear_hold = (e.1).clear_hold;
    },
  )

  -- `defaults`
  unfoldable pub defaults : Config num
  unfolding default_rules
  defaults = record {
    listen = codes "0.0.0.0";
    port = pos 9633;
    token = [];
    dish_addr = codes "192.168.100.1:9200";
    poll_status = pos nanoseconds;
    poll_map = pos (900 * nanoseconds);
    wan_interface = [];
    probe_hosts = codes "1.1.1.1" ∷ codes "8.8.8.8" ∷ [];
    probe_interval = pos (2 * nanoseconds);
    location_enabled = false;
    manage_dish_route = true;
    history = record {
      ram_hours = pos 1;
      minute_days = pos 7;
      quarter_days = pos 30;
      db_path = codes "/etc/starwatch/history.db";
      flush_interval = pos (300 * nanoseconds);
    };
    alerts = record {
      webhook_url = [];
      ntfy_url = [];
      rules = map rule_config (default_rules floats decimal);
    };
    battery = record {
      enabled = false;
      capacity_wh = of_ℕ 1000;
      state_of_charge_percent = of_ℕ 100;
      reserve_percent = of_ℕ 10;
      conversion_efficiency_percent = of_ℕ 90;
      state_of_charge_updated_at = none;
    };
  }

  abbrev pub load_steps : List Section → List Load
  load_steps doc =
      section_loads main_loads main_section doc
      ∷ section_loads history_loads history_section doc
      ∷ section_loads alerts_loads alerts_section doc
      ∷ section_loads battery_loads battery_section doc
      ∷ []

  -- `Load`, of the text of the file.
  unfoldable pub load : Text → Loaded (Config num)
  unfolding parse_uci run_loads defaults then_loaded
  load source = elim (parse_uci source) [
    | err e ↦ failed (bad_file e)
    | ok doc ↦ run_loads (load_steps doc) defaults
  ]

-- ===== src/Config/Apply.antt =====
-- `applyUpdate` of router/internal/config/manager.go: an update, checked and made on a copy of the
-- configuration, and the options to be written for it. The names of the rules come in the order in which
-- the code iterates over them.
pub mod Steps
use openwrt_starwatch.Base.{
  ℕ, ◌≡◌, refl, Bool, true, false, not, ◌&&◌, ◌||◌, List, [], ◌∷◌, ◌++◌, Option, none, some,
  if◌then◌else◌,
}
use openwrt_starwatch.Base.Int.{ℤ, pos, leb_ℤ, ltb_ℤ}
use openwrt_starwatch.Base.Maps.{lookup, insert, nat_eq, ◌==◌}
use openwrt_starwatch.Base.Strings.{Text, text_eq}
use openwrt_starwatch.Base.Text.{codes}
use openwrt_starwatch.Config.Uci.{OptionValue, is_empty}
use openwrt_starwatch.Config.Settings.{
  Numbers, MainUpdate, HistoryUpdate, HistoryConfig, AlertRuleConfig, AlertsConfig, BatteryConfig,
  Config, RuleUpdate, AlertsUpdate, BatteryUpdate, Update, of_seconds,
}
use openwrt_starwatch.Config.Change.{
  Refusal, Outcome, Step, set_field, run_steps, check_if, no_check, option_value, print_bool,
  join_space, contains_break, main_section, history_section, alerts_section, battery_section,
  is_given, threshold_option, hold_option, check_hold, refused, done, restart_managed, not_positive,
  empty_hosts, has_newline, unknown_rule, negative, not_configurable, out_of_range,
}

module _ (num : Numbers) where
  open num use {floats, lt, finite, of_ℕ, times, print_float, print_int, print_time}
  open floats use {F}

  -- The value that is written for a threshold.
  abbrev pub scaled : Bool → F → F
  scaled percent v = times v (of_ℕ (if percent then 100 else 1))

  abbrev pub main_steps : MainUpdate → List (Step (Config num))
  main_steps u =
      set_field u.poll_map (λ v. check_if (leb_ℤ v (pos 0)) (not_positive (codes "poll_map")))
        (λ v cfg. record cfg { poll_map = of_seconds v })
        (λ v. option_value main_section (codes "poll_map") (print_int v))
      ∷ set_field u.probe_interval
          (λ v. check_if (leb_ℤ v (pos 0)) (not_positive (codes "probe_interval")))
          (λ v cfg. record cfg { probe_interval = of_seconds v })
          (λ v. option_value main_section (codes "probe_interval") (print_int v))
      ∷ set_field u.probe_hosts (λ v. elim v [ [] ↦ some empty_hosts | h ∷ hs ↦ none ])
          (λ v cfg. record cfg { probe_hosts = v })
          (λ v. option_value main_section (codes "probe_hosts") (join_space v))
      ∷ set_field u.location_enabled no_check (λ v cfg. record cfg { location_enabled = v })
          (λ v. option_value main_section (codes "location_enabled") (print_bool v))
      ∷ []

  unfoldable pub update_main : MainUpdate → Step (Config num)
  unfolding set_field run_steps
  update_main u st =
      if is_given u.listen
        || is_given u.port
        || is_given u.token
        || is_given u.dish_addr
        || is_given u.poll_status
        || is_given u.wan_interface
      then refused restart_managed
      else run_steps (main_steps u) st

  abbrev pub history_steps : HistoryUpdate → List (Step (Config num))
  history_steps u =
      set_field u.minute_days (λ v. check_if (ltb_ℤ v (pos 1)) (not_positive (codes "minute_days")))
        (λ v cfg. let h = cfg.history in record cfg { history = record h { minute_days = v } })
        (λ v. option_value history_section (codes "minute_days") (print_int v))
      ∷ set_field u.quarter_days
          (λ v. check_if (ltb_ℤ v (pos 1)) (not_positive (codes "quarter_days")))
          (λ v cfg. let h = cfg.history in record cfg { history = record h { quarter_days = v } })
          (λ v. option_value history_section (codes "quarter_days") (print_int v))
      ∷ []

  unfoldable pub update_history : HistoryUpdate → Step (Config num)
  unfolding set_field run_steps
  update_history u st =
      if is_given u.ram_hours || is_given u.db_path || is_given u.flush_secs
      then refused restart_managed
      else run_steps (history_steps u) st

  abbrev pub check_threshold : Text → Text → Text → F → Option Refusal
  check_threshold name option field v =
      if lt v (of_ℕ 0)
      then some (negative field)
      else check_if (is_empty option) (not_configurable field name)

  -- The patch of one rule, on a copy of the rule.
  abbrev pub rule_steps : Text → RuleUpdate num → List (Step (AlertRuleConfig num))
  rule_steps name u =
      set_field u.enabled no_check (λ v rule. record rule { enabled = v })
        (λ v. option_value alerts_section (name ++ codes "_enabled") (print_bool v))
      ∷ set_field u.threshold
          (check_threshold name (threshold_option name false).0 (codes "threshold"))
          (λ v rule. record rule { threshold = v })
          (λ v.
            option_value alerts_section (threshold_option name false).0
              (print_float (scaled (threshold_option name false).1 v)))
      ∷ set_field u.threshold2
          (check_threshold name (threshold_option name true).0 (codes "threshold2"))
          (λ v rule. record rule { threshold2 = v })
          (λ v.
            option_value alerts_section (threshold_option name true).0
              (print_float (scaled (threshold_option name true).1 v)))
      ∷ set_field u.hold_seconds (check_hold name (hold_option name false) (codes "hold_seconds"))
          (λ v rule. record rule { hold = of_seconds v })
          (λ v. option_value alerts_section (hold_option name false) (print_int v))
      ∷ set_field u.clear_seconds (check_hold name (hold_option name true) (codes "clear_seconds"))
          (λ v rule. record rule { clear_hold = of_seconds v })
          (λ v. option_value alerts_section (hold_option name true) (print_int v))
      ∷ []

  abbrev pub put_rule : Text → AlertRuleConfig num → Config num → Config num
  put_rule name rule cfg =
      let a = cfg.alerts in record cfg { alerts = record a { rules = insert name rule a.rules } }

  -- What the patch of a rule makes of the configuration.
  abbrev pub stored : Text → Config num → Outcome (AlertRuleConfig num) → Outcome (Config num)
  stored name cfg (refused e) = refused e
  stored name cfg (done (rule, changes)) = done (put_rule name rule cfg, changes)

  unfoldable pub patch_rule : Text × RuleUpdate num → Step (Config num)
  unfolding run_steps lookup insert
  patch_rule (name, u) (cfg, changes) = elim (lookup name cfg.alerts.rules) [
    | none ↦ refused (unknown_rule name)
    | some rule ↦ stored name cfg (run_steps (rule_steps name u) (rule, changes))
  ]

  abbrev pub rule_patches : List (Text × RuleUpdate num) → List (Step (Config num))
  rule_patches [] = []
  rule_patches (patch ∷ patches) = patch_rule patch ∷ rule_patches patches

  abbrev pub alerts_steps : AlertsUpdate num → List (Step (Config num))
  alerts_steps u =
      set_field u.webhook_url (λ v. check_if (contains_break v) (has_newline (codes "webhook_url")))
        (λ v cfg. let a = cfg.alerts in record cfg { alerts = record a { webhook_url = v } })
        (λ v. option_value alerts_section (codes "webhook_url") v)
      ∷ set_field u.ntfy_url (λ v. check_if (contains_break v) (has_newline (codes "ntfy_url")))
          (λ v cfg. let a = cfg.alerts in record cfg { alerts = record a { ntfy_url = v } })
          (λ v. option_value alerts_section (codes "ntfy_url") v)
      ∷ rule_patches u.rules

  -- Not a finite number from `low` to `high`.
  abbrev pub outside : ℕ → ℕ → F → Bool
  outside low high v = not (finite v) || lt v (of_ℕ low) || lt (of_ℕ high) v

  abbrev pub battery_steps : ℕ → BatteryUpdate num → List (Step (Config num))
  battery_steps now u =
      set_field u.enabled no_check
        (λ v cfg. let b = cfg.battery in record cfg { battery = record b { enabled = v } })
        (λ v. option_value battery_section (codes "enabled") (print_bool v))
      ∷ set_field u.capacity_wh
          (λ v.
            check_if (not (finite v) || not (lt (of_ℕ 0) v) || lt (of_ℕ 100000) v)
              (out_of_range (codes "capacity_wh")))
          (λ v cfg. let b = cfg.battery in record cfg { battery = record b { capacity_wh = v } })
          (λ v. option_value battery_section (codes "capacity_wh") (print_float v))
      ∷ set_field u.state_of_charge_percent
          (λ v. check_if (outside 0 100 v) (out_of_range (codes "state_of_charge_percent")))
          (λ v cfg.
            let b = cfg.battery in
            record cfg {
              battery = record b {
                state_of_charge_percent = v;
                state_of_charge_updated_at = some now;
              };
            })
          (λ v.
            option_value battery_section (codes "state_of_charge_percent") (print_float v)
            ++ option_value battery_section (codes "state_of_charge_updated_at") (print_time now))
      ∷ set_field u.reserve_percent
          (λ v. check_if (outside 0 95 v) (out_of_range (codes "reserve_percent")))
          (λ v cfg.
            let b = cfg.battery in record cfg { battery = record b { reserve_percent = v } })
          (λ v. option_value battery_section (codes "reserve_percent") (print_float v))
      ∷ set_field u.conversion_efficiency_percent
          (λ v. check_if (outside 1 100 v) (out_of_range (codes "conversion_efficiency_percent")))
          (λ v cfg.
            let b = cfg.battery in
            record cfg { battery = record b { conversion_efficiency_percent = v } })
          (λ v.
            option_value battery_section (codes "conversion_efficiency_percent") (print_float v))
      ∷ []

  abbrev pub part {ℓ} : {A : Type ℓ} → (A → Step (Config num)) → Option A → Step (Config num)
  part step none st = done st
  part step (some u) st = step u st

  abbrev pub apply_steps : Update num → ℕ → List (Step (Config num))
  apply_steps u now =
      part update_main u.main
      ∷ part update_history u.history
      ∷ part (λ a. run_steps (alerts_steps a)) u.alerts
      ∷ part (λ b. run_steps (battery_steps now b)) u.battery
      ∷ []

  unfoldable pub apply_update : Update num → ℕ → Config num → Outcome (Config num)
  unfolding run_steps update_main update_history patch_rule set_field
  apply_update u now cfg = run_steps (apply_steps u now) (cfg, [])

-- ===== src/Config/Apply/Steps/Fixed.antt =====
-- What an update leaves as it is: the fields that take a restart, and the names of the rules.
use mathlib.Core.Path.{subst}
use openwrt_starwatch.Base.{
  ◌≡◌, refl, sym, ◌∙◌, Bool, ◌||◌, List, [], ◌∷◌, map, Option, none, some, ℕ, arith, Option-cases,
  Bool-cases, inl, inr,
}
use openwrt_starwatch.Base.Int.{ℤ}
use openwrt_starwatch.Base.Effects.{All}
use openwrt_starwatch.Base.Maps.{lookup, insert, ◌==◌}
use openwrt_starwatch.Base.Strings.{Text, text_eq}
use openwrt_starwatch.Config.Uci.{OptionValue}
use openwrt_starwatch.Config.Settings.{
  Numbers, MainUpdate, HistoryUpdate, AlertRuleConfig, Config, RuleUpdate, AlertsUpdate,
  BatteryUpdate, Update,
}
use openwrt_starwatch.Config.Change.{
  Outcome, refused, done, restart_managed, unknown_rule, Step, run_steps, is_given,
}
use openwrt_starwatch.Config.Apply.{
  update_main, update_history, patch_rule, rule_patches, rule_steps, stored, alerts_steps,
  battery_steps, main_steps, history_steps, part, apply_steps, apply_update,
}
use openwrt_starwatch.Config.Apply.Steps.{
  Holds, Holds-unless, Preserves, of_result, set_field-Preserves, run_steps-Preserves,
}

-- The keys of a map that has a key do not change with its value.
pub keys-insert {ℓ} :
    {V : Type ℓ} (key : Text) (value old : V) (m : List (Text × V))
    → lookup key m ≡ some old
    → map (λ (e : Text × V). e.0) (insert key value m) ≡ map (λ (e : Text × V). e.0) m
unfolding lookup insert
keys-insert key value old [] h = cc
keys-insert key value old ((own, v) ∷ m) h = elim (Bool-cases (own == key)) [
  | inl same ↦ ground (arith, same, text_eq.test_iff own key)
  | inr differs ↦ ground (arith, differs, h, keys-insert key value old m)
]

module _ (num : Numbers) where
  abbrev pub rule_names : Config num → List Text
  rule_names cfg = map (λ (e : Text × AlertRuleConfig num). e.0) cfg.alerts.rules

  -- The fields that take a restart.
  abbrev pub restart_fields :
      Config num → (Text × ℤ × Text × Text) × (ℤ × Text × Bool) × (ℤ × Text × ℤ)
  restart_fields cfg = (
    (cfg.listen, cfg.port, cfg.token, cfg.dish_addr),
    (cfg.poll_status, cfg.wan_interface, cfg.manage_dish_route),
    (cfg.history.ram_hours, cfg.history.db_path, cfg.history.flush_interval),
  )

  module _ (first : Config num) where
    abbrev Same : Config num × List OptionValue → Type 0
    Same st = (restart_fields st.0 ≡ restart_fields first) × (rule_names st.0 ≡ rule_names first)

    abbrev Keeps : Step (Config num) → Type 0
    Keeps step = Preserves Same step

    main_Keeps : (u : MainUpdate) → Keeps (update_main num u)
    unfolding update_main
    main_Keeps u st p =
        Holds-unless Same
          (is_given u.listen
            || is_given u.port
            || is_given u.token
            || is_given u.dish_addr
            || is_given u.poll_status
            || is_given u.wan_interface)
          restart_managed (run_steps (main_steps num u) st)
          (run_steps-Preserves Same (main_steps num u)
            (
              set_field-Preserves Same u.poll_map _ _ _ (λ v s l e c q. q),
              (
                set_field-Preserves Same u.probe_interval _ _ _ (λ v s l e c q. q),
                (
                  set_field-Preserves Same u.probe_hosts _ _ _ (λ v s l e c q. q),
                  (set_field-Preserves Same u.location_enabled _ _ _ (λ v s l e c q. q), tt),
                ),
              ),
            )
            st p)

    history_Keeps : (u : HistoryUpdate) → Keeps (update_history num u)
    unfolding update_history
    history_Keeps u st p =
        Holds-unless Same (is_given u.ram_hours || is_given u.db_path || is_given u.flush_secs)
          restart_managed (run_steps (history_steps num u) st)
          (run_steps-Preserves Same (history_steps num u)
            (
              set_field-Preserves Same u.minute_days _ _ _ (λ v s l e c q. q),
              (set_field-Preserves Same u.quarter_days _ _ _ (λ v s l e c q. q), tt),
            )
            st p)

    rule_Keeps : (patch : Text × RuleUpdate num) → Keeps (patch_rule num patch)
    unfolding patch_rule
    rule_Keeps (name, u) (cfg, changes) p = elim (Option-cases (lookup name cfg.alerts.rules)) [
      | inl missing ↦ subst (λ r. Holds Same (by_rule r)) {x = none} (sym missing) tt
      | inr (rule, found) ↦
          subst (λ r. Holds Same (by_rule r)) {x = some rule} (sym found)
            (by_outcome rule found (run_steps (rule_steps num name u) (rule, changes)))
    ]
      where
        by_rule : Option (AlertRuleConfig num) → Outcome (Config num)
        by_rule r = elim r as (λ x. Outcome (Config num)) [
          | none ↦ refused (unknown_rule name)
          | some rule ↦ stored num name cfg (run_steps (rule_steps num name u) (rule, changes))
        ]

        by_outcome :
            (rule : AlertRuleConfig num)
            → lookup name cfg.alerts.rules ≡ some rule
            → (o : Outcome (AlertRuleConfig num)) → Holds Same (stored num name cfg o)
        by_outcome rule found (refused e) = tt
        by_outcome rule found (done (new, c)) =
            (p.0, keys-insert name new rule cfg.alerts.rules found ∙ p.1)

    rules_Keeps : (patches : List (Text × RuleUpdate num)) → All Keeps (rule_patches num patches)
    rules_Keeps [] = tt
    rules_Keeps (patch ∷ patches) = (rule_Keeps patch, rules_Keeps patches)

    alerts_Keeps : (u : AlertsUpdate num) → Keeps (run_steps (alerts_steps num u))
    alerts_Keeps u = run_steps-Preserves Same (alerts_steps num u) (
      set_field-Preserves Same u.webhook_url _ _ _ (λ v s l e c q. q),
      (set_field-Preserves Same u.ntfy_url _ _ _ (λ v s l e c q. q), rules_Keeps u.rules),
    )

    battery_Keeps : (now : ℕ) (u : BatteryUpdate num) → Keeps (run_steps (battery_steps num now u))
    battery_Keeps now u = run_steps-Preserves Same (battery_steps num now u) (
      set_field-Preserves Same u.enabled _ _ _ (λ v s l e c q. q),
      (
        set_field-Preserves Same u.capacity_wh _ _ _ (λ v s l e c q. q),
        (
          set_field-Preserves Same u.state_of_charge_percent _ _ _ (λ v s l e c q. q),
          (
            set_field-Preserves Same u.reserve_percent _ _ _ (λ v s l e c q. q),
            (set_field-Preserves Same u.conversion_efficiency_percent _ _ _ (λ v s l e c q. q), tt),
          ),
        ),
      ),
    )

    part-Keeps :
        {A : Type 0} (step : A → Step (Config num)) (u : Option A)
        → ((a : A) → Keeps (step a))
        → Keeps (part num step u)
    part-Keeps step none h st p = p
    part-Keeps step (some a) h st p = h a st p

  -- An accepted update leaves the fields that take a restart as they are, the token among them, and
  -- neither adds nor removes an alert rule.
  pub apply_update-restart_fields :
      (u : Update num) (now : ℕ) (cfg new : Config num) (changes : List OptionValue)
      → apply_update num u now cfg ≡ done (new, changes)
      → (restart_fields new ≡ restart_fields cfg) × (rule_names new ≡ rule_names cfg)
  unfolding apply_update
  apply_update-restart_fields u now cfg new changes e =
      of_result (Same cfg) (apply_update num u now cfg) (new, changes) e
        (run_steps-Preserves (Same cfg) (apply_steps num u now)
          (
            part-Keeps cfg (update_main num) u.main (main_Keeps cfg),
            (
              part-Keeps cfg (update_history num) u.history (history_Keeps cfg),
              (
                part-Keeps cfg (λ a. run_steps (alerts_steps num a)) u.alerts (alerts_Keeps cfg),
                (
                  part-Keeps cfg (λ b. run_steps (battery_steps num now b)) u.battery
                      (battery_Keeps cfg now),
                  tt,
                ),
              ),
            ),
          )
          (cfg, []) (refl, refl))

-- ===== src/Config/Apply/Steps/Written.antt =====
-- What an accepted update writes can be written to the file: it does not break its lines or its options.
use mathlib.Core.Path.{subst}
use openwrt_starwatch.Base.{
  ◌≡◌, refl, Bool, false, ◌||◌, List, [], ◌++◌, Option, none, some, ℕ, arith,
}
use openwrt_starwatch.Base.Effects.{All, All-append}
use openwrt_starwatch.Base.Maps.{nat_eq}
use openwrt_starwatch.Base.Strings.{text_eq, is_space, OneLine}
use openwrt_starwatch.Base.Text.{codes}
use openwrt_starwatch.Config.Uci.{OptionValue}
use openwrt_starwatch.Config.Rewrite.Appended.{IsClean, AreClean}
use openwrt_starwatch.Config.Settings.{
  Numbers, MainUpdate, HistoryUpdate, Config, AlertsUpdate, BatteryUpdate, Update,
}
use openwrt_starwatch.Config.Change.{
  Refusal, done, restart_managed, Step, run_steps, is_given, check_if, contains_break,
}
use openwrt_starwatch.Config.Apply.{
  update_main, update_history, alerts_steps, battery_steps, main_steps, history_steps, part,
  apply_steps, apply_update,
}
use openwrt_starwatch.Config.Apply.Steps.{
  Holds-unless, Preserves, of_result, set_field-Preserves, run_steps-Preserves,
}
use openwrt_starwatch.Config.Apply.Steps.Clean.{
  join_space-OneLine, contains_break-OneLine, print_bool-OneLine,
}
use openwrt_starwatch.Config.Apply.Steps.Values.{
  PrintsLines, HostLines, WordNames, clean_main, clean_history, clean_alerts, clean_battery,
}
use openwrt_starwatch.Config.Apply.Steps.Rules.{Fine, patches_Fine}

module _ (num : Numbers) (prints : PrintsLines num) where
  open prints use {int_line, float_line, time_line}

  -- More changes, where the rules stay.
  more :
      (l new : List OptionValue) (cfg : Config num)
      → AreClean new
      → (Fine num) (cfg, l)
      → AreClean (l ++ new)
  more l new cfg h q = All-append IsClean l new q.0 h

  main_Fine : (u : MainUpdate) → HostLines (some u) → Preserves (Fine num) (update_main num u)
  unfolding update_main is_space
  main_Fine u hosts st p =
      Holds-unless (Fine num)
        (is_given u.listen
          || is_given u.port
          || is_given u.token
          || is_given u.dish_addr
          || is_given u.poll_status
          || is_given u.wan_interface)
        restart_managed (run_steps (main_steps num u) st)
        (run_steps-Preserves (Fine num) (main_steps num u)
          (
            set_field-Preserves (Fine num) u.poll_map _ _ _ (λ v s l e c q.
                (more l _ s (clean_main (codes "poll_map") _ refl refl (int_line v)) q, q.1)),
            (
              set_field-Preserves (Fine num) u.probe_interval _ _ _ (λ v s l e c q. (
                more l _ s (clean_main (codes "probe_interval") _ refl refl (int_line v)) q,
                q.1,
              )),
              (
                set_field-Preserves (Fine num) u.probe_hosts _ _ _ (λ v s l e c q. (
                  more l _ s
                      (clean_main (codes "probe_hosts") _ refl refl (
                        join_space-OneLine v (
                          subst
                            (λ o. elim o as (λ x. Type 0) [
                              | none ↦ Unit
                              | some hs ↦ All OneLine hs
                            ])
                            e hosts)))
                      q,
                  q.1,
                )),
                (
                  set_field-Preserves (Fine num) u.location_enabled _ _ _ (λ v s l e c q. (
                    more l _ s
                        (clean_main (codes "location_enabled") _ refl refl (print_bool-OneLine v))
                        q,
                    q.1,
                  )),
                  tt,
                ),
              ),
            ),
          )
          st p)

  history_Fine : (u : HistoryUpdate) → Preserves (Fine num) (update_history num u)
  unfolding update_history is_space
  history_Fine u st p =
      Holds-unless (Fine num) (is_given u.ram_hours || is_given u.db_path || is_given u.flush_secs)
        restart_managed (run_steps (history_steps num u) st)
        (run_steps-Preserves (Fine num) (history_steps num u)
          (
            set_field-Preserves (Fine num) u.minute_days _ _ _ (λ v s l e c q.
                (more l _ s (clean_history (codes "minute_days") _ refl refl (int_line v)) q, q.1)),
            (
              set_field-Preserves (Fine num) u.quarter_days _ _ _ (λ v s l e c q. (
                more l _ s (clean_history (codes "quarter_days") _ refl refl (int_line v)) q,
                q.1,
              )),
              tt,
            ),
          )
          st p)

  no_break : (b : Bool) (e : Refusal) → check_if b e ≡ none → b ≡ false
  no_break b e h = ground (arith, h)

  alerts_Fine : (u : AlertsUpdate num) → Preserves (Fine num) (run_steps (alerts_steps num u))
  unfolding is_space
  alerts_Fine u = run_steps-Preserves (Fine num) (alerts_steps num u) (
    set_field-Preserves (Fine num) u.webhook_url _ _ _ (λ v s l e c q. (
      more l _ s
          (clean_alerts (codes "webhook_url") v refl refl
            (contains_break-OneLine v (no_break (contains_break v) _ c)))
          q,
      q.1,
    )),
    (
      set_field-Preserves (Fine num) u.ntfy_url _ _ _ (λ v s l e c q. (
        more l _ s
            (clean_alerts (codes "ntfy_url") v refl refl
              (contains_break-OneLine v (no_break (contains_break v) _ c)))
            q,
        q.1,
      )),
      patches_Fine num prints u.rules,
    ),
  )

  battery_Fine :
      (now : ℕ) (u : BatteryUpdate num) → Preserves (Fine num) (run_steps (battery_steps num now u))
  unfolding is_space
  battery_Fine now u = run_steps-Preserves (Fine num) (battery_steps num now u) (
    set_field-Preserves (Fine num) u.enabled _ _ _ (λ v s l e c q.
        (more l _ s (clean_battery (codes "enabled") _ refl refl (print_bool-OneLine v)) q, q.1)),
    (
      set_field-Preserves (Fine num) u.capacity_wh _ _ _ (λ v s l e c q.
          (more l _ s (clean_battery (codes "capacity_wh") _ refl refl (float_line v)) q, q.1)),
      (
        set_field-Preserves (Fine num) u.state_of_charge_percent _ _ _ (λ v s l e c q. (
          more l _ s
              (
                (clean_battery (codes "state_of_charge_percent") _ refl refl (float_line v)).0,
                clean_battery (codes "state_of_charge_updated_at") _ refl refl (time_line now),
              )
              q,
          q.1,
        )),
        (
          set_field-Preserves (Fine num) u.reserve_percent _ _ _ (λ v s l e c q. (
            more l _ s (clean_battery (codes "reserve_percent") _ refl refl (float_line v)) q,
            q.1,
          )),
          (
            set_field-Preserves (Fine num) u.conversion_efficiency_percent _ _ _ (λ v s l e c q. (
              more l _ s
                  (clean_battery (codes "conversion_efficiency_percent") _ refl refl (float_line v))
                  q,
              q.1,
            )),
            tt,
          ),
        ),
      ),
    ),
  )

  part-Fine :
      {A : Type 0} (step : A → Step (Config num)) (u : Option A)
      → ((a : A) → Preserves (Fine num) (step a))
      → Preserves (Fine num) (part num step u)
  part-Fine step none h st p = p
  part-Fine step (some a) h st p = h a st p

  main_part :
      (u : Option MainUpdate) → HostLines u → Preserves (Fine num) (part num (update_main num) u)
  main_part none hosts st p = p
  main_part (some u) hosts st p = main_Fine u hosts st p

  -- What an accepted update writes can be written to the file.
  pub apply_update-AreClean :
      (u : Update num) (now : ℕ) (cfg new : Config num) (changes : List OptionValue)
      → HostLines u.main
      → WordNames cfg.alerts.rules
      → apply_update num u now cfg ≡ done (new, changes)
      → AreClean changes × WordNames new.alerts.rules
  unfolding apply_update
  apply_update-AreClean u now cfg new changes hosts words e =
      of_result (Fine num) (apply_update num u now cfg) (new, changes) e
        (run_steps-Preserves (Fine num) (apply_steps num u now)
          (
            main_part u.main hosts,
            (
              part-Fine (update_history num) u.history history_Fine,
              (
                part-Fine (λ a. run_steps (alerts_steps num a)) u.alerts alerts_Fine,
                (
                  part-Fine (λ b. run_steps (battery_steps num now b)) u.battery (battery_Fine now),
                  tt,
                ),
              ),
            ),
          )
          (cfg, []) (tt, words))

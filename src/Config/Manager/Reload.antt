-- ===== src/Config/Manager/Reload.antt =====
-- A rule's hold of zero seconds: `applyUpdate` takes it, and `Load` does not.
use openwrt_starwatch.Base.{ℕ, ◌≡◌, ◌≢◌, true, false, List, [], ◌∷◌, Option, none, some, arith}
use openwrt_starwatch.Base.Int.{ℤ, pos}
use openwrt_starwatch.Base.Maps.{lookup, nat_eq}
use openwrt_starwatch.Base.Strings.{Text, text_eq, pair_eq}
use openwrt_starwatch.Base.Text.{codes}
use openwrt_starwatch.Config.Uci.{Section, ok, OptionValue, is_empty, parse_uci, find}
use openwrt_starwatch.Config.Rewrite.{rewrite_uci}
use openwrt_starwatch.Config.Rewrite.Lookup.{option_of}
use openwrt_starwatch.Config.Rewrite.Success.{is_current}
use openwrt_starwatch.Config.Rewrite.Whole.{parse_uci-rewrite_uci}
use openwrt_starwatch.Config.Settings.{Numbers, Config, Update, AlertRuleConfig, of_seconds}
use openwrt_starwatch.Config.Change.{done, alerts_section, option_value}
use openwrt_starwatch.Config.Apply.{put_rule, apply_update}
use openwrt_starwatch.Config.Apply.Steps.Values.{PrintsLines, WordNames}
use openwrt_starwatch.Config.Apply.Steps.Written.{apply_update-AreClean}
use openwrt_starwatch.Config.Readers.{Loaded, loaded, read_option, then_loaded, run_loads}
use openwrt_starwatch.Config.Load.{alerts_loads, hold_load, load_steps, defaults, load}
use openwrt_starwatch.Config.Load.Ran.{run_loads-Ran}

abbrev hold_option_name : Text
hold_option_name = codes "outage_started_secs"

-- What is printed can be read.
pub record ReadsPrinted (num : Numbers) : Type 0 where
  pub read_printed : (v : ℤ) → num.read_int (num.print_int v) ≡ some v
  pub printed : (v : ℤ) → is_empty (num.print_int v) ≡ false

module _ (num : Numbers) where
  abbrev pub zero_hold : Update num
  zero_hold = record {
    main = none;
    history = none;
    alerts = some (record {
      webhook_url = none;
      ntfy_url = none;
      rules =
          (
            codes "outage_started",
            record {
              enabled = none;
              threshold = none;
              threshold2 = none;
              hold_seconds = some (pos 0);
              clear_seconds = none;
            },
          )
          ∷ [];
    });
    battery = none;
  }

  abbrev zero_changes : List OptionValue
  zero_changes = option_value alerts_section hold_option_name (num.print_int (pos 0))

  zero_hold_lem :
      (now : ℕ) (cfg : Config num) (rule : AlertRuleConfig num)
      → lookup (codes "outage_started") cfg.alerts.rules ≡ some rule
      → (new : Config num) × (apply_update num zero_hold now cfg ≡ done (new, zero_changes))
  unfolding apply_update
  zero_hold_lem now cfg rule found = (
    put_rule num (codes "outage_started") (record rule { hold = of_seconds (pos 0) }) cfg,
    ground (arith, found),
  )

  module _ (reads : ReadsPrinted num) where
    hold_rejected :
        (s : Section) (x y : Config num)
        → lookup hold_option_name s.options ≡ some (num.print_int (pos 0))
        → hold_load num s hold_option_name (codes "outage_started") x ≢ loaded y
    unfolding read_option then_loaded
    hold_rejected s x y h e =
        ground (arith, h, e, reads.read_printed (pos 0), reads.printed (pos 0))

    alerts_rejected :
        (s : Section) (x y : Config num)
        → lookup hold_option_name s.options ≡ some (num.print_int (pos 0))
        → run_loads (alerts_loads num s) x ≢ loaded y
    alerts_rejected s x y h e =
        let ran = run_loads-Ran (alerts_loads num s) x y e in
        let (a, b, f) = ran.1.1.1.1.1.1.1.1.1.1.1.1.1.0 in hold_rejected s a b h f

    file_rejected :
        (source : Text) (doc : List Section) (cfg : Config num)
        → parse_uci source ≡ ok doc
        → option_of alerts_section hold_option_name doc ≡ some (num.print_int (pos 0))
        → load num source ≢ loaded cfg
    unfolding load
    file_rejected source doc cfg parsed h e =
        let f : run_loads (load_steps num doc) (defaults num) ≡ loaded cfg =
          ground (arith, parsed, e) in
        let ran = run_loads-Ran (load_steps num doc) (defaults num) cfg f in
        let (a, b, g) = ran.1.1.0 in by_section (find alerts_section doc) a b h g
      where
        by_section :
            (s : Option Section) (a b : Config num)
            → ◌≡◌ {A = Option Text}
                (elim s [ none ↦ none | some t ↦ lookup hold_option_name t.options ])
                (some (num.print_int (pos 0)))
            → ◌≡◌ {A = Loaded (Config num)}
                (elim s [ none ↦ loaded a | some t ↦ run_loads (alerts_loads num t) a ])
                (loaded b)
            → ⊥
        by_section none a b k g = cc
        by_section (some s) a b k g = alerts_rejected s a b k g

    -- An update that sets the hold of `outage_started` to zero seconds passes its checks. The file that is
    -- written for it, where the old one could be parsed and had a section for the alerts, is a file that `Load`
    -- refuses: its least hold is one second.
    pub zero_hold_unloadable :
        (prints : PrintsLines num) (now : ℕ) (cfg reloaded : Config num)
        (rule : AlertRuleConfig num) (source : Text) (doc : List Section)
        → WordNames cfg.alerts.rules
        → lookup (codes "outage_started") cfg.alerts.rules ≡ some rule
        → parse_uci source ≡ ok doc
        → is_current (find alerts_section doc) ≡ true
        → (new : Config num) × (changes : List OptionValue) × (apply_update num zero_hold now cfg
            ≡ done (new, changes))
          × (load num (rewrite_uci source changes) ≢ loaded reloaded)
    zero_hold_unloadable prints now cfg reloaded rule source doc words found parsed current =
        let (new, e) = zero_hold_lem now cfg rule found in
        let (clean, w) =
          apply_update-AreClean num prints zero_hold now cfg new zero_changes tt words e in
        let (after, f, g) =
          parse_uci-rewrite_uci source zero_changes doc alerts_section hold_option_name clean parsed
            current in
        (new, zero_changes, e, file_rejected (rewrite_uci source zero_changes) after reloaded f g)

-- ===== src/Config/View.antt =====
-- The view of the configuration that router/internal/config/manager.go serves: `publicConfig`, with whole
-- seconds and a masked token. The token is the list of its bytes.
use openwrt_starwatch.Base.{
  ℕ, zero, suc, ◌-◌, ◌≡◌, refl, Bool, List, [], ◌∷◌, ◌++◌, map, Option, length, leb, if◌then◌else◌,
  arith,
}
use openwrt_starwatch.Base.Int.{ℤ}
use openwrt_starwatch.Base.Strings.{Text}
use openwrt_starwatch.Base.Text.{codes}
use openwrt_starwatch.Config.Settings.{Numbers, Config, AlertRuleConfig}
use openwrt_starwatch.Config.Readers.{to_seconds}

abbrev pub stars : ℕ → Text
stars zero = []
stars (suc n) = b'*' ∷ stars n

unfoldable pub drop_bytes : ℕ → Text → Text
drop_bytes zero s = s
drop_bytes (suc n) [] = []
drop_bytes (suc n) (c ∷ s) = drop_bytes n s

-- At most the last four bytes are shown.
unfoldable pub mask_token : Text → Text
unfolding drop_bytes
mask_token token =
    if leb (length token) 4
    then stars (length token)
    else codes "****" ++ drop_bytes (length token - 4) token

pub record MainView : Type 0 where
  pub listen : Text
  pub port : ℤ
  pub token : Text
  pub dish_addr : Text
  pub poll_status : ℤ
  pub poll_map : ℤ
  pub wan_interface : Text
  pub probe_hosts : List Text
  pub probe_interval : ℤ
  pub location_enabled : Bool

pub record HistoryView : Type 0 where
  pub ram_hours : ℤ
  pub minute_days : ℤ
  pub quarter_days : ℤ
  pub db_path : Text
  pub flush_secs : ℤ

module _ (num : Numbers) where
  open num use {floats}
  open floats use {F}

  pub record RuleView : Type 0 where
    pub enabled : Bool
    pub threshold : F
    pub threshold2 : F
    pub hold_seconds : ℤ
    pub clear_seconds : ℤ

  pub record AlertsView : Type 0 where
    pub webhook_url : Text
    pub ntfy_url : Text
    pub rules : List (Text × RuleView)

  pub record BatteryView : Type 0 where
    pub enabled : Bool
    pub capacity_wh : F
    pub state_of_charge_percent : F
    pub reserve_percent : F
    pub conversion_efficiency_percent : F
    pub state_of_charge_updated_at : Option ℕ

  pub record PublicConfig : Type 0 where
    pub main : MainView
    pub history : HistoryView
    pub alerts : AlertsView
    pub battery : BatteryView

  abbrev pub rule_view : Text × AlertRuleConfig num → Text × RuleView
  rule_view e = (
    e.0,
    record {
      enabled = (e.1).enabled;
      threshold = (e.1).threshold;
      threshold2 = (e.1).threshold2;
      hold_seconds = to_seconds (e.1).hold;
      clear_seconds = to_seconds (e.1).clear_hold;
    },
  )

  unfoldable pub public_config : Config num → PublicConfig
  unfolding mask_token
  public_config cfg = record {
    main = record {
      listen = cfg.listen;
      port = cfg.port;
      token = mask_token cfg.token;
      dish_addr = cfg.dish_addr;
      poll_status = to_seconds cfg.poll_status;
      poll_map = to_seconds cfg.poll_map;
      wan_interface = cfg.wan_interface;
      probe_hosts = cfg.probe_hosts;
      probe_interval = to_seconds cfg.probe_interval;
      location_enabled = cfg.location_enabled;
    };
    history = record {
      ram_hours = cfg.history.ram_hours;
      minute_days = cfg.history.minute_days;
      quarter_days = cfg.history.quarter_days;
      db_path = cfg.history.db_path;
      flush_secs = to_seconds cfg.history.flush_interval;
    };
    alerts = record {
      webhook_url = cfg.alerts.webhook_url;
      ntfy_url = cfg.alerts.ntfy_url;
      rules = map rule_view cfg.alerts.rules;
    };
    battery = record {
      enabled = cfg.battery.enabled;
      capacity_wh = cfg.battery.capacity_wh;
      state_of_charge_percent = cfg.battery.state_of_charge_percent;
      reserve_percent = cfg.battery.reserve_percent;
      conversion_efficiency_percent = cfg.battery.conversion_efficiency_percent;
      state_of_charge_updated_at = cfg.battery.state_of_charge_updated_at;
    };
  }

length-drop_bytes : (n : ℕ) (s : Text) → length (drop_bytes n s) ≡ length s - n
unfolding drop_bytes
length-drop_bytes zero s = ground arith
length-drop_bytes (suc n) [] = ground arith
length-drop_bytes (suc n) (c ∷ s) = ground (arith, length-drop_bytes n s)

length-stars : (n : ℕ) → length (stars n) ≡ n
length-stars zero = refl
length-stars (suc n) = ground (arith, length-stars n)

-- A token of more than four bytes is shown as eight bytes, a shorter one with its length.
pub length-mask_token :
    (token : Text) → length (mask_token token) ≡ (if leb (length token) 4 then length token else 8)
unfolding mask_token
length-mask_token token =
    ground (arith, length-stars (length token), length-drop_bytes (length token - 4) token)

-- ===== src/Config/Settings.antt =====
-- The configuration of router/internal/config/config.go, and the updates of manager.go. Floats are an
-- argument with the operations that the code uses; `int` and `time.Duration` are ℤ, a duration in
-- nanoseconds with the wrap-around of 64 bits. A map of rules is an association list.
use openwrt_starwatch.Base.{ℕ, suc, ◌-◌, ◌*◌, ◌%◌, ◌^◌, Bool, List, Option, ltb, if◌then◌else◌}
use openwrt_starwatch.Base.Int.{ℤ, pos, negsuc}
use openwrt_starwatch.Base.Strings.{Text, text_eq}
use openwrt_starwatch.Alert.Engine.{Floats}

-- A number of 64 bits, as a signed one.
abbrev pub signed_64 : ℕ → ℤ
signed_64 n = let m = n % 2 ^ 64 in if ltb m (2 ^ 63) then pos m else negsuc (2 ^ 64 - m - 1)

abbrev pub nanoseconds : ℕ
nanoseconds = 1000000000

-- `time.Duration(n) * time.Second`
unfoldable pub of_seconds : ℤ → ℤ
of_seconds (pos n) = signed_64 (n * nanoseconds)
of_seconds (negsuc n) = signed_64 (2 ^ 64 - (suc n * nanoseconds) % 2 ^ 64)

-- float64, and what `strconv` prints and reads.
pub record Numbers : Type 1 where
  pub floats : Floats
  pub lt : floats.F → floats.F → Bool
  pub finite : floats.F → Bool
  pub of_ℕ : ℕ → floats.F
  pub decimal : ℕ → ℕ → floats.F  -- m · 10^-d
  pub times : floats.F → floats.F → floats.F
  pub print_float : floats.F → Text  -- FormatFloat(v, 'f', -1, 64)
  pub read_float : Text → Option floats.F
  pub print_int : ℤ → Text  -- Itoa
  pub read_int : Text → Option ℤ
  pub read_bool : Text → Option Bool
  pub print_time : ℕ → Text  -- RFC3339Nano, in UTC
  pub read_time : Text → Option ℕ

pub record MainUpdate : Type 0 where
  pub listen : Option Text
  pub port : Option ℤ
  pub token : Option Text
  pub dish_addr : Option Text
  pub poll_status : Option ℤ
  pub poll_map : Option ℤ
  pub wan_interface : Option Text
  pub probe_hosts : Option (List Text)
  pub probe_interval : Option ℤ
  pub location_enabled : Option Bool

pub record HistoryUpdate : Type 0 where
  pub ram_hours : Option ℤ
  pub minute_days : Option ℤ
  pub quarter_days : Option ℤ
  pub db_path : Option Text
  pub flush_secs : Option ℤ

-- `HistoryConfig`
pub record HistoryConfig : Type 0 where
  pub ram_hours : ℤ
  pub minute_days : ℤ
  pub quarter_days : ℤ
  pub db_path : Text
  pub flush_interval : ℤ

module _ (num : Numbers) where
  open num use {floats}
  open floats use {F}

  pub record AlertRuleConfig : Type 0 where
    pub enabled : Bool
    pub threshold : F
    pub threshold2 : F
    pub hold : ℤ
    pub clear_hold : ℤ

  pub record AlertsConfig : Type 0 where
    pub webhook_url : Text
    pub ntfy_url : Text
    pub rules : List (Text × AlertRuleConfig)

  pub record BatteryConfig : Type 0 where
    pub enabled : Bool
    pub capacity_wh : F
    pub state_of_charge_percent : F
    pub reserve_percent : F
    pub conversion_efficiency_percent : F
    pub state_of_charge_updated_at : Option ℕ

  pub record Config : Type 0 where
    pub listen : Text
    pub port : ℤ
    pub token : Text
    pub dish_addr : Text
    pub poll_status : ℤ
    pub poll_map : ℤ
    pub wan_interface : Text
    pub probe_hosts : List Text
    pub probe_interval : ℤ
    pub location_enabled : Bool
    pub manage_dish_route : Bool
    pub history : HistoryConfig
    pub alerts : AlertsConfig
    pub battery : BatteryConfig

  pub record RuleUpdate : Type 0 where
    pub enabled : Option Bool
    pub threshold : Option F
    pub threshold2 : Option F
    pub hold_seconds : Option ℤ
    pub clear_seconds : Option ℤ

  pub record AlertsUpdate : Type 0 where
    pub webhook_url : Option Text
    pub ntfy_url : Option Text
    pub rules : List (Text × RuleUpdate)

  pub record BatteryUpdate : Type 0 where
    pub enabled : Option Bool
    pub capacity_wh : Option F
    pub state_of_charge_percent : Option F
    pub reserve_percent : Option F
    pub conversion_efficiency_percent : Option F

  pub record Update : Type 0 where
    pub main : Option MainUpdate
    pub history : Option HistoryUpdate
    pub alerts : Option AlertsUpdate
    pub battery : Option BatteryUpdate

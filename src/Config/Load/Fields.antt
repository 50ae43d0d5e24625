-- ===== src/Config/Load/Fields.antt =====
-- The bounds of a configuration's fields, and that reading an option keeps to them.
use openwrt_starwatch.Base.{ℕ, ◌≡◌, Bool, true, false, leb, ltb}
use openwrt_starwatch.Base.Int.{ℤ}
use openwrt_starwatch.Base.Strings.{Text}
use openwrt_starwatch.Config.Uci.{Section}
use openwrt_starwatch.Config.Settings.{Numbers, HistoryConfig, BatteryConfig, Config}
use openwrt_starwatch.Config.Readers.{
  Loaded, failed, loaded, to_seconds, in_range, year_seconds, parse_int, parse_seconds,
  battery_number, parse_battery_number,
}
use openwrt_starwatch.Config.Load.{Load}
use openwrt_starwatch.Config.Load.Bounds.{
  LoadedAs, tested-LoadedAs, read_option-LoadedAs, then_loaded-LoadedAs, Keeps, IsPeriod, period,
  to_seconds_period,
}

-- Small whole numbers are floats, in their order.
pub record WholeFloats (num : Numbers) : Type 0 where
  pub lt_of_ℕ :
      (a b : ℕ)
      → leb a 100000 ≡ true
      → leb b 100000 ≡ true
      → num.lt (num.of_ℕ a) (num.of_ℕ b) ≡ ltb a b
  pub finite_of_ℕ : (a : ℕ) → leb a 100000 ≡ true → num.finite (num.of_ℕ a) ≡ true

module _ (num : Numbers) where
  abbrev pub MainValid : Config num → Type 0
  MainValid cfg =
      (in_range 1 65535 cfg.port ≡ true)
      × IsPeriod cfg.poll_status
      × IsPeriod cfg.poll_map
      × IsPeriod cfg.probe_interval

  abbrev pub HistoryValid : HistoryConfig → Type 0
  HistoryValid h =
      (in_range 1 8760 h.ram_hours ≡ true)
      × (in_range 1 3650 h.minute_days ≡ true)
      × (in_range 1 3650 h.quarter_days ≡ true)
      × IsPeriod h.flush_interval

  abbrev pub BatteryValid : BatteryConfig num → Type 0
  BatteryValid b =
      (battery_number num 0 100000 true b.capacity_wh ≡ true)
      × (battery_number num 0 100 false b.state_of_charge_percent ≡ true)
      × (battery_number num 0 95 false b.reserve_percent ≡ true)
      × (battery_number num 1 100 false b.conversion_efficiency_percent ≡ true)

  pub record IsValid (cfg : Config num) : Type 0 where
    pub main_valid : MainValid cfg
    pub history_valid : HistoryValid cfg.history
    pub battery_valid : BatteryValid cfg.battery

  abbrev pub Valid : Config num → Type 0
  Valid cfg = MainValid cfg × HistoryValid cfg.history × BatteryValid cfg.battery

  abbrev pub Stays : Load num → Type 0
  Stays step = Keeps Valid step

  pub parse_int_lem :
      (s : Section) (option : Text) (low high : ℕ) (old : ℤ)
      → in_range low high old ≡ true
      → LoadedAs (λ v. in_range low high v ≡ true) (parse_int num s option low high old)
  parse_int_lem s option low high old h =
      read_option-LoadedAs (λ v. in_range low high v ≡ true) s option old _ h
        (λ v.
          tested-LoadedAs (λ w. in_range low high w ≡ true) option (in_range low high)
            (num.read_int v) (λ a e. e))

  pub parse_seconds_lem :
      (s : Section) (option : Text) (old : ℤ)
      → IsPeriod old
      → LoadedAs IsPeriod (parse_seconds num s option old)
  parse_seconds_lem s option old h =
      then_loaded-LoadedAs IsPeriod (λ v. in_range 1 year_seconds v ≡ true)
        (parse_int num s option 1 year_seconds (to_seconds old)) _
        (parse_int_lem s option 1 year_seconds (to_seconds old) (to_seconds_period old h)) period

  pub parse_battery_number_lem :
      (s : Section) (option : Text) (low high : ℕ) (exclusive : Bool) (old : num.floats.F)
      → battery_number num low high exclusive old ≡ true
      → LoadedAs
          (λ v. battery_number num low high exclusive v ≡ true)
          (parse_battery_number num s option low high exclusive old)
  parse_battery_number_lem s option low high exclusive old h =
      read_option-LoadedAs (λ v. battery_number num low high exclusive v ≡ true) s option old _ h
        (λ v.
          tested-LoadedAs (λ w. battery_number num low high exclusive w ≡ true) option
            (battery_number num low high exclusive) (num.read_float v) (λ a e. e))

  -- A step that sets a field without a bound.
  pub anything {ℓ} : {A : Type ℓ} (r : Loaded A) → LoadedAs (λ a. Unit) r
  unfolding LoadedAs
  anything (failed e) = tt
  anything (loaded a) = tt

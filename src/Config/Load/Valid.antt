-- ===== src/Config/Load/Valid.antt =====
-- A configuration that is loaded has its ports, counts, periods and battery within bounds.
use openwrt_starwatch.Base.{
  ℕ, ◌≡◌, refl, Bool, true, false, ◌&&◌, List, none, some, leb, ltb, arith,
}
use openwrt_starwatch.Base.Effects.{All}
use openwrt_starwatch.Base.Strings.{Text}
use openwrt_starwatch.Config.Uci.{Section, Result, ok, err, parse_uci, find}
use openwrt_starwatch.Config.Settings.{Numbers, Config}
use openwrt_starwatch.Config.Readers.{
  Loaded, failed, loaded, bad_file, in_range, run_loads, battery_number,
}
use openwrt_starwatch.Config.Load.{
  main_loads, history_loads, alerts_loads, battery_loads, section_loads, load_steps, defaults, load,
  Load,
}
use openwrt_starwatch.Config.Change.{main_section, history_section, alerts_section, battery_section}
use openwrt_starwatch.Config.Load.Bounds.{
  LoadedAs, of_loaded, loaded-LoadedAs, then_loaded-LoadedAs, Keeps, run_loads-Keeps, IsPeriod,
}
use openwrt_starwatch.Config.Load.Fields.{
  WholeFloats, IsValid, Valid, Stays, parse_int_lem, parse_seconds_lem, parse_battery_number_lem,
  anything,
}

module _ (num : Numbers) where
  Stays-main : (s : Section) → (Stays num) (run_loads (main_loads num s))
  Stays-main s = run_loads-Keeps (Valid num) (main_loads num s) (
    (λ c p. then_loaded-LoadedAs (Valid num) (λ v. Unit) _ _ (anything num _) (λ v q. p)),
    (
      (λ c p. then_loaded-LoadedAs (Valid num) (λ v. Unit) _ _ (anything num _) (λ v q. p)),
      (
        (λ c p. then_loaded-LoadedAs (Valid num) (λ v. Unit) _ _ (anything num _) (λ v q. p)),
        (
          (λ c p. loaded-LoadedAs (Valid num) _ p),
          (
            (λ c p. then_loaded-LoadedAs (Valid num) (λ v. Unit) _ _ (anything num _) (λ v q. p)),
            (
              (λ c p.
                  then_loaded-LoadedAs (Valid num) (λ v. in_range 1 65535 v ≡ true) _ _
                    (parse_int_lem num s _ 1 65535 c.port p.0.0)
                    (λ v q. ((q, p.0.1, p.0.2, p.0.3), p.1, p.2))),
              (
                (λ c p.
                    then_loaded-LoadedAs (Valid num) (IsPeriod) _ _
                      (parse_seconds_lem num s _ c.poll_status p.0.1)
                      (λ v q. ((p.0.0, q, p.0.2, p.0.3), p.1, p.2))),
                (
                  (λ c p.
                      then_loaded-LoadedAs (Valid num) (IsPeriod) _ _
                        (parse_seconds_lem num s _ c.poll_map p.0.2)
                        (λ v q. ((p.0.0, p.0.1, q, p.0.3), p.1, p.2))),
                  (
                    (λ c p.
                        then_loaded-LoadedAs (Valid num) (IsPeriod) _ _
                          (parse_seconds_lem num s _ c.probe_interval p.0.3)
                          (λ v q. ((p.0.0, p.0.1, p.0.2, q), p.1, p.2))),
                    (
                      (λ c p.
                          then_loaded-LoadedAs (Valid num) (λ v. Unit) _ _ (anything num _)
                            (λ v q. p)),
                      (
                        (λ c p.
                            then_loaded-LoadedAs (Valid num) (λ v. Unit) _ _ (anything num _)
                              (λ v q. p)),
                        tt,
                      ),
                    ),
                  ),
                ),
              ),
            ),
          ),
        ),
      ),
    ),
  )

  Stays-history : (s : Section) → (Stays num) (run_loads (history_loads num s))
  Stays-history s = run_loads-Keeps (Valid num) (history_loads num s) (
    (λ c p.
        then_loaded-LoadedAs (Valid num) (λ v. in_range 1 8760 v ≡ true) _ _
          (parse_int_lem num s _ 1 8760 c.history.ram_hours p.1.0)
          (λ v q. (p.0, (q, p.1.1, p.1.2, p.1.3), p.2))),
    (
      (λ c p.
          then_loaded-LoadedAs (Valid num) (λ v. in_range 1 3650 v ≡ true) _ _
            (parse_int_lem num s _ 1 3650 c.history.minute_days p.1.1)
            (λ v q. (p.0, (p.1.0, q, p.1.2, p.1.3), p.2))),
      (
        (λ c p.
            then_loaded-LoadedAs (Valid num) (λ v. in_range 1 3650 v ≡ true) _ _
              (parse_int_lem num s _ 1 3650 c.history.quarter_days p.1.2)
              (λ v q. (p.0, (p.1.0, p.1.1, q, p.1.3), p.2))),
        (
          (λ c p. then_loaded-LoadedAs (Valid num) (λ v. Unit) _ _ (anything num _) (λ v q. p)),
          (
            (λ c p.
                then_loaded-LoadedAs (Valid num) (IsPeriod) _ _
                  (parse_seconds_lem num s _ c.history.flush_interval p.1.3)
                  (λ v q. (p.0, (p.1.0, p.1.1, p.1.2, q), p.2))),
            tt,
          ),
        ),
      ),
    ),
  )

  Stays-alerts : (s : Section) → (Stays num) (run_loads (alerts_loads num s))
  Stays-alerts s = run_loads-Keeps (Valid num) (alerts_loads num s) (
    (λ c p. loaded-LoadedAs (Valid num) _ p),
    (
      (λ c p. then_loaded-LoadedAs (Valid num) (λ v. Unit) _ _ (anything num _) (λ v q. p)),
      (
        (λ c p. then_loaded-LoadedAs (Valid num) (λ v. Unit) _ _ (anything num _) (λ v q. p)),
        (
          (λ c p. then_loaded-LoadedAs (Valid num) (λ v. Unit) _ _ (anything num _) (λ v q. p)),
          (
            (λ c p. then_loaded-LoadedAs (Valid num) (λ v. Unit) _ _ (anything num _) (λ v q. p)),
            (
              (λ c p. then_loaded-LoadedAs (Valid num) (λ v. Unit) _ _ (anything num _) (λ v q. p)),
              (
                (λ c p.
                    then_loaded-LoadedAs (Valid num) (λ v. Unit) _ _ (anything num _) (λ v q. p)),
                (
                  (λ c p.
                      then_loaded-LoadedAs (Valid num) (λ v. Unit) _ _ (anything num _) (λ v q. p)),
                  (
                    (λ c p.
                        then_loaded-LoadedAs (Valid num) (λ v. Unit) _ _ (anything num _)
                          (λ v q. p)),
                    (
                      (λ c p.
                          then_loaded-LoadedAs (Valid num) (λ v. Unit) _ _ (anything num _)
                            (λ v q. p)),
                      (
                        (λ c p.
                            then_loaded-LoadedAs (Valid num) (λ v. Unit) _ _ (anything num _)
                              (λ v q. p)),
                        (
                          (λ c p.
                              then_loaded-LoadedAs (Valid num) (λ v. Unit) _ _ (anything num _)
                                (λ v q. p)),
                          (
                            (λ c p.
                                then_loaded-LoadedAs (Valid num) (λ v. Unit) _ _ (anything num _)
                                  (λ v q. p)),
                            (
                              (λ c p.
                                  then_loaded-LoadedAs (Valid num) (λ v. Unit) _ _ (anything num _)
                                    (λ v q. p)),
                              (
                                (λ c p.
                                    then_loaded-LoadedAs (Valid num) (λ v. Unit) _ _
                                      (anything num _) (λ v q. p)),
                                (
                                  (λ c p.
                                      then_loaded-LoadedAs (Valid num) (λ v. Unit) _ _
                                        (anything num _) (λ v q. p)),
                                  (
                                    (λ c p.
                                        then_loaded-LoadedAs (Valid num) (λ v. Unit) _ _
                                          (anything num _) (λ v q. p)),
                                    (
                                      (λ c p.
                                          then_loaded-LoadedAs (Valid num) (λ v. Unit) _ _
                                            (anything num _) (λ v q. p)),
                                      (
                                        (λ c p.
                                            then_loaded-LoadedAs (Valid num) (λ v. Unit) _ _
                                              (anything num _) (λ v q. p)),
                                        tt,
                                      ),
                                    ),
                                  ),
                                ),
                              ),
                            ),
                          ),
                        ),
                      ),
                    ),
                  ),
                ),
              ),
            ),
          ),
        ),
      ),
    ),
  )

  Stays-battery : (s : Section) → (Stays num) (run_loads (battery_loads num s))
  Stays-battery s = run_loads-Keeps (Valid num) (battery_loads num s) (
    (λ c p. then_loaded-LoadedAs (Valid num) (λ v. Unit) _ _ (anything num _) (λ v q. p)),
    (
      (λ c p.
          then_loaded-LoadedAs (Valid num) (λ v. battery_number num 0 100000 true v ≡ true) _ _
            (parse_battery_number_lem num s _ 0 100000 true c.battery.capacity_wh p.2.0)
            (λ v q. (p.0, p.1, (q, p.2.1, p.2.2, p.2.3)))),
      (
        (λ c p.
            then_loaded-LoadedAs (Valid num) (λ v. battery_number num 0 100 false v ≡ true) _ _
              (parse_battery_number_lem num s _ 0 100 false c.battery.state_of_charge_percent p.2.1)
              (λ v q. (p.0, p.1, (p.2.0, q, p.2.2, p.2.3)))),
        (
          (λ c p.
              then_loaded-LoadedAs (Valid num) (λ v. battery_number num 0 95 false v ≡ true) _ _
                (parse_battery_number_lem num s _ 0 95 false c.battery.reserve_percent p.2.2)
                (λ v q. (p.0, p.1, (p.2.0, p.2.1, q, p.2.3)))),
          (
            (λ c p.
                then_loaded-LoadedAs (Valid num) (λ v. battery_number num 1 100 false v ≡ true) _ _
                  (parse_battery_number_lem num s _ 1 100 false
                    c.battery.conversion_efficiency_percent p.2.3)
                  (λ v q. (p.0, p.1, (p.2.0, p.2.1, p.2.2, q)))),
            (
              (λ c p. then_loaded-LoadedAs (Valid num) (λ v. Unit) _ _ (anything num _) (λ v q. p)),
              tt,
            ),
          ),
        ),
      ),
    ),
  )

  Stays-section :
      (loads : Section → List (Load num)) (key : Text × Text) (doc : List Section)
      → ((s : Section) → (Stays num) (run_loads (loads s)))
      → (Stays num) (section_loads num loads key doc)
  Stays-section loads key doc h c p =
      elim (find key doc)
        as (λ f. LoadedAs (Valid num) (elim f as (λ x. Loaded (Config num)) [
          | none ↦ loaded c
          | some s ↦ run_loads (loads s) c
        ])) [ none ↦ loaded-LoadedAs (Valid num) c p | some s ↦ h s c p ]

  module _ (whole : WholeFloats num) where
    battery_default :
        (low high n : ℕ) (exclusive : Bool)
        → leb low n && leb n high && leb high 100000 ≡ true
        → (exclusive ≡ true → ltb low n ≡ true)
        → battery_number num low high exclusive (num.of_ℕ n) ≡ true
    battery_default low high n exclusive h k = ground (
      arith,
      h,
      k,
      whole.finite_of_ℕ n,
      whole.lt_of_ℕ n low,
      whole.lt_of_ℕ low n,
      whole.lt_of_ℕ high n,
    )

    Valid-defaults : (Valid num) (defaults num)
    unfolding defaults
    Valid-defaults = (
      (refl, (1, refl, refl), (900, refl, refl), (2, refl, refl)),
      (refl, refl, refl, (300, refl, refl)),
      (
        battery_default 0 100000 1000 true refl (λ e. refl),
        battery_default 0 100 100 false refl (λ e. refl),
        battery_default 0 95 10 false refl (λ e. refl),
        battery_default 1 100 90 false refl (λ e. refl),
      ),
    )

    -- A configuration that is loaded has its port, its retention and its periods within their bounds,
    -- with no overflow in the periods, and the battery's numbers within theirs, where small whole
    -- numbers are floats in their order.
    pub load-IsValid :
        (source : Text) (cfg : Config num) → load num source ≡ loaded cfg → (IsValid num) cfg
    unfolding load
    load-IsValid source cfg e = by_parse (parse_uci source) e
      where
        all_keep : (doc : List Section) → All (Keeps (Valid num)) (load_steps num doc)
        all_keep doc = (
          Stays-section (main_loads num) main_section doc Stays-main,
          (
            Stays-section (history_loads num) history_section doc Stays-history,
            (
              Stays-section (alerts_loads num) alerts_section doc Stays-alerts,
              (Stays-section (battery_loads num) battery_section doc Stays-battery, tt),
            ),
          ),
        )

        by_parse :
            (r : Result (List Section))
            → ◌≡◌ {A = Loaded (Config num)}
                (elim r [
                  | err x ↦ failed (bad_file x)
                  | ok doc ↦ run_loads (load_steps num doc) (defaults num)
                ])
                (loaded cfg)
            → (IsValid num) cfg
        by_parse (err x) h = cc
        by_parse (ok doc) h =
            let v = of_loaded (Valid num) (run_loads (load_steps num doc) (defaults num)) cfg h (
              run_loads-Keeps (Valid num) (load_steps num doc) (all_keep doc) (defaults num)
                Valid-defaults) in
            record { main_valid = v.0; history_valid = v.1; battery_valid = v.2 }

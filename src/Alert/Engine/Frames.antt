-- ===== src/Alert/Engine/Frames.antt =====
-- What a step of the alert engine leaves as it is, and what a condition depends on.
use openwrt_starwatch.Base.{
  ℕ, ◌≡◌, refl, Bool, true, false, Option, none, some, String, if◌then◌else◌, arith, ◌∙◌, ap, ◌||◌,
  inl, inr, Bool-cases,
}
use openwrt_starwatch.Base.Maps.{string_eq, nat_eq, ◌==◌}
use openwrt_starwatch.Alert.Engine.{Floats, Rule, Inputs, ObstructionCache, Engine, Wiring}
use openwrt_starwatch.Alert.Engine.Evaluate.{Condition, evaluate}
use openwrt_starwatch.Alert.Engine.Tick.{
  raise, clear, lower, settle, forget, disable, tick_alert, evaluate_failover, compare_failover,
}

module _ (fl : Floats) (w : Wiring fl) where
  -- What a step may not change, but for the states of alerts.
  abbrev pub Frames : Engine fl → Engine fl → Type 0
  Frames e₁ e = (e₁.suppress_until ≡ e.suppress_until) × (e₁.obstruction ≡ e.obstruction)

  settle-Frames :
      (name : String) (rule : Rule fl) (c : Condition fl) (inputs : Inputs fl) (now : ℕ)
      (e : Engine fl)
      → Frames (settle fl w name rule c inputs now e).0 e
  unfolding settle raise lower clear
  settle-Frames name rule c inputs now e = ground arith

  if_cache :
      (b : Bool) (o : ObstructionCache fl) (x y : Condition fl × ObstructionCache fl)
      → (b ≡ true → x.1 ≡ o)
      → (b ≡ false → y.1 ≡ o)
      → (if b then x else y).1 ≡ o
  if_cache true o x y h k = h refl
  if_cache false o x y h k = k refl

  if_same :
      (b : Bool) (x y u v : Condition fl × ObstructionCache fl)
      → (b ≡ true → x.0 ≡ u.0)
      → (b ≡ false → y.0 ≡ v.0)
      → (if b then x else y).0 ≡ (if b then u else v).0
  if_same true x y u v h k = h refl
  if_same false x y u v h k = k refl

  -- Only the evaluation of the obstruction alert changes the cache of the average.
  evaluate_cache :
      (name : String) (rule : Rule fl) (inputs : Inputs fl) (now : ℕ) (e : Engine fl)
      → (name == "obstruction_high") ≡ false
      → (evaluate fl w name rule inputs now e).1 ≡ e.obstruction
  unfolding evaluate
  evaluate_cache name rule inputs now e other =
      if_cache (name == "outage_started" || name == "dish_unreachable") e.obstruction _ _
        (λ _. refl)
        (λ _.
          if_cache (name == "path_degraded") e.obstruction _ _ (λ _. refl)
            (λ _.
              if_cache (name == "obstruction_high") e.obstruction _ _
                (λ h. absurd (ground (arith, h, other)))
                (λ _.
                  if_cache (name == "thermal_throttle") e.obstruction _ _ (λ _. refl)
                    (λ _.
                      if_cache (name == "thermal_shutdown") e.obstruction _ _ (λ _. refl)
                        (λ _.
                          if_cache (name == "motors_stuck") e.obstruction _ _ (λ _. refl)
                            (λ _.
                              if_cache (name == "water_detected") e.obstruction _ _ (λ _. refl)
                                (λ _.
                                  if_cache (name == "mast_not_vertical") e.obstruction _ _
                                    (λ _. refl)
                                    (λ _.
                                      if_cache (name == "slow_ethernet") e.obstruction _ _
                                        (λ _. refl)
                                        (λ _.
                                          if_cache (name == "firmware_pending") e.obstruction _ _
                                            (λ _. refl) (λ _. refl))))))))))

  -- The other conditions do not depend on the cache.
  evaluate_other :
      (name : String) (rule : Rule fl) (inputs : Inputs fl) (now : ℕ) (e : Engine fl)
      (cache : ObstructionCache fl)
      → (name == "obstruction_high") ≡ false
      → (evaluate fl w name rule inputs now (record e { obstruction = cache })).0
        ≡ (evaluate fl w name rule inputs now e).0
  unfolding evaluate
  evaluate_other name rule inputs now e cache other =
      if_same (name == "outage_started" || name == "dish_unreachable") _ _ _ _ (λ _. refl)
        (λ _.
          if_same (name == "path_degraded") _ _ _ _ (λ _. refl)
            (λ _.
              if_same (name == "obstruction_high") _ _ _ _ (λ h. absurd (ground (arith, h, other)))
                (λ _.
                  if_same (name == "thermal_throttle") _ _ _ _ (λ _. refl)
                    (λ _.
                      if_same (name == "thermal_shutdown") _ _ _ _ (λ _. refl)
                        (λ _.
                          if_same (name == "motors_stuck") _ _ _ _ (λ _. refl)
                            (λ _.
                              if_same (name == "water_detected") _ _ _ _ (λ _. refl)
                                (λ _.
                                  if_same (name == "mast_not_vertical") _ _ _ _ (λ _. refl)
                                    (λ _.
                                      if_same (name == "slow_ethernet") _ _ _ _ (λ _. refl)
                                        (λ _.
                                          if_same (name == "firmware_pending") _ _ _ _ (λ _. refl)
                                            (λ _. refl))))))))))

  evaluate_by :
      (name : String) (rule : Rule fl) (inputs : Inputs fl) (now : ℕ) (e₁ e : Engine fl)
      → e₁.suppress_until ≡ e.suppress_until
      → evaluate fl w name rule inputs now e₁
        ≡ evaluate fl w name rule inputs now (record e { obstruction = e₁.obstruction })
  unfolding evaluate
  evaluate_by name rule inputs now e₁ e u =
      ap
        (λ s.
          evaluate fl w name rule inputs now
            (record e { suppress_until = s; obstruction = e₁.obstruction }))
        {x = e₁.suppress_until} {y = e.suppress_until} u

  -- A condition depends on the engine by the end of the suppression, and the obstruction alert's by
  -- the cache of the average.
  pub evaluate_same :
      (name : String) (rule : Rule fl) (inputs : Inputs fl) (now : ℕ) (e₁ e : Engine fl)
      → e₁.suppress_until ≡ e.suppress_until
      → ((name == "obstruction_high") ≡ true → e₁.obstruction ≡ e.obstruction)
      → (evaluate fl w name rule inputs now e₁).0 ≡ (evaluate fl w name rule inputs now e).0
  evaluate_same name rule inputs now e₁ e u h =
      ap (λ r. r.0) (evaluate_by name rule inputs now e₁ e u)
      ∙ elim (Bool-cases (name == "obstruction_high")) [
        | inl high ↦
            ap (λ c. (evaluate fl w name rule inputs now (record e { obstruction = c })).0)
              {x = e₁.obstruction} {y = e.obstruction} (h high)
        | inr other ↦ evaluate_other name rule inputs now e e₁.obstruction other
      ]

  pub evaluate_failover-Frames :
      (rule : Option (Rule fl)) (inputs : Inputs fl) (now : ℕ) (e : Engine fl)
      → Frames (evaluate_failover fl w rule inputs now e).0 e
        × ((evaluate_failover fl w rule inputs now e).0.states ≡ e.states)
  unfolding evaluate_failover compare_failover
  evaluate_failover-Frames none inputs now e = ((refl, refl), refl)
  evaluate_failover-Frames (some rule) inputs now e = ground arith

  pub tick_alert-suppress :
      (rule : Option (Rule fl)) (n : String) (inputs : Inputs fl) (now : ℕ) (e : Engine fl)
      → (tick_alert fl w rule n inputs now e).0.suppress_until ≡ e.suppress_until
  unfolding tick_alert settle raise lower clear forget disable
  tick_alert-suppress none n inputs now e = ground arith
  tick_alert-suppress (some rule) n inputs now e = ground arith

  pub tick_alert_cache :
      (rule : Option (Rule fl)) (n : String) (inputs : Inputs fl) (now : ℕ) (e : Engine fl)
      → (n == "obstruction_high") ≡ false
      → (tick_alert fl w rule n inputs now e).0.obstruction ≡ e.obstruction
  unfolding tick_alert settle raise lower clear forget disable
  tick_alert_cache none n inputs now e other = ground arith
  tick_alert_cache (some rule) n inputs now e other =
      ground (arith, evaluate_cache n rule inputs now e other)

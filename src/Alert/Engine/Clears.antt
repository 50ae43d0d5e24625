-- ===== src/Alert/Engine/Clears.antt =====
-- When a whole tick makes an active alert inactive.
use mathlib.Core.Path.{subst}
use openwrt_starwatch.Base.{
  ℕ, ◌≡◌, ◌≢◌, refl, Bool, true, false, not, List, [], ◌∷◌, some, String, if◌then◌else◌, arith, ◌∙◌,
  sym, ap, inl, inr, Bool-cases,
}
use openwrt_starwatch.Base.Effects.{All}
use openwrt_starwatch.Base.Int.{pos, sub_ℕ, ltb_ℤ, leb_ℤ}
use openwrt_starwatch.Base.Maps.{lookup, string_eq, nat_eq, ◌==◌}
use openwrt_starwatch.Alert.Engine.{Floats, Rule, Inputs, Engine, Wiring, Effect, catalog_order}
use openwrt_starwatch.Alert.Engine.Evaluate.{evaluate}
use openwrt_starwatch.Alert.Engine.Tick.{
  state_of, settle, disable, tick_alert, tick_all, evaluate_failover, tick,
}
use openwrt_starwatch.Alert.Engine.Others.{tick_alert-Ignores}
use openwrt_starwatch.Alert.Engine.Hold.{settle_clears_after_hold}
use openwrt_starwatch.Alert.Engine.Frames.{
  evaluate_same, evaluate_failover-Frames, tick_alert-suppress, tick_alert_cache,
}

module _ (fl : Floats) (w : Wiring fl) where
  -- No name stands twice in a list.
  abbrev Distinct : List String → Type 0
  Distinct [] = Unit
  Distinct (n ∷ ns) = All (λ m. (m == n) ≡ false) ns × Distinct ns

  -- One round of the loop over the catalog.
  abbrev round :
      List (String × Rule fl) → String → Inputs fl → ℕ → Engine fl → Engine fl × List (Effect fl)
  round rules n inputs now e =
      if n == "failover_event" then (e, []) else tick_alert fl w (lookup n rules) n inputs now e

  tick_all-round :
      (rules : List (String × Rule fl)) (n : String) (ns : List String) (inputs : Inputs fl)
      (now : ℕ) (e : Engine fl)
      → (tick_all fl w rules (n ∷ ns) inputs now e).0
        ≡ (tick_all fl w rules ns inputs now (round rules n inputs now e).0).0
  unfolding tick_all
  tick_all-round rules n ns inputs now e = refl

  round_frames :
      (rules : List (String × Rule fl)) (n : String) (inputs : Inputs fl) (now : ℕ) (e : Engine fl)
      → ((round rules n inputs now e).0.suppress_until ≡ e.suppress_until)
        × ((n == "obstruction_high") ≡ false
            → (round rules n inputs now e).0.obstruction ≡ e.obstruction)
  round_frames rules n inputs now e =
      elim (n == "failover_event")
        as (λ b.
          ((if b then (e, []) else tick_alert fl w (lookup n rules) n inputs now e).0.suppress_until
            ≡ e.suppress_until)
          × ((n == "obstruction_high") ≡ false
              → (if b
                  then (e, [])
                  else tick_alert fl w (lookup n rules) n inputs now e).0.obstruction
                ≡ e.obstruction)) [
                  | true ↦ (refl, (λ h. refl))
                  | false ↦ (
                    tick_alert-suppress fl w (lookup n rules) n inputs now e,
                    tick_alert_cache fl w (lookup n rules) n inputs now e,
                  )
                ]

  module _ (name : String) (rules : List (String × Rule fl)) (inputs : Inputs fl) (now : ℕ) where
    round_others :
        (n : String) (e : Engine fl)
        → (n == name) ≡ false
        → lookup name (round rules n inputs now e).0.states ≡ lookup name e.states
    round_others n e other =
        elim (n == "failover_event")
          as (λ b.
            lookup name
              (if b then (e, []) else tick_alert fl w (lookup n rules) n inputs now e).0.states
            ≡ lookup name e.states) [
              | true ↦ refl
              | false ↦ (tick_alert-Ignores fl w name n other (lookup n rules) inputs now e).1
            ]

    tick_all_others :
        (ns : List String) (e : Engine fl)
        → All (λ n. (n == name) ≡ false) ns
        → lookup name (tick_all fl w rules ns inputs now e).0.states ≡ lookup name e.states
    unfolding tick_all
    tick_all_others [] e h = refl
    tick_all_others (n ∷ ns) e h =
        tick_all_others ns (round rules n inputs now e).0 h.1 ∙ round_others n e h.0

    is_on : Engine fl → Bool
    is_on e = (state_of fl name e).active

    same_state :
        (e₁ e : Engine fl)
        → lookup name e₁.states ≡ lookup name e.states
        → state_of fl name e₁ ≡ state_of fl name e
    same_state e₁ e h = rw (state_of, h)

    module _ (rule : Rule fl) where
      -- The condition is known and does not hold, and the hold has passed since the pending clearing.
      abbrev pub IsOver : Engine fl → Type 0
      IsOver e =
          ((evaluate fl w name rule inputs now e).0.known ≡ true)
          × ((evaluate fl w name rule inputs now e).0.active ≡ false)
          × ((state_of fl name e).clear_since ≢ 0)
          × (leb_ℤ rule.clear_hold (sub_ℕ now (state_of fl name e).clear_since) ≡ true)

      IsOver-same :
          (e₁ e : Engine fl)
          → lookup name e₁.states ≡ lookup name e.states
          → e₁.suppress_until ≡ e.suppress_until
          → ((name == "obstruction_high") ≡ true → e₁.obstruction ≡ e.obstruction)
          → IsOver e₁
          → IsOver e
      IsOver-same e₁ e l u o h =
          let c = evaluate_same fl w name rule inputs now e₁ e u o in
          let s = ap (λ a. a.clear_since) (same_state e₁ e l) in
          (
            sym (ap (λ c. c.known) c) ∙ h.0,
            sym (ap (λ c. c.active) c) ∙ h.1,
            subst (λ t. t ≢ 0) s h.2,
            subst (λ t. leb_ℤ rule.clear_hold (sub_ℕ now t) ≡ true) s h.3,
          )

      module _ (found : lookup name rules ≡ some rule) (enabled : rule.enabled ≡ true)
          (holds : ltb_ℤ (pos 0) rule.clear_hold ≡ true) where
        own_alert :
            (e : Engine fl)
            → (state_of fl name e).active ≡ true
            → (state_of fl name (tick_alert fl w (some rule) name inputs now e).0).active ≡ false
            → IsOver e
        unfolding tick_alert
        own_alert e on off =
            settle_clears_after_hold fl w name rule (evaluate fl w name rule inputs now e).0 inputs
              now (record e { obstruction = (evaluate fl w name rule inputs now e).1 }) holds on
              (subst
                (λ b.
                  (state_of fl name
                    (if not b
                      then disable fl w name rule inputs now e
                      else settle fl w name rule (evaluate fl w name rule inputs now e).0 inputs now
                          (record e {
                            obstruction = (evaluate fl w name rule inputs now e).1;
                          })).0).active
                  ≡ false)
                enabled off)

        own_round :
            (e : Engine fl)
            → (state_of fl name e).active ≡ true
            → (state_of fl name (round rules name inputs now e).0).active ≡ false
            → IsOver e
        own_round e on off = by_name (name == "failover_event") off
          where
            by_name :
                (b : Bool)
                → (state_of fl name
                    (if b
                      then (e, [])
                      else tick_alert fl w (lookup name rules) name inputs now e).0).active
                  ≡ false
                → IsOver e
            by_name true h = absurd (ground (arith, on, h))
            by_name false h = own_alert e on (
                subst
                  (λ r. (state_of fl name (tick_alert fl w r name inputs now e).0).active ≡ false)
                  found h)

        tick_all_clears :
            (ns : List String) (e : Engine fl)
            → Distinct ns
            → (state_of fl name e).active ≡ true
            → (state_of fl name (tick_all fl w rules ns inputs now e).0).active ≡ false
            → IsOver e
        unfolding tick_all
        tick_all_clears [] e d on off = absurd (ground (arith, on, off))
        tick_all_clears (n ∷ ns) e d on off = elim (Bool-cases (n == name)) [
          | inl own ↦
              let same = (string_eq.test_iff n name).0 own in
              own_round e on (
                subst (λ m. (state_of fl name (round rules m inputs now e).0).active ≡ false) same
                  (sym (
                      ap (λ a. a.active)
                        (same_state (tick_all fl w rules ns inputs now e₁).0 e₁ (
                          tick_all_others ns e₁
                            (subst (λ m. All (λ k. (k == m) ≡ false) ns) same d.0))))
                    ∙ off))
          | inr other ↦
              let kept = round_others n e other in
              let (suppressed, cached) = round_frames rules n inputs now e in
              IsOver-same e₁ e kept suppressed
                (λ high. cached (
                  ground (
                    arith,
                    other,
                    high,
                    string_eq.test_iff n "obstruction_high",
                    string_eq.test_iff name "obstruction_high",
                    string_eq.test_iff n name,
                  )))
                (tick_all_clears ns e₁ d.1 (ap (λ a. a.active) (same_state e₁ e kept) ∙ on) off)
        ]
          where
            e₁ : Engine fl
            e₁ = (round rules n inputs now e).0

catalog-Distinct : (fl : Floats) (w : Wiring fl) → Distinct fl w catalog_order
catalog-Distinct fl w = ground arith

-- An active alert of an enabled rule with a positive clear hold becomes inactive in a tick only if its
-- condition, as the tick evaluates it, is known and does not hold, the clearing was pending from an
-- earlier tick on, and the hold has passed since then.
pub tick_clears_after_hold :
    (fl : Floats) (w : Wiring fl) (name : String) (rule : Rule fl) (inputs : Inputs fl) (now : ℕ)
    (e : Engine fl)
    → lookup name e.rules ≡ some rule
    → rule.enabled ≡ true
    → ltb_ℤ (pos 0) rule.clear_hold ≡ true
    → (state_of fl name e).active ≡ true
    → (state_of fl name (tick fl w inputs now e).0).active ≡ false
    → IsOver fl w name e.rules inputs now rule e
unfolding tick
tick_clears_after_hold fl w name rule inputs now e found enabled holds on off =
    let ((suppressed, cached), kept) =
      evaluate_failover-Frames fl w (lookup "failover_event" e.rules) inputs now e in
    let e₁ = (evaluate_failover fl w (lookup "failover_event" e.rules) inputs now e).0 in
    let same = ap (lookup name) kept in
    IsOver-same fl w name e.rules inputs now rule e₁ e same suppressed (λ high. cached)
      (tick_all_clears fl w name e.rules inputs now rule found enabled holds catalog_order e₁
        (catalog-Distinct fl w)
        (ap (λ a. a.active) (same_state fl w name e.rules inputs now e₁ e same) ∙ on) off)

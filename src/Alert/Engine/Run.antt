-- ===== src/Alert/Engine/Run.antt =====
-- Ticks and changes of the rules in any order: the notifications of an alert alternate.
use mathlib.Core.Path.{subst}
use openwrt_starwatch.Base.{
  ℕ, ◌≡◌, refl, Bool, true, false, not, List, [], ◌∷◌, ◌++◌, Option, none, some, String,
  if◌then◌else◌, arith, Bool-cases, Option-cases, inl, inr, ap, sym, ◌∙◌,
}
use openwrt_starwatch.Base.Maps.{lookup, string_eq, nat_eq, ◌==◌, ==→≡}
use openwrt_starwatch.Base.Effects.{All}
use openwrt_starwatch.Base.Maps.{insert}
use openwrt_starwatch.Alert.Engine.{
  default_rules, firing, Floats, Rule, MwanStatus, Inputs, Engine, Wiring, Effect, catalog_order,
}
use openwrt_starwatch.Alert.Engine.Evaluate.{emit, persist_state}
use openwrt_starwatch.Alert.Engine.Tick.{
  is_firing, raise, clear, lower, settle, forget, disable, tick_alert, tick_all, tick,
  compare_failover, evaluate_failover, failover_text, failover_state, set_rules, set_suppress_until,
}
use openwrt_starwatch.Alert.Engine.Alternation.{follow, follow-append, is_on, tick_alert-Follows}
use openwrt_starwatch.Alert.Engine.Others.{
  Silent-append, persist-Silent, emit-Silent, Ignores, tick_alert-Ignores,
}

-- What is called on an engine: a tick with its inputs and its reading of the clock, new rules, and
-- the suppression of the alert of an unreachable dish.
pub data Call (fl : Floats) : Type 0 where
  ticking : Inputs fl → ℕ → Call fl
  ruling : List (String × Rule fl) → Call fl
  suppressing : ℕ → Call fl

module _ (fl : Floats) where
  unfoldable pub call : Wiring fl → Call fl → Engine fl → Engine fl × List (Effect fl)
  call w (ticking inputs now) e = tick fl w inputs now e
  call w (ruling rules) e = (set_rules fl rules e, [])
  call w (suppressing until) e = (set_suppress_until fl until e, [])

  unfoldable pub run : Wiring fl → List (Call fl) → Engine fl → Engine fl × List (Effect fl)
  run w [] e = (e, [])
  run w (c ∷ cs) e = let (e₁, es) = call w c e in let (e₂, fs) = run w cs e₁ in (e₂, es ++ fs)

  -- Rules that have one for the alert, enabled or not.
  abbrev pub HasRule : String → List (String × Rule fl) → Type 0
  HasRule s rules = (r : Rule fl) × (lookup s rules ≡ some r)

  abbrev pub KeepsRule : String → List (Call fl) → Type 0
  KeepsRule s [] = Unit
  KeepsRule s (ticking inputs now ∷ cs) = KeepsRule s cs
  KeepsRule s (ruling rules ∷ cs) = HasRule s rules × KeepsRule s cs
  KeepsRule s (suppressing until ∷ cs) = KeepsRule s cs

  module _ (w : Wiring fl) (del : w.has_delivery ≡ true) (s : String)
      (own : ("failover_event" == s) ≡ false) where
    abbrev Follows : Engine fl → Engine fl × List (Effect fl) → Type 0
    Follows e r = follow fl s (is_on fl s e) r.1 ≡ some (is_on fl s r.0)

    Ignores-Follows :
        (e : Engine fl) (r : Engine fl × List (Effect fl)) → Ignores fl w s e r → Follows e r
    Ignores-Follows e r h = h.0 (is_on fl s e) ∙ ap (λ o. some (is_firing fl o)) (sym h.1)

    -- Two steps one after the other.
    Follows-then :
        (e : Engine fl) (r q : Engine fl × List (Effect fl))
        → Follows e r
        → Follows r.0 q
        → Follows e (q.0, r.1 ++ q.1)
    Follows-then e r q h k = follow-append fl s (is_on fl s e) (is_on fl s r.0) r.1 q.1 h ∙ k

    step-Follows :
        (rules : List (String × Rule fl)) (name : String) (inputs : Inputs fl) (now : ℕ)
        (e : Engine fl)
        → HasRule s rules
        → Follows e (tick_alert fl w (lookup name rules) name inputs now e)
    step-Follows rules name inputs now e (r, has) = elim (Bool-cases (name == s)) [
      | inl same ↦
          subst (λ n. Follows e (tick_alert fl w (lookup n rules) n inputs now e))
            (sym (==→≡ {A = String} name s same))
            (subst (λ o. Follows e (tick_alert fl w o s inputs now e)) (sym has)
              (tick_alert-Follows fl w del s r inputs now e))
      | inr other ↦
          Ignores-Follows e (tick_alert fl w (lookup name rules) name inputs now e)
            (tick_alert-Ignores fl w s name other (lookup name rules) inputs now e)
    ]

    Follows-if :
        (b : Bool) (e : Engine fl) (r q : Engine fl × List (Effect fl))
        → Follows e r
        → Follows e q
        → Follows e (if b then r else q)
    Follows-if true e r q h k = h
    Follows-if false e r q h k = k

    nothing-Follows : (e : Engine fl) → Follows e (e, [])
    unfolding follow
    nothing-Follows e = refl

    tick_all-Follows :
        (rules : List (String × Rule fl)) (names : List String) (inputs : Inputs fl) (now : ℕ)
        (e : Engine fl)
        → HasRule s rules
        → Follows e (tick_all fl w rules names inputs now e)
    unfolding tick_all
    tick_all-Follows rules [] inputs now e has = nothing-Follows e
    tick_all-Follows rules (name ∷ names) inputs now e has =
        let r : Engine fl × List (Effect fl) =
          if name == "failover_event"
          then (e, [])
          else tick_alert fl w (lookup name rules) name inputs now e in
        Follows-then e r (tick_all fl w rules names inputs now r.0)
          (Follows-if (name == "failover_event") e (e, [])
            (tick_alert fl w (lookup name rules) name inputs now e) (nothing-Follows e)
            (step-Follows rules name inputs now e has))
          (tick_all-Follows rules names inputs now r.0 has)

    compare-Follows :
        (rule : Rule fl) (m : MwanStatus) (inputs : Inputs fl) (now : ℕ) (e : Engine fl)
        → Follows e (compare_failover fl w rule m inputs now e)
    unfolding compare_failover
    compare-Follows rule m inputs now e =
        let e₁ = record e { failover_set = failover_text fl m; failover_ready = true } in
        let e₂ = record e { failover_set = failover_text fl m } in
        let a = failover_state fl e.failover_set m now in
        let changed = emit fl w "failover_event" rule.severity firing a inputs now in
        Follows-if (not e.failover_ready) e (e₁, persist_state fl w e₁) _
          (Ignores-Follows e (e₁, persist_state fl w e₁) (persist-Silent fl w s e₁, refl))
          (Follows-if (failover_text fl m == e.failover_set) e (e, [])
            (e₂, changed ++ persist_state fl w e₂) (nothing-Follows e)
            (Ignores-Follows e (e₂, changed ++ persist_state fl w e₂)
              (
                Silent-append fl w s changed (persist_state fl w e₂)
                    (emit-Silent fl w s "failover_event" rule.severity firing a inputs now own)
                    (persist-Silent fl w s e₂),
                refl,
              )))

    failover-Follows :
        (rule : Option (Rule fl)) (inputs : Inputs fl) (now : ℕ) (e : Engine fl)
        → Follows e (evaluate_failover fl w rule inputs now e)
    unfolding evaluate_failover
    failover-Follows none inputs now e = nothing-Follows e
    failover-Follows (some rule) inputs now e = elim (Option-cases (inputs.mwan3)) [
      | inl no_status ↦ subst (λ o. Follows e (with_status o)) (sym no_status) (nothing-Follows e)
      | inr (m, status) ↦
          subst (λ o. Follows e (with_status o)) (sym status)
            (Follows-if rule.enabled e (compare_failover fl w rule m inputs now e) (e, [])
              (compare-Follows rule m inputs now e) (nothing-Follows e))
    ]
      where
        with_status : Option MwanStatus → Engine fl × List (Effect fl)
        with_status o = elim o [
          | none ↦ (e, [])
          | some m ↦ if rule.enabled then compare_failover fl w rule m inputs now e else (e, [])
        ]

    call-Follows : (c : Call fl) (e : Engine fl) → HasRule s e.rules → Follows e (call w c e)
    unfolding call tick set_rules set_suppress_until follow
    call-Follows (ticking inputs now) e has =
        let r = evaluate_failover fl w (lookup "failover_event" e.rules) inputs now e in
        Follows-then e r (tick_all fl w e.rules catalog_order inputs now r.0)
          (failover-Follows (lookup "failover_event" e.rules) inputs now e)
          (tick_all-Follows e.rules catalog_order inputs now r.0 has)
    call-Follows (ruling rules) e has = refl
    call-Follows (suppressing until) e has = refl

  -- A tick leaves the rules alone.
  rules-tick_alert :
      (w : Wiring fl) (rule : Option (Rule fl)) (name : String) (inputs : Inputs fl) (now : ℕ)
      (e : Engine fl)
      → (tick_alert fl w rule name inputs now e).0.rules ≡ e.rules
  unfolding tick_alert settle raise lower clear forget disable
  rules-tick_alert w none name inputs now e = ground arith
  rules-tick_alert w (some rule) name inputs now e = ground arith

  rules-tick_all :
      (w : Wiring fl) (rules : List (String × Rule fl)) (names : List String) (inputs : Inputs fl)
      (now : ℕ) (e : Engine fl)
      → (tick_all fl w rules names inputs now e).0.rules ≡ e.rules
  unfolding tick_all
  rules-tick_all w rules [] inputs now e = refl
  rules-tick_all w rules (name ∷ names) inputs now e =
      let r : Engine fl × List (Effect fl) =
        if name == "failover_event"
        then (e, [])
        else tick_alert fl w (lookup name rules) name inputs now e in
      rules-tick_all w rules names inputs now r.0
      ∙ ground (arith, rules-tick_alert w (lookup name rules) name inputs now e)

  rules-failover :
      (w : Wiring fl) (rule : Option (Rule fl)) (inputs : Inputs fl) (now : ℕ) (e : Engine fl)
      → (evaluate_failover fl w rule inputs now e).0.rules ≡ e.rules
  unfolding evaluate_failover compare_failover
  rules-failover w none inputs now e = refl
  rules-failover w (some rule) inputs now e = ground arith

  rules-tick :
      (w : Wiring fl) (inputs : Inputs fl) (now : ℕ) (e : Engine fl)
      → (tick fl w inputs now e).0.rules ≡ e.rules
  unfolding tick
  rules-tick w inputs now e =
      let r = evaluate_failover fl w (lookup "failover_event" e.rules) inputs now e in
      rules-tick_all w e.rules catalog_order inputs now r.0
      ∙ rules-failover w (lookup "failover_event" e.rules) inputs now e

  KeepsRule-call :
      (w : Wiring fl) (s : String) (c : Call fl) (cs : List (Call fl)) (e : Engine fl)
      → HasRule s e.rules
      → KeepsRule s (c ∷ cs)
      → HasRule s (call w c e).0.rules × KeepsRule s cs
  unfolding call set_rules set_suppress_until
  KeepsRule-call w s (ticking inputs now) cs e has keeps =
      (subst (HasRule s) (sym (rules-tick w inputs now e)) has, keeps)
  KeepsRule-call w s (ruling rules) cs e has keeps = keeps
  KeepsRule-call w s (suppressing until) cs e has keeps = (has, keeps)

  -- Over any sequence of ticks, changes of the rules and suppressions, an alert's notifications to
  -- the delivery alternate between firing and resolved, beginning with firing if the alert is not
  -- active, and the last one tells whether it is active at the end. This holds of every alert but
  -- the failover event, as long as the engine's rules and each new set of rules have a rule for it,
  -- enabled or not.
  pub alerts_alternate :
      (w : Wiring fl) (s : String) (cs : List (Call fl)) (e : Engine fl)
      → w.has_delivery ≡ true
      → ("failover_event" == s) ≡ false
      → HasRule s e.rules
      → KeepsRule s cs
      → follow fl s (is_on fl s e) (run w cs e).1 ≡ some (is_on fl s (run w cs e).0)
  unfolding run
  alerts_alternate w s [] e del own has keeps = nothing-Follows w del s own e
  alerts_alternate w s (c ∷ cs) e del own has keeps =
      let (has', keeps') = KeepsRule-call w s c cs e has keeps in
      Follows-then w del s own e (call w c e) (run w cs (call w c e).0)
        (call-Follows w del s own c e has)
        (alerts_alternate w s cs (call w c e).0 del own has' keeps')

  -- The default rules have an enabled rule for every alert of the catalog, so that an engine that starts
  -- with them meets what the alternation of its notifications asks of its rules.
  pub default_rules_lem :
      (decimal : ℕ → ℕ → fl.F)
      → All
          (λ s. (r : Rule fl) × (lookup s (default_rules fl decimal) ≡ some r) × (r.enabled ≡ true))
          catalog_order
  unfolding default_rules lookup insert
  default_rules_lem decimal = (
    (_, refl, refl),
    (
      (_, refl, refl),
      (
        (_, refl, refl),
        (
          (_, refl, refl),
          (
            (_, refl, refl),
            (
              (_, refl, refl),
              (
                (_, refl, refl),
                (
                  (_, refl, refl),
                  ((_, refl, refl), ((_, refl, refl), ((_, refl, refl), ((_, refl, refl), tt)))),
                ),
              ),
            ),
          ),
        ),
      ),
    ),
  )

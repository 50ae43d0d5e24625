-- ===== src/Alert/Engine/Others.antt =====
-- The step of one alert says nothing about another and leaves its state alone.
use openwrt_starwatch.Base.{
  ℕ, ◌≡◌, refl, Bool, true, false, not, List, [], ◌++◌, Option, none, some, String, if◌then◌else◌,
  arith, ◌∙◌,
}
use openwrt_starwatch.Base.Int.{pos, sub_ℕ, ltb_ℤ}
use openwrt_starwatch.Base.Maps.{
  lookup, erase, string_eq, nat_eq, ◌==◌, lookup-insert, lookup-erase,
}
use openwrt_starwatch.Alert.Engine.{
  Severity, State, firing, resolved, Floats, Rule, Inputs, AlertState, Engine, Wiring, Effect,
}
use openwrt_starwatch.Alert.Engine.Evaluate.{Condition, evaluate, emit, persist_state, no_alert}
use openwrt_starwatch.Alert.Engine.Tick.{
  state_of, set_state, is_firing, raised, raise, clear, lower, settle, forget, disable, tick_alert,
}
use openwrt_starwatch.Outage.{is_known}
use openwrt_starwatch.Alert.Engine.Alternation.{follow, follow-append}

module _ (fl : Floats) (w : Wiring fl) (s : String) where
  -- Effects that say nothing about the alert `s`.
  abbrev pub Silent : List (Effect fl) → Type 0
  Silent es = (on : Bool) → follow fl s on es ≡ some on

  pub Silent-append : (es fs : List (Effect fl)) → Silent es → Silent fs → Silent (es ++ fs)
  Silent-append es fs h k on = follow-append fl s on on es fs (h on) ∙ k on

  pub persist-Silent : (e : Engine fl) → Silent (persist_state fl w e)
  unfolding follow persist_state
  persist-Silent e on = ground arith

  pub emit-Silent :
      (name : String) (severity : Severity) (state : State) (a : AlertState fl) (inputs : Inputs fl)
      (now : ℕ)
      → (name == s) ≡ false
      → Silent (emit fl w name severity state a inputs now)
  unfolding follow emit
  emit-Silent name severity state a inputs now other on = ground arith

  Silent-none : Silent []
  unfolding follow
  Silent-none on = refl

  Silent-if :
      (b : Bool) (es fs : List (Effect fl)) → Silent es → Silent fs → Silent (if b then es else fs)
  Silent-if true es fs h k = h
  Silent-if false es fs h k = k

  -- A step that says nothing about `s`, and leaves its state alone.
  abbrev pub Ignores : Engine fl → Engine fl × List (Effect fl) → Type 0
  Ignores e r = Silent r.1 × (lookup s r.0.states ≡ lookup s e.states)

  Ignores-if :
      (b : Bool) (e : Engine fl) (r q : Engine fl × List (Effect fl))
      → Ignores e r
      → Ignores e q
      → Ignores e (if b then r else q)
  Ignores-if true e r q h k = h
  Ignores-if false e r q h k = k

  module _ (name : String) (other : (name == s) ≡ false) where
    lookup-set_state :
        (a : AlertState fl) (e : Engine fl)
        → lookup s (set_state fl name a e).states ≡ lookup s e.states
    lookup-set_state a e = ground (arith, lookup-insert name s a e.states)

    clear-Ignores :
        (rule : Rule fl) (inputs : Inputs fl) (now : ℕ) (e : Engine fl)
        → Ignores e (clear fl w name rule inputs now e)
    unfolding clear
    clear-Ignores rule inputs now e =
        let e₁ = set_state fl name (no_alert fl) e in
        let a = state_of fl name e in
        (
          Silent-append (emit fl w name rule.severity resolved a inputs now) (persist_state fl w e₁)
              (emit-Silent name rule.severity resolved a inputs now other) (persist-Silent e₁),
          lookup-set_state (no_alert fl) e,
        )

    lower-Ignores :
        (rule : Rule fl) (inputs : Inputs fl) (now : ℕ) (e : Engine fl)
        → Ignores e (lower fl w name rule inputs now e)
    unfolding lower
    lower-Ignores rule inputs now e =
        let a = state_of fl name e in
        let e₁ = set_state fl name (record a { clear_since = now }) e in
        let same : Ignores e (set_state fl name a e, []) = (Silent-none, lookup-set_state a e) in
        let over = clear-Ignores rule inputs now e in
        Ignores-if (not a.active) e _ _ same (
          Ignores-if (ltb_ℤ (pos 0) rule.clear_hold) e _ _
            (Ignores-if (a.clear_since == 0) e _ _
              (persist-Silent e₁, lookup-set_state (record a { clear_since = now }) e)
              (Ignores-if (ltb_ℤ (sub_ℕ now a.clear_since) rule.clear_hold) e _ _ same over))
            over)

    raise-Ignores :
        (rule : Rule fl) (c : Condition fl) (inputs : Inputs fl) (now : ℕ) (e : Engine fl)
        → Ignores e (raise fl w name rule c inputs now e)
    unfolding raise
    raise-Ignores rule c inputs now e =
        let a = state_of fl name e in
        let e₁ = set_state fl name (record a { clear_since = 0 }) e in
        let e₂ = set_state fl name (raised fl now c a) e₁ in
        let off =
          Silent-if (a.clear_since == 0) [] (persist_state fl w e₁) Silent-none
            (persist-Silent e₁) in
        let kept = lookup-set_state (record a { clear_since = 0 }) e in
        Ignores-if a.active e _ _ (off, kept)
          (
            Silent-append _ _ off (
                Silent-append (emit fl w name rule.severity firing (raised fl now c a) inputs now)
                  (persist_state fl w e₂)
                  (emit-Silent name rule.severity firing (raised fl now c a) inputs now other)
                  (persist-Silent e₂)),
            lookup-set_state (raised fl now c a) e₁ ∙ kept,
          )

    lookup-forgotten : (e : Engine fl) → lookup s (erase name e.states) ≡ lookup s e.states
    lookup-forgotten e = ground (arith, lookup-erase name s e.states)

    disable-Ignores :
        (rule : Rule fl) (inputs : Inputs fl) (now : ℕ) (e : Engine fl)
        → Ignores e (disable fl w name rule inputs now e)
    unfolding disable
    disable-Ignores rule inputs now e =
        let e₁ = record e { states = erase name e.states } in
        let a = state_of fl name e in
        (
          Silent-append _ (persist_state fl w e₁)
              (Silent-if (is_firing fl (lookup name e.states))
                (emit fl w name rule.severity resolved a inputs now) []
                (emit-Silent name rule.severity resolved a inputs now other) Silent-none)
              (persist-Silent e₁),
          lookup-forgotten e,
        )

    forget-Ignores : (e : Engine fl) → Ignores e (forget fl w name e)
    unfolding forget
    forget-Ignores e =
        let e₁ = record e { states = erase name e.states } in
        Ignores-if (is_known (lookup name e.states)) e (e₁, persist_state fl w e₁) (e, [])
          (persist-Silent e₁, lookup-forgotten e) (Silent-none, refl)

    pub tick_alert-Ignores :
        (rule : Option (Rule fl)) (inputs : Inputs fl) (now : ℕ) (e : Engine fl)
        → Ignores e (tick_alert fl w rule name inputs now e)
    unfolding tick_alert settle
    tick_alert-Ignores none inputs now e = forget-Ignores e
    tick_alert-Ignores (some rule) inputs now e =
        let c = (evaluate fl w name rule inputs now e).0 in
        let e₁ = record e { obstruction = (evaluate fl w name rule inputs now e).1 } in
        Ignores-if (not rule.enabled) e _ _ (disable-Ignores rule inputs now e) (
          Ignores-if (not c.known) e _ _ (Silent-none, refl)
            (Ignores-if c.active e _ _ (raise-Ignores rule c inputs now e₁)
              (lower-Ignores rule inputs now e₁)))

-- ===== src/Alert/Engine/Tick.antt =====
-- `Tick`: the failover notice, and the state of each alert of the catalog.
use openwrt_starwatch.Base.{
  ℕ, Bool, true, false, not, List, [], ◌∷◌, ◌++◌, Option, none, some, String, if◌then◌else◌,
}
use openwrt_starwatch.Base.Int.{pos, sub_ℕ, ltb_ℤ}
use openwrt_starwatch.Base.Maps.{lookup, insert, erase, string_eq, nat_eq, ◌==◌}
use openwrt_starwatch.Base.Text.{sort_texts, join_texts}
use Prim.Native.String.{◌++◌ as append_text}
use openwrt_starwatch.Outage.{is_known}
use openwrt_starwatch.Alert.Engine.{
  firing, resolved, Floats, text, texts, Rule, MwanInterface, MwanStatus, Inputs, AlertState,
  Engine, Wiring, Effect, catalog_order,
}
use openwrt_starwatch.Alert.Engine.Evaluate.{Condition, evaluate, emit, persist_state, no_alert}

module _ (fl : Floats) where
  open fl use {F, zero_float}

  abbrev pub state_of : String → Engine fl → AlertState fl
  state_of name e = elim (lookup name e.states) [ none ↦ no_alert fl | some a ↦ a ]

  abbrev pub set_state : String → AlertState fl → Engine fl → Engine fl
  set_state name a e = record e { states = insert name a e.states }

  abbrev pub is_firing : Option (AlertState fl) → Bool
  is_firing none = false
  is_firing (some a) = a.active

  abbrev pub raised : ℕ → Condition fl → AlertState fl → AlertState fl
  raised now c a = record a {
    active = true;
    fired_at = now;
    subject_start = c.started;
    clear_since = 0;
    detail = c.detail;
  }

  -- The condition holds: a pending clearing is called off, and an alert that is not active fires.
  unfoldable pub raise :
      Wiring fl
      → String
      → Rule fl
      → Condition fl
      → Inputs fl
      → ℕ
      → Engine fl
      → Engine fl × List (Effect fl)
  raise w name rule c inputs now e =
      let a = state_of name e in
      let e₁ = set_state name (record a { clear_since = 0 }) e in
      let called_off = if a.clear_since == 0 then [] else persist_state fl w e₁ in
      if a.active
      then (e₁, called_off)
      else (let e₂ = set_state name (raised now c a) e₁ in
          (
            e₂,
            called_off
                ++ (emit fl w name rule.severity firing (raised now c a) inputs now
                    ++ persist_state fl w e₂),
          ))

  -- The alert is over.
  unfoldable pub clear :
      Wiring fl → String → Rule fl → Inputs fl → ℕ → Engine fl → Engine fl × List (Effect fl)
  clear w name rule inputs now e =
      let e₁ = set_state name (no_alert fl) e in
      (
        e₁,
        emit fl w name rule.severity resolved (state_of name e) inputs now ++ persist_state fl w e₁,
      )

  -- The condition does not hold: an active alert ends, after `clear_hold` if there is one.
  unfoldable pub lower :
      Wiring fl → String → Rule fl → Inputs fl → ℕ → Engine fl → Engine fl × List (Effect fl)
  lower w name rule inputs now e =
      let a = state_of name e in
      let e₀ = set_state name a e in
      let e₁ = set_state name (record a { clear_since = now }) e in
      if not a.active
      then (e₀, [])
      else if ltb_ℤ (pos 0) rule.clear_hold
      then (if a.clear_since == 0
          then (e₁, persist_state fl w e₁)
          else if ltb_ℤ (sub_ℕ now a.clear_since) rule.clear_hold
          then (e₀, [])
          else clear w name rule inputs now e)
      else clear w name rule inputs now e

  unfoldable pub settle :
      Wiring fl
      → String
      → Rule fl
      → Condition fl
      → Inputs fl
      → ℕ
      → Engine fl
      → Engine fl × List (Effect fl)
  settle w name rule c inputs now e =
      if not c.known
      then (e, [])
      else if c.active
      then raise w name rule c inputs now e
      else lower w name rule inputs now e

  -- A rule that is gone, and one that is not enabled.
  unfoldable pub forget : Wiring fl → String → Engine fl → Engine fl × List (Effect fl)
  forget w name e =
      let e₁ = record e { states = erase name e.states } in
      if is_known (lookup name e.states) then (e₁, persist_state fl w e₁) else (e, [])

  unfoldable pub disable :
      Wiring fl → String → Rule fl → Inputs fl → ℕ → Engine fl → Engine fl × List (Effect fl)
  disable w name rule inputs now e =
      let e₁ = record e { states = erase name e.states } in
      (
        e₁,
        (if is_firing (lookup name e.states)
              then emit fl w name rule.severity resolved (state_of name e) inputs now
              else [])
            ++ persist_state fl w e₁,
      )

  -- The body of `Tick`'s loop over the catalog.
  unfoldable pub tick_alert :
      Wiring fl
      → Option (Rule fl)
      → String
      → Inputs fl
      → ℕ
      → Engine fl
      → Engine fl × List (Effect fl)
  tick_alert w none name inputs now e = forget w name e
  tick_alert w (some rule) name inputs now e =
      if not rule.enabled
      then disable w name rule inputs now e
      else (let (c, cache) = evaluate fl w name rule inputs now e in
          settle w name rule c inputs now (record e { obstruction = cache }))

  unfoldable pub tick_all :
      Wiring fl
      → List (String × Rule fl)
      → List String
      → Inputs fl
      → ℕ
      → Engine fl
      → Engine fl × List (Effect fl)
  tick_all w rules [] inputs now e = (e, [])
  tick_all w rules (name ∷ names) inputs now e =
      let (e₁, es) =
        if name == "failover_event"
        then (e, [])
        else tick_alert w (lookup name rules) name inputs now e in
      let (e₂, fs) = tick_all w rules names inputs now e₁ in (e₂, es ++ fs)

  abbrev pub online_names : List MwanInterface → List String
  online_names [] = []
  online_names (i ∷ is) = let rest = online_names is in if i.online then i.name ∷ rest else rest

  -- The text by which two failover states are compared.
  abbrev pub failover_text : MwanStatus → String
  failover_text m = append_text "active=" (
      append_text (join_texts "," (sort_texts m.active_interfaces))
        (append_text ";online=" (join_texts "," (sort_texts (online_names m.interfaces)))))

  abbrev pub failover_state : String → MwanStatus → ℕ → AlertState fl
  failover_state previous m now = record {
    active = true;
    fired_at = now;
    subject_start = now;
    clear_since = 0;
    detail =
        ("previous", text previous)
        ∷ ("active", texts (sort_texts m.active_interfaces))
        ∷ ("online", texts (sort_texts (online_names m.interfaces)))
        ∷ [];
  }

  -- `evaluateFailover` where the rule is enabled and there is a status.
  unfoldable pub compare_failover :
      Wiring fl → Rule fl → MwanStatus → Inputs fl → ℕ → Engine fl → Engine fl × List (Effect fl)
  compare_failover w rule m inputs now e =
      let current = failover_text m in
      let e₁ = record e { failover_set = current; failover_ready = true } in
      let e₂ = record e { failover_set = current } in
      if not e.failover_ready
      then (e₁, persist_state fl w e₁)
      else if current == e.failover_set
      then (e, [])
      else (
        e₂,
        emit fl w "failover_event" rule.severity firing (failover_state e.failover_set m now) inputs
              now
            ++ persist_state fl w e₂,
      )

  unfoldable pub evaluate_failover :
      Wiring fl → Option (Rule fl) → Inputs fl → ℕ → Engine fl → Engine fl × List (Effect fl)
  evaluate_failover w none inputs now e = (e, [])
  evaluate_failover w (some rule) inputs now e = elim (inputs.mwan3) [
    | none ↦ (e, [])
    | some m ↦ if rule.enabled then compare_failover w rule m inputs now e else (e, [])
  ]

  unfoldable pub tick : Wiring fl → Inputs fl → ℕ → Engine fl → Engine fl × List (Effect fl)
  unfolding tick_all evaluate_failover
  tick w inputs now e =
      let (e₁, es) = evaluate_failover w (lookup "failover_event" e.rules) inputs now e in
      let (e₂, fs) = tick_all w e.rules catalog_order inputs now e₁ in (e₂, es ++ fs)

  unfoldable pub set_rules : List (String × Rule fl) → Engine fl → Engine fl
  set_rules rules e = record e { rules = rules }

  unfoldable pub set_suppress_until : ℕ → Engine fl → Engine fl
  set_suppress_until until e = record e { suppress_until = until }

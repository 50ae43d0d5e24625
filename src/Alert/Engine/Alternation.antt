-- ===== src/Alert/Engine/Alternation.antt =====
-- Over any ticks, the notifications of an alert alternate between firing and resolved.
use openwrt_starwatch.Base.{
  ℕ, ◌≡◌, refl, Bool, true, false, List, [], ◌∷◌, ◌++◌, Option, none, some, String, if◌then◌else◌,
  arith, ap, sym, ◌∙◌,
}
use openwrt_starwatch.Base.Maps.{
  lookup, erase, string_eq, nat_eq, ◌==◌, lookup-insert, lookup-erase, ==-refl,
}
use openwrt_starwatch.Alert.Engine.{
  Severity, State, firing, resolved, Floats, Rule, Inputs, AlertState, Engine, Wiring, Effect,
  enqueued, recorded, streamed, stored,
}
use openwrt_starwatch.Alert.Engine.Evaluate.{Condition, evaluate, emit, persist_state, no_alert}
use openwrt_starwatch.Alert.Engine.Tick.{
  state_of, set_state, is_firing, raised, raise, clear, lower, settle, disable, tick_alert,
}

-- Whether an alert is active before and after a notification of it.
abbrev emits_when : State → Bool
emits_when firing = false
emits_when resolved = true

abbrev emits_to : State → Bool
emits_to firing = true
emits_to resolved = false

module _ (fl : Floats) where
  -- Follows the notifications handed to the delivery about one alert: `none` if one fires an alert
  -- that is firing already, or resolves one that is not.
  unfoldable pub follow : String → Bool → List (Effect fl) → Option Bool
  follow s on [] = some on
  follow s on (enqueued n ∷ es) =
      let same = follow s on es in
      let fired = follow s true es in
      let over = follow s false es in
      if n.alert == s
      then elim (n.state) [
        | firing ↦ if on then none else fired
        | resolved ↦ if on then over else none
      ]
      else same
  follow s on (recorded kind at n ∷ es) = follow s on es
  follow s on (streamed kind at n ∷ es) = follow s on es
  follow s on (stored p ∷ es) = follow s on es

  pub follow-append :
      (s : String) (on mid : Bool) (es fs : List (Effect fl))
      → follow s on es ≡ some mid
      → follow s on (es ++ fs) ≡ follow s mid fs
  unfolding follow
  follow-append s on mid [] fs h = ground arith
  follow-append s on mid (enqueued n ∷ es) fs h = ground (
    arith,
    follow-append s on mid es fs,
    follow-append s true mid es fs,
    follow-append s false mid es fs,
  )
  follow-append s on mid (recorded kind at n ∷ es) fs h = follow-append s on mid es fs h
  follow-append s on mid (streamed kind at n ∷ es) fs h = follow-append s on mid es fs h
  follow-append s on mid (stored p ∷ es) fs h = follow-append s on mid es fs h

  -- Whether the engine holds the alert for active.
  abbrev pub is_on : String → Engine fl → Bool
  is_on s e = is_firing fl (lookup s e.states)

  persist-follow :
      (w : Wiring fl) (s : String) (on : Bool) (e : Engine fl)
      → follow s on (persist_state fl w e) ≡ some on
  unfolding follow persist_state
  persist-follow w s on e = ground arith

  module _ (w : Wiring fl) (del : w.has_delivery ≡ true) (s : String) where
    emit-follow_self :
        (severity : Severity) (state : State) (a : AlertState fl) (inputs : Inputs fl) (now : ℕ)
        → follow s (emits_when state) (emit fl w s severity state a inputs now)
          ≡ some (emits_to state)
    unfolding follow emit
    emit-follow_self severity state a inputs now = ground (arith, ==-refl {A = String} s)

    -- The follow of an emission with what is saved after it.
    emit-persist-follow :
        (severity : Severity) (state : State) (a : AlertState fl) (inputs : Inputs fl) (now : ℕ)
        (e : Engine fl)
        → follow s
            (emits_when state)
            (emit fl w s severity state a inputs now ++ persist_state fl w e)
          ≡ some (emits_to state)
    emit-persist-follow severity state a inputs now e =
        follow-append s (emits_when state) (emits_to state)
          (emit fl w s severity state a inputs now) (persist_state fl w e)
          (emit-follow_self severity state a inputs now)
        ∙ persist-follow w s (emits_to state) e

    is_on-set_state : (a : AlertState fl) (e : Engine fl) → is_on s (set_state fl s a e) ≡ a.active
    is_on-set_state a e = ground (arith, lookup-insert s s a e.states, ==-refl {A = String} s)

    -- What an alert's own step says and leaves.
    abbrev Follows : Engine fl → Engine fl × List (Effect fl) → Type 0
    Follows e r = follow s (is_on s e) r.1 ≡ some (is_on s r.0)

    is_on-state_of : (e : Engine fl) → is_on s e ≡ (state_of fl s e).active
    is_on-state_of e = ground arith

    clear-Follows :
        (rule : Rule fl) (inputs : Inputs fl) (now : ℕ) (e : Engine fl)
        → is_on s e ≡ true
        → Follows e (clear fl w s rule inputs now e)
    unfolding clear
    clear-Follows rule inputs now e on =
        ap (λ b. follow s b (clear fl w s rule inputs now e).1) on
        ∙ emit-persist-follow rule.severity resolved (state_of fl s e) inputs now
            (set_state fl s (no_alert fl) e)
        ∙ ap some (sym (is_on-set_state (no_alert fl) e))

    lower-Follows :
        (rule : Rule fl) (inputs : Inputs fl) (now : ℕ) (e : Engine fl)
        → Follows e (lower fl w s rule inputs now e)
    unfolding lower follow
    lower-Follows rule inputs now e = ground (
      arith,
      clear-Follows rule inputs now e,
      is_on-state_of e,
      is_on-set_state (state_of fl s e) e,
      is_on-set_state (record (state_of fl s e) { clear_since = now }) e,
      persist-follow w s (is_on s e)
          (set_state fl s (record (state_of fl s e) { clear_since = now }) e),
    )

    called_off-follow :
        (b : Bool) (on : Bool) (e : Engine fl) (es : List (Effect fl))
        → follow s on ((if b then [] else persist_state fl w e) ++ es) ≡ follow s on es
    called_off-follow true on e es = refl
    called_off-follow false on e es =
        follow-append s on on (persist_state fl w e) es (persist-follow w s on e)

    raise-Follows :
        (rule : Rule fl) (c : Condition fl) (inputs : Inputs fl) (now : ℕ) (e : Engine fl)
        → Follows e (raise fl w s rule c inputs now e)
    unfolding raise follow
    raise-Follows rule c inputs now e = ground (
      arith,
      is_on-state_of e,
      is_on-set_state (record (state_of fl s e) { clear_since = 0 }) e,
      is_on-set_state (raised fl now c (state_of fl s e))
          (set_state fl s (record (state_of fl s e) { clear_since = 0 }) e),
      persist-follow w s (is_on s e)
          (set_state fl s (record (state_of fl s e) { clear_since = 0 }) e),
      called_off-follow ((state_of fl s e).clear_since == 0) false
          (set_state fl s (record (state_of fl s e) { clear_since = 0 }) e)
          (emit fl w s rule.severity firing (raised fl now c (state_of fl s e)) inputs now
            ++ persist_state fl w (
                set_state fl s (raised fl now c (state_of fl s e))
                  (set_state fl s (record (state_of fl s e) { clear_since = 0 }) e))),
      emit-persist-follow rule.severity firing (raised fl now c (state_of fl s e)) inputs now (
          set_state fl s (raised fl now c (state_of fl s e))
            (set_state fl s (record (state_of fl s e) { clear_since = 0 }) e)),
    )

    disable-Follows :
        (rule : Rule fl) (inputs : Inputs fl) (now : ℕ) (e : Engine fl)
        → Follows e (disable fl w s rule inputs now e)
    unfolding disable follow
    disable-Follows rule inputs now e = ground (
      arith,
      is_on-state_of e,
      lookup-erase s s e.states,
      ==-refl {A = String} s,
      persist-follow w s (is_on s e) (record e { states = erase s e.states }),
      emit-persist-follow rule.severity resolved (state_of fl s e) inputs now
          (record e { states = erase s e.states }),
    )

    pub tick_alert-Follows :
        (rule : Rule fl) (inputs : Inputs fl) (now : ℕ) (e : Engine fl)
        → Follows e (tick_alert fl w (some rule) s inputs now e)
    unfolding tick_alert settle follow
    tick_alert-Follows rule inputs now e = ground (
      arith,
      disable-Follows rule inputs now e,
      raise-Follows rule (evaluate fl w s rule inputs now e).0 inputs now
          (record e { obstruction = (evaluate fl w s rule inputs now e).1 }),
      lower-Follows rule inputs now
          (record e { obstruction = (evaluate fl w s rule inputs now e).1 }),
    )

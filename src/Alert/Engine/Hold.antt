-- ===== src/Alert/Engine/Hold.antt =====
-- When the alerts go off and on: the hold before an alert is cleared.
use openwrt_starwatch.Base.{ℕ, ◌≡◌, ◌≢◌, true, false, String, arith}
use openwrt_starwatch.Base.Int.{pos, sub_ℕ, ltb_ℤ, leb_ℤ}
use openwrt_starwatch.Base.Maps.{string_eq, nat_eq, lookup-insert, ==-refl}
use openwrt_starwatch.Alert.Engine.{Floats, Rule, Inputs, AlertState, Engine, Wiring}
use openwrt_starwatch.Alert.Engine.Evaluate.{Condition}
use openwrt_starwatch.Alert.Engine.Tick.{state_of, set_state, raised, raise, clear, lower, settle}

module _ (fl : Floats) (w : Wiring fl) (name : String) where
  state_of-set_state :
      (a : AlertState fl) (e : Engine fl) → state_of fl name (set_state fl name a e) ≡ a
  state_of-set_state a e =
      ground (arith, lookup-insert name name a e.states, ==-refl {A = String} name)

  raise-active :
      (rule : Rule fl) (c : Condition fl) (inputs : Inputs fl) (now : ℕ) (e : Engine fl)
      → ((state_of fl name (raise fl w name rule c inputs now e).0).active ≡ true)
        × ((state_of fl name (raise fl w name rule c inputs now e).0).clear_since ≡ 0)
  unfolding raise
  raise-active rule c inputs now e = ground (
    arith,
    state_of-set_state (record (state_of fl name e) { clear_since = 0 }) e,
    state_of-set_state (raised fl now c (state_of fl name e))
        (set_state fl name (record (state_of fl name e) { clear_since = 0 }) e),
  )

  lower_held :
      (rule : Rule fl) (inputs : Inputs fl) (now : ℕ) (e : Engine fl)
      → ltb_ℤ (pos 0) rule.clear_hold ≡ true
      → (state_of fl name e).active ≡ true
      → (state_of fl name (lower fl w name rule inputs now e).0).active ≡ false
      → ((state_of fl name e).clear_since ≢ 0)
        × (leb_ℤ rule.clear_hold (sub_ℕ now (state_of fl name e).clear_since) ≡ true)
  unfolding lower clear
  lower_held rule inputs now e hold on off = ground (
    arith,
    state_of-set_state (state_of fl name e) e,
    state_of-set_state (record (state_of fl name e) { clear_since = now }) e,
  )

  -- `settle` makes an active alert of a rule with a positive clear hold inactive only if the
  -- condition is known and does not hold, the clearing was pending from an earlier tick on, and the
  -- hold has passed since then.
  pub settle_clears_after_hold :
      (rule : Rule fl) (c : Condition fl) (inputs : Inputs fl) (now : ℕ) (e : Engine fl)
      → ltb_ℤ (pos 0) rule.clear_hold ≡ true
      → (state_of fl name e).active ≡ true
      → (state_of fl name (settle fl w name rule c inputs now e).0).active ≡ false
      → (c.known ≡ true)
        × (c.active ≡ false)
        × ((state_of fl name e).clear_since ≢ 0)
        × (leb_ℤ rule.clear_hold (sub_ℕ now (state_of fl name e).clear_since) ≡ true)
  unfolding settle
  settle_clears_after_hold rule c inputs now e hold on off =
      ground (arith, raise-active rule c inputs now e, lower_held rule inputs now e hold on)

  -- A tick in which the condition is known to hold leaves the alert active, and no clearing pending.
  pub settle_raises :
      (rule : Rule fl) (c : Condition fl) (inputs : Inputs fl) (now : ℕ) (e : Engine fl)
      → c.known ≡ true
      → c.active ≡ true
      → ((state_of fl name (settle fl w name rule c inputs now e).0).active ≡ true)
        × ((state_of fl name (settle fl w name rule c inputs now e).0).clear_since ≡ 0)
  unfolding settle
  settle_raises rule c inputs now e known active = ground (arith, raise-active rule c inputs now e)

-- ===== src/Alert/Engine/Restore.antt =====
-- `persistState` and `restoreState`: what a new engine takes over from an earlier one.
use mathlib.Core.Option
use mathlib.Core.Path.{subst}
use openwrt_starwatch.Base.{
  ◌≡◌, refl, Bool, true, false, not, ◌||◌, List, [], ◌∷◌, Option, none, some, String, if◌then◌else◌,
  arith, ap, sym,
}
use openwrt_starwatch.Base.Maps.{
  lookup, insert, string_eq, nat_eq, lookup-insert, contains, NoRepeat,
}
use openwrt_starwatch.Alert.Engine.{
  Floats, Value, Detail, Rule, AlertState, Engine, Persisted, Wiring,
}
use openwrt_starwatch.Alert.Engine.Evaluate.{active_states, saved_state}

module _ {fl : Floats} where
  abbrev pub names : List (String × AlertState fl) → List String
  names [] = []
  names ((n, a) ∷ m) = n ∷ names m

module _ (fl : Floats) (reread : Value (fl.F) → Value (fl.F)) where
  abbrev pub reread_detail : Detail fl → Detail fl
  reread_detail [] = []
  reread_detail ((key, value) ∷ detail) = (key, reread value) ∷ reread_detail detail

  abbrev pub reread_state : AlertState fl → AlertState fl
  reread_state a = record a { detail = reread_detail a.detail }

  abbrev pub reread_states : List (String × AlertState fl) → List (String × AlertState fl)
  reread_states [] = []
  reread_states ((n, a) ∷ m) = (n, reread_state a) ∷ reread_states m

  abbrev pub reread_all : Persisted fl → Persisted fl
  reread_all p = record p { states = reread_states p.states }

  names-reread_states : (m : List (String × AlertState fl)) → names (reread_states m) ≡ names m
  names-reread_states [] = refl
  names-reread_states ((n, a) ∷ m) = ap (λ l. n ∷ l) (names-reread_states m)

  lookup-reread_states :
      (s : String) (m : List (String × AlertState fl))
      → lookup s (reread_states m) ≡ Option.map reread_state (lookup s m)
  unfolding lookup
  lookup-reread_states s [] = refl
  lookup-reread_states s ((n, a) ∷ m) = ground (arith, lookup-reread_states s m)

-- The JSON codec of the saved state (`encoding/json`): `json.Marshal` may fail, and a detail's values,
-- of the type `any`, may be decoded as others than were encoded (`reread`): a float32 as a float64, a
-- `[]string` as an `[]any`. It is relied on for this: the text of a state is not empty, and is decoded
-- as that state, its details apart.
pub record Codec (fl : Floats) : Type 1 where
  pub Bytes : Type 0
  pub is_empty : Bytes → Bool
  pub encode : Persisted fl → Option Bytes
  pub decode : Bytes → Option (Persisted fl)
  pub reread : Value (fl.F) → Value (fl.F)
  pub encode_nonempty : (p : Persisted fl) (b : Bytes) → encode p ≡ some b → is_empty b ≡ false
  pub decode-encode :
      (p : Persisted fl) (b : Bytes)
      → NoRepeat (names p.states)
      → encode p ≡ some b
      → decode b ≡ some (reread_all fl reread p)

module _ (fl : Floats) (codec : Codec fl) where
  open fl use {F, zero_float}
  open codec use {Bytes, is_empty, encode, decode, reread, encode_nonempty, decode-encode}

  unfoldable pub new_engine : List (String × Rule fl) → Engine fl
  new_engine rules = record {
    rules = rules;
    states = [];
    suppress_until = 0;
    obstruction = record { at = 0; average = zero_float; valid = false };
    failover_set = "";
    failover_ready = false;
  }

  -- `for name, state := range saved.States { e.states[name] = … }`
  unfoldable pub restore_states :
      List (String × AlertState fl) → List (String × AlertState fl) → List (String × AlertState fl)
  restore_states [] states = states
  restore_states ((n, a) ∷ m) states = restore_states m (insert n a states)

  -- `loaded` is what the store returns: an error (`none`) or a text.
  unfoldable pub restore_state : Wiring fl → Option Bytes → Engine fl → Engine fl
  unfolding restore_states
  restore_state w none e = e
  restore_state w (some encoded) e =
      if not w.has_store || is_empty encoded then e else elim (decode encoded) [
        | none ↦ e
        | some saved ↦ record e {
          states = restore_states saved.states e.states;
          failover_set = saved.failover_set;
          failover_ready = saved.failover_ready;
        }
      ]

  abbrev pub known : Option (AlertState fl) → Option (AlertState fl) → Option (AlertState fl)
  known none old = old
  known (some a) old = some a

  lookup-missing :
      (s : String) (m : List (String × AlertState fl))
      → contains (names m) s ≡ false
      → lookup s m ≡ none
  unfolding lookup contains
  lookup-missing s [] h = refl
  lookup-missing s ((n, a) ∷ m) h = ground (arith, lookup-missing s m)

  lookup-restore_states :
      (s : String) (m states : List (String × AlertState fl))
      → NoRepeat (names m)
      → lookup s (restore_states m states) ≡ known (lookup s m) (lookup s states)
  unfolding restore_states lookup
  lookup-restore_states s [] states h = refl
  lookup-restore_states s ((n, a) ∷ m) states h = ground (
    arith,
    lookup-restore_states s m (insert n a states) h.1,
    lookup-insert n s a states,
    lookup-missing n m h.0,
    string_eq.test_iff n s,
  )

  contains-active_states :
      (s : String) (m : List (String × AlertState fl))
      → contains (names m) s ≡ false
      → contains (names (active_states fl m)) s ≡ false
  unfolding contains
  contains-active_states s [] h = h
  contains-active_states s ((n, a) ∷ m) h = ground (arith, contains-active_states s m)

  NoRepeat-active_states :
      (m : List (String × AlertState fl))
      → NoRepeat (names m)
      → NoRepeat (names (active_states fl m))
  NoRepeat-active_states [] h = tt
  NoRepeat-active_states ((n, a) ∷ m) h =
      ground (arith, NoRepeat-active_states m h.1, contains-active_states n m h.0)

  -- The state of an alert, if it is active.
  abbrev pub if_active : Option (AlertState fl) → Option (AlertState fl)
  if_active none = none
  if_active (some a) = if a.active then some a else none

  lookup-active_states :
      (s : String) (m : List (String × AlertState fl))
      → NoRepeat (names m)
      → lookup s (active_states fl m) ≡ if_active (lookup s m)
  unfolding lookup
  lookup-active_states s [] h = refl
  lookup-active_states s ((n, a) ∷ m) h =
      ground (arith, lookup-active_states s m h.1, lookup-missing n m h.0, string_eq.test_iff n s)

  -- Where the state that an engine saves can be encoded, a new engine that restores its text has that
  -- engine's active alerts, each with its times, and with its detail as JSON decodes it, no other
  -- alert, and its failover state.
  pub restore_state-saved_state :
      (w : Wiring fl) (e : Engine fl) (rules : List (String × Rule fl)) (s : String) (b : Bytes)
      → w.has_store ≡ true
      → NoRepeat (names e.states)
      → encode (saved_state fl e) ≡ some b
      → let r = restore_state w (some b) (new_engine rules) in
        (lookup s r.states ≡ Option.map (reread_state fl reread) (if_active (lookup s e.states)))
        × (r.failover_set ≡ e.failover_set)
        × (r.failover_ready ≡ e.failover_ready)
        × (r.rules ≡ rules)
  unfolding restore_state new_engine lookup
  restore_state-saved_state w e rules s b store unique encoded =
      let active = active_states fl e.states in
      let once = NoRepeat-active_states e.states unique in
      ground (
        arith,
        encode_nonempty (saved_state fl e) b encoded,
        decode-encode (saved_state fl e) b once encoded,
        lookup-restore_states s (reread_states fl reread active) []
            (subst NoRepeat (sym (names-reread_states fl reread active)) once),
        lookup-reread_states fl reread s active,
        lookup-active_states s e.states unique,
      )

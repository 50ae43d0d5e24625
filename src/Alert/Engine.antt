-- ===== src/Alert/Engine.antt =====
-- router/internal/alert/engine.go: the evaluation of the alert catalog, tick by tick.
-- Floats, the JSON codec and the history reader are arguments: `Floats`, `Codec` and a function that
-- gives the values of the last 24 hours of the obstruction series, or fails. What a tick sends and
-- saves is the list of its effects. Durations of a rule and between instants are signed.
pub mod Evaluate
pub mod Tick
pub mod Alternation
pub mod Others
pub mod Run
pub mod Hold
pub mod Frames
pub mod Clears
pub mod Restore
use openwrt_starwatch.Base.{
  ℕ, ◌+◌, ◌-◌, ◌*◌, ◌≡◌, refl, Bool, true, false, not, ◌&&◌, ◌||◌, List, [], ◌∷◌, ◌++◌, map, Option,
  none, some, String, ltb, leb, keep, length, if◌then◌else◌,
}
use openwrt_starwatch.Base.Int.{ℤ, pos, negsuc, sub_ℕ, ltb_ℤ, leb_ℤ}
use openwrt_starwatch.Base.Maps.{lookup, insert, erase, string_eq, nat_eq, ◌==◌}
use openwrt_starwatch.History.{second}
use openwrt_starwatch.Outage.{Entry, source_unreachable, nonnegative_duration}

pub data Severity : Type 0 where
  critical warning info : Severity

pub data State : Type 0 where
  firing resolved : State

-- float32 and float64, with the operations that the engine uses.
pub record Floats : Type 1 where
  pub F : Type 0
  pub gt : F → F → Bool
  pub zero_float : F
  pub add_float : F → F → F
  pub div_float : F → F → F
  pub of_count : ℕ → F
  pub narrow : F → F  -- to float32
  pub widen : F → F  -- to float64

-- The values of a notification's detail. One that was decoded from JSON may be a list (`[]any`) of
-- strings, or null.
pub data Value (F : Type 0) : Type 0 where
  text : String → Value F
  texts : List String → Value F
  float : F → Value F
  seconds : ℤ → Value F
  anys : List String → Value F
  null : Value F

pub record DishStatus : Type 0 where
  pub software_update_state : String
  pub alerts : String → Bool

pub record MwanInterface : Type 0 where
  pub name : String
  pub online : Bool

pub record MwanStatus : Type 0 where
  pub active_interfaces : List String
  pub interfaces : List MwanInterface

module _ (fl : Floats) where
  open fl use {F, gt, zero_float, add_float, div_float, of_count}

  abbrev pub Detail : Type 0
  Detail = List (String × Value F)

  pub record Rule : Type 0 where
    pub enabled : Bool
    pub severity : Severity
    pub threshold : F
    pub threshold2 : F
    pub hold : ℤ
    pub clear_hold : ℤ

  pub record Notification : Type 0 where
    pub alert : String
    pub severity : Severity
    pub state : State
    pub at : ℕ
    pub detail : Detail
    pub device : String

  -- The fields of `Inputs` that the engine reads.
  pub record Inputs : Type 0 where
    pub dish : Option DishStatus
    pub device_id : Option String
    pub wan_available : Bool
    pub probe_loss_5m : F
    pub probe_rtt_5m_ms : F
    pub mwan3 : Option MwanStatus
    pub outages : List Entry

  pub record AlertState : Type 0 where
    pub active : Bool
    pub fired_at : ℕ
    pub subject_start : ℕ
    pub clear_since : ℕ
    pub detail : Detail

  pub record ObstructionCache : Type 0 where
    pub at : ℕ
    pub average : F
    pub valid : Bool

  pub record Engine : Type 0 where
    pub rules : List (String × Rule)
    pub states : List (String × AlertState)
    pub suppress_until : ℕ
    pub obstruction : ObstructionCache
    pub failover_set : String
    pub failover_ready : Bool

  -- `persistedEngineState`
  pub record Persisted : Type 0 where
    pub states : List (String × AlertState)
    pub failover_set : String
    pub failover_ready : Bool

  -- Which of `Options`' collaborators are not nil, which states `json.Marshal` encodes without an error,
  -- and the history reader.
  pub record Wiring : Type 0 where
    pub has_delivery : Bool
    pub has_events : Bool
    pub has_live : Bool
    pub has_store : Bool
    pub encodes : Persisted → Bool
    pub history : Option (ℕ → Option (List F))

  pub data Effect : Type 0 where
    enqueued : Notification → Effect
    recorded : String → ℕ → Notification → Effect
    streamed : String → ℕ → Notification → Effect
    stored : Persisted → Effect

abbrev pub catalog_order : List String
catalog_order =
    "outage_started" ∷ "dish_unreachable" ∷ "path_degraded" ∷ "obstruction_high"
    ∷ "thermal_throttle" ∷ "thermal_shutdown" ∷ "motors_stuck" ∷ "water_detected"
    ∷ "mast_not_vertical" ∷ "slow_ethernet" ∷ "firmware_pending" ∷ "failover_event" ∷ []

abbrev pub default_severity : String → Severity
default_severity name =
    if name == "outage_started"
    then critical
    else if name == "dish_unreachable"
    then critical
    else if name == "path_degraded"
    then warning
    else if name == "obstruction_high"
    then warning
    else if name == "thermal_throttle"
    then warning
    else if name == "thermal_shutdown"
    then critical
    else if name == "motors_stuck"
    then warning
    else if name == "water_detected"
    then warning
    else if name == "mast_not_vertical"
    then info
    else if name == "slow_ethernet"
    then info
    else if name == "firmware_pending"
    then info
    else warning

module _ (fl : Floats) where
  open fl use {F, zero_float}

  abbrev pub default_rule : String → Rule fl
  default_rule name = record {
    enabled = true;
    severity = default_severity name;
    threshold = zero_float;
    threshold2 = zero_float;
    hold = pos 0;
    clear_hold = pos 0;
  }

  abbrev pub add_rules : List String → List (String × Rule fl) → List (String × Rule fl)
  add_rules [] rules = rules
  add_rules (name ∷ names) rules = add_rules names (insert name (default_rule name) rules)

  -- A missing rule is the zero value, which no name of the catalog has here.
  abbrev pub set_rule :
      String → (Rule fl → Rule fl) → List (String × Rule fl) → List (String × Rule fl)
  set_rule name update rules = elim (lookup name rules) [
    | none ↦ rules
    | some rule ↦ insert name (update rule) rules
  ]

  -- `decimal m d` is the float nearest to m / 10^d.
  unfoldable pub default_rules : (ℕ → ℕ → F) → List (String × Rule fl)
  default_rules decimal =
      set_rule "obstruction_high" (λ r. record r { threshold = decimal 2 2 })
        (set_rule "path_degraded"
          (λ r. record r {
            threshold = decimal 2 1;
            threshold2 = decimal 300 0;
            clear_hold = pos (300 * second);
          })
          (set_rule "dish_unreachable" (λ r. record r { hold = pos (60 * second) })
            (set_rule "outage_started" (λ r. record r { hold = pos (30 * second) })
              (add_rules catalog_order []))))

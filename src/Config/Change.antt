-- ===== src/Config/Change.antt =====
-- The steps of `applyUpdate` of router/internal/config/manager.go: a field is checked and set, and the option
-- to be written for it is added. Also what it looks up and prints.
use openwrt_starwatch.Base.{
  Bool, true, false, not, ◌&&◌, ◌||◌, List, [], ◌∷◌, ◌++◌, Option, none, some, if◌then◌else◌,
}
use openwrt_starwatch.Base.Int.{ℤ, pos, ltb_ℤ}
use openwrt_starwatch.Base.Maps.{nat_eq, ◌==◌}
use openwrt_starwatch.Base.Strings.{Text, text_eq}
use openwrt_starwatch.Base.Text.{codes}
use openwrt_starwatch.Config.Uci.{OptionValue, is_empty}

pub data Refusal : Type 0 where
  restart_managed : Refusal
  not_positive : Text → Refusal
  empty_hosts : Refusal
  has_newline : Text → Refusal
  unknown_rule : Text → Refusal
  negative : Text → Refusal
  not_configurable : Text → Text → Refusal
  out_of_range : Text → Refusal

pub data Outcome {ℓ} (S : Type ℓ) : Type ℓ where
  refused : Refusal → Outcome S
  done : S × List OptionValue → Outcome S

abbrev pub Step {ℓ} : Type ℓ → Type ℓ
Step S = S × List OptionValue → Outcome S

-- A field of an update: nothing where it is absent, else a check, a change and the options to write.
unfoldable pub set_field {ℓ κ} :
    {S : Type ℓ} {A : Type κ}
    → Option A
    → (A → Option Refusal)
    → (A → S → S)
    → (A → List OptionValue)
    → Step S
set_field none check set lines (s, changes) = done (s, changes)
set_field (some v) check set lines (s, changes) = elim (check v) [
  | some e ↦ refused e
  | none ↦ done (set v s, changes ++ lines v)
]

unfoldable pub run_steps {ℓ} : {S : Type ℓ} → List (Step S) → Step S
run_steps [] st = done st
run_steps (step ∷ steps) st = elim (step st) [
  | refused e ↦ refused e
  | done after ↦ run_steps steps after
]

abbrev pub check_if : Bool → Refusal → Option Refusal
check_if b e = if b then some e else none

abbrev pub no_check {ℓ} : {A : Type ℓ} → A → Option Refusal
no_check v = none

abbrev pub option_value : Text × Text → Text → Text → List OptionValue
option_value section option value =
    record { section = section; option = option; value = value } ∷ []

abbrev pub print_bool : Bool → Text
print_bool b = if b then codes "true" else codes "false"

-- `strings.Join(hosts, " ")`
unfoldable pub join_space : List Text → Text
join_space [] = []
join_space (host ∷ []) = host
join_space (host ∷ next ∷ hosts) = host ++ (32 ∷ join_space (next ∷ hosts))

-- `strings.ContainsAny(s, "\r\n")`
unfoldable pub contains_break : Text → Bool
contains_break [] = false
contains_break (c ∷ s) = c == 13 || c == 10 || contains_break s

abbrev pub main_section : Text × Text
main_section = (codes "starwatch", codes "main")

abbrev pub history_section : Text × Text
history_section = (codes "history", [])

abbrev pub alerts_section : Text × Text
alerts_section = (codes "alerts", [])

abbrev pub battery_section : Text × Text
battery_section = (codes "battery", [])

abbrev pub is_given {ℓ} : {A : Type ℓ} → Option A → Bool
is_given none = false
is_given (some v) = true

-- `thresholdOption`, with whether the value is scaled to percents; empty where there is none.
abbrev pub threshold_option : Text → Bool → Text × Bool
threshold_option name second =
    if name == codes "path_degraded"
    then (if second then (codes "path_rtt_ms", false) else (codes "path_loss_percent", true))
    else if name == codes "obstruction_high" && not second
    then (codes "obstruction_percent", true)
    else ([], false)

-- `holdOption`
abbrev pub hold_option : Text → Bool → Text
hold_option name clear =
    if clear && name == codes "path_degraded"
    then codes "path_clear_secs"
    else if not clear && name == codes "outage_started"
    then codes "outage_started_secs"
    else if not clear && name == codes "dish_unreachable"
    then codes "dish_unreachable_secs"
    else []

abbrev pub check_hold : Text → Text → Text → ℤ → Option Refusal
check_hold name option field v =
    if ltb_ℤ v (pos 0)
    then some (negative field)
    else check_if (is_empty option) (not_configurable field name)

-- ===== src/Failover/Assist.antt =====
-- `Assist` and `Apply` of router/internal/mwan/manager.go.
use openwrt_starwatch.Base.{
  ℕ, ◌≡◌, refl, Bool, true, false, not, ◌||◌, List, [], ◌∷◌, map, Option, none, some, if◌then◌else◌,
  length, ltb, arith,
}
use openwrt_starwatch.Base.Effects.{All}
use openwrt_starwatch.Base.Maps.{nat_eq, ◌==◌, contains}
use openwrt_starwatch.Base.Strings.{Text, text_eq, trim, trim_right, split_lines}
use openwrt_starwatch.Base.Text.{codes}
use openwrt_starwatch.Config.Uci.{is_empty}
use openwrt_starwatch.Failover.{
  Interface, Status, Manager, Parsers, Command, refresh, unique_sorted,
}
use openwrt_starwatch.Failover.Proposal.{
  Change, proposed_changes, has_custom_config, has_default_rule, value_or_empty,
}
use openwrt_starwatch.Failover.Batch.{render_batch}
use openwrt_starwatch.Failover.Known.{IsKnown, has_custom_config-IsKnown}

pub data Reason : Type 0 where
  not_installed : Reason
  custom_config : Reason
  too_few_interfaces : Reason
  vendor_managed : Reason

-- `AssistResult`
pub data AssistResult : Type 0 where
  unavailable : Reason → AssistResult
  available : List Change → AssistResult

-- The first interface that is not the primary one.
unfoldable pub first_other : Text → List Text → Option Text
first_other primary [] = none
first_other primary (x ∷ xs) =
    let rest = first_other primary xs in if x == primary then rest else some x

abbrev pub show_command : Command
show_command = codes "uci" ∷ codes "show" ∷ codes "mwan3" ∷ []

abbrev pub batch_command : Command
batch_command = codes "uci" ∷ codes "batch" ∷ []

abbrev pub reload_command : Command
reload_command = codes "mwan3" ∷ codes "reload" ∷ []

-- The interfaces that are asked about: the router's, or else those of the status.
abbrev pub names_for : Option (List Text) → Status → List Text
names_for none s = map (λ (i : Interface). i.name) s.interfaces
names_for (some names) s = names

-- `Assist`, once the status and the configuration are read.
unfoldable pub propose : Text → Option (List Text) → Bool → Status → Text → AssistResult
unfolding has_custom_config has_default_rule unique_sorted first_other proposed_changes split_lines
propose primary names managed s config =
    let all = unique_sorted (names_for names s) in
    if has_custom_config config
    then unavailable custom_config
    else if ltb (length all) 2
    then unavailable too_few_interfaces
    else if managed
    then unavailable vendor_managed
    else elim (first_other primary all) [
      | none ↦ unavailable too_few_interfaces
      | some backup ↦
          if is_empty primary || is_empty backup
          then unavailable too_few_interfaces
          else available (proposed_changes primary backup (has_default_rule (split_lines config)))
    ]

abbrev list_command : Text → Command
list_command object = codes "ubus" ∷ codes "list" ∷ object ∷ []

abbrev says_something : Option Text → Bool
says_something none = false
says_something (some text) = not (is_empty (trim text))

-- `detectGLManaged`, the default of the test that `Assist` is given.
unfoldable pub detect_gl_managed {ℓ} :
    {W : Type ℓ} → (Command → Text → W → Option Text × W) → (Text → Bool) → W → Bool × W
unfolding trim_right
detect_gl_managed execute path_exists w =
    let (mwan, w₁) = execute (list_command (codes "mwan")) [] w in
    let (kmwan, w₂) = execute (list_command (codes "hotplug.kmwan")) [] w₁ in
    if path_exists (codes "/etc/config/mwan") || path_exists (codes "/etc/config/kmwan")
    then (true, w)
    else if says_something mwan
    then (true, w₁)
    else (says_something kmwan, w₂)

pub data Applied : Type 0 where
  applied : Applied
  refused : Reason → Applied
  batch_failed : Applied
  reload_failed : Applied

module _ {ℓ} {W : Type ℓ} (parsers : Parsers) (execute : Command → Text → W → Option Text × W)
    (names : Option (List Text)) (managed : Bool) where
  unfoldable pub assist : ℕ → Text → Manager → W → AssistResult × (Manager × W)
  unfolding propose refresh
  assist now primary m w =
      let (m, w₁) = refresh parsers execute now m w in
      let (config, w₂) = execute show_command [] w₁ in
      elim m.status [
        | none ↦ (unavailable not_installed, (m, w₁))
        | some s ↦ (propose primary names managed s (value_or_empty config), (m, w₂))
      ]

  -- `Apply`; the last refresh reads the clock again.
  unfoldable pub apply : ℕ → ℕ → Text → Manager → W → Applied × (Manager × W)
  unfolding assist render_batch
  apply now later primary m w =
      let (result, (m₁, w₁)) = assist now primary m w in
      elim result [
        | unavailable r ↦ (refused r, (m₁, w₁))
        | available changes ↦
            let (done, w₂) = execute batch_command (render_batch changes) w₁ in
            let (reloaded, w₃) = execute reload_command [] w₂ in
            elim done [
              | none ↦ (batch_failed, (m₁, w₂))
              | some text ↦ elim reloaded [
                | none ↦ (reload_failed, (m₁, w₃))
                | some more ↦ (applied, refresh parsers execute later m₁ w₃)
              ]
            ]
      ]

first_other_lem :
    (primary : Text) (all : List Text) (backup : Text)
    → first_other primary all ≡ some backup
    → ((backup == primary) ≡ false) × (contains all backup ≡ true)
unfolding first_other contains
first_other_lem primary [] backup h = cc
first_other_lem primary (x ∷ xs) backup h =
    ground (arith, h, first_other_lem primary xs backup, text_eq.test_iff x backup)

-- Changes are proposed only where each line of the configuration's text either assigns nothing, or is of
-- a section of the program's own or of the globals, or assigns a value that OpenWrt ships, but for quotes
-- and blanks; where the vendor does not manage the failover; and where there is a primary interface with
-- another one as its backup. They are the changes for these two. The text is any: `Assist` takes the
-- empty one where `uci show` fails.
pub propose_lem :
    (primary : Text) (names : Option (List Text)) (managed : Bool) (s : Status) (config : Text)
    (changes : List Change)
    → propose primary names managed s config ≡ available changes
    → All IsKnown (split_lines config)
      × (managed ≡ false)
      × (is_empty primary ≡ false)
      × (backup : Text) × ((backup == primary) ≡ false)
      × (contains (unique_sorted (names_for names s)) backup ≡ true)
      × (changes ≡ proposed_changes primary backup (has_default_rule (split_lines config)))
unfolding propose
propose_lem primary names managed s config changes h =
    by_tests (has_custom_config config) (ltb (length (unique_sorted (names_for names s))) 2) managed
      (first_other primary (unique_sorted (names_for names s))) refl refl refl h
  where
    by_tests :
        (custom few vendor : Bool) (other : Option Text)
        → has_custom_config config ≡ custom
        → managed ≡ vendor
        → first_other primary (unique_sorted (names_for names s)) ≡ other
        → ◌≡◌ {A = AssistResult}
            (if custom
              then unavailable custom_config
              else if few
              then unavailable too_few_interfaces
              else if vendor
              then unavailable vendor_managed
              else elim other [
                | none ↦ unavailable too_few_interfaces
                | some backup ↦
                    if is_empty primary || is_empty backup
                    then unavailable too_few_interfaces
                    else available
                        (proposed_changes primary backup (has_default_rule (split_lines config)))
              ])
            (available changes)
        → All IsKnown (split_lines config)
          × (managed ≡ false)
          × (is_empty primary ≡ false)
          × (backup : Text) × ((backup == primary) ≡ false)
          × (contains (unique_sorted (names_for names s)) backup ≡ true)
          × (changes ≡ proposed_changes primary backup (has_default_rule (split_lines config)))
    by_tests true few vendor other c v o k = absurd (ground (arith, k))
    by_tests false true vendor other c v o k = absurd (ground (arith, k))
    by_tests false false true other c v o k = absurd (ground (arith, k))
    by_tests false false false none c v o k = absurd (ground (arith, k))
    by_tests false false false (some backup) c v o k =
        let other = first_other_lem primary (unique_sorted (names_for names s)) backup o in
        (
          has_custom_config-IsKnown config c,
          v,
          ground (arith, k),
          backup,
          other.0,
          other.1,
          ground (arith, k),
        )

-- ===== src/Failover/Tests.antt =====
-- A router with two ways out, and the theorems about the assistance there.
use openwrt_starwatch.Base.{◌≡◌, refl, true, false, List, [], ◌∷◌, Option, none, some}
use openwrt_starwatch.Base.Maps.{nat_eq, ◌==◌, contains, lookup}
use openwrt_starwatch.Base.Strings.{Text, text_eq, split_lines, trim_left, trim_right, is_space}
use openwrt_starwatch.Base.Text.{codes}
use openwrt_starwatch.Config.Uci.{is_empty}
use openwrt_starwatch.Failover.{Status, parse_text_status, unique_sorted, sort_names}
use openwrt_starwatch.Failover.Proposal.{
  Change, proposed_changes, has_custom_config, has_default_rule, canonical_value, is_foreign,
}
use openwrt_starwatch.Base.Effects.{All}
use openwrt_starwatch.Failover.Known.{IsKnown}
use openwrt_starwatch.Failover.Batch.{set, add_list, verbs, expected_verbs, verbs_lem}
use openwrt_starwatch.Failover.Assist.{available, names_for, propose, propose_lem}

abbrev online_wan : Status
online_wan = record {
  active_policy = [];
  interfaces =
      record {
        name = codes "wan";
        state = codes "online";
        tracking = codes "active";
        online = true;
      }
      ∷ record { name = codes "wwan"; state = codes "offline"; tracking = []; online = false }
      ∷ [];
  active_interfaces = codes "wan" ∷ [];
  last_switch = none;
}

reads_text :
    parse_text_status
      (codes "interface wwan is offline\nno\ninterface wan is online 00h:01m, tracking is active")
    ≡ some online_wan
unfolding parse_text_status sort_names is_space
reads_text = refl

knows_example :
    has_custom_config (
      codes
        "mwan3.wan=interface\nmwan3.wan.track_ip='1.0.0.1' '1.1.1.1' '208.67.222.222' '208.67.220.220'")
    ≡ false
unfolding has_custom_config is_space lookup canonical_value is_foreign trim_right trim_left
knows_example = refl

sees_custom : has_custom_config (codes "mwan3.wan.enabled='0'") ≡ true
unfolding has_custom_config is_space lookup canonical_value is_foreign trim_right trim_left
sees_custom = refl

abbrev names : Option (List Text)
names = some (codes "wwan" ∷ codes "wan" ∷ [])

abbrev changes : List Change
changes = proposed_changes (codes "wan") (codes "wwan") false

-- A section of the program's own, and one that is shipped.
abbrev shown : Text
shown = codes "mwan3.globals=globals\nmwan3.wan.enabled='1'\n"

proposes : propose (codes "wan") names false online_wan shown ≡ available changes
unfolding propose unique_sorted trim_right trim_left is_space canonical_value is_foreign
    has_custom_config lookup
proposes = refl

propose_lem_example :
    All IsKnown (split_lines shown)
    × (false ≡ false)
    × (is_empty (codes "wan") ≡ false)
    × (backup : Text) × ((backup == codes "wan") ≡ false)
    × (contains (unique_sorted (names_for names online_wan)) backup ≡ true)
    × (changes ≡ proposed_changes (codes "wan") backup (has_default_rule (split_lines shown)))
propose_lem_example = propose_lem (codes "wan") names false online_wan shown changes proposes

abbrev tracked : List Change
tracked =
    record {
      config_name = codes "mwan3";
      section = codes "wan";
      option = [];
      value = codes "interface";
    }
    ∷ record {
      config_name = codes "mwan3";
      section = codes "wan";
      option = codes "track_ip";
      value = codes "1.1.1.1";
    }
    ∷ record {
      config_name = codes "mwan3";
      section = codes "wan";
      option = codes "track_ip";
      value = codes "8.8.8.8";
    }
    ∷ []

sets_then_adds : verbs tracked [] tracked ≡ set ∷ set ∷ add_list ∷ []
unfolding verbs
sets_then_adds = refl

verbs_lem_example : verbs tracked [] tracked ≡ expected_verbs [] tracked
verbs_lem_example = verbs_lem tracked

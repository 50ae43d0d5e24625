-- ===== src/Failover/Proposal.antt =====
-- What is proposed for mwan3, and when its configuration is the one that OpenWrt ships.
use openwrt_starwatch.Base.{
  ℕ, Bool, true, false, not, ◌||◌, List, [], ◌∷◌, ◌++◌, map, Option, none, some, if◌then◌else◌,
}
use openwrt_starwatch.Base.Maps.{nat_eq, ◌==◌, lookup}
use openwrt_starwatch.Base.Strings.{Text, text_eq, trim, trim_right, split_lines, fields}
use openwrt_starwatch.Base.Text.{codes}
use openwrt_starwatch.Failover.{join_with}

pub record Change : Type 0 where
  pub config_name : Text
  pub section : Text
  pub option : Text
  pub value : Text

abbrev pub change : Text → Text → Text → Change
change section option value = record {
  config_name = codes "mwan3";
  section = section;
  option = option;
  value = value;
}

-- `proposedChanges`
unfoldable pub proposed_changes : Text → Text → Bool → List Change
proposed_changes primary backup replace_example =
    (change primary [] (codes "interface")
      ∷ change primary (codes "enabled") (codes "1")
      ∷ change primary (codes "family") (codes "ipv4")
      ∷ change primary (codes "track_ip") (codes "1.1.1.1")
      ∷ change primary (codes "track_ip") (codes "8.8.8.8")
      ∷ change primary (codes "reliability") (codes "1")
      ∷ change backup [] (codes "interface")
      ∷ change backup (codes "enabled") (codes "1")
      ∷ change backup (codes "family") (codes "ipv4")
      ∷ change backup (codes "track_ip") (codes "1.1.1.1")
      ∷ change backup (codes "track_ip") (codes "8.8.8.8")
      ∷ change backup (codes "reliability") (codes "1")
      ∷ change (codes "starwatch_primary_m1") [] (codes "member")
      ∷ change (codes "starwatch_primary_m1") (codes "interface") primary
      ∷ change (codes "starwatch_primary_m1") (codes "metric") (codes "1")
      ∷ change (codes "starwatch_primary_m1") (codes "weight") (codes "1")
      ∷ change (codes "starwatch_backup_m2") [] (codes "member")
      ∷ change (codes "starwatch_backup_m2") (codes "interface") backup
      ∷ change (codes "starwatch_backup_m2") (codes "metric") (codes "2")
      ∷ change (codes "starwatch_backup_m2") (codes "weight") (codes "1")
      ∷ change (codes "starwatch_failover") [] (codes "policy")
      ∷ change (codes "starwatch_failover") (codes "use_member") (codes "starwatch_primary_m1")
      ∷ change (codes "starwatch_failover") (codes "use_member") (codes "starwatch_backup_m2")
      ∷ change (codes "starwatch_default") [] (codes "rule")
      ∷ change (codes "starwatch_default") (codes "dest_ip") (codes "0.0.0.0/0")
      ∷ change (codes "starwatch_default") (codes "use_policy") (codes "starwatch_failover")
      ∷ [])
    ++ (if replace_example
        then change (codes "default_rule_v4") (codes "enabled") (codes "0") ∷ []
        else [])

-- `pristineOpenWrtExample`
abbrev pub pristine : List (Text × List (Text × Text))
pristine =
    (
      codes "wan",
      ([], codes "interface")
          ∷ (codes "enabled", codes "1")
          ∷ (codes "family", codes "ipv4")
          ∷ (codes "reliability", codes "2")
          ∷ (codes "track_ip", codes "1.0.0.1 1.1.1.1 208.67.222.222 208.67.220.220")
          ∷ [],
    )
    ∷ (
      codes "wan6",
      ([], codes "interface")
          ∷ (codes "enabled", codes "0")
          ∷ (codes "family", codes "ipv6")
          ∷ (codes "reliability", codes "2")
          ∷ (
            codes "track_ip",
            codes "2606:4700:4700::1001 2606:4700:4700::1111 2620:0:ccd::2 2620:0:ccc::2",
          )
          ∷ [],
    )
    ∷ (
      codes "wanb",
      ([], codes "interface")
          ∷ (codes "enabled", codes "0")
          ∷ (codes "family", codes "ipv4")
          ∷ (codes "reliability", codes "1")
          ∷ (codes "track_ip", codes "1.0.0.1 1.1.1.1 208.67.222.222 208.67.220.220")
          ∷ [],
    )
    ∷ (
      codes "wanb6",
      ([], codes "interface")
          ∷ (codes "enabled", codes "0")
          ∷ (codes "family", codes "ipv6")
          ∷ (codes "reliability", codes "1")
          ∷ (
            codes "track_ip",
            codes "2606:4700:4700::1001 2606:4700:4700::1111 2620:0:ccd::2 2620:0:ccc::2",
          )
          ∷ [],
    )
    ∷ (
      codes "wan_m1_w3",
      ([], codes "member")
          ∷ (codes "interface", codes "wan")
          ∷ (codes "metric", codes "1")
          ∷ (codes "weight", codes "3")
          ∷ [],
    )
    ∷ (
      codes "wan_m2_w3",
      ([], codes "member")
          ∷ (codes "interface", codes "wan")
          ∷ (codes "metric", codes "2")
          ∷ (codes "weight", codes "3")
          ∷ [],
    )
    ∷ (
      codes "wanb_m1_w2",
      ([], codes "member")
          ∷ (codes "interface", codes "wanb")
          ∷ (codes "metric", codes "1")
          ∷ (codes "weight", codes "2")
          ∷ [],
    )
    ∷ (
      codes "wanb_m1_w3",
      ([], codes "member")
          ∷ (codes "interface", codes "wanb")
          ∷ (codes "metric", codes "1")
          ∷ (codes "weight", codes "3")
          ∷ [],
    )
    ∷ (
      codes "wanb_m2_w2",
      ([], codes "member")
          ∷ (codes "interface", codes "wanb")
          ∷ (codes "metric", codes "2")
          ∷ (codes "weight", codes "2")
          ∷ [],
    )
    ∷ (
      codes "wan6_m1_w3",
      ([], codes "member")
          ∷ (codes "interface", codes "wan6")
          ∷ (codes "metric", codes "1")
          ∷ (codes "weight", codes "3")
          ∷ [],
    )
    ∷ (
      codes "wan6_m2_w3",
      ([], codes "member")
          ∷ (codes "interface", codes "wan6")
          ∷ (codes "metric", codes "2")
          ∷ (codes "weight", codes "3")
          ∷ [],
    )
    ∷ (
      codes "wanb6_m1_w2",
      ([], codes "member")
          ∷ (codes "interface", codes "wanb6")
          ∷ (codes "metric", codes "1")
          ∷ (codes "weight", codes "2")
          ∷ [],
    )
    ∷ (
      codes "wanb6_m1_w3",
      ([], codes "member")
          ∷ (codes "interface", codes "wanb6")
          ∷ (codes "metric", codes "1")
          ∷ (codes "weight", codes "3")
          ∷ [],
    )
    ∷ (
      codes "wanb6_m2_w2",
      ([], codes "member")
          ∷ (codes "interface", codes "wanb6")
          ∷ (codes "metric", codes "2")
          ∷ (codes "weight", codes "2")
          ∷ [],
    )
    ∷ (
      codes "wan_only",
      ([], codes "policy") ∷ (codes "use_member", codes "wan_m1_w3 wan6_m1_w3") ∷ [],
    )
    ∷ (
      codes "wanb_only",
      ([], codes "policy") ∷ (codes "use_member", codes "wanb_m1_w2 wanb6_m1_w2") ∷ [],
    )
    ∷ (
      codes "balanced",
      ([], codes "policy")
          ∷ (codes "use_member", codes "wan_m1_w3 wanb_m1_w3 wan6_m1_w3 wanb6_m1_w3")
          ∷ [],
    )
    ∷ (
      codes "wan_wanb",
      ([], codes "policy")
          ∷ (codes "use_member", codes "wan_m1_w3 wanb_m2_w2 wan6_m1_w3 wanb6_m2_w2")
          ∷ [],
    )
    ∷ (
      codes "wanb_wan",
      ([], codes "policy")
          ∷ (codes "use_member", codes "wan_m2_w3 wanb_m1_w2 wan6_m2_w3 wanb6_m1_w2")
          ∷ [],
    )
    ∷ (
      codes "https",
      ([], codes "rule")
          ∷ (codes "sticky", codes "1")
          ∷ (codes "dest_port", codes "443")
          ∷ (codes "proto", codes "tcp")
          ∷ (codes "use_policy", codes "balanced")
          ∷ [],
    )
    ∷ (
      codes "default_rule_v4",
      ([], codes "rule")
          ∷ (codes "dest_ip", codes "0.0.0.0/0")
          ∷ (codes "use_policy", codes "balanced")
          ∷ (codes "family", codes "ipv4")
          ∷ [],
    )
    ∷ (
      codes "default_rule_v6",
      ([], codes "rule")
          ∷ (codes "dest_ip", codes "::/0")
          ∷ (codes "use_policy", codes "balanced")
          ∷ (codes "family", codes "ipv6")
          ∷ [],
    )
    ∷ []

-- Whether a text begins with another, and what follows it.
abbrev pub after_prefix : Text → Text → Option Text
after_prefix [] s = some s
after_prefix (p ∷ ps) [] = none
after_prefix (p ∷ ps) (c ∷ s) = if p == c then after_prefix ps s else none

-- `strings.Cut` at one character, with whether it is there.
unfoldable pub cut_at : ℕ → Text → (Text × Text) × Bool
cut_at d [] = (([], []), false)
cut_at d (c ∷ s) =
    let rest = cut_at d s in if c == d then (([], s), true) else ((c ∷ rest.0.0, rest.0.1), rest.1)

abbrev is_quote : ℕ → Bool
is_quote c = c == b'\'' || c == b'"'

abbrev trim_quotes_left : Text → Text
trim_quotes_left [] = []
trim_quotes_left (c ∷ s) = let rest = trim_quotes_left s in if is_quote c then rest else c ∷ s

abbrev trim_quotes_right : Text → Text
trim_quotes_right [] = []
trim_quotes_right (c ∷ s) =
    let rest = trim_quotes_right s in
    if is_quote c then elim rest [ [] ↦ [] | d ∷ ds ↦ c ∷ d ∷ ds ] else c ∷ rest

-- `canonicalUCIValue`
unfoldable pub canonical_value : Text → Text
unfolding fields
canonical_value raw =
    join_with (codes " ") (map (λ w. trim_quotes_left (trim_quotes_right w)) (fields raw))

abbrev pub value_or_empty : Option Text → Text
value_or_empty none = []
value_or_empty (some v) = v

-- An assignment that is not the program's own and not that of the example.
unfoldable pub is_foreign : Text × Text → Text → Bool
unfolding canonical_value lookup
is_foreign (section, option) raw =
    if section == codes "globals" then false else elim (after_prefix (codes "starwatch_") section) [
      | some rest ↦ false
      | none ↦ elim (lookup section pristine) [
        | none ↦ true
        | some options ↦ not (value_or_empty (lookup option options) == canonical_value raw)
      ]
    ]

-- The loop of `hasCustomConfig`.
unfoldable pub has_foreign : List Text → Bool
unfolding is_foreign cut_at trim_right
has_foreign [] = false
has_foreign (raw ∷ lines) =
    let rest = has_foreign lines in
    elim (after_prefix (codes "mwan3.") (trim raw)) [
      | none ↦ rest
      | some assignment ↦
          let ((path, value), found) = cut_at b'=' assignment in
          if found then is_foreign (cut_at b'.' path).0 value || rest else rest
    ]

unfoldable pub has_custom_config : Text → Bool
unfolding has_foreign split_lines
has_custom_config output = has_foreign (split_lines output)

-- `hasPristineDefaultRule`
unfoldable pub has_default_rule : List Text → Bool
unfolding trim_right
has_default_rule [] = false
has_default_rule (line ∷ lines) =
    trim line == codes "mwan3.default_rule_v4=rule" || has_default_rule lines

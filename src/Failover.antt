-- ===== src/Failover.antt =====
-- router/internal/mwan/manager.go: the status of mwan3, as text and as JSON, and the assistance with its
-- configuration. The commands go to a world that they change; the decoder of JSON, the comparison without
-- case, the interfaces of the router and the test for the vendor's own manager are arguments. Where two
-- interfaces have the same name, their order in a sorted status is that of the text.
pub mod Proposal
pub mod Batch
pub mod Known
pub mod Assist
mod Tests
use openwrt_starwatch.Base.{
  ℕ, Bool, true, false, not, ◌&&◌, ◌||◌, List, [], ◌∷◌, ◌++◌, map, Option, none, some,
  if◌then◌else◌,
}
use openwrt_starwatch.Base.Maps.{nat_eq, ◌==◌, contains}
use openwrt_starwatch.Base.Strings.{Text, text_eq, split_lines, fields}
use openwrt_starwatch.Base.Text.{codes, leb_codes}
use openwrt_starwatch.Config.Uci.{is_empty}

-- `dish.MWANInterface`
pub record Interface : Type 0 where
  pub name : Text
  pub state : Text
  pub tracking : Text
  pub online : Bool

-- `dish.MWANLastSwitch`
pub record LastSwitch : Type 0 where
  pub from_names : Text
  pub to_names : Text
  pub at : ℕ

-- `dish.MWANStatus`
pub record Status : Type 0 where
  pub active_policy : Text
  pub interfaces : List Interface
  pub active_interfaces : List Text
  pub last_switch : Option LastSwitch

-- The members of the JSON that `parseUbusStatus` reads.
pub record UbusStatus : Type 0 where
  pub states : List (Text × (Text × Text))
  pub policy : Text
  pub active : List Text
  pub switch : Option LastSwitch

pub record Manager : Type 0 where
  pub status : Option Status
  pub last_active : List Text
  pub have_active : Bool

-- Sorting by the names' bytes.
module _ {ℓ} {A : Type ℓ} (name : A → Text) where
  unfoldable pub place_name : A → List A → List A
  place_name x [] = x ∷ []
  place_name x (y ∷ ys) =
      let rest = place_name x ys in if leb_codes (name x) (name y) then x ∷ y ∷ ys else y ∷ rest

  unfoldable pub sort_names : List A → List A
  unfolding place_name
  sort_names [] = []
  sort_names (x ∷ xs) = place_name x (sort_names xs)

-- The loop of `uniqueSorted`, with the names seen so far.
unfoldable pub unique : List Text → List Text → List Text
unfolding contains
unique seen [] = []
unique seen (x ∷ xs) =
    let skipped = unique seen xs in
    let taken = unique (x ∷ seen) xs in
    if not (is_empty x) && not (contains seen x) then x ∷ taken else skipped

unfoldable pub unique_sorted : List Text → List Text
unfolding unique sort_names
unique_sorted xs = sort_names (λ x. x) (unique [] xs)

abbrev pub join_with : Text → List Text → Text
join_with sep [] = []
join_with sep (x ∷ []) = x
join_with sep (x ∷ y ∷ ys) = x ++ (sep ++ join_with sep (y ∷ ys))

abbrev pub tracking_of : List Text → Text
tracking_of (a ∷ b ∷ c ∷ d ∷ rest) = if b == codes "tracking" && c == codes "is" then d else []
tracking_of _ = []

-- A line `interface wan is online and tracking is active`.
abbrev pub interface_of : List Text → Option Interface
interface_of (a ∷ name ∷ b ∷ state ∷ rest) =
    if a == codes "interface" && b == codes "is"
    then some (record {
      name = name;
      state = state;
      tracking = tracking_of rest;
      online = state == codes "online";
    })
    else none
interface_of _ = none

unfoldable pub interfaces_of : List Text → List Interface
unfolding fields
interfaces_of [] = []
interfaces_of (line ∷ lines) =
    let rest = interfaces_of lines in
    elim (interface_of (fields line)) [ none ↦ rest | some i ↦ i ∷ rest ]

unfoldable pub online_names : List Interface → List Text
online_names [] = []
online_names (i ∷ rest) =
    let names = online_names rest in if i.online then i.name ∷ names else names

-- `parseTextStatus`
unfoldable pub parse_text_status : Text → Option Status
unfolding interfaces_of split_lines online_names sort_names
parse_text_status output =
    let found = interfaces_of (split_lines output) in
    elim found [
      | [] ↦ none
      | i ∷ rest ↦ some (record {
        active_policy = [];
        interfaces = sort_names (λ (j : Interface). j.name) (i ∷ rest);
        active_interfaces = online_names (i ∷ rest);
        last_switch = none;
      })
    ]

-- `normalizedActive`
unfoldable pub normalized_active : Status → List Text
unfolding unique_sorted online_names
normalized_active s =
    unique_sorted (elim s.active_interfaces [ [] ↦ online_names s.interfaces | x ∷ xs ↦ x ∷ xs ])

abbrev pub new_manager : Manager
new_manager = record { status = none; last_active = []; have_active = false }

-- A status with the switch that the change of the active interfaces shows, if it has none of its own.
abbrev pub with_switch : ℕ → Manager → List Text → Status → Status
with_switch now m active s =
    let changed =
      m.have_active && not (join_with (0 ∷ []) active == join_with (0 ∷ []) m.last_active) in
    elim s.last_switch [
      | some old ↦ s
      | none ↦
          if changed
          then record s {
            last_switch = some (record {
              from_names = join_with (codes ",") m.last_active;
              to_names = join_with (codes ",") active;
              at = now;
            });
          }
          else s
    ]

-- What `Refresh` makes of the status it has read, if it has read one.
unfoldable pub store_status : ℕ → Option Status → Manager → Manager
unfolding normalized_active
store_status now none m = m
store_status now (some s) m =
    let active = normalized_active s in
    record { status = some (with_switch now m active s); last_active = active; have_active = true }

pub record Parsers : Type 0 where
  pub decode : Text → Option UbusStatus  -- json.Unmarshal
  pub equal_fold : Text → Text → Bool  -- strings.EqualFold

abbrev pub Command : Type 0
Command = List Text

abbrev pub status_command : Command
status_command = codes "ubus" ∷ codes "call" ∷ codes "mwan3" ∷ codes "status" ∷ []

abbrev pub interfaces_command : Command
interfaces_command = codes "mwan3" ∷ codes "interfaces" ∷ []

module _ (parsers : Parsers) where
  open parsers use {decode, equal_fold}

  abbrev pub ubus_interface : Text × (Text × Text) → Interface
  ubus_interface e = record {
    name = e.0;
    state = e.1.0;
    tracking = e.1.1;
    online = equal_fold e.1.0 (codes "online");
  }

  -- `parseUbusStatus`
  unfoldable pub parse_ubus_status : Text → Option Status
  unfolding sort_names
  parse_ubus_status data_text = elim (decode data_text) [
    | none ↦ none
    | some raw ↦ elim raw.states [
      | [] ↦ none
      | e ∷ rest ↦ some (record {
        active_policy = raw.policy;
        interfaces = sort_names (λ (j : Interface). j.name) (map ubus_interface (e ∷ rest));
        active_interfaces = raw.active;
        last_switch = raw.switch;
      })
    ]
  ]

  module _ {ℓ} {W : Type ℓ} (execute : Command → Text → W → Option Text × W) where
    abbrev pub read_with : (Text → Option Status) → Option Text → Option Status
    read_with parse none = none
    read_with parse (some text) = parse text

    -- The status that is read: from ubus, or else from the text of mwan3.
    unfoldable pub read_status : W → Option Status × W
    unfolding parse_ubus_status parse_text_status
    read_status w =
        let (out, after) = execute status_command [] w in
        let (text, later) = execute interfaces_command [] after in
        elim (read_with parse_ubus_status out) [
          | some s ↦ (some s, after)
          | none ↦ (read_with parse_text_status text, later)
        ]

    -- `Refresh`, with what it returns in the manager.
    unfoldable pub refresh : ℕ → Manager → W → Manager × W
    unfolding read_status store_status
    refresh now m w = let (s, after) = read_status w in (store_status now s m, after)

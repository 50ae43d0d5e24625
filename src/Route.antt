-- ===== src/Route.antt =====
-- router/internal/dishroute/manager.go: the one host route that the program may change. What a command
-- gives is decided by a world that the commands change, and the parsers of JSON and of addresses are
-- arguments. An IPv4 address is a number of 32 bits. The commands that are run are kept, the latest last.
pub mod Gateway
pub mod Printed
pub mod Kernel
pub mod Commands
mod Tests
use openwrt_starwatch.Base.{
  ℕ, ◌+◌, ◌-◌, ◌*◌, ◌/◌, ◌^◌, ◌≡◌, Bool, true, false, not, ◌&&◌, ◌||◌, List, [], ◌∷◌, ◌++◌, Option,
  none, some, if◌then◌else◌, leb,
}
use openwrt_starwatch.Base.Int.{ℤ, pos, negsuc, ltb_ℤ}
use openwrt_starwatch.Base.Maps.{nat_eq, ◌==◌}
use openwrt_starwatch.Base.Strings.{Text, text_eq, trim, trim_right, split_lines, fields}
use openwrt_starwatch.Base.Text.{codes}
use openwrt_starwatch.Config.Uci.{is_empty}

abbrev pub dish_route : Text
dish_route = codes "192.168.100.1/32"

abbrev pub starlink_router : Text
starlink_router = codes "192.168.1.1"

pub record WanAddress : Type 0 where
  pub address : Text
  pub mask : ℤ

pub record StatusRoute : Type 0 where
  pub route_target : Text
  pub mask : ℤ
  pub next_hop : Text

pub record WanStatus : Type 0 where
  pub device : Text
  pub l3_device : Text
  pub addresses : List WanAddress
  pub routes : List StatusRoute

pub record DesiredRoute : Type 0 where
  pub device : Text
  pub gateway : Text

-- `net.IPNet`, by its first address and the size of its host part.
pub record Subnet : Type 0 where
  pub network : ℕ
  pub size : ℕ

-- The first address of the subnet of a size that an address is in.
abbrev pub network_of : ℕ → ℕ → ℕ
network_of size ip = ip / size * size

abbrev pub in_subnet : ℕ → Subnet → Bool
in_subnet ip s = network_of s.size ip == s.network

-- `inAnySubnet`
unfoldable pub in_any_subnet : Option ℕ → List Subnet → Bool
in_any_subnet none subnets = false
in_any_subnet (some ip) [] = false
in_any_subnet (some ip) (s ∷ subnets) = in_subnet ip s || in_any_subnet (some ip) subnets

-- The size of the host part of a mask from 0 to 32.
abbrev pub host_size : ℤ → Option ℕ
host_size m =
    if ltb_ℤ m (pos 0) || ltb_ℤ (pos 32) m
    then none
    else elim m [ pos n ↦ some (2 ^ (32 - n)) | negsuc n ↦ none ]

-- Whether `dev` is followed by the device somewhere, and there is no `via`.
unfoldable pub reaches_on_link : Text → List Text → Bool → Bool
reaches_on_link device [] seen = seen
reaches_on_link device (word ∷ []) seen = if word == codes "via" then false else seen
reaches_on_link device (word ∷ next ∷ words) seen =
    let rest =
      reaches_on_link device (next ∷ words) (seen || word == codes "dev" && next == device) in
    if word == codes "via" then false else rest

-- The words after the last `dev` and the last `via`.
unfoldable pub route_words : List Text → DesiredRoute → DesiredRoute
route_words [] d = d
route_words (word ∷ []) d = d
route_words (word ∷ next ∷ words) d = route_words (next ∷ words) (
    if word == codes "dev"
    then record d { device = next }
    else if word == codes "via"
    then record d { gateway = next }
    else d)

abbrev pub is_dish_word : List Text → Bool
is_dish_word [] = false
is_dish_word (word ∷ words) = word == dish_route || word == codes "192.168.100.1"

-- `routeMatches`
unfoldable pub route_matches : Text → DesiredRoute → Bool
unfolding split_lines fields route_words trim_right
route_matches output d = elim (split_lines (trim output)) [
  | [] ↦ false
  | line ∷ [] ↦
      let words = fields line in
      let found = route_words words (record { device = []; gateway = [] }) in
      is_dish_word words && (found.device == d.device && found.gateway == d.gateway)
  | line ∷ next ∷ lines ↦ false
]

pub data Problem : Type 0 where
  no_status : Problem
  bad_status : Problem
  no_device : Problem
  no_subnet : Problem
  gateway_off_link : Problem
  flush_failed : Problem
  replace_failed : Problem

pub data Derived : Type 0 where
  derived : DesiredRoute → Derived
  underivable : Problem → Derived

-- A command is its name and its arguments.
abbrev pub Command : Type 0
Command = List Text

abbrev pub status_command : Command
status_command = codes "ubus" ∷ codes "call" ∷ codes "network.interface.wan" ∷ codes "status" ∷ []

abbrev pub ip_route : Command → Command
ip_route args = codes "ip" ∷ codes "-4" ∷ codes "route" ∷ args

abbrev pub get_command : Command
get_command = ip_route (codes "get" ∷ starlink_router ∷ [])

abbrev pub show_command : Command
show_command = ip_route (codes "show" ∷ dish_route ∷ [])

abbrev pub flush_command : Command
flush_command = ip_route (codes "flush" ∷ dish_route ∷ [])

abbrev pub replace_command : DesiredRoute → Command
replace_command d = ip_route (
    codes "replace"
    ∷ dish_route
    ∷ ((if is_empty d.gateway then [] else codes "via" ∷ d.gateway ∷ [])
        ++ (codes "dev"
            ∷ d.device
            ∷ (if is_empty d.gateway then codes "scope" ∷ codes "link" ∷ [] else []))))

pub record Parsers : Type 0 where
  pub parse_ip : Text → Option ℕ  -- net.ParseIP(s).To4()
  pub decode : Text → Option WanStatus  -- json.Unmarshal

-- The world and the commands that were run on it.
pub record Shell {ℓ} (W : Type ℓ) : Type ℓ where
  pub world : W
  pub commands : List Command

module _ (parsers : Parsers) where
  open parsers use {parse_ip, decode}

  unfoldable pub connected_subnets : List WanAddress → List Subnet
  connected_subnets [] = []
  connected_subnets (a ∷ addresses) =
      let rest = connected_subnets addresses in
      elim (parse_ip a.address) [
        | none ↦ rest
        | some ip ↦ elim (host_size a.mask) [
          | none ↦ rest
          | some size ↦ record { network = network_of size ip; size = size } ∷ rest
        ]
      ]

  -- A default route with a gateway.
  abbrev pub is_default : StatusRoute → Bool
  is_default r = not (is_empty r.next_hop) && (r.route_target == codes "0.0.0.0" && is_zero r.mask)
    where
      is_zero : ℤ → Bool
      is_zero m = not (ltb_ℤ m (pos 0)) && not (ltb_ℤ (pos 0) m)

  unfoldable pub has_gateway : List StatusRoute → Bool
  has_gateway [] = false
  has_gateway (r ∷ routes) = is_default r || has_gateway routes

  -- The first gateway in one of the subnets.
  unfoldable pub gateway_on_link : List StatusRoute → List Subnet → Option Text
  unfolding in_any_subnet
  gateway_on_link [] subnets = none
  gateway_on_link (r ∷ routes) subnets =
      let rest = gateway_on_link routes subnets in
      if is_default r && in_any_subnet (parse_ip r.next_hop) subnets then some r.next_hop else rest

  module _ {ℓ} {W : Type ℓ} (execute : Command → W → Option Text × W) where
    abbrev pub run_command : Command → Shell W → Option Text × Shell W
    run_command c sh =
        let (out, after) = execute c sh.world in
        (out, record { world = after; commands = sh.commands ++ c ∷ [] })

    -- `onLinkStarlinkRouter`
    abbrev pub router_on_link : Text → Shell W → Bool × Shell W
    router_on_link device sh =
        let (out, after) = run_command get_command sh in
        (elim out [ none ↦ false | some text ↦ reaches_on_link device (fields text) false ], after)

    -- `derive`, once the status is decoded.
    unfoldable pub derive_status : WanStatus → Shell W → Derived × Shell W
    unfolding connected_subnets has_gateway gateway_on_link reaches_on_link fields
    derive_status status sh =
        let device = if is_empty status.device then status.l3_device else status.device in
        let subnets = connected_subnets status.addresses in
        let (on_link, after) = router_on_link device sh in
        if is_empty device then (underivable no_device, sh) else elim subnets [
          | [] ↦ (underivable no_subnet, sh)
          | s ∷ more ↦ elim (gateway_on_link status.routes (s ∷ more)) [
            | some gateway ↦ (derived (record { device = device; gateway = gateway }), sh)
            | none ↦
                if on_link
                then (derived (record { device = device; gateway = starlink_router }), after)
                else if not (has_gateway status.routes)
                then (derived (record { device = device; gateway = [] }), after)
                else (underivable gateway_off_link, after)
          ]
        ]

    unfoldable pub derive : Shell W → Derived × Shell W
    unfolding derive_status
    derive sh =
        let (out, after) = run_command status_command sh in
        elim out [
          | none ↦ (underivable no_status, after)
          | some text ↦ elim (decode text) [
            | none ↦ (underivable bad_status, after)
            | some status ↦ derive_status status after
          ]
        ]

    -- The problem, if there is one, and the route that was recorded as changed, if one was.
    pub record Ensured : Type ℓ where
      pub problem : Option Problem
      pub recorded : Option DesiredRoute
      pub shell : Shell W

    abbrev pub replace_route : DesiredRoute → Shell W → Ensured
    replace_route d sh =
        let (out, after) = run_command (replace_command d) sh in
        elim out [
          | none ↦ record { problem = some replace_failed; recorded = none; shell = after }
          | some text ↦ record { problem = none; recorded = some d; shell = after }
        ]

    -- The text of the routes there are; empty where the command fails.
    abbrev pub text_or_empty : Option Text → Text
    text_or_empty none = []
    text_or_empty (some text) = text

    unfoldable pub correct_route : Text → DesiredRoute → Shell W → Ensured
    unfolding route_matches trim_right
    correct_route current d sh =
        let (out, after) = run_command flush_command sh in
        if route_matches current d
        then record { problem = none; recorded = none; shell = sh }
        else if is_empty (trim current)
        then replace_route d sh
        else elim out [
          | none ↦ record { problem = some flush_failed; recorded = none; shell = after }
          | some text ↦ replace_route d after
        ]

    -- `Ensure`
    unfoldable pub ensure : Bool → Shell W → Ensured
    unfolding derive correct_route
    ensure enabled sh =
        let (result, after) = derive sh in
        if not enabled
        then record { problem = none; recorded = none; shell = sh }
        else elim result [
          | underivable p ↦ record { problem = some p; recorded = none; shell = after }
          | derived d ↦
              let (out, later) = run_command show_command after in
              correct_route (text_or_empty out) d later
        ]

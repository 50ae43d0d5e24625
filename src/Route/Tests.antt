-- ===== src/Route/Tests.antt =====
-- The route of a dish behind a router, with a kernel that keeps one text of routes.
use mathlib.Core.Path.{subst}
use openwrt_starwatch.Base.{
  ◌≡◌, refl, sym, ◌∙◌, true, [], ◌∷◌, Option, none, some, if◌then◌else◌, arith,
}
use openwrt_starwatch.Base.Int.{pos}
use openwrt_starwatch.Base.Maps.{nat_eq, ◌==◌}
use openwrt_starwatch.Base.Strings.{
  Text, text_eq, trim_right, trim_left, split_lines, fields, is_space,
}
use openwrt_starwatch.Base.Text.{codes}
use openwrt_starwatch.Route.{
  WanStatus, DesiredRoute, Parsers, derived, Command, Shell, derive, derive_status,
  connected_subnets, in_any_subnet, gateway_on_link, has_gateway, reaches_on_link, route_matches,
  route_words, ensure,
}
use openwrt_starwatch.Route.Gateway.{GoesTo, derive_status_lem}
use openwrt_starwatch.Route.Kernel.{IsNamed, IsKernel, derive_pure}
use openwrt_starwatch.Route.Printed.{printed, via_line, link_line}
use openwrt_starwatch.Route.Commands.{ensure-ensure}

abbrev wan : WanStatus
wan = record {
  device = codes "eth1";
  l3_device = [];
  addresses = record { address = codes "a"; mask = pos 24 } ∷ [];
  routes = record { route_target = codes "0.0.0.0"; mask = pos 0; next_hop = codes "g" } ∷ [];
}

abbrev parsers : Parsers
parsers = record { parse_ip = λ s. some 3232261125; decode = λ s. some wan }

abbrev verb : Command → Text
verb (a ∷ b ∷ c ∷ d ∷ rest) = d
verb _ = []

abbrev line : Text
line = codes "192.168.100.1 via g dev eth1 \n"

-- The line of the route that a command sets.
abbrev set_line : Command → Text
set_line (a ∷ b ∷ c ∷ d ∷ dish ∷ key ∷ x ∷ other ∷ y ∷ rest) =
    if key == codes "via" then printed (via_line x y) else printed (link_line x)
set_line _ = []

abbrev execute : Command → Text → Option Text × Text
execute c w =
    if verb c == codes "show"
    then (some w, w)
    else if verb c == codes "flush"
    then (some [], [])
    else if verb c == codes "replace"
    then (some [], set_line c)
    else (some (codes "x"), w)

abbrev wanted : DesiredRoute
wanted = record { device = codes "eth1"; gateway = codes "g" }

derives : derive_pure parsers execute (some (codes "x")) (some (codes "x")) ≡ derived wanted
unfolding connected_subnets in_any_subnet gateway_on_link has_gateway reaches_on_link fields
derives = refl

line_matches : route_matches line wanted ≡ true
unfolding route_matches split_lines fields route_words trim_right trim_left is_space
line_matches = refl

kernel : IsKernel parsers execute
kernel = record {
  status_reads = λ w. refl;
  get_reads = λ w. refl;
  show_reads = λ w. refl;
  show_answers = λ w. (w, refl);
  flushed = λ w text h. refl;
  replaced_via = λ gateway device w text g d none_shown h. refl;
  replaced_link = λ device w text d none_shown h. refl;
  keeps_status = λ verb rest w. refl;
  keeps_router = λ verb rest w. refl;
}

abbrev stale : Shell Text
stale = record { world = codes "192.168.100.1 dev tun0"; commands = [] }

corrects :
    ((ensure parsers execute true stale).problem ≡ none)
    × ((ensure parsers execute true stale).recorded ≡ some wanted)
    × ((ensure parsers execute true stale).shell.world ≡ line)
unfolding ensure is_space trim_left
corrects = (refl, refl, refl)

derives_first : (derive parsers execute stale).0 ≡ derived wanted
unfolding derive derive_status
derives_first = derives

wanted-IsNamed : IsNamed parsers execute wanted
unfolding is_space
wanted-IsNamed = ground arith

IsNamed-route : (d : DesiredRoute) → derived wanted ≡ derived d → IsNamed parsers execute d
IsNamed-route d e =
    subst (IsNamed parsers execute) {x = wanted} {y = d} (ground (arith, e)) wanted-IsNamed

ensure-ensure_example :
    ((ensure parsers execute true (ensure parsers execute true stale).shell).problem ≡ none)
    × ((ensure parsers execute true (ensure parsers execute true stale).shell).recorded ≡ none)
    × ((ensure parsers execute true (ensure parsers execute true stale).shell).shell.world
        ≡ (ensure parsers execute true stale).shell.world)
ensure-ensure_example =
    ensure-ensure parsers execute kernel stale (λ d h. IsNamed-route d (sym derives_first ∙ h))
      corrects.0

derives_status : derive_status parsers execute wan stale ≡ (derived wanted, stale)
unfolding derive_status
derives_status = refl

derive_status_lem_example : GoesTo parsers execute wan stale wanted
derive_status_lem_example = derive_status_lem parsers execute wan stale wanted stale derives_status

-- ===== src/Route/Gateway.antt =====
-- The gateway that is derived from the WAN's status.
use openwrt_starwatch.Base.{
  ◌≡◌, ◌⊎◌, inl, inr, refl, Bool, true, false, not, ◌&&◌, List, [], ◌∷◌, Option, none, some,
  if◌then◌else◌, arith, Bool-cases,
}
use openwrt_starwatch.Base.Strings.{Text, text_eq}
use openwrt_starwatch.Config.Uci.{is_empty}
use openwrt_starwatch.Route.{
  WanStatus, StatusRoute, DesiredRoute, Subnet, starlink_router, in_any_subnet, is_default,
  has_gateway, gateway_on_link, connected_subnets, Parsers, Derived, derived, underivable,
  no_device, no_subnet, gateway_off_link, Command, Shell, router_on_link, derive_status,
}

module _ (parsers : Parsers) where
  open parsers use {parse_ip}

  gateway_on_link_lem :
      (routes : List StatusRoute) (subnets : List Subnet) (gateway : Text)
      → gateway_on_link parsers routes subnets ≡ some gateway
      → in_any_subnet (parse_ip gateway) subnets ≡ true
  unfolding gateway_on_link
  gateway_on_link_lem [] subnets gateway h = cc
  gateway_on_link_lem (r ∷ routes) subnets gateway h =
      by_test (is_default parsers r) (in_any_subnet (parse_ip r.next_hop) subnets) refl h
        (gateway_on_link_lem routes subnets gateway)
    where
      by_test :
          (b c : Bool)
          → in_any_subnet (parse_ip r.next_hop) subnets ≡ c
          → (if b && c then some r.next_hop else gateway_on_link parsers routes subnets)
            ≡ some gateway
          → (gateway_on_link parsers routes subnets ≡ some gateway
              → in_any_subnet (parse_ip gateway) subnets ≡ true)
          → in_any_subnet (parse_ip gateway) subnets ≡ true
      by_test true true e h ih = ground (arith, e, h)
      by_test true false e h ih = ih h
      by_test false c e h ih = ih h

  module _ {ℓ} {W : Type ℓ} (execute : Command → W → Option Text × W) where
    -- Where the packets for a derived route go: to a gateway in a subnet of the WAN, to the Starlink router
    -- where the kernel reaches it on the link, or to the link itself where the WAN has no gateway.
    abbrev pub GoesTo : WanStatus → Shell W → DesiredRoute → Type 0
    GoesTo status sh d =
        (in_any_subnet (parse_ip d.gateway) (connected_subnets parsers status.addresses) ≡ true)
        ⊎ ((d.gateway ≡ starlink_router) × ((router_on_link parsers execute d.device sh).0 ≡ true))
        ⊎ ((d.gateway ≡ []) × (has_gateway parsers status.routes ≡ false))

    by_gateway :
        (status : WanStatus) (sh : Shell W) (device : Text) (s : Subnet) (more : List Subnet)
        → connected_subnets parsers status.addresses ≡ s ∷ more
        → (g : Option Text) → gateway_on_link parsers status.routes (s ∷ more) ≡ g
        → (d : DesiredRoute) (after : Shell W)
        → ◌≡◌ {A = Derived × Shell W}
            (elim g [
              | some gateway ↦ (derived (record { device = device; gateway = gateway }), sh)
              | none ↦
                  if (router_on_link parsers execute device sh).0
                  then (
                    derived (record { device = device; gateway = starlink_router }),
                    (router_on_link parsers execute device sh).1,
                  )
                  else if not (has_gateway parsers status.routes)
                  then (
                    derived (record { device = device; gateway = [] }),
                    (router_on_link parsers execute device sh).1,
                  )
                  else (underivable gateway_off_link, (router_on_link parsers execute device sh).1)
            ])
            (derived d, after)
        → GoesTo status sh d
    by_gateway status sh device s more subnets (some g) e d after h =
        inl (ground (arith, h, e, subnets, gateway_on_link_lem status.routes (s ∷ more) g))
    by_gateway status sh device s more subnets none e d after h =
        elim (Bool-cases (router_on_link parsers execute device sh).0) [
          | inl on_link ↦ inr (inl (ground (arith, h, on_link), ground (arith, h, on_link)))
          | inr off ↦ inr (inr (ground (arith, h, off), ground (arith, h, off)))
        ]

    -- A route is derived only to a gateway on the link of the WAN, and else to the Starlink router or to the
    -- link itself.
    pub derive_status_lem :
        (status : WanStatus) (sh : Shell W) (d : DesiredRoute) (after : Shell W)
        → derive_status parsers execute status sh ≡ (derived d, after)
        → GoesTo status sh d
    unfolding derive_status
    derive_status_lem status sh d after h =
        by_device (is_empty (if is_empty status.device then status.l3_device else status.device))
          (connected_subnets parsers status.addresses) refl h
      where
        device : Text
        device = if is_empty status.device then status.l3_device else status.device

        by_device :
            (empty : Bool) (subnets : List Subnet)
            → connected_subnets parsers status.addresses ≡ subnets
            → ◌≡◌ {A = Derived × Shell W}
                (if empty then (underivable no_device, sh) else elim subnets [
                  | [] ↦ (underivable no_subnet, sh)
                  | s ∷ more ↦ elim (gateway_on_link parsers status.routes (s ∷ more)) [
                    | some gateway ↦ (derived (record { device = device; gateway = gateway }), sh)
                    | none ↦
                        if (router_on_link parsers execute device sh).0
                        then (
                          derived (record { device = device; gateway = starlink_router }),
                          (router_on_link parsers execute device sh).1,
                        )
                        else if not (has_gateway parsers status.routes)
                        then (
                          derived (record { device = device; gateway = [] }),
                          (router_on_link parsers execute device sh).1,
                        )
                        else (
                          underivable gateway_off_link,
                          (router_on_link parsers execute device sh).1,
                        )
                  ]
                ])
                (derived d, after)
            → GoesTo status sh d
        by_device true subnets e k = absurd (ground (arith, k))
        by_device false [] e k = absurd (ground (arith, k))
        by_device false (s ∷ more) e k =
            by_gateway status sh device s more e (gateway_on_link parsers status.routes (s ∷ more))
              refl d after k

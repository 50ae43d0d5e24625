-- ===== src/Route/Kernel.antt =====
-- What the commands are taken to do, and the derivation as a function of what they give.
use openwrt_starwatch.Base.{
  List, ◌⊎◌, ◌≡◌, refl, ap, ◌∙◌, Bool, true, false, not, [], ◌∷◌, ◌++◌, Option, none, some,
  if◌then◌else◌, arith,
}
use openwrt_starwatch.Base.Strings.{Text, text_eq, trim, fields}
use openwrt_starwatch.Base.Text.{codes}
use openwrt_starwatch.Route.Printed.{printed, via_line, link_line, IsName}
use openwrt_starwatch.Config.Uci.{is_empty}
use openwrt_starwatch.Route.{
  WanStatus, DesiredRoute, starlink_router, has_gateway, gateway_on_link, connected_subnets,
  reaches_on_link, Parsers, no_status, bad_status, Derived, derived, underivable, no_device,
  no_subnet, gateway_off_link, Command, Shell, derive_status, derive, status_command, get_command,
}

module _ {ℓ} {W : Type ℓ} (parsers : Parsers) (execute : Command → W → Option Text × W) where
  open parsers use {decode}

  -- The derivation, as a function of what two commands give.
  abbrev pub status_pure : WanStatus → Option Text → Derived
  status_pure status out =
      let device = if is_empty status.device then status.l3_device else status.device in
      let on_link : Bool = elim out [
        | none ↦ false
        | some text ↦ reaches_on_link device (fields text) false
      ] in
      if is_empty device
      then underivable no_device
      else elim (connected_subnets parsers status.addresses) [
        | [] ↦ underivable no_subnet
        | s ∷ more ↦ elim (gateway_on_link parsers status.routes (s ∷ more)) [
          | some gateway ↦ derived (record { device = device; gateway = gateway })
          | none ↦
              if on_link
              then derived (record { device = device; gateway = starlink_router })
              else if not (has_gateway parsers status.routes)
              then derived (record { device = device; gateway = [] })
              else underivable gateway_off_link
        ]
      ]

  abbrev pub derive_pure : Option Text → Option Text → Derived
  derive_pure none out = underivable no_status
  derive_pure (some text) out = elim (decode text) [
    | none ↦ underivable bad_status
    | some status ↦ status_pure status out
  ]

  -- A command on the routes of the dish's prefix, and the two ways to set one.
  abbrev pub on_dish : Text → List Text → Command
  on_dish verb rest =
      codes "ip" ∷ codes "-4" ∷ codes "route" ∷ verb ∷ codes "192.168.100.1/32" ∷ rest

  abbrev pub replace_via : Text → Text → Command
  replace_via gateway device =
      on_dish (codes "replace") (codes "via" ∷ gateway ∷ codes "dev" ∷ device ∷ [])

  abbrev pub replace_link : Text → Command
  replace_link device =
      on_dish (codes "replace") (codes "dev" ∷ device ∷ codes "scope" ∷ codes "link" ∷ [])

  -- `ip` shows no route.
  abbrev pub ShowsNone : W → Type 0
  ShowsNone w =
      (blank : Text) × ((execute (on_dish (codes "show") []) w).0 ≡ some blank)
      × (is_empty (trim blank) ≡ true)

  -- What `ip` and `ubus` do: three commands only read; `ip route show` answers; after a flush it shows
  -- nothing; where it showed nothing, it shows the line of the route that is set; and a command on the
  -- dish's prefix leaves the WAN's status and the way to the router alone.
  pub record IsKernel : Type ℓ where
    pub status_reads : (w : W) → (execute status_command w).1 ≡ w
    pub get_reads : (w : W) → (execute get_command w).1 ≡ w
    pub show_reads : (w : W) → (execute (on_dish (codes "show") []) w).1 ≡ w
    pub show_answers :
        (w : W) → (out : Text) × ((execute (on_dish (codes "show") []) w).0 ≡ some out)
    pub flushed :
        (w : W) (text : Text)
        → (execute (on_dish (codes "flush") []) w).0 ≡ some text
        → (execute (on_dish (codes "show") []) (execute (on_dish (codes "flush") []) w).1).0
          ≡ some []
    pub replaced_via :
        (gateway device : Text) (w : W) (text : Text)
        → IsName gateway
        → IsName device
        → ShowsNone w
        → (execute (replace_via gateway device) w).0 ≡ some text
        → (execute (on_dish (codes "show") []) (execute (replace_via gateway device) w).1).0
          ≡ some (printed (via_line gateway device))
    pub replaced_link :
        (device : Text) (w : W) (text : Text)
        → IsName device
        → ShowsNone w
        → (execute (replace_link device) w).0 ≡ some text
        → (execute (on_dish (codes "show") []) (execute (replace_link device) w).1).0
          ≡ some (printed (link_line device))
    pub keeps_status :
        (verb : Text) (rest : List Text) (w : W)
        → (execute status_command (execute (on_dish verb rest) w).1).0
          ≡ (execute status_command w).0
    pub keeps_router :
        (verb : Text) (rest : List Text) (w : W)
        → (execute get_command (execute (on_dish verb rest) w).1).0 ≡ (execute get_command w).0

  -- The device and the gateway of a route, if it has one, are names.
  abbrev pub IsNamed : DesiredRoute → Type 0
  IsNamed d = IsName d.device × ((d.gateway ≡ []) ⊎ IsName d.gateway)

  module _ (kernel : IsKernel) where
    open kernel use {status_reads, get_reads}

    status_lem :
        (status : WanStatus) (sh : Shell W)
        → ((derive_status parsers execute status sh).0
            ≡ status_pure status (execute get_command sh.world).0)
          × ((derive_status parsers execute status sh).1.world ≡ sh.world)
    unfolding derive_status
    status_lem status sh = ground (arith, get_reads sh.world)

    pub derive_lem :
        (sh : Shell W)
        → ((derive parsers execute sh).0
            ≡ derive_pure (execute status_command sh.world).0 (execute get_command sh.world).0)
          × ((derive parsers execute sh).1.world ≡ sh.world)
    unfolding derive
    derive_lem sh = by_status (execute status_command sh.world).0
      where
        after : Shell W
        after = record {
          world = (execute status_command sh.world).1;
          commands = sh.commands ++ status_command ∷ [];
        }

        result : Option Text → Derived × Shell W
        result out = elim out [
          | none ↦ (underivable no_status, after)
          | some text ↦ elim (decode text) [
            | none ↦ (underivable bad_status, after)
            | some status ↦ derive_status parsers execute status after
          ]
        ]

        by_decoded :
            (s : Option WanStatus)
            → ((elim s as (λ x. Derived × Shell W) [
              | none ↦ (underivable bad_status, after)
              | some status ↦ derive_status parsers execute status after
            ]).0
                ≡ elim s [
                  | none ↦ underivable bad_status
                  | some status ↦ status_pure status (execute get_command sh.world).0
                ])
              × ((elim s as (λ x. Derived × Shell W) [
                | none ↦ (underivable bad_status, after)
                | some status ↦ derive_status parsers execute status after
              ]).1.world
                  ≡ sh.world)
        by_decoded none = (refl, status_reads sh.world)
        by_decoded (some status) = (
          (status_lem status after).0
              ∙ ap (λ w. status_pure status (execute get_command w).0) (status_reads sh.world),
          (status_lem status after).1 ∙ status_reads sh.world,
        )

        by_status :
            (out : Option Text)
            → ((result out).0 ≡ derive_pure out (execute get_command sh.world).0)
              × ((result out).1.world ≡ sh.world)
        by_status none = (refl, status_reads sh.world)
        by_status (some text) = by_decoded (decode text)

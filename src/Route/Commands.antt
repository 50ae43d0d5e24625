-- ===== src/Route/Commands.antt =====
-- What `Ensure` does to the routes: once it has succeeded, it has nothing left to do.
use mathlib.Core.Path.{subst}
use openwrt_starwatch.Base.{
  inl, inr, ◌≡◌, refl, sym, ap, ap₂, ◌∙◌, Bool, true, false, [], ◌∷◌, ◌++◌, Option, none, some,
  if◌then◌else◌, arith,
}
use openwrt_starwatch.Base.Strings.{Text, text_eq, trim, trim_left, trim_right}
use openwrt_starwatch.Config.Uci.{is_empty}
use openwrt_starwatch.Route.{
  DesiredRoute, Parsers, Derived, derived, underivable, replace_failed, flush_failed, Command,
  Shell, derive, route_matches, status_command, get_command, show_command, flush_command,
  replace_command, text_or_empty, replace_route, correct_route, ensure, Ensured,
}
use openwrt_starwatch.Base.Text.{codes}
use openwrt_starwatch.Route.Printed.{IsName, via_matches, link_matches}
use openwrt_starwatch.Route.Kernel.{IsKernel, IsNamed, ShowsNone, derive_pure, derive_lem}

module _ {ℓ} {W : Type ℓ} (parsers : Parsers) (execute : Command → W → Option Text × W) where
  module _ (kernel : IsKernel parsers execute) where
    open kernel use {
      show_reads, show_answers, flushed, replaced_via, replaced_link, keeps_status, keeps_router,
    }

    blank : is_empty (trim []) ≡ true
    unfolding trim_right trim_left
    blank = refl

    abbrev shown : W → Text
    shown w = text_or_empty parsers execute (execute show_command w).0

    -- The route is there, and it is the one that is derived.
    record IsSettled (d : DesiredRoute) (w : W) : Type 0 where
      pub matching : route_matches (shown w) d ≡ true
      pub derivation :
          derive_pure parsers execute (execute status_command w).0 (execute get_command w).0
          ≡ derived d

    -- Another world with the same status and the same way to the router.
    abbrev Alike : W → W → Type 0
    Alike v w =
        ((execute status_command v).0 ≡ (execute status_command w).0)
        × ((execute get_command v).0 ≡ (execute get_command w).0)

    -- The world after the route is set.
    abbrev set : DesiredRoute → W → W
    set d w = (execute (replace_command d) w).1

    set-via :
        (gateway device : Text) (w : W) (text : Text)
        → IsName gateway
        → IsName device
        → ShowsNone parsers execute w
        → (execute (replace_command (record { device = device; gateway = gateway })) w).0
          ≡ some text
        → route_matches
            (shown (set (record { device = device; gateway = gateway }) w))
            (record { device = device; gateway = gateway })
          ≡ true
    set-via [] device w text g d none_shown h = cc
    set-via (c ∷ gateway) device w text g d none_shown h =
        ap
          (λ out.
            route_matches (text_or_empty parsers execute out)
              (record { device = device; gateway = c ∷ gateway }))
          (replaced_via (c ∷ gateway) device w text g d none_shown h)
        ∙ via_matches (c ∷ gateway) device g d

    set-link :
        (device : Text) (w : W) (text : Text)
        → IsName device
        → ShowsNone parsers execute w
        → (execute (replace_command (record { device = device; gateway = [] })) w).0 ≡ some text
        → route_matches
            (shown (set (record { device = device; gateway = [] }) w))
            (record { device = device; gateway = [] })
          ≡ true
    set-link device w text d none_shown h =
        ap
          (λ out.
            route_matches (text_or_empty parsers execute out)
              (record { device = device; gateway = [] }))
          (replaced_link device w text d none_shown h)
        ∙ link_matches device d

    set_matches :
        (d : DesiredRoute) (w : W) (text : Text)
        → IsNamed parsers execute d
        → is_empty (trim (shown w)) ≡ true
        → (execute (replace_command d) w).0 ≡ some text
        → route_matches (shown (set d w)) d ≡ true
    set_matches d w text (device, gateway) empty h =
        let (out, answer) = show_answers w in
        let none_shown : ShowsNone parsers execute w = (
          out,
          answer,
          sym (ap (λ o. is_empty (trim (text_or_empty parsers execute o))) answer) ∙ empty,
        ) in
        elim gateway [
          | inl e ↦
              subst (λ r. route_matches (shown (set r w)) r ≡ true)
                {x = record { device = d.device; gateway = [] }} {y = d}
                (ap (λ g. record { device = d.device; gateway = g }) (sym e))
                (set-link d.device w text device none_shown (
                  ap
                    (λ g.
                      (execute (replace_command (record { device = d.device; gateway = g })) w).0)
                    (sym e)
                  ∙ h))
          | inr g ↦ set-via d.gateway d.device w text g device none_shown h
        ]

    replaced_lem :
        (d : DesiredRoute) (sh : Shell W)
        → IsNamed parsers execute d
        → is_empty (trim (shown sh.world)) ≡ true
        → (replace_route parsers execute d sh).problem ≡ none
        → (route_matches (shown (replace_route parsers execute d sh).shell.world) d ≡ true)
          × Alike (replace_route parsers execute d sh).shell.world sh.world
    replaced_lem d sh named empty h = by_output (execute (replace_command d) sh.world).0 refl h
      where
        after : Shell W
        after = record {
          world = (execute (replace_command d) sh.world).1;
          commands = sh.commands ++ replace_command d ∷ [];
        }

        result : Option Text → Ensured parsers execute
        result out = elim out [
          | none ↦ record { problem = some replace_failed; recorded = none; shell = after }
          | some text ↦ record { problem = none; recorded = some d; shell = after }
        ]

        by_output :
            (out : Option Text)
            → (execute (replace_command d) sh.world).0 ≡ out
            → (result out).problem ≡ none
            → (route_matches (shown (result out).shell.world) d ≡ true)
              × Alike (result out).shell.world sh.world
        by_output none e h = cc
        by_output (some text) e h = (
          set_matches d sh.world text named empty e,
          (keeps_status (codes "replace") _ sh.world, keeps_router (codes "replace") _ sh.world),
        )

    correct_lem :
        (d : DesiredRoute) (sh : Shell W) (current : Text)
        → IsNamed parsers execute d
        → shown sh.world ≡ current
        → (correct_route parsers execute current d sh).problem ≡ none
        → (route_matches (shown (correct_route parsers execute current d sh).shell.world) d ≡ true)
          × Alike (correct_route parsers execute current d sh).shell.world sh.world
    unfolding correct_route
    correct_lem d sh current named e h =
        by_tests (route_matches current d) (is_empty (trim current))
          (execute flush_command sh.world).0 refl refl refl h
      where
        after : Shell W
        after = record {
          world = (execute flush_command sh.world).1;
          commands = sh.commands ++ flush_command ∷ [];
        }

        result : Bool → Bool → Option Text → Ensured parsers execute
        result b c out =
            if b
            then record { problem = none; recorded = none; shell = sh }
            else if c
            then replace_route parsers execute d sh
            else elim out [
              | none ↦ record { problem = some flush_failed; recorded = none; shell = after }
              | some text ↦ replace_route parsers execute d after
            ]

        by_tests :
            (b c : Bool) (out : Option Text)
            → route_matches current d ≡ b
            → is_empty (trim current) ≡ c
            → (execute flush_command sh.world).0 ≡ out
            → (result b c out).problem ≡ none
            → (route_matches (shown (result b c out).shell.world) d ≡ true)
              × Alike (result b c out).shell.world sh.world
        by_tests true c out f g k p = (ap (λ t. route_matches t d) e ∙ f, (refl, refl))
        by_tests false true out f g k p =
            replaced_lem d sh named (ap (λ t. is_empty (trim t)) e ∙ g) p
        by_tests false false none f g k p = cc
        by_tests false false (some text) f g k p =
            let (m, alike) =
              replaced_lem d after named
                (ap (λ o. is_empty (trim (text_or_empty parsers execute o)))
                    (flushed sh.world text k)
                  ∙ blank)
                p in
            (
              m,
              (
                alike.0 ∙ keeps_status (codes "flush") [] sh.world,
                alike.1 ∙ keeps_router (codes "flush") [] sh.world,
              ),
            )

    quiet_correct :
        (d : DesiredRoute) (sh : Shell W) (current : Text) {w : W}
        → route_matches current d ≡ true
        → sh.world ≡ w
        → ((correct_route parsers execute current d sh).problem ≡ none)
          × ((correct_route parsers execute current d sh).recorded ≡ none)
          × ((correct_route parsers execute current d sh).shell.world ≡ w)
    unfolding correct_route
    quiet_correct d sh current m e = ground (arith, m, e)

    -- Where the route is settled nothing is changed or recorded.
    settled_ensure :
        (d : DesiredRoute) (sh : Shell W)
        → IsSettled d sh.world
        → ((ensure parsers execute true sh).problem ≡ none)
          × ((ensure parsers execute true sh).recorded ≡ none)
          × ((ensure parsers execute true sh).shell.world ≡ sh.world)
    unfolding ensure
    settled_ensure d sh s =
        subst (λ r. Quiet (result r))
          (sym ((derive_lem parsers execute kernel sh).0 ∙ s.derivation))
          (by_match same_shown s.matching)
      where
        after : Shell W
        after = (derive parsers execute sh).1

        shown_after : Text
        shown_after = text_or_empty parsers execute (execute show_command after.world).0

        later : Shell W
        later = record {
          world = (execute show_command after.world).1;
          commands = after.commands ++ show_command ∷ [];
        }

        Quiet : Ensured parsers execute → Type ℓ
        Quiet r = (r.problem ≡ none) × (r.recorded ≡ none) × (r.shell.world ≡ sh.world)

        result : Derived → Ensured parsers execute
        result r = elim r [
          | underivable p ↦ record { problem = some p; recorded = none; shell = after }
          | derived d ↦ correct_route parsers execute shown_after d later
        ]

        same_shown : shown_after ≡ shown sh.world
        same_shown = ap shown (derive_lem parsers execute kernel sh).1

        by_match :
            shown_after ≡ shown sh.world
            → route_matches (shown sh.world) d ≡ true
            → Quiet (correct_route parsers execute shown_after d later)
        by_match e m =
            quiet_correct d later shown_after (ap (λ t. route_matches t d) e ∙ m)
              (show_reads after.world ∙ (derive_lem parsers execute kernel sh).1)

    ensure_settles :
        (sh : Shell W)
        → ((d : DesiredRoute)
            → (derive parsers execute sh).0 ≡ derived d
            → IsNamed parsers execute d)
        → (ensure parsers execute true sh).problem ≡ none
        → (d : DesiredRoute) × IsSettled d (ensure parsers execute true sh).shell.world
    unfolding ensure
    ensure_settles sh named h =
        by_result (derive parsers execute sh).0 (derive_lem parsers execute kernel sh).0 h
      where
        after : Shell W
        after = (derive parsers execute sh).1

        shown_after : Text
        shown_after = text_or_empty parsers execute (execute show_command after.world).0

        later : Shell W
        later = record {
          world = (execute show_command after.world).1;
          commands = after.commands ++ show_command ∷ [];
        }

        result : Derived → Ensured parsers execute
        result r = elim r [
          | underivable p ↦ record { problem = some p; recorded = none; shell = after }
          | derived d ↦ correct_route parsers execute shown_after d later
        ]

        same : later.world ≡ sh.world
        same = show_reads after.world ∙ (derive_lem parsers execute kernel sh).1

        by_result :
            (r : Derived)
            → r
              ≡ derive_pure parsers execute
                  (execute status_command sh.world).0
                  (execute get_command sh.world).0
            → (result r).problem ≡ none
            → (d : DesiredRoute) × IsSettled d (result r).shell.world
        by_result (underivable p) e k = cc
        by_result (derived d) e k =
            let wanted : derive_pure parsers execute (execute status_command later.world).0
                  (execute get_command later.world).0
                ≡ derived d =
              ap
                (λ w.
                  derive_pure parsers execute (execute status_command w).0
                    (execute get_command w).0)
                same
              ∙ sym e in
            let (m, alike) =
              correct_lem d later shown_after
                (named d ((derive_lem parsers execute kernel sh).0 ∙ sym e))
                (ap shown (show_reads after.world)) k in
            (
              d,
              record {
                matching = m;
                derivation = ap₂ (derive_pure parsers execute) alike.0 alike.1 ∙ wanted;
              },
            )

    -- Once `Ensure` has succeeded, a further call finds the route as it wants it: it succeeds, changes
    -- nothing and records nothing. The commands do what IsKernel says, and the names that the first
    -- call derives are words, other than `via` and `dev`.
    pub ensure-ensure :
        (sh : Shell W)
        → ((d : DesiredRoute)
            → (derive parsers execute sh).0 ≡ derived d
            → IsNamed parsers execute d)
        → (ensure parsers execute true sh).problem ≡ none
        → ((ensure parsers execute true (ensure parsers execute true sh).shell).problem ≡ none)
          × ((ensure parsers execute true (ensure parsers execute true sh).shell).recorded ≡ none)
          × ((ensure parsers execute true (ensure parsers execute true sh).shell).shell.world
              ≡ (ensure parsers execute true sh).shell.world)
    ensure-ensure sh named h =
        let (d, s) = ensure_settles sh named h in
        settled_ensure d (ensure parsers execute true sh).shell s

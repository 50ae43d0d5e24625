-- ===== src/Config/Apply/Steps.antt =====
-- What holds before the steps of an update holds after them, step by step.
pub mod Fixed
pub mod Clean
pub mod Values
pub mod Rules
pub mod Written
use mathlib.Core.Path.{subst}
use openwrt_starwatch.Base.{
  ◌≡◌, refl, ◌≢◌, Bool, true, false, List, [], ◌∷◌, ◌++◌, Option, none, some, if◌then◌else◌,
}
use openwrt_starwatch.Base.Effects.{All}
use openwrt_starwatch.Config.Uci.{OptionValue}
use openwrt_starwatch.Config.Settings.{Numbers, Config}
use openwrt_starwatch.Config.Change.{Refusal, Outcome, refused, done, Step, set_field, run_steps}
use openwrt_starwatch.Config.Apply.{part}

module _ {ℓ} {S : Type ℓ} (P : S × List OptionValue → Type 0) where
  abbrev pub Holds : Outcome S → Type 0
  Holds (refused e) = Unit
  Holds (done after) = P after

  abbrev pub Preserves : Step S → Type ℓ
  Preserves step = (st : S × List OptionValue) → P st → Holds (step st)

  pub of_result :
      (o : Outcome S) (after : S × List OptionValue) → o ≡ done after → Holds o → P after
  of_result o after e h = subst Holds {x = o} {y = done after} e h

  pub set_field-Preserves {κ} :
      {A : Type κ} (field : Option A) (check : A → Option Refusal) (set : A → S → S)
      (lines : A → List OptionValue)
      → ((v : A) (s : S) (l : List OptionValue)
          → field ≡ some v
          → check v ≡ none
          → P (s, l)
          → P (set v s, l ++ lines v))
      → Preserves (set_field field check set lines)
  unfolding set_field
  set_field-Preserves none check set lines h (s, l) p = p
  set_field-Preserves (some v) check set lines h (s, l) p = by_check (check v) refl
    where
      by_check :
          (c : Option Refusal)
          → check v ≡ c
          → Holds (elim c [ some e ↦ refused e | none ↦ done (set v s, l ++ lines v) ])
      by_check none e = h v s l refl e p
      by_check (some r) e = tt

  pub run_steps-Preserves :
      (steps : List (Step S)) → All Preserves steps → Preserves (run_steps steps)
  unfolding run_steps
  run_steps-Preserves [] h st p = p
  run_steps-Preserves (step ∷ steps) (h, hs) st p =
      rest (run_steps-Preserves steps hs) (step st) (h st p)
    where
      rest :
          Preserves (run_steps steps)
          → (o : Outcome S) → Holds o
          → Holds (elim o [ refused e ↦ refused e | done after ↦ run_steps steps after ])
      rest ih (refused e) q = tt
      rest ih (done after) q = ih after q

  pub Holds-unless :
      (b : Bool) (e : Refusal) (o : Outcome S) → Holds o → Holds (if b then refused e else o)
  Holds-unless true e o h = tt
  Holds-unless false e o h = h

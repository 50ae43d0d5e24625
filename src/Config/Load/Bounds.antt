-- ===== src/Config/Load/Bounds.antt =====
-- The bounds of a configuration that is loaded.
use mathlib.Core.Path.{subst}
use openwrt_starwatch.Base.{
  ℕ, ◌*◌, ◌≡◌, refl, sym, Bool, true, false, List, [], ◌∷◌, Option, none, some, if◌then◌else◌, leb,
  arith,
}
use openwrt_starwatch.Base.Effects.{All}
use openwrt_starwatch.Base.Int.{ℤ, pos, negsuc}
use openwrt_starwatch.Base.Strings.{Text}
use openwrt_starwatch.Config.Uci.{Section, is_empty}
use openwrt_starwatch.Config.Settings.{of_seconds, nanoseconds}
use openwrt_starwatch.Config.Readers.{
  bad_option, Loaded, failed, loaded, text_of, read_option, tested, to_seconds, then_loaded,
  in_range, year_seconds, run_loads,
}

unfoldable pub LoadedAs {ℓ} : {A : Type ℓ} → (A → Type 0) → Loaded A → Type 0
LoadedAs P (failed e) = Unit
LoadedAs P (loaded a) = P a

module _ {ℓ} {A : Type ℓ} (P : A → Type 0) where
  pub of_loaded : (r : Loaded A) (a : A) → r ≡ loaded a → LoadedAs P r → P a
  unfolding LoadedAs
  of_loaded r a e h = subst (LoadedAs P) {x = r} {y = loaded a} e h

  pub loaded-LoadedAs : (a : A) → P a → LoadedAs P (loaded a)
  unfolding LoadedAs
  loaded-LoadedAs a h = h

  pub tested-LoadedAs :
      (option : Text) (test : A → Bool) (v : Option A)
      → ((a : A) → test a ≡ true → P a)
      → LoadedAs P (tested option test v)
  unfolding LoadedAs
  tested-LoadedAs option test none h = tt
  tested-LoadedAs option test (some v) h = by_test (test v) refl
    where
      by_test :
          (b : Bool) → test v ≡ b → LoadedAs P (if b then loaded v else failed (bad_option option))
      by_test true e = h v e
      by_test false e = tt

  pub read_option-LoadedAs :
      (s : Section) (option : Text) (old : A) (read : Text → Loaded A)
      → P old
      → ((v : Text) → LoadedAs P (read v))
      → LoadedAs P (read_option s option old read)
  unfolding read_option LoadedAs
  read_option-LoadedAs s option old read p h =
      elim (is_empty (text_of s option))
        as (λ b. LoadedAs P (if b then loaded old else read (text_of s option))) [
          | true ↦ p
          | false ↦ h (text_of s option)
        ]

  pub then_loaded-LoadedAs {κ} :
      {B : Type κ} (Q : B → Type 0) (r : Loaded B) (f : B → A)
      → LoadedAs Q r
      → ((b : B) → Q b → P (f b))
      → LoadedAs P (then_loaded r f)
  unfolding LoadedAs then_loaded
  then_loaded-LoadedAs Q (failed e) f h k = tt
  then_loaded-LoadedAs Q (loaded b) f h k = k b h

  abbrev pub Keeps : (A → Loaded A) → Type ℓ
  Keeps step = (a : A) → P a → LoadedAs P (step a)

  pub run_loads-Keeps : (steps : List (A → Loaded A)) → All Keeps steps → Keeps (run_loads steps)
  unfolding run_loads LoadedAs
  run_loads-Keeps [] h a p = p
  run_loads-Keeps (step ∷ steps) (h, hs) a p = rest (run_loads-Keeps steps hs) (step a) (h a p)
    where
      rest :
          Keeps (run_loads steps)
          → (r : Loaded A) → LoadedAs P r
          → LoadedAs P (elim r [ failed e ↦ failed e | loaded b ↦ run_loads steps b ])
      rest ih (failed e) q = tt
      rest ih (loaded b) q = ih b q

-- A whole number of seconds, from one to a year.
abbrev pub IsPeriod : ℤ → Type 0
IsPeriod d = (n : ℕ) × (d ≡ pos (n * nanoseconds)) × (in_range 1 year_seconds (pos n) ≡ true)

pub of_seconds_year :
    (n : ℕ) → leb n year_seconds ≡ true → of_seconds (pos n) ≡ pos (n * nanoseconds)
unfolding of_seconds
of_seconds_year n h = ground (arith, h)

pub period : (v : ℤ) → in_range 1 year_seconds v ≡ true → IsPeriod (of_seconds v)
period (pos n) h = (n, of_seconds_year n (ground (arith, h)), h)
period (negsuc n) h = absurd (ground (arith, h))

pub to_seconds_period : (d : ℤ) → IsPeriod d → in_range 1 year_seconds (to_seconds d) ≡ true
to_seconds_period d (n, e, h) =
    subst (λ x. in_range 1 year_seconds (to_seconds x) ≡ true) (sym e) (ground (arith, h))

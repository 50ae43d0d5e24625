-- ===== src/Config/Load/Ran.antt =====
-- A load that succeeds has run every one of its steps.
use openwrt_starwatch.Base.{◌≡◌, refl, List, [], ◌∷◌}
use openwrt_starwatch.Base.Effects.{All}
use openwrt_starwatch.Config.Readers.{Loaded, failed, loaded, then_loaded, run_loads}

module _ {ℓ} {A : Type ℓ} where
  abbrev pub Ran : (A → Loaded A) → Type ℓ
  Ran step = (x y : A) × (step x ≡ loaded y)

  pub run_loads-Ran :
      (steps : List (A → Loaded A)) (a b : A) → run_loads steps a ≡ loaded b → All Ran steps
  unfolding run_loads
  run_loads-Ran [] a b e = tt
  run_loads-Ran (step ∷ steps) a b e = by_step (run_loads-Ran steps) (step a) refl e
    where
      by_step :
          ((c d : A) → run_loads steps c ≡ loaded d → All Ran steps)
          → (r : Loaded A) → step a ≡ r
          → ◌≡◌ {A = Loaded A}
              (elim r [ failed f ↦ failed f | loaded c ↦ run_loads steps c ])
              (loaded b)
          → All Ran (step ∷ steps)
      by_step ih (failed f) h k = cc
      by_step ih (loaded c) h k = ((a, c, h), ih c b k)

  pub then_loaded-loaded {κ} :
      {B : Type κ} (r : Loaded B) (f : B → A) (a : A)
      → then_loaded r f ≡ loaded a
      → (b : B) × (r ≡ loaded b)
  unfolding then_loaded
  then_loaded-loaded (failed e) f a h = cc
  then_loaded-loaded (loaded b) f a h = (b, refl)

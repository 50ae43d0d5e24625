-- ===== src/Base/Effects.antt =====
-- Lists that record what an operation did, and predicates over lists.
use openwrt_starwatch.Base.{List, [], ◌∷◌, ◌++◌}

abbrev pub All {ℓ κ} : {A : Type ℓ} → (A → Type κ) → List A → Type κ
All Q [] = Unit
All Q (here ∷ rest) = Q here × All Q rest

pub All-append {ℓ κ} :
    {A : Type ℓ} (Q : A → Type κ) (first later : List A)
    → All Q first
    → All Q later
    → All Q (first ++ later)
All-append Q [] later h k = k
All-append Q (a ∷ first) later (here, rest) k = (here, All-append Q first later rest k)

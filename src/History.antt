-- ===== src/History.antt =====
-- router/internal/history: the points of a series, the RAM tier and the choice between tiers.
-- An instant is the number of nanoseconds since the zero `time.Time`, so `IsZero` is a test for 0; a
-- stored time is the number of seconds since then (`Unix` counts them from 1970, a constant less).
pub mod Ring
pub mod Search
pub mod Downsample
pub mod Store
pub mod Tiered
mod Tests
use openwrt_starwatch.Base.{ℕ, ◌/◌, ◌*◌, Option}

abbrev pub second : ℕ
second = 1_000_000_000

-- float32 values are only moved: they are elements of any type.
pub record Point (V : Type 0) : Type 0 where
  pub time : ℕ
  pub value : V
  pub min : Option V
  pub max : Option V
  pub samples : ℕ

abbrev pub unix : ℕ → ℕ
unix t = t / second

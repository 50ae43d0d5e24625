-- ===== src/History/Ring.antt =====
-- router/internal/history/ring.go: a ring of the latest points, with times in whole seconds.
pub mod Window
pub mod Slide
pub mod Refine
pub mod Ordered
use openwrt_starwatch.Base.{
  ℕ, zero, suc, ◌+◌, ◌-◌, ◌*◌, ◌%◌, Bool, true, false, List, [], ◌∷◌, none, length, ltb, leb, set,
  get_or, replicate, if◌then◌else◌,
}
use openwrt_starwatch.Base.Int.{ℤ}
use openwrt_starwatch.Bus.{at_least_one}
use openwrt_starwatch.History.{Point, second, unix}

pub record Ring (V : Type 0) : Type 0 where
  pub times : List ℕ
  pub values : List V
  pub next : ℕ
  pub count : ℕ
  pub ordered : Bool

-- `v₀` is the zero value that `make` fills an array with.
module _ {V : Type 0} (v₀ : V) where
  unfoldable pub new_ring : ℤ → Ring V
  new_ring capacity = record {
    times = replicate (at_least_one capacity) 0;
    values = replicate (at_least_one capacity) v₀;
    next = 0;
    count = 0;
    ordered = true;
  }

  -- `snapshot`'s loop body: the point that is read back from slot `index`.
  abbrev pub slot : Ring V → ℕ → Point V
  slot r index = record {
    time = get_or r.times index 0 * second;
    value = get_or r.values index v₀;
    min = none;
    max = none;
    samples = 0;
  }

  -- `start := r.next - r.count; if start < 0 { start += len(r.values) }`
  abbrev pub start : Ring V → ℕ
  start r = if leb r.count r.next then r.next - r.count else r.next + length r.values - r.count

  -- `i` runs over `k` indices.
  unfoldable pub read_from : Ring V → ℕ → ℕ → List (Point V)
  read_from r i zero = []
  read_from r i (suc k) = slot r ((start r + i) % length r.values) ∷ read_from r (i + 1) k

  unfoldable pub snapshot : Ring V → List (Point V)
  unfolding read_from
  snapshot r = read_from r 0 r.count

module _ {V : Type 0} where
  -- The index of the point written last.
  abbrev pub previous : Ring V → ℕ
  previous r = (r.next + length r.times - 1) % length r.times

  unfoldable pub append : Point V → Ring V → Ring V
  append p r = record {
    times = set r.times r.next (unix p.time);
    values = set r.values r.next p.value;
    next = (r.next + 1) % length r.values;
    count = if ltb r.count (length r.values) then r.count + 1 else r.count;
    ordered =
        if ltb 0 r.count
        then (if ltb (unix p.time) (get_or r.times (previous r) 0) then false else r.ordered)
        else r.ordered;
  }

  abbrev pub is_ordered : Ring V → Bool
  is_ordered r = r.ordered

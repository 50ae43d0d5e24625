-- ===== src/History/Ring/Ordered.antt =====
-- The ring's flag `ordered`: whether time has never stepped back between two appends.
use openwrt_starwatch.Base.{
  ℕ, zero, suc, ◌+◌, ◌-◌, ◌*◌, ◌%◌, ◌≤◌, ◌≡◌, Bool, true, ◌&&◌, List, [], ◌∷◌, ap, sym, ◌∙◌, none,
  some, Option, length, ltb, leb, get_or, drop, map, if◌then◌else◌, arith, length-set,
}
use openwrt_starwatch.Base.Int.{ℤ}
use openwrt_starwatch.Base.Effects.{All}
use openwrt_starwatch.Base.Sort.{IsSorted}
use openwrt_starwatch.History.{Point, second, unix}
use openwrt_starwatch.History.Ring.{Ring, new_ring, append, previous, is_ordered, snapshot}
use openwrt_starwatch.Bus.{at_least_one}
use openwrt_starwatch.History.Ring.Slide.{get_or-set_self}
use openwrt_starwatch.History.Ring.Window.{wrap}
use openwrt_starwatch.History.Ring.Refine.{
  IsValid, append-IsValid, append_all, new_ring-IsValid, stored, snapshot-append_all,
}

-- No stored time is below the one before it; `prev` is the one before the first.
abbrev pub steady_from : Option ℕ → List ℕ → Bool
steady_from prev [] = true
steady_from none (t ∷ ts) = steady_from (some t) ts
steady_from (some s) (t ∷ ts) = leb s t && steady_from (some t) ts

module _ {V : Type 0} (v₀ : V) where
  -- The stored time of the point written last.
  abbrev latest : Ring V → Option ℕ
  latest r = if ltb 0 r.count then some (get_or r.times (previous r) 0) else none

  latest-append :
      (p : Point V) (r : Ring V) → IsValid v₀ r → latest (append p r) ≡ some (unix p.time)
  unfolding append
  latest-append p r v = ground (
    arith,
    wrap (r.next + 1) (length r.values),
    wrap ((r.next + 1) % length r.values + length r.times - 1) (length r.times),
    length-set r.times r.next (unix p.time),
    get_or-set_self r.times r.next (unix p.time) 0,
  )

  flag-append :
      (p : Point V) (r : Ring V) (ts : List ℕ)
      → (is_ordered (append p r) && steady_from (some (unix p.time)) ts)
        ≡ (is_ordered r && steady_from (latest r) (unix p.time ∷ ts))
  unfolding append
  flag-append p r ts = ground arith

  ordered-append :
      (p : Point V) (r : Ring V)
      → IsValid v₀ r
      → (ts : List ℕ)
      → (is_ordered (append p r) && steady_from (latest (append p r)) ts)
        ≡ (is_ordered r && steady_from (latest r) (unix p.time ∷ ts))
  ordered-append p r v ts =
      ap (λ l. is_ordered (append p r) && steady_from l ts) (latest-append p r v)
      ∙ flag-append p r ts

  ordered_from :
      (ps : List (Point V)) (r : Ring V)
      → IsValid v₀ r
      → is_ordered (append_all v₀ ps r)
        ≡ (is_ordered r && steady_from (latest r) (map (λ p. unix p.time) ps))
  unfolding append_all
  ordered_from [] r v = ground arith
  ordered_from (p ∷ ps) r v =
      ordered_from ps (append p r) (append-IsValid v₀ p r v)
      ∙ ordered-append p r v (map (λ q. unix q.time) ps)

  -- After any appends to a new ring, `isOrdered` tells exactly whether no appended point had an
  -- earlier second than the point appended before it, also among the points that the ring has lost.
  pub is_ordered-append_all :
      (c : ℤ) (ps : List (Point V))
      → is_ordered (append_all v₀ ps (new_ring v₀ c)) ≡ steady_from none (map (λ p. unix p.time) ps)
  unfolding new_ring
  is_ordered-append_all c ps = ordered_from ps (new_ring v₀ c) (new_ring-IsValid v₀ c)

  IsSorted-drop :
      (n : ℕ) (ps : List (Point V)) → IsSorted (λ p. p.time) ps → IsSorted (λ p. p.time) (drop n ps)
  IsSorted-drop zero ps h = h
  IsSorted-drop (suc n) [] h = tt
  IsSorted-drop (suc n) (p ∷ ps) h = IsSorted-drop n ps h.1

  steady-All :
      (s t : ℕ) (ps : List (Point V))
      → s ≤ t
      → steady_from (some t) (map (λ p. unix p.time) ps) ≡ true
      → All (λ q. s * second ≤ q.time) (map (stored v₀) ps)
  steady-All s t [] le h = tt
  steady-All s t (p ∷ ps) le h =
      (ground arith, steady-All s (unix p.time) ps (ground arith) (ground arith))

  steady-IsSorted :
      (prev : Option ℕ) (ps : List (Point V))
      → steady_from prev (map (λ p. unix p.time) ps) ≡ true
      → IsSorted (λ p. p.time) (map (stored v₀) ps)
  steady-IsSorted prev [] h = tt
  steady-IsSorted none (p ∷ ps) h = (
    steady-All (unix p.time) (unix p.time) ps (omega arith) h,
    steady-IsSorted (some (unix p.time)) ps h,
  )
  steady-IsSorted (some t) (p ∷ ps) h = (
    steady-All (unix p.time) (unix p.time) ps (omega arith) (ground arith),
    steady-IsSorted (some (unix p.time)) ps (ground arith),
  )

  -- Where the flag of a ring filled from new is set, its snapshot is in order of time.
  pub snapshot-IsSorted :
      (c : ℤ) (ps : List (Point V))
      → is_ordered (append_all v₀ ps (new_ring v₀ c)) ≡ true
      → IsSorted (λ p. p.time) (snapshot v₀ (append_all v₀ ps (new_ring v₀ c)))
  snapshot-IsSorted c ps h = rw (snapshot-append_all v₀ c ps) (
      IsSorted-drop (length (map (stored v₀) ps) - at_least_one c) (map (stored v₀) ps)
        (steady-IsSorted none ps (sym (is_ordered-append_all c ps) ∙ h)))

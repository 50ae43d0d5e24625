-- ===== src/History/Tiered.antt =====
-- router/internal/history/tiered.go: the choice of a tier for a query, and the way back to RAM.
-- The persistent store (SQL) and the RAM reader are arguments: what they answer is any points with
-- any error. The logger's `sync.Once` is the state.
pub mod Fallback
use openwrt_starwatch.Base.{
  ℕ, ◌+◌, ◌*◌, ◌≤◌, ◌≡◌, Bool, true, false, not, ◌&&◌, List, [], ◌∷◌, Option, none, some, String,
  if◌then◌else◌,
}
use openwrt_starwatch.Base.Int.{ℤ, pos, ltb_ℤ, leb_ℤ}
use openwrt_starwatch.History.{Point, second}

pub data Tier : Type 0 where
  ram minute quarter : Tier

abbrev pub is_ram : Tier → Bool
is_ram ram = true
is_ram minute = false
is_ram quarter = false

module _ (V E : Type 0) where
  -- What a tier returns: `([]Point, error)`.
  abbrev pub Answer : Type 0
  Answer = List (Point V) × Option E

  -- A span query's tier and answer, the lines logged, and whether `logOnce` has run.
  abbrev pub Reply : Type 0
  Reply = (Tier × Answer) × List E × Bool

  pub record Persistent : Type 0 where
    pub minute_retention : ℤ
    pub query_tier : String → Tier → ℕ → ℤ → Answer

  pub record Reader : Type 0 where
    pub ram_query : String → ℕ → ℤ → Answer
    pub persistent : Option Persistent
    pub ram_span : ℤ
    pub has_logger : Bool

-- `7 * 24 * time.Hour`
abbrev pub week : ℤ
week = pos (7 * 24 * 3600 * second)

module _ {V E : Type 0} where
  abbrev pub minute_span : Reader V E → ℤ
  minute_span r = elim (r.persistent) [ none ↦ week | some p ↦ p.minute_retention ]

  unfoldable pub choose_tier : Reader V E → ℤ → Tier
  choose_tier r span =
      if ltb_ℤ r.ram_span span && leb_ℤ span (minute_span r)
      then minute
      else if ltb_ℤ (minute_span r) span
      then quarter
      else ram

  -- `err == nil && len(points) > 0`
  abbrev pub is_useful : Answer V E → Bool
  is_useful ([], e) = false
  is_useful (p ∷ ps, none) = true
  is_useful (p ∷ ps, some e) = false

  abbrev pub is_failed : Answer V E → Bool
  is_failed (ps, none) = false
  is_failed (ps, some e) = true

  -- What `QuerySpan` makes of the persistent tier's answer.
  abbrev pub take_persistent : Bool → Bool → Tier → Answer V E → Tier × Answer V E → Reply V E
  take_persistent has_logger logged tier (ps, some e) from_ram =
      if has_logger && not logged then (from_ram, e ∷ [], true) else (from_ram, [], logged)
  take_persistent has_logger logged tier ([], none) from_ram = (from_ram, [], logged)
  take_persistent has_logger logged tier (p ∷ ps, none) from_ram =
      ((tier, (p ∷ ps, none)), [], logged)

  unfoldable pub query_span : Reader V E → String → ℕ → ℤ → ℤ → Bool → Reply V E
  query_span r series since span limit logged =
      let tier = choose_tier r span in
      let from_ram : Tier × Answer V E = (ram, r.ram_query series since limit) in
      elim (r.persistent) [
        | none ↦ (from_ram, [], logged)
        | some p ↦
            if is_ram tier
            then (from_ram, [], logged)
            else take_persistent r.has_logger logged tier (p.query_tier series tier since limit)
                from_ram
      ]

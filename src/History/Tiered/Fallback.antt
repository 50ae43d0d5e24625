-- ===== src/History/Tiered/Fallback.antt =====
-- When a query is answered from RAM, and how often the failure of the persistent tier is logged.
use openwrt_starwatch.Base.{
  Option, Option-cases, inl, inr, ℕ, ◌+◌, ◌≡◌, refl, Bool, true, false, not, ◌&&◌, ◌||◌, List, [],
  ◌∷◌, none, some, String, if◌then◌else◌, arith, length,
}
use openwrt_starwatch.Base.Int.{ℤ, ltb_ℤ, leb_ℤ}
use openwrt_starwatch.History.Tiered.{
  Tier, Answer, take_persistent, ram, minute, quarter, Persistent, Reader, minute_span, choose_tier,
  is_ram, is_useful, is_failed, query_span,
}

-- The parameters of one query.
pub record Request : Type 0 where
  pub series : String
  pub since : ℕ
  pub span : ℤ
  pub limit : ℤ

module _ {V E : Type 0} where
  -- The RAM tier is chosen for the spans that both it and the minute tier hold.
  pub choose_tier-ram :
      (r : Reader V E) (span : ℤ)
      → is_ram (choose_tier r span) ≡ (leb_ℤ span r.ram_span && leb_ℤ span (minute_span r))
  unfolding choose_tier
  choose_tier-ram r span = tests r.ram_span (minute_span r)
    where
      tests :
          (a b : ℤ)
          → is_ram (
              if ltb_ℤ a span && leb_ℤ span b
              then minute
              else if ltb_ℤ b span
              then quarter
              else ram)
            ≡ (leb_ℤ span a && leb_ℤ span b)
      tests a b = ground arith

  -- Whether the persistent tier is asked and fails.
  abbrev pub fails : Reader V E → String → ℕ → ℤ → ℤ → Bool
  fails r series since span limit = elim (r.persistent) [
    | none ↦ false
    | some p ↦
        not (is_ram (choose_tier r span))
        && is_failed (p.query_tier series (choose_tier r span) since limit)
  ]

  take_persistent-useful :
      (has_logger logged : Bool) (tier : Tier) (a : Answer V E) (from_ram : Tier × Answer V E)
      → (take_persistent has_logger logged tier a from_ram).0
        ≡ (if is_useful a then (tier, a) else from_ram)
  take_persistent-useful has_logger logged tier ([], none) from_ram = refl
  take_persistent-useful has_logger logged tier (p ∷ ps, none) from_ram = refl
  take_persistent-useful has_logger logged tier ([], some e) from_ram = ground arith
  take_persistent-useful has_logger logged tier (p ∷ ps, some e) from_ram = ground arith

  module _ (r : Reader V E) (series : String) (since : ℕ) (span limit : ℤ) (logged : Bool) where
    -- The answer of RAM, and that of a tier of the persistence, in whose place RAM's stands where
    -- it has no points or an error.
    abbrev pub by_ram : Tier × Answer V E
    by_ram = (ram, r.ram_query series since limit)

    abbrev pub by_tier : Persistent V E → Tier → Tier × Answer V E
    by_tier p tier =
        if is_useful (p.query_tier series tier since limit)
        then (tier, p.query_tier series tier since limit)
        else by_ram

    -- What a query for a span is answered, by the retentions of the tiers: the finest tier that
    -- holds the span, where a span beyond the minutes is the quarter hours' even if RAM holds it.
    abbrev pub answer_for : Option (Persistent V E) → Tier × Answer V E
    answer_for none = by_ram
    answer_for (some p) =
        if leb_ℤ span p.minute_retention
        then if leb_ℤ span r.ram_span then by_ram else by_tier p minute
        else by_tier p quarter

    -- A query is answered by RAM, its error included, where there is no persistence, or where both
    -- RAM and the minute tier hold the span. Beyond RAM it is answered by the minute tier, if that
    -- holds the span, and else by the quarter-hour tier, each under its own name; and by RAM where
    -- that tier returns an error or no points.
    pub query_span_lem : (query_span r series since span limit logged).0 ≡ answer_for r.persistent
    unfolding query_span choose_tier
    query_span_lem = elim (Option-cases r.persistent) [
      | inl e ↦ ground (arith, e)
      | inr (p, e) ↦ ground (
        arith,
        e,
        take_persistent-useful r.has_logger logged minute (p.query_tier series minute since limit)
            by_ram,
        take_persistent-useful r.has_logger logged quarter (p.query_tier series quarter since limit)
            by_ram,
      )
    ]

    query_span-lines :
        (length (query_span r series since span limit logged).1
          ≡ (if r.has_logger && not logged && fails r series since span limit then 1 else 0))
        × ((query_span r series since span limit logged).2
            ≡ (logged || (r.has_logger && fails r series since span limit)))
    unfolding query_span
    query_span-lines = ground arith

  -- The lines that a sequence of queries logs.
  pub lines : Reader V E → Bool → List Request → ℕ
  lines r logged [] = 0
  lines r logged (q ∷ qs) =
      length (query_span r q.series q.since q.span q.limit logged).1
      + lines r (query_span r q.series q.since q.span q.limit logged).2 qs

  abbrev pub any_fails : Reader V E → List Request → Bool
  any_fails r [] = false
  any_fails r (q ∷ qs) = fails r q.series q.since q.span q.limit || any_fails r qs

  lines_logged : (r : Reader V E) (qs : List Request) → lines r true qs ≡ 0
  unfolding lines
  lines_logged r [] = refl
  lines_logged r (q ∷ qs) =
      ground (arith, query_span-lines r q.series q.since q.span q.limit true, lines_logged r qs)

  -- A reader logs the failure of its persistent tier once over all its queries: one line if any of
  -- them met the failure and there is a logger, and none otherwise.
  pub lines_lem :
      (r : Reader V E) (qs : List Request)
      → lines r false qs ≡ (if r.has_logger && any_fails r qs then 1 else 0)
  unfolding lines
  lines_lem r [] = ground arith
  lines_lem r (q ∷ qs) = ground (
    arith,
    query_span-lines r q.series q.since q.span q.limit false,
    lines_lem r qs,
    lines_logged r qs,
  )

-- ===== src/Config/Rewrite/Output.antt =====
-- All lines that `RewriteUCI` writes have no line breaks.
use mathlib.Core.Path.{subst}
use openwrt_starwatch.Base.{
  refl, sym, Bool, true, false, List, [], ◌∷◌, ◌++◌, Option, none, some, if◌then◌else◌, arith,
  Bool-cases, Option-cases, inl, inr,
}
use openwrt_starwatch.Base.Effects.{All-append}
use openwrt_starwatch.Base.Maps.{nat_eq, contains}
use openwrt_starwatch.Base.Strings.{Text, text_eq, pair_eq, OneLine}
use openwrt_starwatch.Base.Text.{codes}
use openwrt_starwatch.Config.Uci.{OptionValue}
use openwrt_starwatch.Config.Rewrite.{
  id_eq, update_id, option_line, header_line, append_sections, pending, indent, Mark, enters, sets,
  plain, scan_line, flush, flush_missing, replacement, rewrite_lines,
}
use openwrt_starwatch.Config.Rewrite.Model.{Ids, All-pending, of-replacement}
use openwrt_starwatch.Config.Rewrite.Appended.{IsClean, AreClean}
use openwrt_starwatch.Config.Rewrite.Lines.{
  Lines, OneLine-option_line, OneLine-header_line, OneLine-indent,
}

Lines-flush : (us : List OptionValue) (applied : Ids) → AreClean us → Lines (flush us applied).0
unfolding flush
Lines-flush [] applied clean = tt
Lines-flush (u ∷ us) applied (c, clean) = elim (Bool-cases (contains applied (update_id u))) [
  | inl done ↦
      subst Lines {x = (flush us applied).0} (ground (arith, done)) (Lines-flush us applied clean)
  | inr missing ↦
      subst Lines {x = option_line (codes "\t") u ∷ (flush us (update_id u ∷ applied)).0}
        (ground (arith, missing))
        (
          OneLine-option_line (codes "\t") u (refl, tt) c,
          Lines-flush us (update_id u ∷ applied) clean,
        )
]

Lines-flush_missing :
    (us : List OptionValue) (current : Option (Text × Text)) (applied : Ids)
    → AreClean us
    → Lines (flush_missing us current applied).0
unfolding flush_missing
Lines-flush_missing us none applied clean = tt
Lines-flush_missing us (some key) applied clean =
    Lines-flush (pending key us) applied (All-pending IsClean key us clean)

pub Lines-rewrite_lines :
    (us : List OptionValue) (lines : List Text) (current : Option (Text × Text)) (applied : Ids)
    → AreClean us
    → Lines lines
    → Lines (rewrite_lines us lines current applied).0
unfolding rewrite_lines
Lines-rewrite_lines us [] current applied clean h = Lines-flush_missing us current applied clean
Lines-rewrite_lines us (raw ∷ lines) current applied clean (h, hs) =
    elim (scan_line raw) as (λ m. Lines (by_mark m).0) [
      | enters key ↦
          let missing = flush_missing us current applied in
          All-append OneLine missing.0 (raw ∷ (rewrite_lines us lines (some key) missing.1).0)
            (Lines-flush_missing us current applied clean)
            (h, Lines-rewrite_lines us lines (some key) missing.1 clean hs)
      | sets option ↦ elim (Option-cases (replacement us current option)) [
        | inl kept ↦
            subst (λ r. Lines (by_update r).0) {x = none} (sym kept)
              (h, Lines-rewrite_lines us lines current applied clean hs)
        | inr (u, found) ↦
            subst (λ r. Lines (by_update r).0) {x = some u} (sym found)
              (
                OneLine-option_line (indent raw) u (OneLine-indent raw h)
                    (of-replacement IsClean us current option u clean found),
                Lines-rewrite_lines us lines current (update_id u ∷ applied) clean hs,
              )
      ]
      | plain ↦ (h, Lines-rewrite_lines us lines current applied clean hs)
    ]
  where
    by_update : Option OptionValue → List Text × Ids
    by_update r = elim r as (λ x. List Text × Ids) [
      | none ↦ let (later, end) = rewrite_lines us lines current applied in (raw ∷ later, end)
      | some u ↦
          let (later, end) = rewrite_lines us lines current (update_id u ∷ applied) in
          (option_line (indent raw) u ∷ later, end)
    ]

    by_mark : Mark → List Text × Ids
    by_mark m = elim m as (λ x. List Text × Ids) [
      | enters key ↦
          let (missing, after) = flush_missing us current applied in
          let (later, end) = rewrite_lines us lines (some key) after in
          (missing ++ (raw ∷ later), end)
      | sets option ↦ by_update (replacement us current option)
      | plain ↦ let (later, end) = rewrite_lines us lines current applied in (raw ∷ later, end)
    ]

pub Lines-append_sections :
    (us : List OptionValue) (applied : Ids) (headers : List (Text × Text))
    → AreClean us
    → Lines (append_sections us applied headers)
unfolding append_sections
Lines-append_sections [] applied headers clean = tt
Lines-append_sections (u ∷ us) applied headers (c, clean) =
    elim (contains applied (update_id u)) as (λ b. Lines (if b then skipped else written)) [
      | true ↦ Lines-append_sections us applied headers clean
      | false ↦ All-append OneLine _ _ (header_lines (contains headers u.section)) (
        OneLine-option_line (codes "\t") u (refl, tt) c,
        Lines-append_sections us (update_id u ∷ applied) (u.section ∷ headers) clean,
      )
    ]
  where
    skipped : List Text
    skipped = append_sections us applied headers

    written : List Text
    written =
        (if contains headers u.section then [] else header_line u.section ∷ [])
        ++ (option_line (codes "\t") u
            ∷ append_sections us (update_id u ∷ applied) (u.section ∷ headers))

    header_lines : (b : Bool) → Lines (if b then [] else header_line u.section ∷ [])
    header_lines true = tt
    header_lines false = (OneLine-header_line u c, tt)

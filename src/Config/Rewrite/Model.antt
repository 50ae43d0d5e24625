-- ===== src/Config/Rewrite/Model.antt =====
-- `RewriteUCI` on what the lines are read as: the abstract rewriting that it refines.
use mathlib.Core.Path.{subst}
use openwrt_starwatch.Base.{
  ◌≡◌, refl, true, List, [], ◌∷◌, ◌++◌, map, Option, none, some, if◌then◌else◌, arith, Bool-cases,
  Option-cases, inl, inr,
}
use mathlib.Core.List.{map-append, append_assoc}
use openwrt_starwatch.Base.Effects.{All}
use openwrt_starwatch.Base.Maps.{nat_eq, ◌==◌, contains}
use openwrt_starwatch.Base.Strings.{Text, text_eq, pair_eq, trim, is_space}
use openwrt_starwatch.Base.Text.{codes}
use openwrt_starwatch.Config.Uci.{
  OptionValue, Line, blank, header, assign, item, incomplete, bare, other, read_line,
}
use openwrt_starwatch.Config.Uci.Reading.{IsWord, White}
use openwrt_starwatch.Config.Rewrite.{
  Mark, enters, sets, plain, scan_line, indent, id_eq, update_id, option_line, pending, first_for,
  flush, flush_missing, replacement, rewrite_lines,
}
use openwrt_starwatch.Config.Rewrite.Values.{
  read_line-option_line, value_in, is_plain, Fits, Fits-trimmed,
}

abbrev pub Ids : Type 0
Ids = List ((Text × Text) × Text)

abbrev pub assignment : OptionValue → Line
assignment u = assign u.option u.value

unfoldable pub flushed : List OptionValue → Ids → List Line × Ids
flushed [] applied = ([], applied)
flushed (u ∷ us) applied =
    let skipped = flushed us applied in
    let (lines, after) = flushed us (update_id u ∷ applied) in
    if contains applied (update_id u) then skipped else (assignment u ∷ lines, after)

abbrev pub flushed_missing : List OptionValue → Option (Text × Text) → Ids → List Line × Ids
flushed_missing us none applied = ([], applied)
flushed_missing us (some key) applied = flushed (pending key us) applied

abbrev pub and_then : List Line → List Line × Ids → List Line × Ids
and_then lines r = (lines ++ r.0, r.1)

unfoldable pub rewritten :
    List OptionValue → List Line → Option (Text × Text) → Ids → List Line × Ids
unfolding flushed
rewritten us [] current applied = flushed_missing us current applied
rewritten us (header key ∷ lines) current applied =
    let missing = flushed_missing us current applied in
    and_then (missing.0 ++ header key ∷ []) (rewritten us lines (some key) missing.1)
rewritten us (assign k v ∷ lines) current applied =
    let kept = rewritten us lines current applied in
    elim (replacement us current k) [
      | none ↦ and_then (assign k v ∷ []) kept
      | some u ↦ and_then (assignment u ∷ []) (rewritten us lines current (update_id u ∷ applied))
    ]
rewritten us (blank ∷ lines) current applied =
    and_then (blank ∷ []) (rewritten us lines current applied)
rewritten us (bare ∷ lines) current applied =
    and_then (bare ∷ []) (rewritten us lines current applied)
rewritten us (other ∷ lines) current applied =
    and_then (other ∷ []) (rewritten us lines current applied)
rewritten us (incomplete ∷ lines) current applied =
    and_then (incomplete ∷ []) (rewritten us lines current applied)
rewritten us (item k v ∷ lines) current applied =
    and_then (item k v ∷ []) (rewritten us lines current applied)

-- The options of the updates are words.
abbrev pub AreWords : List OptionValue → Type 0
AreWords us = All (λ u. IsWord u.option) us

abbrev pub read_all : List Text × Ids → List Line × Ids
read_all r = (map read_line r.0, r.1)

pub read_line-update :
    (white : Text) (u : OptionValue)
    → White white
    → IsWord u.option
    → read_line (option_line white u) ≡ assignment u
read_line-update white u h word = read_line-option_line white u.option u.value u.section h word

White-indent : (s : Text) → White (indent s)
unfolding indent
White-indent [] = tt
White-indent (c ∷ s) = elim (Bool-cases (is_space c)) [
  | inl space ↦ subst White {x = c ∷ indent s} (ground (arith, space)) (space, White-indent s)
  | inr solid ↦ subst White {x = []} (ground (arith, solid)) tt
]

pub White-tab : White (codes "\t")
unfolding is_space
White-tab = (refl, tt)

read_all-flush :
    (us : List OptionValue) (applied : Ids)
    → AreWords us
    → read_all (flush us applied) ≡ flushed us applied
unfolding flush flushed
read_all-flush [] applied words = refl
read_all-flush (u ∷ us) applied (word, words) = ground (
  arith,
  read_line-update (codes "\t") u White-tab word,
  read_all-flush us applied words,
  read_all-flush us (update_id u ∷ applied) words,
)

-- What holds for the updates holds for those that are taken from them.
module _ (P : OptionValue → Type 0) where
  pub All-pending : (key : Text × Text) (us : List OptionValue) → All P us → All P (pending key us)
  All-pending key [] h = tt
  All-pending key (u ∷ us) (h, hs) = elim (Bool-cases (u.section == key)) [
    | inl same ↦
        subst (All P) {x = u ∷ pending key us} (ground (arith, same)) (h, All-pending key us hs)
    | inr differs ↦
        subst (All P) {x = pending key us} (ground (arith, differs)) (All-pending key us hs)
  ]

  of-first_for :
      (option : Text) (us : List OptionValue) (u : OptionValue)
      → All P us
      → first_for option us ≡ some u
      → P u
  of-first_for option [] u hs e = cc
  of-first_for option (x ∷ us) u (h, hs) e = elim (Bool-cases (x.option == option)) [
    | inl same ↦ subst P {x = x} {y = u} (ground (arith, same, e)) h
    | inr differs ↦ of-first_for option us u hs (ground (arith, differs, e))
  ]

  pub of-replacement :
      (us : List OptionValue) (current : Option (Text × Text)) (option : Text) (u : OptionValue)
      → All P us
      → replacement us current option ≡ some u
      → P u
  unfolding replacement
  of-replacement us none option u hs e = cc
  of-replacement us (some key) option u hs e =
      of-first_for option (pending key us) u (All-pending key us hs) e

read_all-flush_missing :
    (us : List OptionValue) (current : Option (Text × Text)) (applied : Ids)
    → AreWords us
    → read_all (flush_missing us current applied) ≡ flushed_missing us current applied
unfolding flush_missing
read_all-flush_missing us none applied words = refl
read_all-flush_missing us (some key) applied words =
    read_all-flush (pending key us) applied (All-pending (λ u. IsWord u.option) key us words)

module _ (us : List OptionValue) (words : AreWords us) (raw : Text) (lines : List Text)
    (ih : (current : Option (Text × Text)) (applied : Ids)
      → read_all (rewrite_lines us lines current applied)
        ≡ rewritten us (map read_line lines) current applied) where
  step_enters :
      (current : Option (Text × Text)) (applied : Ids) (k : Text × Text)
      → scan_line raw ≡ enters k
      → read_line raw ≡ header k
      → read_all (rewrite_lines us (raw ∷ lines) current applied)
        ≡ rewritten us (read_line raw ∷ map read_line lines) current applied
  unfolding rewrite_lines rewritten
  step_enters current applied k e f =
      let missing = flush_missing us current applied in
      ground (
        arith,
        e,
        f,
        read_all-flush_missing us current applied words,
        ih (some k) missing.1,
        map-append read_line missing.0 (raw ∷ (rewrite_lines us lines (some k) missing.1).0),
        append_assoc (map read_line missing.0) (header k ∷ [])
            (map read_line (rewrite_lines us lines (some k) missing.1).0),
      )

  step_sets :
      (current : Option (Text × Text)) (applied : Ids) (o v : Text)
      → scan_line raw ≡ sets o
      → read_line raw ≡ assign o v
      → read_all (rewrite_lines us (raw ∷ lines) current applied)
        ≡ rewritten us (read_line raw ∷ map read_line lines) current applied
  unfolding rewrite_lines rewritten
  step_sets current applied o v e f = elim (Option-cases (replacement us current o)) [
    | inl kept ↦ ground (arith, e, f, kept, ih current applied)
    | inr (u, found) ↦ ground (
      arith,
      e,
      f,
      found,
      read_line-update (indent raw) u (White-indent raw)
          (of-replacement (λ u. IsWord u.option) us current o u words found),
      ih current (update_id u ∷ applied),
    )
  ]

  step_plain :
      (current : Option (Text × Text)) (applied : Ids) (l : Line)
      → scan_line raw ≡ plain
      → read_line raw ≡ l
      → is_plain l ≡ true
      → read_all (rewrite_lines us (raw ∷ lines) current applied)
        ≡ rewritten us (read_line raw ∷ map read_line lines) current applied
  unfolding rewrite_lines rewritten
  step_plain current applied l e f p = ground (arith, e, f, p, ih current applied)

  step_by_mark :
      (current : Option (Text × Text)) (applied : Ids) (m : Mark)
      → scan_line raw ≡ m
      → Fits m (read_line raw) (value_in raw)
      → read_all (rewrite_lines us (raw ∷ lines) current applied)
        ≡ rewritten us (read_line raw ∷ map read_line lines) current applied
  step_by_mark current applied (enters k) e fit = step_enters current applied k e (fit.0 refl)
  step_by_mark current applied (sets o) e fit =
      step_sets current applied o (value_in raw) e (fit.0 refl)
  step_by_mark current applied plain e fit =
      step_plain current applied (read_line raw) e refl (fit.1 refl)

-- What `ParseUCI` reads in the rewritten lines is the rewriting of what it read in the lines.
pub read_all-rewrite_lines :
    (us : List OptionValue) (lines : List Text) (current : Option (Text × Text)) (applied : Ids)
    → AreWords us
    → read_all (rewrite_lines us lines current applied)
      ≡ rewritten us (map read_line lines) current applied
unfolding rewrite_lines rewritten
read_all-rewrite_lines us [] current applied words = read_all-flush_missing us current applied words
read_all-rewrite_lines us (raw ∷ lines) current applied words =
    step_by_mark us words raw lines
      (λ current applied. read_all-rewrite_lines us lines current applied words) current applied
      (scan_line raw) refl (Fits-trimmed (trim raw) raw refl)

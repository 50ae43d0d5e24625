-- ===== src/Config/Rewrite/Sections.antt =====
-- The values of the options of a section, in a rewritten file that has the section.
use mathlib.Core.List.{append_assoc}
use openwrt_starwatch.Base.{
  ◌≡◌, refl, sym, ap, ◌∙◌, Bool, true, false, not, ◌||◌, List, [], ◌∷◌, ◌++◌, Option, none, some,
  arith, Bool-cases, Option-cases, inl, inr,
}
use openwrt_starwatch.Base.Maps.{nat_eq, ◌==◌, contains}
use openwrt_starwatch.Base.Strings.{Text, text_eq, pair_eq}
use openwrt_starwatch.Config.Uci.{
  OptionValue, Line, blank, header, assign, item, incomplete, bare, other,
}
use openwrt_starwatch.Config.Rewrite.{id_eq, update_id, pending, first_for, replacement}
use openwrt_starwatch.Config.Rewrite.Lookup.{in_section, value_of}
use openwrt_starwatch.Config.Rewrite.Model.{
  Ids, assignment, flushed, flushed_missing, and_then, rewritten,
}
use openwrt_starwatch.Config.Rewrite.Update.{updated, In, In-pending, stops, target, in_rewritten}

-- The section that an operation is in is not this one.
abbrev pub elsewhere : Text × Text → Option (Text × Text) → Bool
elsewhere key none = true
elsewhere key (some k) = not (k == key)

abbrev pub has_header : Text × Text → List Line → Bool
has_header key [] = false
has_header key (header k ∷ lines) = k == key || has_header key lines
has_header key (assign k v ∷ lines) = has_header key lines
has_header key (blank ∷ lines) = has_header key lines
has_header key (item k v ∷ lines) = has_header key lines
has_header key (incomplete ∷ lines) = has_header key lines
has_header key (bare ∷ lines) = has_header key lines
has_header key (other ∷ lines) = has_header key lines

section_of-first_for :
    (k : Text × Text) (o : Text) (vs : List OptionValue) (u : OptionValue)
    → In k vs
    → first_for o vs ≡ some u
    → u.section ≡ k
section_of-first_for k o [] u same h = cc
section_of-first_for k o (v ∷ vs) u (here, same) h =
    ground (arith, here, h, section_of-first_for k o vs u same)

module _ (key : Text × Text) (option : Text) where
  value_of-flushed :
      (us : List OptionValue) (applied : Ids) (rest : List Line)
      → value_of key option ((flushed us applied).0 ++ rest) ≡ value_of key option rest
  unfolding flushed value_of
  value_of-flushed [] applied rest = refl
  value_of-flushed (u ∷ us) applied rest =
      ground
        (arith, value_of-flushed us applied rest, value_of-flushed us (update_id u ∷ applied) rest)

  contains-flushed :
      (k : Text × Text) (us : List OptionValue) (applied : Ids)
      → In k us
      → (k == key) ≡ false
      → contains applied (key, option) ≡ false
      → contains (flushed us applied).1 (key, option) ≡ false
  unfolding flushed contains
  contains-flushed k [] applied same n h = h
  contains-flushed k (u ∷ us) applied (here, same) n h = ground (
    arith,
    here,
    n,
    h,
    id_eq.test_iff (update_id u) (key, option),
    contains-flushed k us applied same n h,
    contains-flushed k us (update_id u ∷ applied) same n,
  )

  not_applied :
      (us : List OptionValue) (current : Option (Text × Text)) (applied : Ids)
      → elsewhere key current ≡ true
      → contains applied (key, option) ≡ false
      → contains (flushed_missing us current applied).1 (key, option) ≡ false
  not_applied us none applied away h = h
  not_applied us (some k) applied away h =
      contains-flushed k (pending k us) applied (In-pending k option us) (ground (arith, away)) h

  value_of-missing :
      (us : List OptionValue) (current : Option (Text × Text)) (applied : Ids) (rest : List Line)
      → value_of key option ((flushed_missing us current applied).0 ++ rest)
        ≡ value_of key option rest
  value_of-missing us none applied rest = refl
  value_of-missing us (some k) applied rest = value_of-flushed (pending k us) applied rest

  replaced_elsewhere :
      (us : List OptionValue) (current : Option (Text × Text)) (o : Text) (u : OptionValue)
      (applied : Ids)
      → replacement us current o ≡ some u
      → elsewhere key current ≡ true
      → contains applied (key, option) ≡ false
      → contains (update_id u ∷ applied) (key, option) ≡ false
  unfolding replacement contains
  replaced_elsewhere us none o u applied found away h = cc
  replaced_elsewhere us (some k) o u applied found away h = ground (
    arith,
    away,
    h,
    section_of-first_for k o (pending k us) u (In-pending k option us) found,
    id_eq.test_iff (update_id u) (key, option),
  )

  at_header :
      (k : Text × Text) (lines : List Line)
      → (k == key) ≡ true
      → value_of key option (header k ∷ lines) ≡ in_section option none lines
  unfolding value_of
  at_header k lines same = ground (arith, same)

  past_header :
      (k : Text × Text) (lines : List Line)
      → (k == key) ≡ false
      → value_of key option (header k ∷ lines) ≡ value_of key option lines
  unfolding value_of
  past_header k lines differs = ground (arith, differs)

  module _ (us : List OptionValue) where
    -- Before the first section with the key.
    pub value_of-rewritten :
        (lines : List Line) (current : Option (Text × Text)) (applied : Ids) (rest : List Line)
        → elsewhere key current ≡ true
        → contains applied (key, option) ≡ false
        → has_header key lines ≡ true
        → stops rest ≡ true
        → value_of key option ((rewritten us lines current applied).0 ++ rest)
          ≡ updated (target key option us) (value_of key option lines)
    unfolding rewritten value_of
    value_of-rewritten [] current applied rest away h has s = cc
    value_of-rewritten (header k ∷ lines) current applied rest away h has s =
        let missing = flushed_missing us current applied in
        let later = (rewritten us lines (some k) missing.1).0 in
        ap (value_of key option) (
          append_assoc (missing.0 ++ header k ∷ []) later rest
          ∙ append_assoc missing.0 (header k ∷ []) (later ++ rest))
        ∙ value_of-missing us current applied (header k ∷ (later ++ rest))
        ∙ elim (Bool-cases (k == key)) [
          | inl same ↦
              at_header k (later ++ rest) same
              ∙ ap (λ x. in_section option none ((rewritten us lines (some x) missing.1).0 ++ rest))
                  ((pair_eq.test_iff k key).0 same)
              ∙ in_rewritten key option us lines missing.1 none rest
                  (λ u e c. absurd (ground (arith, c, not_applied us current applied away h))) s
              ∙ ap (updated (target key option us)) (sym (at_header k lines same))
          | inr differs ↦
              past_header k (later ++ rest) differs
              ∙ value_of-rewritten lines (some k) missing.1 rest (ground (arith, differs))
                  (not_applied us current applied away h) (ground (arith, has, differs)) s
              ∙ ap (updated (target key option us)) (sym (past_header k lines differs))
        ]
    value_of-rewritten (assign k v ∷ lines) current applied rest away h has s =
        elim (Option-cases (replacement us current k)) [
          | inl kept ↦
              ap (λ r. value_of key option (by_replacement r ++ rest)) kept
              ∙ value_of-rewritten lines current applied rest away h has s
          | inr (u, found) ↦
              ap (λ r. value_of key option (by_replacement r ++ rest)) found
              ∙ value_of-rewritten lines current (update_id u ∷ applied) rest away
                  (replaced_elsewhere us current k u applied found away h) has s
        ]
      where
        by_replacement : Option OptionValue → List Line
        by_replacement r =
            (elim r as (λ x. List Line × Ids) [
              | none ↦ and_then (assign k v ∷ []) (rewritten us lines current applied)
              | some u ↦
                  and_then (assignment u ∷ []) (rewritten us lines current (update_id u ∷ applied))
            ]).0
    value_of-rewritten (blank ∷ lines) current applied rest away h has s =
        value_of-rewritten lines current applied rest away h has s
    value_of-rewritten (item k v ∷ lines) current applied rest away h has s =
        value_of-rewritten lines current applied rest away h has s
    value_of-rewritten (incomplete ∷ lines) current applied rest away h has s =
        value_of-rewritten lines current applied rest away h has s
    value_of-rewritten (bare ∷ lines) current applied rest away h has s =
        value_of-rewritten lines current applied rest away h has s
    value_of-rewritten (other ∷ lines) current applied rest away h has s =
        value_of-rewritten lines current applied rest away h has s

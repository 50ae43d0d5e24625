-- ===== src/Config/Rewrite/Update.antt =====
-- The values of the options in a rewritten file.
use mathlib.Core.Path.{subst}
use mathlib.Core.List.{append_assoc}
use openwrt_starwatch.Base.{
  ◌≡◌, refl, ap, ◌∙◌, Bool, true, false, List, [], ◌∷◌, ◌++◌, Option, none, some, if◌then◌else◌,
  arith, Bool-cases, Option-cases, inl, inr,
}
use openwrt_starwatch.Base.Effects.{All}
use openwrt_starwatch.Base.Maps.{nat_eq, ◌==◌, contains}
use openwrt_starwatch.Base.Strings.{Text, text_eq, pair_eq}
use openwrt_starwatch.Config.Uci.{
  OptionValue, Line, blank, header, assign, item, incomplete, bare, other,
}
use openwrt_starwatch.Config.Rewrite.{id_eq, update_id, pending, first_for, replacement}
use openwrt_starwatch.Config.Rewrite.Lookup.{in_section}
use openwrt_starwatch.Config.Rewrite.Model.{Ids, assignment, flushed, and_then, rewritten}

-- The value of an update, or else what the option has.
abbrev pub updated : Option OptionValue → Option Text → Option Text
updated none value = value
updated (some u) value = some u.value

-- All updates are of one section.
abbrev pub In : Text × Text → List OptionValue → Type 0
In key us = All (λ u. u.section ≡ key) us

-- Lines that begin with a header, or none, leave a value alone.
abbrev pub stops : List Line → Bool
stops [] = true
stops (header k ∷ lines) = true
stops (assign k v ∷ lines) = false
stops (blank ∷ lines) = false
stops (item k v ∷ lines) = false
stops (incomplete ∷ lines) = false
stops (bare ∷ lines) = false
stops (other ∷ lines) = false

module _ (key : Text × Text) (option : Text) where
  -- An option that is applied has the value that it had before the flush.
  flush_applied :
      (us : List OptionValue) (applied : Ids) (value : Option Text) (rest : List Line)
      → In key us
      → contains applied (key, option) ≡ true
      → in_section option value ((flushed us applied).0 ++ rest) ≡ in_section option value rest
  unfolding flushed in_section contains
  flush_applied [] applied value rest same h = refl
  flush_applied (u ∷ us) applied value rest (here, same) h = ground (
    arith,
    here,
    h,
    text_eq.test_iff u.option option,
    id_eq.test_iff (update_id u) (key, option),
    flush_applied us applied value rest same h,
    flush_applied us (update_id u ∷ applied) value rest same,
  )

  flush_missing_option :
      (us : List OptionValue) (applied : Ids) (value : Option Text) (rest : List Line)
      → In key us
      → contains applied (key, option) ≡ false
      → in_section option value ((flushed us applied).0 ++ rest)
        ≡ in_section option (updated (first_for option us) value) rest
  unfolding flushed in_section contains
  flush_missing_option [] applied value rest same h = refl
  flush_missing_option (u ∷ us) applied value rest (here, same) h = ground (
    arith,
    here,
    h,
    text_eq.test_iff u.option option,
    id_eq.test_iff (update_id u) (key, option),
    flush_missing_option us applied value rest same h,
    flush_missing_option us (update_id u ∷ applied) value rest same,
    flush_applied us (update_id u ∷ applied) (some u.value) rest same,
  )

  in_section-stops :
      (rest : List Line) (value : Option Text)
      → stops rest ≡ true
      → in_section option value rest ≡ value
  unfolding in_section
  in_section-stops [] value h = refl
  in_section-stops (header k ∷ rest) value h = refl
  in_section-stops (assign k v ∷ rest) value h = cc
  in_section-stops (blank ∷ rest) value h = cc
  in_section-stops (item k v ∷ rest) value h = cc
  in_section-stops (incomplete ∷ rest) value h = cc
  in_section-stops (bare ∷ rest) value h = cc
  in_section-stops (other ∷ rest) value h = cc

  pub In-pending : (us : List OptionValue) → In key (pending key us)
  In-pending [] = tt
  In-pending (u ∷ us) = elim (Bool-cases (u.section == key)) [
    | inl same ↦
        subst (In key) {x = u ∷ pending key us} (ground (arith, same))
          ((pair_eq.test_iff u.section key).0 same, In-pending us)
    | inr differs ↦ subst (In key) {x = pending key us} (ground (arith, differs)) (In-pending us)
  ]

  module _ (us : List OptionValue) where
    abbrev pub target : Option OptionValue
    target = first_for option (pending key us)

    -- The updated value is not lost once it is written.
    abbrev pub Written : Ids → Option Text → Type 0
    Written applied value =
        (u : OptionValue)
        → target ≡ some u
        → contains applied (key, option) ≡ true
        → value ≡ some u.value

    written_updated :
        (t : Option OptionValue) (value : Option Text)
        → ((u : OptionValue) → t ≡ some u → value ≡ some u.value)
        → value ≡ updated t value
    written_updated none value h = refl
    written_updated (some u) value h = h u refl

    updated_same :
        (t : Option OptionValue) (a b : Option Text)
        → (t ≡ none → a ≡ b)
        → updated t a ≡ updated t b
    updated_same none a b h = h refl
    updated_same (some u) a b h = refl

    in_flushed :
        (applied : Ids) (value : Option Text) (rest : List Line)
        → Written applied value
        → stops rest ≡ true
        → in_section option value ((flushed (pending key us) applied).0 ++ rest)
          ≡ updated target value
    in_flushed applied value rest written h = elim (Bool-cases (contains applied (key, option))) [
      | inl done ↦
          flush_applied (pending key us) applied value rest (In-pending us) done
          ∙ in_section-stops rest value h
          ∙ written_updated target value (λ u e. written u e done)
      | inr missing ↦
          flush_missing_option (pending key us) applied value rest (In-pending us) missing
          ∙ in_section-stops rest (updated target value) h
    ]

    first_for-option :
        (o : Text) (vs : List OptionValue) (u : OptionValue)
        → first_for o vs ≡ some u
        → u.option ≡ o
    first_for-option o [] u h = cc
    first_for-option o (v ∷ vs) u h =
        ground (arith, text_eq.test_iff v.option o, first_for-option o vs u)

    still_written :
        (k : Text) (applied : Ids) (value : Option Text) (u t : OptionValue)
        → replacement us (some key) k ≡ some u
        → target ≡ some t
        → (contains applied (key, option) ≡ true → value ≡ some t.value)
        → contains (update_id u ∷ applied) (key, option) ≡ true
        → (if u.option == option then some u.value else value) ≡ some t.value
    unfolding contains replacement
    still_written k applied value u t found e written c = ground (
      arith,
      found,
      e,
      c,
      written,
      first_for-option k (pending key us) u found,
      text_eq.test_iff u.option option,
      id_eq.test_iff (update_id u) (key, option),
      λ (same : k ≡ option). ap (λ o. first_for o (pending key us)) same,
    )

    other_option :
        (k v : Text) (value : Option Text) (u : OptionValue)
        → replacement us (some key) k ≡ some u
        → target ≡ none
        → (if u.option == option then some u.value else value)
          ≡ (if k == option then some v else value)
    unfolding replacement
    other_option k v value u found e = ground (
      arith,
      found,
      e,
      first_for-option k (pending key us) u found,
      text_eq.test_iff u.option option,
      text_eq.test_iff k option,
      λ (same : k ≡ option). ap (λ o. first_for o (pending key us)) same,
    )

    -- In the section itself, from its header on.
    pub in_rewritten :
        (lines : List Line) (applied : Ids) (value : Option Text) (rest : List Line)
        → Written applied value
        → stops rest ≡ true
        → in_section option value ((rewritten us lines (some key) applied).0 ++ rest)
          ≡ updated target (in_section option value lines)
    unfolding rewritten in_section
    in_rewritten [] applied value rest written h = in_flushed applied value rest written h
    in_rewritten (header k ∷ lines) applied value rest written h =
        let missing = flushed (pending key us) applied in
        let later = (rewritten us lines (some k) missing.1).0 in
        ap (in_section option value) (
          append_assoc (missing.0 ++ header k ∷ []) later rest
          ∙ append_assoc missing.0 (header k ∷ []) (later ++ rest))
        ∙ in_flushed applied value (header k ∷ (later ++ rest)) written refl
    in_rewritten (assign k v ∷ lines) applied value rest written h =
        elim (Option-cases (replacement us (some key) k)) [
          | inl kept ↦
              ap (λ r. in_section option value (elim_kept r ++ rest)) kept
              ∙ in_rewritten lines applied (if k == option then some v else value) rest
                  (λ u e c.
                    unfold replacement in
                    ground (arith, kept, e, written u e c, text_eq.test_iff k option))
                  h
          | inr (u, found) ↦
              ap (λ r. in_section option value (elim_kept r ++ rest)) found
              ∙ in_rewritten lines (update_id u ∷ applied)
                  (if u.option == option then some u.value else value) rest
                  (λ t e c. still_written k applied value u t found e (λ d. written t e d) c) h
              ∙ updated_same target
                  (in_section option (if u.option == option then some u.value else value) lines)
                  (in_section option (if k == option then some v else value) lines)
                  (λ e. ap (λ o. in_section option o lines) (other_option k v value u found e))
        ]
      where
        elim_kept : Option OptionValue → List Line
        elim_kept r =
            (elim r as (λ x. List Line × Ids) [
              | none ↦ and_then (assign k v ∷ []) (rewritten us lines (some key) applied)
              | some u ↦
                  and_then (assignment u ∷ [])
                    (rewritten us lines (some key) (update_id u ∷ applied))
            ]).0
    in_rewritten (blank ∷ lines) applied value rest written h =
        in_rewritten lines applied value rest written h
    in_rewritten (item k v ∷ lines) applied value rest written h =
        in_rewritten lines applied value rest written h
    in_rewritten (incomplete ∷ lines) applied value rest written h =
        in_rewritten lines applied value rest written h
    in_rewritten (bare ∷ lines) applied value rest written h =
        in_rewritten lines applied value rest written h
    in_rewritten (other ∷ lines) applied value rest written h =
        in_rewritten lines applied value rest written h

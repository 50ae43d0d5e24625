-- ===== src/Config/Apply/Steps/Rules.antt =====
-- What the patches of the rules write to the file.
use mathlib.Core.Path.{subst}
use openwrt_starwatch.Base.{
  ◌≡◌, refl, sym, true, false, List, [], ◌∷◌, ◌++◌, Option, none, some, arith, Option-cases, inl,
  inr,
}
use openwrt_starwatch.Base.Int.{ℤ}
use openwrt_starwatch.Base.Effects.{All, All-append}
use openwrt_starwatch.Base.Maps.{lookup, nat_eq}
use openwrt_starwatch.Base.Strings.{Text, text_eq, is_space, OneLine}
use openwrt_starwatch.Base.Text.{codes}
use openwrt_starwatch.Config.Uci.{OptionValue, is_empty}
use openwrt_starwatch.Config.Uci.Reading.{is_word_char}
use openwrt_starwatch.Config.Rewrite.Appended.{IsClean, AreClean}
use openwrt_starwatch.Config.Settings.{Numbers, AlertRuleConfig, Config, RuleUpdate}
use openwrt_starwatch.Config.Change.{
  Outcome, refused, done, unknown_rule, run_steps, check_hold, option_value, alerts_section,
}
use openwrt_starwatch.Config.Apply.{patch_rule, rule_patches, rule_steps, stored, check_threshold}
use openwrt_starwatch.Config.Apply.Steps.{
  Holds, Preserves, set_field-Preserves, run_steps-Preserves,
}
use openwrt_starwatch.Config.Apply.Steps.Clean.{
  WordChars, WordChars-of, word, print_bool-OneLine, WordChars-threshold_option,
  WordChars-hold_option,
}
use openwrt_starwatch.Config.Apply.Steps.Values.{
  PrintsLines, WordNames, WordNames-lookup, WordNames-insert, clean_value, fixed-IsWord,
}

abbrev pub Fine : (num : Numbers) → Config num × List OptionValue → Type 0
Fine num st = AreClean st.1 × WordNames st.0.alerts.rules

module _ (num : Numbers) (prints : PrintsLines num) where
  open prints use {int_line, float_line}

  abbrev CleanChanges : AlertRuleConfig num × List OptionValue → Type 0
  CleanChanges st = AreClean st.1

  -- Options of rules, once it is checked that there is one.
  clean_option :
      (option value : Text)
      → is_empty option ≡ false
      → WordChars option
      → OneLine value
      → AreClean (option_value alerts_section option value)
  unfolding is_space
  clean_option option value e w v =
      clean_value alerts_section option value (fixed-IsWord (codes "alerts") refl refl) tt
        (word option e w) v

  checked_hold :
      (name option field : Text) (v : ℤ)
      → check_hold name option field v ≡ none
      → is_empty option ≡ false
  checked_hold name option field v h = ground (arith, h)

  checked_threshold :
      (name option field : Text) (v : num.floats.F)
      → check_threshold num name option field v ≡ none
      → is_empty option ≡ false
  checked_threshold name option field v h = ground (arith, h)

  suffix_nonempty : (name : Text) → is_empty (name ++ codes "_enabled") ≡ false
  suffix_nonempty [] = refl
  suffix_nonempty (c ∷ name) = refl

  rule_Clean :
      (name : Text) (u : RuleUpdate num) (w : WordChars name)
      → Preserves CleanChanges (run_steps (rule_steps num name u))
  unfolding is_space
  rule_Clean name u w = run_steps-Preserves CleanChanges (rule_steps num name u) (
    set_field-Preserves CleanChanges u.enabled _ _ _ (λ v s l e c q. All-append IsClean l _ q (
        clean_option (name ++ codes "_enabled") _ (suffix_nonempty name)
          (All-append (λ c. is_word_char c ≡ true) name _ w (WordChars-of (codes "_enabled") refl))
          (print_bool-OneLine v))),
    (
      set_field-Preserves CleanChanges u.threshold _ _ _ (λ v s l e c q. All-append IsClean l _ q (
          clean_option _ _ (checked_threshold name _ _ v c) (WordChars-threshold_option name false)
            (float_line _))),
      (
        set_field-Preserves CleanChanges u.threshold2 _ _ _ (λ v s l e c q.
            All-append IsClean l _ q (
              clean_option _ _ (checked_threshold name _ _ v c)
                (WordChars-threshold_option name true) (float_line _))),
        (
          set_field-Preserves CleanChanges u.hold_seconds _ _ _ (λ v s l e c q.
              All-append IsClean l _ q (
                clean_option _ _ (checked_hold name _ _ v c) (WordChars-hold_option name false)
                  (int_line _))),
          (
            set_field-Preserves CleanChanges u.clear_seconds _ _ _ (λ v s l e c q.
                All-append IsClean l _ q (
                  clean_option _ _ (checked_hold name _ _ v c) (WordChars-hold_option name true)
                    (int_line _))),
            tt,
          ),
        ),
      ),
    ),
  )

  patch_Fine : (patch : Text × RuleUpdate num) → Preserves (Fine num) (patch_rule num patch)
  unfolding patch_rule
  patch_Fine (name, u) (cfg, changes) p = elim (Option-cases (lookup name cfg.alerts.rules)) [
    | inl missing ↦ subst (λ r. Holds (Fine num) (by_rule r)) {x = none} (sym missing) tt
    | inr (rule, found) ↦
        let w = WordNames-lookup name rule cfg.alerts.rules found p.1 in
        subst (λ r. Holds (Fine num) (by_rule r)) {x = some rule} (sym found)
          (by_outcome rule w (run_steps (rule_steps num name u) (rule, changes))
            (rule_Clean name u w (rule, changes) p.0))
  ]
    where
      by_rule : Option (AlertRuleConfig num) → Outcome (Config num)
      by_rule r = elim r as (λ x. Outcome (Config num)) [
        | none ↦ refused (unknown_rule name)
        | some rule ↦ stored num name cfg (run_steps (rule_steps num name u) (rule, changes))
      ]

      by_outcome :
          (rule : AlertRuleConfig num)
          → WordChars name
          → (o : Outcome (AlertRuleConfig num)) → Holds CleanChanges o
          → Holds (Fine num) (stored num name cfg o)
      by_outcome rule w (refused e) h = tt
      by_outcome rule w (done (new, c)) h = (h, WordNames-insert name new cfg.alerts.rules w p.1)

  pub patches_Fine :
      (patches : List (Text × RuleUpdate num))
      → All (Preserves (Fine num)) (rule_patches num patches)
  patches_Fine [] = tt
  patches_Fine (patch ∷ patches) = (patch_Fine patch, patches_Fine patches)

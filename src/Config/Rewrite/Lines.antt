-- ===== src/Config/Rewrite/Lines.antt =====
-- Lines that are joined are split again as they were, and each line that is written is one line.
use mathlib.Core.Path.{subst}
use openwrt_starwatch.Base.{
  ℕ, ◌≡◌, refl, ap, ◌∙◌, true, false, List, [], ◌∷◌, ◌++◌, if◌then◌else◌, arith, Bool-cases, inl,
  inr,
}
use openwrt_starwatch.Base.Effects.{All, All-append}
use openwrt_starwatch.Base.Maps.{nat_eq, ◌==◌}
use openwrt_starwatch.Base.Strings.{
  Text, text_eq, pair_eq, is_space, OneLine, onto_first, split_lines, join_lines,
}
use openwrt_starwatch.Base.Text.{codes}
use openwrt_starwatch.Config.Uci.{OptionValue, quote_uci, quote_mark, is_empty, escaped_mark}
use openwrt_starwatch.Config.Uci.Reading.{is_word_char}
use openwrt_starwatch.Config.Rewrite.{id_eq, option_line, header_line, indent}
use openwrt_starwatch.Config.Rewrite.Appended.{IsClean}

abbrev pub Lines : List Text → Type 0
Lines lines = All OneLine lines

pub split_lines-line : (s : Text) → OneLine s → split_lines s ≡ s ∷ []
unfolding split_lines
split_lines-line [] h = refl
split_lines-line (c ∷ s) (h, hs) = ground (arith, h, split_lines-line s hs)

split_lines-append :
    (s rest : Text) → OneLine s → split_lines (s ++ (b'\n' ∷ rest)) ≡ s ∷ split_lines rest
unfolding split_lines
split_lines-append [] rest h = refl
split_lines-append (c ∷ s) rest (h, hs) = ground (arith, h, split_lines-append s rest hs)

-- Lines that are joined are split again.
pub split_lines-join_lines :
    (line : Text) (lines : List Text)
    → Lines (line ∷ lines)
    → split_lines (join_lines (line ∷ lines)) ≡ line ∷ lines
unfolding join_lines
split_lines-join_lines line [] (h, hs) = split_lines-line line h
split_lines-join_lines line (next ∷ lines) (h, hs) =
    split_lines-append line (join_lines (next ∷ lines)) h
    ∙ ap (λ l. line ∷ l) (split_lines-join_lines next lines hs)

Lines-onto_first :
    (c : ℕ) (lines : List Text) → (c == b'\n') ≡ false → Lines lines → Lines (onto_first c lines)
Lines-onto_first c [] h hs = ((h, tt), tt)
Lines-onto_first c (line ∷ lines) h (k, ks) = ((h, k), ks)

pub Lines-split_lines : (s : Text) → Lines (split_lines s)
unfolding split_lines
Lines-split_lines [] = (tt, tt)
Lines-split_lines (c ∷ s) = elim (Bool-cases (c == b'\n')) [
  | inl break ↦
      subst Lines {x = [] ∷ split_lines s} (ground (arith, break)) (tt, Lines-split_lines s)
  | inr char ↦
      subst Lines {x = onto_first c (split_lines s)} (ground (arith, char))
        (Lines-onto_first c (split_lines s) char (Lines-split_lines s))
]

OneLine-quote_uci : (s : Text) → OneLine s → OneLine (quote_uci s)
unfolding quote_uci
OneLine-quote_uci [] h = tt
OneLine-quote_uci (c ∷ s) (h, hs) = elim (Bool-cases (c == quote_mark)) [
  | inl mark ↦
      subst OneLine {x = escaped_mark ++ quote_uci s} (ground (arith, mark))
        (refl, (refl, (refl, (refl, OneLine-quote_uci s hs))))
  | inr char ↦
      subst OneLine {x = c ∷ quote_uci s} (ground (arith, char)) (h, OneLine-quote_uci s hs)
]

break_is_space : is_space b'\n' ≡ true
unfolding is_space
break_is_space = refl

not_break : (c : ℕ) → is_space c ≡ false → (c == b'\n') ≡ false
not_break c h = elim (Bool-cases (c == b'\n')) [
  | inl same ↦
      absurd (ground (arith, h, break_is_space, ap is_space ((nat_eq.test_iff c b'\n').0 same)))
  | inr differs ↦ differs
]

OneLine-word : (s : Text) → All (λ c. is_word_char c ≡ true) s → OneLine s
OneLine-word [] h = tt
OneLine-word (c ∷ s) (h, hs) = (not_break c (ground (arith, h)), OneLine-word s hs)

pub OneLine-indent : (s : Text) → OneLine s → OneLine (indent s)
unfolding indent
OneLine-indent [] h = tt
OneLine-indent (c ∷ s) (h, hs) = elim (Bool-cases (is_space c)) [
  | inl space ↦ subst OneLine {x = c ∷ indent s} (ground (arith, space)) (h, OneLine-indent s hs)
  | inr solid ↦ subst OneLine {x = []} (ground (arith, solid)) tt
]

pub OneLine-append : (s t : Text) → OneLine s → OneLine t → OneLine (s ++ t)
OneLine-append s t h k = All-append (λ c. (c == b'\n') ≡ false) s t h k

pub OneLine-option_line :
    (white : Text) (u : OptionValue) → OneLine white → IsClean u → OneLine (option_line white u)
OneLine-option_line white u h c = OneLine-append white _ h (
  refl,
  (
    refl,
    (
      refl,
      (
        refl,
        (
          refl,
          (
            refl,
            (
              refl,
              OneLine-append u.option _ (OneLine-word u.option c.option_word.1) (
                refl,
                (
                  refl,
                  OneLine-append (quote_uci u.value) _ (OneLine-quote_uci u.value c.value_line)
                      (refl, tt),
                ),
              ),
            ),
          ),
        ),
      ),
    ),
  ),
)

pub OneLine-header_line : (u : OptionValue) → IsClean u → OneLine (header_line u.section)
OneLine-header_line u c = (
  refl,
  (
    refl,
    (
      refl,
      (
        refl,
        (
          refl,
          (
            refl,
            (
              refl,
              OneLine-append u.section.0 _ (OneLine-word u.section.0 c.section_word.1)
                  (name u.section.1 c.name_line),
            ),
          ),
        ),
      ),
    ),
  ),
)
  where
    name :
        (n : Text)
        → OneLine n
        → OneLine (if is_empty n then [] else codes " '" ++ (quote_uci n ++ codes "'"))
    name [] h = tt
    name (d ∷ n) h = (
      refl,
      (refl, OneLine-append (quote_uci (d ∷ n)) _ (OneLine-quote_uci (d ∷ n) h) (refl, tt)),
    )

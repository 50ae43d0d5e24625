-- ===== src/Config/Rewrite/Appended.antt =====
-- The lines that `RewriteUCI` appends for new sections, as they are read.
use mathlib.Core.List.{append_assoc, append-nil}
use openwrt_starwatch.Base.{
  ℕ, ◌≡◌, refl, sym, ap, ◌∙◌, Bool, true, false, List, [], ◌∷◌, ◌++◌, map, arith,
}
use openwrt_starwatch.Base.Effects.{All}
use openwrt_starwatch.Base.Maps.{nat_eq, contains}
use openwrt_starwatch.Base.Strings.{
  Text, text_eq, pair_eq, is_space, trim_left, trim_right, trim, cut_space, OneLine,
}
use openwrt_starwatch.Base.Text.{codes}
use openwrt_starwatch.Config.Uci.{
  OptionValue, header, read_line, split_first, quote_uci, quote_mark,
}
use openwrt_starwatch.Config.Uci.Quoting.{unquote-quote_uci}
use openwrt_starwatch.Config.Uci.Reading.{
  IsWord, Solid, Solid-of_word, trim_left-White, trim_right-Solid, split_first-Solid, unquote_word,
}
use openwrt_starwatch.Config.Rewrite.{id_eq, update_id, header_line, append_sections}
use openwrt_starwatch.Config.Rewrite.Model.{Ids, read_line-update, White-tab}
use openwrt_starwatch.Config.Rewrite.Update.{stops}
use openwrt_starwatch.Config.Rewrite.Success.{accepts}

trim_right-end : (s t : Text) (c : ℕ) → Solid (c ∷ t) → trim_right (s ++ (c ∷ t)) ≡ s ++ (c ∷ t)
trim_right-end s [] c h = trim_right-Solid s c h.0
trim_right-end s (d ∷ t) c h =
    ap trim_right (sym (append_assoc s (c ∷ []) (d ∷ t)))
    ∙ trim_right-end (s ++ c ∷ []) t d h.1
    ∙ append_assoc s (c ∷ []) (d ∷ t)

-- A header without a name.
split_last : (w : Text) → Solid w → split_first w ≡ record { first = w; rest = []; found = false }
unfolding split_first cut_space trim_left
split_last [] h = refl
split_last (c ∷ w) (h, hs) = ground (arith, h, split_last w hs)

abbrev config_word : Text
config_word = codes "config"

Solid-config_word : Solid config_word
unfolding is_space
Solid-config_word = (refl, (refl, (refl, (refl, (refl, (refl, tt))))))

read_line-unnamed : (typ : Text) → IsWord typ → read_line (header_line (typ, [])) ≡ header (typ, [])
unfolding read_line
read_line-unnamed [] h = absurd (h.0 refl)
read_line-unnamed (c ∷ t) h = ground (
  arith,
  append-nil t,
  trim_right-end (codes "config ") t c (Solid-of_word (c ∷ t) h.1),
  trim_left-White [] b'c' (codes "onfig" ++ (32 ∷ c ∷ t)) tt (unfold is_space in refl),
  split_first-Solid config_word c t Solid-config_word (Solid-of_word (c ∷ t) h.1).0,
  split_last (c ∷ t) (Solid-of_word (c ∷ t) h.1),
  unquote_word (c ∷ t) h.1,
)

abbrev named_tail : Text → Text → Text
named_tail typ name = typ ++ (32 ∷ quote_mark ∷ (quote_uci name ++ quote_mark ∷ []))

trim_named :
    (typ name : Text)
    → trim (config_word ++ (32 ∷ named_tail typ name)) ≡ config_word ++ (32 ∷ named_tail typ name)
trim_named typ name =
    ap (λ s. trim_left (trim_right s)) front_last
    ∙ ap trim_left (trim_right-Solid front quote_mark (unfold is_space in refl))
    ∙ ap trim_left (sym front_last)
    ∙ trim_left-White [] b'c' (codes "onfig" ++ (32 ∷ named_tail typ name)) tt
        (unfold is_space in refl)
  where
    front : Text
    front = config_word ++ (32 ∷ (typ ++ (32 ∷ quote_mark ∷ quote_uci name)))

    front_last : config_word ++ (32 ∷ named_tail typ name) ≡ front ++ quote_mark ∷ []
    front_last =
        ap (λ s. config_word ++ (32 ∷ s))
          (sym (append_assoc typ (32 ∷ quote_mark ∷ quote_uci name) (quote_mark ∷ [])))

read_line-named :
    (typ : Text) (c : ℕ) (name : Text)
    → IsWord typ
    → read_line (header_line (typ, c ∷ name)) ≡ header (typ, c ∷ name)
unfolding read_line
read_line-named [] c name h = absurd (h.0 refl)
read_line-named (d ∷ t) c name h = ground (
  arith,
  trim_named (d ∷ t) (c ∷ name),
  split_first-Solid config_word d
      (t ++ (32 ∷ quote_mark ∷ (quote_uci (c ∷ name) ++ quote_mark ∷ []))) Solid-config_word
      (Solid-of_word (d ∷ t) h.1).0,
  split_first-Solid (d ∷ t) quote_mark (quote_uci (c ∷ name) ++ quote_mark ∷ [])
      (Solid-of_word (d ∷ t) h.1) (unfold is_space in refl),
  unquote_word (d ∷ t) h.1,
  unquote-quote_uci (c ∷ name),
)

-- The header that is written for a section is read as the section's.
pub read_line-header_line :
    (key : Text × Text) → IsWord key.0 → read_line (header_line key) ≡ header key
read_line-header_line (typ, []) h = read_line-unnamed typ h
read_line-header_line (typ, c ∷ name) h = read_line-named typ c name h

-- What an update may hold: its option and its section's type are words, and no text has a line break.
pub record IsClean (u : OptionValue) : Type 0 where
  pub option_word : IsWord u.option
  pub section_word : IsWord u.section.0
  pub name_line : OneLine u.section.1
  pub value_line : OneLine u.value

abbrev pub AreClean : List OptionValue → Type 0
AreClean us = All IsClean us

pub accepts-appended :
    (us : List OptionValue) (applied : Ids) (headers : List (Text × Text))
    → AreClean us
    → accepts true (map read_line (append_sections us applied headers)) ≡ true
unfolding accepts append_sections
accepts-appended [] applied headers clean = refl
accepts-appended (u ∷ us) applied headers (c, clean) = ground (
  arith,
  read_line-header_line u.section c.section_word,
  read_line-update (codes "\t") u White-tab c.option_word,
  accepts-appended us applied headers clean,
  accepts-appended us (update_id u ∷ applied) (u.section ∷ headers) clean,
)

-- They begin with a header, so that they can stand behind any lines.
pub appended_start :
    (us : List OptionValue) (applied : Ids) (inside : Bool)
    → AreClean us
    → (stops (map read_line (append_sections us applied [])) ≡ true)
      × (accepts inside (map read_line (append_sections us applied [])) ≡ true)
unfolding accepts append_sections contains
appended_start [] applied inside clean = (refl, refl)
appended_start (u ∷ us) applied inside (c, clean) = ground (
  arith,
  read_line-header_line u.section c.section_word,
  read_line-update (codes "\t") u White-tab c.option_word,
  appended_start us applied inside clean,
  accepts-appended us (update_id u ∷ applied) (u.section ∷ []) clean,
)

-- ===== src/Config/Rewrite/Whole.antt =====
-- `RewriteUCI` and then `ParseUCI`, on whole files.
use mathlib.Core.List.{map-append}
use openwrt_starwatch.Base.{
  ℕ, ◌+◌, ◌≡◌, refl, sym, ap, ◌∙◌, Bool, true, false, ◌||◌, List, [], ◌∷◌, ◌++◌, map, Option, none,
  some, arith,
}
use openwrt_starwatch.Base.Effects.{All-append}
use openwrt_starwatch.Base.Maps.{nat_eq, ◌==◌, insert, contains}
use openwrt_starwatch.Base.Strings.{
  Text, text_eq, pair_eq, OneLine, trim_right, split_lines, join_lines,
}
use openwrt_starwatch.Config.Uci.{
  Section, ok, OptionValue, Line, header, assign, item, blank, bare, other, incomplete, read_line,
  new_section, closed, items_of, parse_lines, parse_uci, find,
}
use openwrt_starwatch.Config.Rewrite.{append_sections, rewrite_lines, rewrite_all, rewrite_uci}
use openwrt_starwatch.Config.Rewrite.Lookup.{option_of, option_of-parse_lines, closed_ok}
use openwrt_starwatch.Config.Rewrite.Model.{Ids, AreWords, rewritten, read_all-rewrite_lines}
use openwrt_starwatch.Config.Rewrite.Update.{updated, target, stops}
use openwrt_starwatch.Config.Rewrite.Sections.{has_header, value_of-rewritten}
use openwrt_starwatch.Config.Rewrite.Success.{
  is_current, accepts, parse_lines-accepts, accepts-parse_lines, accepts-rewritten,
}
use openwrt_starwatch.Config.Rewrite.Appended.{AreClean, appended_start}
use openwrt_starwatch.Config.Rewrite.Output.{Lines-rewrite_lines, Lines-append_sections}
use openwrt_starwatch.Config.Rewrite.Lines.{Lines, Lines-split_lines, split_lines-join_lines}

abbrev is_key : Text × Text → Option Section → Bool
is_key key none = false
is_key key (some s) = s.key == key

-- A section of the document has its header in the file.
module _ (key : Text × Text) where
  in_current :
      (s : Section) (doc sections : List Section) (later : Bool)
      → closed (some s) ++ sections ≡ doc
      → (is_current (find key sections) ≡ true → later ≡ true)
      → is_current (find key doc) ≡ true
      → (is_key key (some s) || later) ≡ true
  unfolding find
  in_current s doc sections later g ih f = ground (arith, g, f, ih)

  find_parsed :
      (n : ℕ) (lines : List Line) (current : Option Section) (doc : List Section)
      → parse_lines n lines current ≡ ok doc
      → is_current (find key doc) ≡ true
      → (is_key key current || has_header key lines) ≡ true
  unfolding parse_lines
  find_parsed n [] none doc h f = unfold find in ground (arith, h, f)
  find_parsed n [] (some s) doc h f = unfold find in ground (arith, h, f)
  find_parsed n (blank ∷ lines) current doc h f = find_parsed (n + 1) lines current doc h f
  find_parsed n (bare ∷ lines) current doc h f = cc
  find_parsed n (other ∷ lines) current doc h f = cc
  find_parsed n (header k ∷ lines) none doc h f =
      let (sections, e, g) =
        closed_ok key [] none (parse_lines (n + 1) lines (some (new_section k))) doc h in
      find_parsed (n + 1) lines (some (new_section k)) sections e
        (ap (λ d. is_current (find key d)) g ∙ f)
  find_parsed n (header k ∷ lines) (some s) doc h f =
      let (sections, e, g) =
        closed_ok key [] (some s) (parse_lines (n + 1) lines (some (new_section k))) doc h in
      in_current s doc sections (has_header key (header k ∷ lines)) g
        (λ h. find_parsed (n + 1) lines (some (new_section k)) sections e h) f
  find_parsed n (assign k v ∷ lines) none doc h f = cc
  find_parsed n (assign k v ∷ lines) (some s) doc h f =
      find_parsed (n + 1) lines (some (record s { options = insert k v s.options })) doc h f
  find_parsed n (item k v ∷ lines) none doc h f = cc
  find_parsed n (item k v ∷ lines) (some s) doc h f =
      find_parsed (n + 1) lines
        (some (record s { lists = insert k (items_of k s.lists ++ v ∷ []) s.lists })) doc h f
  find_parsed n (incomplete ∷ lines) none doc h f = cc
  find_parsed n (incomplete ∷ lines) (some s) doc h f = cc

parse_empty : parse_uci (join_lines []) ≡ parse_lines 1 [] none
unfolding parse_uci parse_lines join_lines split_lines read_line trim_right
parse_empty = refl

parse_uci-join_lines :
    (lines : List Text)
    → Lines lines
    → parse_uci (join_lines lines) ≡ parse_lines 1 (map read_line lines) none
unfolding parse_uci
parse_uci-join_lines [] h = parse_empty
parse_uci-join_lines (line ∷ lines) h =
    ap (λ l. parse_lines 1 (map read_line l) none) (split_lines-join_lines line lines h)

AreWords-of_clean : (us : List OptionValue) → AreClean us → AreWords us
AreWords-of_clean [] clean = tt
AreWords-of_clean (u ∷ us) (c, clean) = (c.option_word, AreWords-of_clean us clean)

module _ (source : Text) (us : List OptionValue) (clean : AreClean us) where
  abbrev read : List Line
  read = map read_line (split_lines source)

  abbrev applied_ids : Ids
  applied_ids = (rewrite_lines us (split_lines source) none []).1

  abbrev appended : List Line
  appended = map read_line (append_sections us applied_ids [])

  read-rewritten :
      parse_uci (rewrite_uci source us)
      ≡ parse_lines 1 ((rewritten us read none []).0 ++ appended) none
  unfolding rewrite_uci rewrite_all
  read-rewritten =
      parse_uci-join_lines (rewrite_all us (split_lines source)) (
        All-append OneLine (rewrite_lines us (split_lines source) none []).0
          (append_sections us applied_ids [])
          (Lines-rewrite_lines us (split_lines source) none [] clean (Lines-split_lines source))
          (Lines-append_sections us applied_ids [] clean))
      ∙ ap (λ l. parse_lines 1 l none)
          (map-append read_line (rewrite_lines us (split_lines source) none []).0
              (append_sections us applied_ids [])
            ∙ ap (λ r. r.0 ++ appended)
                (read_all-rewrite_lines us (split_lines source) none []
                  (AreWords-of_clean us clean)))

  start : (inside : Bool) → (stops appended ≡ true) × (accepts inside appended ≡ true)
  start inside = appended_start us applied_ids inside clean

  -- A file that is accepted is accepted once it is rewritten.
  pub rewrite_uci-accepted :
      (doc : List Section)
      → parse_uci source ≡ ok doc
      → (new : List Section) × (parse_uci (rewrite_uci source us) ≡ ok new)
  rewrite_uci-accepted doc parsed =
      let (new, e) = parse_lines-accepts 1 ((rewritten us read none []).0 ++ appended) none (
        accepts-rewritten us read none [] appended
          (accepts-parse_lines 1 read none doc (unfold parse_uci in parsed))
          (λ inside. (start inside).1)) in
      (new, read-rewritten ∙ e)

-- A file that `ParseUCI` accepts is accepted after `RewriteUCI` with updates whose options and section
-- types are words and whose texts have no line breaks.
-- An option of a section that the file has is
-- then set to the value of the first update for it, whatever characters that value has, and where there
-- is no update the option keeps its value.
pub parse_uci-rewrite_uci :
    (source : Text) (us : List OptionValue) (doc : List Section) (key : Text × Text) (option : Text)
    → AreClean us
    → parse_uci source ≡ ok doc
    → is_current (find key doc) ≡ true
    → (new : List Section) × (parse_uci (rewrite_uci source us) ≡ ok new)
      × (option_of key option new ≡ updated (target key option us) (option_of key option doc))
unfolding contains
parse_uci-rewrite_uci source us doc key option clean parsed found =
    let (new, e) = rewrite_uci-accepted source us clean doc parsed in
    (
      new,
      e,
      option_of-parse_lines key option 1
            ((rewritten us (read source us clean) none []).0 ++ appended source us clean) none new
            (sym (read-rewritten source us clean) ∙ e)
          ∙ value_of-rewritten key option us (read source us clean) none []
              (appended source us clean) refl refl
              (find_parsed key 1 (read source us clean) none doc (unfold parse_uci in parsed) found)
              (start source us clean true).0
          ∙ ap (updated (target key option us)) (
              sym (
                option_of-parse_lines key option 1 (read source us clean) none doc
                  (unfold parse_uci in parsed))),
    )

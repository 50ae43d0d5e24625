-- ===== src/Config/Tests.antt =====
-- The UCI file at work, and the theorems about it at concrete files.
use openwrt_starwatch.Base.{◌≡◌, refl, true, List, [], ◌∷◌, ◌++◌, arith}
use openwrt_starwatch.Base.Strings.{Text, is_space, trim_right}
use openwrt_starwatch.Base.Maps.{contains}
use openwrt_starwatch.Base.Text.{codes}
use openwrt_starwatch.Config.Uci.{
  Section, ok, err, malformed, outside_section, OptionValue, quote_uci, quote_mark, unquote,
  parse_uci, find,
}
use openwrt_starwatch.Config.Uci.Quoting.{unquote-quote_uci}
use openwrt_starwatch.Config.Rewrite.{rewrite_uci}
use openwrt_starwatch.Config.Rewrite.Lookup.{option_of}
use openwrt_starwatch.Config.Rewrite.Update.{updated, target}
use openwrt_starwatch.Config.Rewrite.Success.{is_current}
use openwrt_starwatch.Config.Rewrite.Appended.{AreClean}
use openwrt_starwatch.Config.Rewrite.Whole.{parse_uci-rewrite_uci}

unquote-quote_uci_example :
    unquote (quote_mark ∷ (quote_uci (codes "it's") ++ quote_mark ∷ [])) ≡ codes "it's"
unquote-quote_uci_example = unquote-quote_uci (codes "it's")

abbrev main_key : Text × Text
main_key = (codes "starwatch", codes "main")

abbrev file : Text
file = codes "# c\nconfig starwatch 'main'\n\toption port '1'\n"

abbrev parsed : List Section
parsed = record { key = main_key; options = (codes "port", codes "1") ∷ []; lists = [] } ∷ []

parse_file : parse_uci file ≡ ok parsed
unfolding parse_uci trim_right is_space
parse_file = refl

rejects_bare : parse_uci (codes "\nconfig\n") ≡ err (malformed 2)
unfolding parse_uci trim_right is_space
rejects_bare = refl

rejects_outside : parse_uci (codes "option a 'b'") ≡ err (outside_section 1)
unfolding parse_uci trim_right is_space
rejects_outside = refl

abbrev changes : List OptionValue
changes =
    record { section = main_key; option = codes "port"; value = codes "it's" }
    ∷ record { section = (codes "battery", []); option = codes "enabled"; value = codes "1" }
    ∷ []

rewrite_file :
    rewrite_uci file changes
    ≡ codes
        "# c\nconfig starwatch 'main'\n\toption port 'it'\\''s'\n\nconfig battery\n\toption enabled '1'"
unfolding rewrite_uci trim_right is_space quote_uci contains
rewrite_file = refl

clean_changes : AreClean changes
unfolding is_space
clean_changes = (
  record {
    option_word = (λ e. absurd (ground (arith, e)), (refl, (refl, (refl, (refl, tt)))));
    section_word = (
      λ e. absurd (ground (arith, e)),
      (refl, (refl, (refl, (refl, (refl, (refl, (refl, (refl, (refl, tt))))))))),
    );
    name_line = (refl, (refl, (refl, (refl, tt))));
    value_line = (refl, (refl, (refl, (refl, tt))));
  },
  (
    record {
      option_word = (
        λ e. absurd (ground (arith, e)),
        (refl, (refl, (refl, (refl, (refl, (refl, (refl, tt))))))),
      );
      section_word = (
        λ e. absurd (ground (arith, e)),
        (refl, (refl, (refl, (refl, (refl, (refl, (refl, tt))))))),
      );
      name_line = tt;
      value_line = (refl, tt);
    },
    tt,
  ),
)

section_found : is_current (find main_key parsed) ≡ true
unfolding find
section_found = refl

parse_uci-rewrite_uci_example :
    (new : List Section) × (parse_uci (rewrite_uci file changes) ≡ ok new)
    × (option_of main_key (codes "port") new
        ≡ updated
            (target main_key (codes "port") changes)
            (option_of main_key (codes "port") parsed))
parse_uci-rewrite_uci_example =
    parse_uci-rewrite_uci file changes parsed main_key (codes "port") clean_changes parse_file
      section_found

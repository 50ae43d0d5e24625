-- ===== src/Config/Rewrite.antt =====
-- `RewriteUCI` of router/internal/config/uci.go: the lines of a file, with options set to new values.
-- The lines written so far are the result of the recursion, in order; `applied` holds the ids of the
-- updates that are written already.
pub mod Values
pub mod Lookup
pub mod Model
pub mod Update
pub mod Sections
pub mod Success
pub mod Appended
pub mod Lines
pub mod Output
pub mod Whole
use openwrt_starwatch.Base.{
  ℕ, ◌≡◌, ◌↔◌, Bool, true, false, not, ◌&&◌, ◌||◌, List, [], ◌∷◌, ◌++◌, Option, none, some, keep,
  if◌then◌else◌, arith,
}
use openwrt_starwatch.Base.Maps.{Keys, contains, nat_eq, ◌==◌}
use openwrt_starwatch.Base.Strings.{Text, text_eq, pair_eq, is_space, trim, split_lines, join_lines}
use openwrt_starwatch.Base.Text.{codes}
use openwrt_starwatch.Config.Uci.{
  OptionValue, quote_uci, unquote, split_first, header_key, is_empty,
}

-- What `RewriteUCI` sees in a line.
pub data Mark : Type 0 where
  enters : Text × Text → Mark
  sets : Text → Mark
  plain : Mark

unfoldable pub scan_line : Text → Mark
unfolding split_first unquote
scan_line raw =
    let s = split_first (trim raw) in
    let p = split_first s.rest in
    if s.found && s.first == codes "config"
    then enters (header_key s.rest)
    else if s.found && s.first == codes "option"
    then (if p.found then sets (unquote p.first) else plain)
    else plain

-- `raw[:len(raw)-len(strings.TrimLeftFunc(raw, unicode.IsSpace))]`
unfoldable pub indent : Text → Text
indent [] = []
indent (c ∷ s) = let rest = indent s in if is_space c then c ∷ rest else []

abbrev pub same_id : (Text × Text) × Text → (Text × Text) × Text → Bool
same_id a b = a.0 == b.0 && a.1 == b.1

pub same_id_iff : (a b : (Text × Text) × Text) → (same_id a b ≡ true) ↔ (a ≡ b)
same_id_iff a b = ground (arith, pair_eq.test_iff a.0 b.0, text_eq.test_iff a.1 b.1)

instance abbrev pub id_eq : Keys ((Text × Text) × Text)
id_eq = record { same = same_id; test_iff = same_id_iff }

abbrev pub update_id : OptionValue → (Text × Text) × Text
update_id u = (u.section, u.option)

abbrev pub option_line : Text → OptionValue → Text
option_line white u =
    white ++ (codes "option " ++ (u.option ++ (codes " '" ++ (quote_uci u.value ++ codes "'"))))

-- `pending[current]`
abbrev pub pending : Text × Text → List OptionValue → List OptionValue
pending key us = keep (λ u. u.section == key) us

abbrev pub first_for : Text → List OptionValue → Option OptionValue
first_for option [] = none
first_for option (u ∷ us) = if u.option == option then some u else first_for option us

-- The lines for the updates that are not applied yet, and the ids applied after them.
unfoldable pub flush :
    List OptionValue → List ((Text × Text) × Text) → List Text × List ((Text × Text) × Text)
flush [] applied = ([], applied)
flush (u ∷ us) applied =
    let skipped = flush us applied in
    let (lines, after) = flush us (update_id u ∷ applied) in
    if contains applied (update_id u) then skipped else (option_line (codes "\t") u ∷ lines, after)

-- `flushMissing`, with no section before the first header.
unfoldable pub flush_missing :
    List OptionValue
    → Option (Text × Text)
    → List ((Text × Text) × Text)
    → List Text × List ((Text × Text) × Text)
unfolding flush
flush_missing us none applied = ([], applied)
flush_missing us (some key) applied = flush (pending key us) applied

-- The update for an option that is set in the current section.
unfoldable pub replacement : List OptionValue → Option (Text × Text) → Text → Option OptionValue
replacement us none option = none
replacement us (some key) option = first_for option (pending key us)

-- The loop over the lines, with the last `flushMissing`.
unfoldable pub rewrite_lines :
    List OptionValue
    → List Text
    → Option (Text × Text)
    → List ((Text × Text) × Text)
    → List Text × List ((Text × Text) × Text)
unfolding scan_line indent flush_missing replacement
rewrite_lines us [] current applied = flush_missing us current applied
rewrite_lines us (raw ∷ lines) current applied = elim (scan_line raw) [
  | enters key ↦
      let (missing, after) = flush_missing us current applied in
      let (later, end) = rewrite_lines us lines (some key) after in (missing ++ (raw ∷ later), end)
  | sets option ↦ elim (replacement us current option) [
    | none ↦ let (later, end) = rewrite_lines us lines current applied in (raw ∷ later, end)
    | some u ↦
        let (later, end) = rewrite_lines us lines current (update_id u ∷ applied) in
        (option_line (indent raw) u ∷ later, end)
  ]
  | plain ↦ let (later, end) = rewrite_lines us lines current applied in (raw ∷ later, end)
]

-- `config type 'name'`
abbrev pub header_line : Text × Text → Text
header_line key =
    codes "config "
    ++ (key.0 ++ (if is_empty key.1 then [] else codes " '" ++ (quote_uci key.1 ++ codes "'")))

-- The lines for the updates of sections that the file does not have; `headers` are those written.
unfoldable pub append_sections :
    List OptionValue → List ((Text × Text) × Text) → List (Text × Text) → List Text
append_sections [] applied headers = []
append_sections (u ∷ us) applied headers =
    let skipped = append_sections us applied headers in
    let later = append_sections us (update_id u ∷ applied) (u.section ∷ headers) in
    if contains applied (update_id u)
    then skipped
    else (if contains headers u.section then [] else header_line u.section ∷ [])
      ++ (option_line (codes "\t") u ∷ later)

unfoldable pub rewrite_all : List OptionValue → List Text → List Text
unfolding rewrite_lines append_sections
rewrite_all us lines =
    let (written, applied) = rewrite_lines us lines none [] in
    written ++ append_sections us applied []

unfoldable pub rewrite_uci : Text → List OptionValue → Text
unfolding rewrite_all split_lines join_lines
rewrite_uci source us = join_lines (rewrite_all us (split_lines source))

-- ===== src/Config/Uci.antt =====
-- router/internal/config/uci.go: the UCI format, read by `ParseUCI` and rewritten by `RewriteUCI`.
-- A text is the list of its code points. A section's key is its type and its name, and the id of an
-- update, which the code formats as a text with NUL bytes in between, is a section's key and an option. The
-- section that `ParseUCI` is in, the last of the document, stands beside those that are finished.
pub mod Quoting
pub mod Reading
use openwrt_starwatch.Base.{
  ℕ, zero, suc, ◌+◌, ◌≡◌, ◌↔◌, refl, Bool, true, false, not, ◌&&◌, ◌||◌, List, [], ◌∷◌, ◌++◌,
  Option, none, some, keep, leb, length, map, if◌then◌else◌, arith,
}
use openwrt_starwatch.Base.Maps.{Keys, lookup, insert, contains, nat_eq, ◌==◌}
use openwrt_starwatch.Base.Strings.{
  Text, text_eq, pair_eq, is_space, trim_left, trim, split_lines, join_lines, cut_space,
}
use openwrt_starwatch.Base.Text.{codes}

pub data Failure : Type 0 where
  malformed : ℕ → Failure  -- by the line's number
  outside_section : ℕ → Failure
  unknown_keyword : ℕ → Failure

pub data Result {ℓ} (A : Type ℓ) : Type ℓ where
  ok : A → Result A
  err : Failure → Result A

-- `UCISection`
pub record Section : Type 0 where
  pub key : Text × Text
  pub options : List (Text × Text)
  pub lists : List (Text × List Text)

pub record OptionValue : Type 0 where
  pub section : Text × Text
  pub option : Text
  pub value : Text

abbrev pub quote_mark : ℕ
quote_mark = b'\''

abbrev pub backslash : ℕ
backslash = b'\\'

abbrev pub escaped_mark : Text
escaped_mark = quote_mark ∷ backslash ∷ quote_mark ∷ quote_mark ∷ []

-- `quoteUCI`: each quote becomes '\''.
unfoldable pub quote_uci : Text → Text
quote_uci [] = []
quote_uci (c ∷ s) =
    let rest = quote_uci s in if c == quote_mark then escaped_mark ++ rest else c ∷ rest

abbrev pub starts_escape : Text → Bool
starts_escape (a ∷ b ∷ c ∷ d ∷ s) =
    a == quote_mark && b == backslash && c == quote_mark && d == quote_mark
starts_escape _ = false

-- `strings.ReplaceAll(s, "'\\''", "'")` after so many characters that the last match has covered.
unfoldable pub replace_escapes : ℕ → Text → Text
replace_escapes skip [] = []
replace_escapes (suc skip) (c ∷ s) = replace_escapes skip s
replace_escapes zero (c ∷ s) = elim (starts_escape (c ∷ s)) [
  | true ↦ quote_mark ∷ replace_escapes 3 s
  | false ↦ c ∷ replace_escapes 0 s
]

abbrev pub last_or : ℕ → Text → ℕ
last_or d [] = d
last_or d (c ∷ s) = last_or c s

abbrev pub without_last : Text → Text
without_last [] = []
without_last (c ∷ []) = []
without_last (c ∷ d ∷ s) = c ∷ without_last (d ∷ s)

-- A text between two quotes of one kind, and what is between them.
abbrev pub is_quoted : Text → Bool
is_quoted [] = false
is_quoted (c ∷ []) = false
is_quoted (c ∷ d ∷ s) =
    c == quote_mark && last_or d s == quote_mark || c == b'"' && last_or d s == b'"'

abbrev pub inside : Text → Text
inside [] = []
inside (c ∷ s) = without_last s

unfoldable pub unquote : Text → Text
unfolding replace_escapes
unquote s = replace_escapes 0 (if is_quoted s then inside s else s)

pub record Split : Type 0 where
  pub first : Text
  pub rest : Text
  pub found : Bool

abbrev pub is_empty : Text → Bool
is_empty [] = true
is_empty (c ∷ s) = false

unfoldable pub split_first : Text → Split
unfolding cut_space trim_left
split_first value =
    let (first, later) = cut_space value in
    record { first = first; rest = trim_left later; found = not (is_empty (trim_left later)) }

-- The header that stands behind the keyword `config`.
abbrev pub header_key : Text → Text × Text
header_key rest =
    let s = split_first rest in (unquote s.first, if s.found then unquote s.rest else [])

-- What `ParseUCI` makes of a line before it looks at the section it is in.
pub data Line : Type 0 where
  blank : Line
  header : Text × Text → Line
  assign : Text → Text → Line
  item : Text → Text → Line
  incomplete : Line  -- an option or a list without a value
  bare : Line  -- a keyword alone
  other : Line  -- another keyword

abbrev pub is_comment : Text → Bool
is_comment [] = true
is_comment (c ∷ s) = c == b'#'

abbrev pub read_pair : (Text → Text → Line) → Text → Line
read_pair make rest =
    let s = split_first rest in
    if s.found then make (unquote s.first) (unquote s.rest) else incomplete

unfoldable pub read_line : Text → Line
unfolding trim_left split_first unquote
read_line raw =
    let line = trim raw in
    let s = split_first line in
    if is_comment line
    then blank
    else if not s.found
    then bare
    else if s.first == codes "config"
    then header (header_key s.rest)
    else if s.first == codes "option"
    then read_pair assign s.rest
    else if s.first == codes "list"
    then read_pair item s.rest
    else other

abbrev pub new_section : Text × Text → Section
new_section key = record { key = key; options = []; lists = [] }

abbrev pub closed : Option Section → List Section
closed none = []
closed (some s) = s ∷ []

abbrev pub items_of : Text → List (Text × List Text) → List Text
items_of k lists = elim (lookup k lists) [ none ↦ [] | some items ↦ items ]

-- The loop of `ParseUCI` from line `n` on, over what the lines are read as: the sections that it
-- finishes, the current one first.
unfoldable pub parse_lines : ℕ → List Line → Option Section → Result (List Section)
unfolding lookup insert
parse_lines n [] current = ok (closed current)
parse_lines n (blank ∷ lines) current = parse_lines (n + 1) lines current
parse_lines n (bare ∷ lines) current = err (malformed n)
parse_lines n (other ∷ lines) current = err (unknown_keyword n)
parse_lines n (header key ∷ lines) current =
    elim (parse_lines (n + 1) lines (some (new_section key))) [
      | err e ↦ err e
      | ok sections ↦ ok (closed current ++ sections)
    ]
parse_lines n (assign k v ∷ lines) none = err (outside_section n)
parse_lines n (assign k v ∷ lines) (some s) =
    parse_lines (n + 1) lines (some (record s { options = insert k v s.options }))
parse_lines n (item k v ∷ lines) none = err (outside_section n)
parse_lines n (item k v ∷ lines) (some s) =
    parse_lines (n + 1) lines
      (some (record s { lists = insert k (items_of k s.lists ++ v ∷ []) s.lists }))
parse_lines n (incomplete ∷ lines) none = err (outside_section n)
parse_lines n (incomplete ∷ lines) (some s) = err (malformed n)

unfoldable pub parse_uci : Text → Result (List Section)
unfolding parse_lines split_lines read_line
parse_uci source = parse_lines 1 (map read_line (split_lines source)) none

-- `Find`
unfoldable pub find : Text × Text → List Section → Option Section
find key [] = none
find key (s ∷ sections) = if s.key == key then some s else find key sections

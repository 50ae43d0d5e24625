-- ===== src/Config/Rewrite/Lookup.antt =====
-- The value of an option, in the document that `ParseUCI` gives and in the lines it reads.
use openwrt_starwatch.Base.{
  ℕ, ◌+◌, ◌≡◌, refl, sym, ap, ◌∙◌, List, [], ◌∷◌, ◌++◌, Option, none, some, if◌then◌else◌, arith,
}
use openwrt_starwatch.Base.Maps.{nat_eq, ◌==◌, lookup, insert, lookup-insert}
use openwrt_starwatch.Base.Strings.{Text, text_eq, pair_eq}
use openwrt_starwatch.Config.Uci.{
  Section, Result, ok, err, Line, blank, header, assign, item, incomplete, bare, other, new_section,
  closed, items_of, parse_lines, find,
}

-- `doc.Find(type, name).Options[option]`
abbrev pub option_of : Text × Text → Text → List Section → Option Text
option_of key option doc = elim (find key doc) [ none ↦ none | some s ↦ lookup option s.options ]

-- The value that the lines up to the next header leave to an option.
unfoldable pub in_section : Text → Option Text → List Line → Option Text
in_section option value [] = value
in_section option value (header key ∷ lines) = value
in_section option value (assign k v ∷ lines) =
    in_section option (if k == option then some v else value) lines
in_section option value (blank ∷ lines) = in_section option value lines
in_section option value (item k v ∷ lines) = in_section option value lines
in_section option value (incomplete ∷ lines) = in_section option value lines
in_section option value (bare ∷ lines) = in_section option value lines
in_section option value (other ∷ lines) = in_section option value lines

-- The value of an option in the first section with a key.
unfoldable pub value_of : Text × Text → Text → List Line → Option Text
value_of key option [] = none
value_of key option (header k ∷ lines) =
    let later = value_of key option lines in
    if k == key then in_section option none lines else later
value_of key option (assign k v ∷ lines) = value_of key option lines
value_of key option (blank ∷ lines) = value_of key option lines
value_of key option (item k v ∷ lines) = value_of key option lines
value_of key option (incomplete ∷ lines) = value_of key option lines
value_of key option (bare ∷ lines) = value_of key option lines
value_of key option (other ∷ lines) = value_of key option lines

module _ (key : Text × Text) (option : Text) where
  -- The value where a section is current.
  abbrev from_current : Option Section → List Line → Option Text
  from_current none lines = value_of key option lines
  from_current (some s) lines =
      if s.key == key
      then in_section option (lookup option s.options) lines
      else value_of key option lines

  find_closed :
      (s : Section) (sections : List Section)
      → option_of key option (closed (some s) ++ sections)
        ≡ (if s.key == key then lookup option s.options else option_of key option sections)
  unfolding find
  find_closed s sections = ground arith

  pub closed_ok :
      (current : Option Section) (r : Result (List Section)) (doc : List Section)
      → ◌≡◌ {A = Result (List Section)}
          (elim r [ err e ↦ err e | ok sections ↦ ok (closed current ++ sections) ])
          (ok doc)
      → (sections : List Section) × (r ≡ ok sections) × (closed current ++ sections ≡ doc)
  closed_ok current (ok sections) doc h = (sections, refl, ground (arith, h))
  closed_ok current (err e) doc h = cc

  -- The document that a parse gives has, for an option, the value that the lines leave to it.
  pub option_of-parse_lines :
      (n : ℕ) (lines : List Line) (current : Option Section) (doc : List Section)
      → parse_lines n lines current ≡ ok doc
      → option_of key option doc ≡ from_current current lines
  unfolding parse_lines in_section value_of
  option_of-parse_lines n [] none doc h = unfold find in ground (arith, h)
  option_of-parse_lines n [] (some s) doc h = unfold find in ground (arith, h)
  option_of-parse_lines n (blank ∷ lines) none doc h =
      option_of-parse_lines (n + 1) lines none doc h
  option_of-parse_lines n (blank ∷ lines) (some s) doc h =
      option_of-parse_lines (n + 1) lines (some s) doc h
  option_of-parse_lines n (bare ∷ lines) current doc h = cc
  option_of-parse_lines n (other ∷ lines) current doc h = cc
  option_of-parse_lines n (header k ∷ lines) none doc h =
      let (sections, e, f) =
        closed_ok none (parse_lines (n + 1) lines (some (new_section k))) doc h in
      ap (option_of key option) (sym f)
      ∙ option_of-parse_lines (n + 1) lines (some (new_section k)) sections e
  option_of-parse_lines n (header k ∷ lines) (some s) doc h =
      let (sections, e, f) =
        closed_ok (some s) (parse_lines (n + 1) lines (some (new_section k))) doc h in
      ap (option_of key option) (sym f)
      ∙ find_closed s sections
      ∙ ap (λ o. if s.key == key then lookup option s.options else o)
          (option_of-parse_lines (n + 1) lines (some (new_section k)) sections e)
  option_of-parse_lines n (assign k v ∷ lines) none doc h = cc
  option_of-parse_lines n (assign k v ∷ lines) (some s) doc h = ground (
    arith,
    option_of-parse_lines (n + 1) lines (some (record s { options = insert k v s.options })) doc h,
    lookup-insert k option v s.options,
  )
  option_of-parse_lines n (item k v ∷ lines) none doc h = cc
  option_of-parse_lines n (item k v ∷ lines) (some s) doc h =
      option_of-parse_lines (n + 1) lines
        (some (record s { lists = insert k (items_of k s.lists ++ v ∷ []) s.lists })) doc h
  option_of-parse_lines n (incomplete ∷ lines) none doc h = cc
  option_of-parse_lines n (incomplete ∷ lines) (some s) doc h = cc

-- ===== src/Failover/Known.antt =====
-- The lines of mwan3's configuration over which changes are proposed, described by the text of `uci show`.
use openwrt_starwatch.Base.{
  ℕ, ◌≡◌, ◌⊎◌, refl, sym, ap, ◌∙◌, Bool, true, false, ◌||◌, List, [], ◌∷◌, ◌++◌, none, some, arith,
  inl, inr, Bool-cases, Option-cases,
}
use openwrt_starwatch.Base.Effects.{All}
use openwrt_starwatch.Base.Maps.{nat_eq, ◌==◌, lookup, contains}
use openwrt_starwatch.Base.Strings.{Text, text_eq, trim, split_lines}
use openwrt_starwatch.Base.Text.{codes}
use openwrt_starwatch.Failover.Proposal.{
  pristine, after_prefix, cut_at, canonical_value, value_or_empty, is_foreign, has_foreign,
  has_custom_config,
}

-- A line that gives an option of a section a value, or, where there is no option, the section its type.
pub record Assigns (line section option value : Text) : Type 0 where
  pub path : Text
  pub text : trim line ≡ codes "mwan3." ++ (path ++ b'=' ∷ value)
  pub no_equals : contains path b'=' ≡ false
  pub no_dot : contains section b'.' ≡ false
  pub of_path : ((path ≡ section) × (option ≡ [])) ⊎ (path ≡ section ++ b'.' ∷ option)

-- A section of the program's own, or the globals.
abbrev pub IsOwn : Text → Type 0
IsOwn section =
    (section ≡ codes "globals") ⊎ ((rest : Text) × (section ≡ codes "starwatch_" ++ rest))

-- A value that OpenWrt ships, but for quotes and blanks. An option that is not shipped counts as empty.
abbrev pub IsShipped : Text → Text → Text → Type 0
IsShipped section option value =
    (options : List (Text × Text)) × (lookup section pristine ≡ some options)
    × (value_or_empty (lookup option options) ≡ canonical_value value)

pub data IsKnown (line : Text) : Type 0 where
  assigns_nothing :
      ((section option value : Text) → ¬ (Assigns line section option value)) → IsKnown line
  own :
      (section option value : Text)
      → Assigns line section option value
      → IsOwn section
      → IsKnown line
  shipped :
      (section option value : Text)
      → Assigns line section option value
      → IsShipped section option value
      → IsKnown line

after_prefix-some : (p s r : Text) → after_prefix p s ≡ some r → s ≡ p ++ r
after_prefix-some [] s r h = ground (arith, h)
after_prefix-some (p ∷ ps) [] r h = cc
after_prefix-some (p ∷ ps) (c ∷ s) r h =
    ground (arith, h, nat_eq.test_iff p c, after_prefix-some ps s r)

after_prefix-append : (p r : Text) → after_prefix p (p ++ r) ≡ some r
after_prefix-append [] r = refl
after_prefix-append (p ∷ ps) r = ground (arith, nat_eq.test_iff p p, after_prefix-append ps r)

cut_found :
    (d : ℕ) (s : Text)
    → (cut_at d s).1 ≡ true
    → (s ≡ (cut_at d s).0.0 ++ d ∷ (cut_at d s).0.1) × (contains (cut_at d s).0.0 d ≡ false)
unfolding cut_at contains
cut_found d [] h = cc
cut_found d (c ∷ s) h = ground (arith, h, cut_found d s, nat_eq.test_iff c d)

cut_missing :
    (d : ℕ) (s : Text)
    → (cut_at d s).1 ≡ false
    → ((cut_at d s).0 ≡ (s, [])) × (contains s d ≡ false)
unfolding cut_at contains
cut_missing d [] h = (refl, refl)
cut_missing d (c ∷ s) h = ground (arith, h, cut_missing d s, nat_eq.test_iff c d)

cut_at-append : (d : ℕ) (a b : Text) → (cut_at d (a ++ d ∷ b)).1 ≡ true
unfolding cut_at
cut_at-append d [] b = ground (arith, nat_eq.test_iff d d)
cut_at-append d (c ∷ a) b = ground (arith, cut_at-append d a b)

known_section :
    (section option value : Text)
    → is_foreign (section, option) value ≡ false
    → IsOwn section ⊎ IsShipped section option value
unfolding is_foreign
known_section section option value h = elim (Bool-cases (section == codes "globals")) [
  | inl e ↦ inl (inl ((text_eq.test_iff section (codes "globals")).0 e))
  | inr e ↦ elim (Option-cases (after_prefix (codes "starwatch_") section)) [
    | inr (rest, k) ↦ inl (inr (rest, after_prefix-some (codes "starwatch_") section rest k))
    | inl k ↦ elim (Option-cases (lookup section pristine)) [
      | inl m ↦ absurd (ground (arith, h, e, k, m))
      | inr (options, m) ↦ inr (
        options,
        m,
        ground (
          arith,
          h,
          e,
          k,
          m,
          text_eq.test_iff (value_or_empty (lookup option options)) (canonical_value value),
        ),
      )
    ]
  ]
]

-- The section and the option of a path.
path_split :
    (path : Text)
    → (contains (cut_at b'.' path).0.0 b'.' ≡ false)
      × (((path ≡ (cut_at b'.' path).0.0) × ((cut_at b'.' path).0.1 ≡ []))
          ⊎ (path ≡ (cut_at b'.' path).0.0 ++ b'.' ∷ (cut_at b'.' path).0.1))
path_split path = elim (Bool-cases (cut_at b'.' path).1) [
  | inl e ↦ let (split, none_before) = cut_found b'.' path e in (none_before, inr split)
  | inr e ↦
      let (whole, no_dot) = cut_missing b'.' path e in
      (
        ap (λ q. contains q.0 b'.') whole ∙ no_dot,
        inl (sym (ap (λ q. q.0) whole), ap (λ q. q.1) whole),
      )
]

assigned :
    (line assignment : Text)
    → after_prefix (codes "mwan3.") (trim line) ≡ some assignment
    → (cut_at b'=' assignment).1 ≡ true
    → let path = (cut_at b'=' assignment).0.0 in
      Assigns line (cut_at b'.' path).0.0 (cut_at b'.' path).0.1 (cut_at b'=' assignment).0.1
assigned line assignment h found =
    let cut = cut_found b'=' assignment found in
    let split = path_split (cut_at b'=' assignment).0.0 in
    record {
      path = (cut_at b'=' assignment).0.0;
      text =
          after_prefix-some (codes "mwan3.") (trim line) assignment h
          ∙ ap (λ a. codes "mwan3." ++ a) cut.0;
      no_equals = cut.1;
      no_dot = split.0;
      of_path = split.1;
    }

IsKnown-line :
    (line assignment : Text)
    → after_prefix (codes "mwan3.") (trim line) ≡ some assignment
    → (cut_at b'=' assignment).1 ≡ true
    → is_foreign (cut_at b'.' (cut_at b'=' assignment).0.0).0 (cut_at b'=' assignment).0.1 ≡ false
    → IsKnown line
IsKnown-line line assignment h found familiar =
    let path = (cut_at b'=' assignment).0.0 in
    let section = (cut_at b'.' path).0.0 in
    let option = (cut_at b'.' path).0.1 in
    let value = (cut_at b'=' assignment).0.1 in
    elim (known_section section option value familiar) [
      | inl mine ↦ own section option value (assigned line assignment h found) mine
      | inr theirs ↦ shipped section option value (assigned line assignment h found) theirs
    ]

not_prefixed :
    (line section option value : Text)
    → after_prefix (codes "mwan3.") (trim line) ≡ none
    → ¬ (Assigns line section option value)
not_prefixed line section option value h a =
    absurd
      (ground (arith, h, a.text, after_prefix-append (codes "mwan3.") (a.path ++ b'=' ∷ value)))

not_cut :
    (line assignment section option value : Text)
    → after_prefix (codes "mwan3.") (trim line) ≡ some assignment
    → (cut_at b'=' assignment).1 ≡ false
    → ¬ (Assigns line section option value)
not_cut line assignment section option value h missing a = absurd (
    ground (
      arith,
      h,
      missing,
      a.text,
      after_prefix-append (codes "mwan3.") (a.path ++ b'=' ∷ value),
      cut_at-append b'=' a.path value,
    ))

neither : (a b : Bool) → (a || b) ≡ false → (a ≡ false) × (b ≡ false)
neither true b h = cc
neither false b h = (refl, h)

-- A step of the loop at an assignment.
has_foreign_step :
    (line assignment : Text) (lines : List Text)
    → after_prefix (codes "mwan3.") (trim line) ≡ some assignment
    → (cut_at b'=' assignment).1 ≡ true
    → has_foreign (line ∷ lines) ≡ (
        is_foreign (cut_at b'.' (cut_at b'=' assignment).0.0).0 (cut_at b'=' assignment).0.1
        || has_foreign lines)
unfolding has_foreign
has_foreign_step line assignment lines e found = rw (has_foreign, e, found)

has_foreign-IsKnown : (lines : List Text) → has_foreign lines ≡ false → All IsKnown lines
unfolding has_foreign
has_foreign-IsKnown [] h = tt
has_foreign-IsKnown (line ∷ lines) h =
    elim (Option-cases (after_prefix (codes "mwan3.") (trim line))) [
      | inl e ↦ (
        assigns_nothing (λ section option value. not_prefixed line section option value e),
        has_foreign-IsKnown lines (ground (arith, h, e)),
      )
      | inr (assignment, e) ↦ elim (Bool-cases (cut_at b'=' assignment).1) [
        | inl found ↦
            let (familiar, rest) =
              neither
                (is_foreign (cut_at b'.' (cut_at b'=' assignment).0.0).0
                  (cut_at b'=' assignment).0.1)
                (has_foreign lines) (sym (has_foreign_step line assignment lines e found) ∙ h) in
            (IsKnown-line line assignment e found familiar, has_foreign-IsKnown lines rest)
        | inr missing ↦ (
          assigns_nothing
              (λ section option value. not_cut line assignment section option value e missing),
          has_foreign-IsKnown lines (ground (arith, h, e, missing)),
        )
      ]
    ]

-- A configuration that is not taken for a custom one has none but known lines.
pub has_custom_config-IsKnown :
    (config : Text) → has_custom_config config ≡ false → All IsKnown (split_lines config)
unfolding has_custom_config
has_custom_config-IsKnown config h = has_foreign-IsKnown (split_lines config) h

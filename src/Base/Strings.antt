-- ===== src/Base/Strings.antt =====
-- Texts as lists of code points, with the functions of Go's `strings` that the program calls.
use openwrt_starwatch.Base.{
  ℕ, ◌≡◌, ◌↔◌, Bool, true, false, not, ◌&&◌, ◌||◌, List, [], ◌∷◌, ◌++◌, leb, if◌then◌else◌, arith,
}
use openwrt_starwatch.Base.Effects.{All}
use openwrt_starwatch.Base.Maps.{Keys, nat_eq, ◌==◌}

abbrev pub Text : Type 0
Text = List ℕ

abbrev pub same_text : Text → Text → Bool
same_text [] [] = true
same_text [] (y ∷ ys) = false
same_text (x ∷ xs) [] = false
same_text (x ∷ xs) (y ∷ ys) = x == y && same_text xs ys

pub same_text_iff : (a b : Text) → (same_text a b ≡ true) ↔ (a ≡ b)
same_text_iff [] [] = ground arith
same_text_iff [] (y ∷ ys) = ground arith
same_text_iff (x ∷ xs) [] = ground arith
same_text_iff (x ∷ xs) (y ∷ ys) = ground (arith, nat_eq.test_iff x y, same_text_iff xs ys)

instance abbrev pub text_eq : Keys Text
text_eq = record { same = same_text; test_iff = same_text_iff }

abbrev pub same_pair : Text × Text → Text × Text → Bool
same_pair p q = p.0 == q.0 && p.1 == q.1

pub same_pair_iff : (p q : Text × Text) → (same_pair p q ≡ true) ↔ (p ≡ q)
same_pair_iff p q = ground (arith, same_text_iff p.0 q.0, same_text_iff p.1 q.1)

instance abbrev pub pair_eq : Keys (Text × Text)
pair_eq = record { same = same_pair; test_iff = same_pair_iff }

-- `unicode.IsSpace`
unfoldable pub is_space : ℕ → Bool
is_space c =
    leb 9 c && leb c 13
    || c == 32
    || c == 0x85
    || c == 0xA0
    || c == 0x1680
    || leb 0x2000 c && leb c 0x200A
    || c == 0x2028
    || c == 0x2029
    || c == 0x202F
    || c == 0x205F
    || c == 0x3000

-- `strings.TrimLeftFunc(s, unicode.IsSpace)`
unfoldable pub trim_left : Text → Text
trim_left [] = []
trim_left (c ∷ s) = let rest = trim_left s in if is_space c then rest else c ∷ s

unfoldable pub trim_right : Text → Text
trim_right [] = []
trim_right (c ∷ s) =
    let rest = trim_right s in
    if is_space c then elim rest [ [] ↦ [] | d ∷ ds ↦ c ∷ d ∷ ds ] else c ∷ rest

-- `strings.TrimSpace`
abbrev pub trim : Text → Text
trim s = trim_left (trim_right s)

-- The first line, and the others.
abbrev pub onto_first : ℕ → List Text → List Text
onto_first c [] = (c ∷ []) ∷ []
onto_first c (line ∷ lines) = (c ∷ line) ∷ lines

-- `strings.Split(s, "\n")`
unfoldable pub split_lines : Text → List Text
split_lines [] = [] ∷ []
split_lines (c ∷ s) =
    let lines = split_lines s in if c == b'\n' then [] ∷ lines else onto_first c lines

-- `strings.Join(lines, "\n")`
unfoldable pub join_lines : List Text → Text
join_lines [] = []
join_lines (line ∷ []) = line
join_lines (line ∷ next ∷ lines) = line ++ (b'\n' ∷ join_lines (next ∷ lines))

-- The text up to the first space, and from there on.
unfoldable pub cut_space : Text → Text × Text
cut_space [] = ([], [])
cut_space (c ∷ s) =
    let rest = cut_space s in if is_space c then ([], c ∷ s) else (c ∷ rest.0, rest.1)

-- A text without line breaks.
abbrev pub OneLine : Text → Type 0
OneLine s = All (λ c. (c == b'\n') ≡ false) s

abbrev pub starts_word : Text → Bool
starts_word [] = false
starts_word (c ∷ s) = not (is_space c)

-- `strings.Fields`
unfoldable pub fields : Text → List Text
unfolding is_space
fields [] = []
fields (c ∷ s) =
    let words = fields s in
    if is_space c then words else if starts_word s then onto_first c words else (c ∷ []) ∷ words

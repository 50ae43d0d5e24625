-- ===== src/Config/Uci/Reading.antt =====
-- How a line that sets an option is read.
use openwrt_starwatch.Base.{ℕ, ◌≡◌, ◌≢◌, refl, Bool, true, false, not, ◌&&◌, [], ◌∷◌, ◌++◌, arith}
use openwrt_starwatch.Base.Effects.{All}
use openwrt_starwatch.Base.Maps.{nat_eq, ◌==◌}
use openwrt_starwatch.Base.Strings.{Text, text_eq, is_space, trim_left, trim_right, cut_space}
use openwrt_starwatch.Config.Uci.{quote_mark, replace_escapes, is_quoted, unquote, split_first}
use openwrt_starwatch.Config.Uci.Quoting.{starts_escape_plain}

-- A word: no space and no quote in it, and not empty.
abbrev pub is_word_char : ℕ → Bool
is_word_char c = not (is_space c) && not (c == quote_mark) && not (c == b'"')

abbrev pub IsWord : Text → Type 0
IsWord s = (s ≢ []) × All (λ c. is_word_char c ≡ true) s

abbrev pub Solid : Text → Type 0
Solid s = All (λ c. is_space c ≡ false) s

abbrev pub White : Text → Type 0
White s = All (λ c. is_space c ≡ true) s

pub Solid-of_word : (s : Text) → All (λ c. is_word_char c ≡ true) s → Solid s
Solid-of_word [] h = tt
Solid-of_word (c ∷ s) (h, k) = (ground (arith, h), Solid-of_word s k)

pub cut_space-Solid :
    (w : Text) (d : ℕ) (t : Text)
    → Solid w
    → is_space d ≡ true
    → cut_space (w ++ (d ∷ t)) ≡ (w, d ∷ t)
unfolding cut_space
cut_space-Solid [] d t h k = ground (arith, k)
cut_space-Solid (c ∷ w) d t (h, hs) k = ground (arith, h, cut_space-Solid w d t hs k)

pub trim_left-White :
    (white : Text) (c : ℕ) (s : Text)
    → White white
    → is_space c ≡ false
    → trim_left (white ++ (c ∷ s)) ≡ c ∷ s
unfolding trim_left
trim_left-White [] c s h k = ground (arith, k)
trim_left-White (d ∷ white) c s (h, hs) k = ground (arith, h, trim_left-White white c s hs k)

pub trim_right-Solid :
    (s : Text) (c : ℕ) → is_space c ≡ false → trim_right (s ++ (c ∷ [])) ≡ s ++ (c ∷ [])
unfolding trim_right
trim_right-Solid [] c k = ground (arith, k)
trim_right-Solid (d ∷ []) c k = ground (arith, trim_right-Solid [] c k)
trim_right-Solid (d ∷ e ∷ s) c k = ground (arith, trim_right-Solid (e ∷ s) c k)

pub split_first-Solid :
    (w : Text) (d : ℕ) (t : Text)
    → Solid w
    → is_space d ≡ false
    → split_first (w ++ (32 ∷ d ∷ t)) ≡ record { first = w; rest = d ∷ t; found = true }
unfolding split_first
split_first-Solid w d t h k = rw (
  split_first,
  cut_space-Solid w 32 (d ∷ t) h (unfold is_space in refl),
  trim_left-White (32 ∷ []) d t (unfold is_space in (refl, tt)) k,
)

replace_escapes_word : (s : Text) → All (λ c. is_word_char c ≡ true) s → replace_escapes 0 s ≡ s
unfolding replace_escapes
replace_escapes_word [] h = refl
replace_escapes_word (c ∷ s) (h, hs) =
    ground (arith, h, starts_escape_plain c s, replace_escapes_word s hs)

is_quoted_word : (s : Text) → All (λ c. is_word_char c ≡ true) s → is_quoted s ≡ false
is_quoted_word [] h = refl
is_quoted_word (c ∷ []) h = refl
is_quoted_word (c ∷ d ∷ s) (h, hs) = ground (arith, h)

pub unquote_word : (s : Text) → All (λ c. is_word_char c ≡ true) s → unquote s ≡ s
unfolding unquote
unquote_word s h = ground (arith, is_quoted_word s h, replace_escapes_word s h)

-- ===== src/Config/Apply/Steps/Clean.antt =====
-- The texts that an update writes: options that are words, and values of one line.
use openwrt_starwatch.Base.{
  ◌≡◌, refl, Bool, true, false, not, ◌&&◌, List, [], ◌∷◌, arith, if◌then◌else◌,
}
use openwrt_starwatch.Base.Effects.{All}
use openwrt_starwatch.Base.Maps.{nat_eq, ◌==◌}
use openwrt_starwatch.Base.Strings.{Text, text_eq, is_space, OneLine}
use openwrt_starwatch.Base.Text.{codes}
use openwrt_starwatch.Config.Uci.{is_empty}
use openwrt_starwatch.Config.Uci.Reading.{is_word_char, IsWord}
use openwrt_starwatch.Config.Rewrite.Lines.{OneLine-append}
use openwrt_starwatch.Config.Change.{
  print_bool, join_space, contains_break, threshold_option, hold_option,
}

abbrev pub WordChars : Text → Type 0
WordChars s = All (λ c. is_word_char c ≡ true) s

-- A test that computes for a fixed text.
abbrev pub all_word : Text → Bool
all_word [] = true
all_word (c ∷ s) = is_word_char c && all_word s

pub WordChars-of : (s : Text) → all_word s ≡ true → WordChars s
WordChars-of [] h = tt
WordChars-of (c ∷ s) h = (ground (arith, h), WordChars-of s (ground (arith, h)))

pub word : (s : Text) → is_empty s ≡ false → WordChars s → IsWord s
word [] e h = cc
word (c ∷ s) e h = (λ n. absurd (ground (arith, n)), h)

pub join_space-OneLine : (hosts : List Text) → All OneLine hosts → OneLine (join_space hosts)
unfolding join_space
join_space-OneLine [] h = tt
join_space-OneLine (host ∷ []) h = h.0
join_space-OneLine (host ∷ next ∷ hosts) h =
    OneLine-append host (32 ∷ join_space (next ∷ hosts)) h.0
      (refl, join_space-OneLine (next ∷ hosts) h.1)

pub contains_break-OneLine : (s : Text) → contains_break s ≡ false → OneLine s
unfolding contains_break
contains_break-OneLine [] h = tt
contains_break-OneLine (c ∷ s) h = (ground (arith, h), contains_break-OneLine s (ground (arith, h)))

pub print_bool-OneLine : (b : Bool) → OneLine (print_bool b)
print_bool-OneLine true = (refl, (refl, (refl, (refl, tt))))
print_bool-OneLine false = (refl, (refl, (refl, (refl, (refl, tt)))))

abbrev pub option_name : Text × Bool → Text
option_name p = p.0

WordChars-pair_if :
    (b : Bool) (p q : Text × Bool)
    → WordChars (option_name p)
    → WordChars (option_name q)
    → WordChars (option_name (if b then p else q))
WordChars-pair_if true p q h k = h
WordChars-pair_if false p q h k = k

pub WordChars-threshold_option :
    (name : Text) (second : Bool) → WordChars (option_name (threshold_option name second))
unfolding is_space
WordChars-threshold_option name second =
    WordChars-pair_if (name == codes "path_degraded") _ _
      (WordChars-pair_if second _ _ (WordChars-of (codes "path_rtt_ms") refl)
        (WordChars-of (codes "path_loss_percent") refl))
      (WordChars-pair_if (name == codes "obstruction_high" && not second) _ _
        (WordChars-of (codes "obstruction_percent") refl) tt)

WordChars-if : (b : Bool) (s t : Text) → WordChars s → WordChars t → WordChars (if b then s else t)
WordChars-if true s t h k = h
WordChars-if false s t h k = k

pub WordChars-hold_option : (name : Text) (clear : Bool) → WordChars (hold_option name clear)
unfolding is_space
WordChars-hold_option name clear =
    WordChars-if (clear && name == codes "path_degraded") (codes "path_clear_secs") _
      (WordChars-of (codes "path_clear_secs") refl)
      (WordChars-if (not clear && name == codes "outage_started") (codes "outage_started_secs") _
        (WordChars-of (codes "outage_started_secs") refl)
        (WordChars-if (not clear && name == codes "dish_unreachable")
          (codes "dish_unreachable_secs") [] (WordChars-of (codes "dish_unreachable_secs") refl)
          tt))

-- ===== src/Config/Apply/Steps/Values.antt =====
-- The option values that an update writes, section by section.
use mathlib.Core.Path.{subst}
use openwrt_starwatch.Base.{
  ◌≡◌, refl, true, false, List, [], ◌∷◌, Option, none, some, ℕ, arith, if◌then◌else◌, Bool-cases,
  inl, inr,
}
use openwrt_starwatch.Base.Int.{ℤ}
use openwrt_starwatch.Base.Effects.{All}
use openwrt_starwatch.Base.Maps.{lookup, insert, nat_eq, ◌==◌}
use openwrt_starwatch.Base.Strings.{Text, text_eq, is_space, OneLine}
use openwrt_starwatch.Base.Text.{codes}
use openwrt_starwatch.Config.Uci.{is_empty}
use openwrt_starwatch.Config.Uci.Reading.{IsWord}
use openwrt_starwatch.Config.Rewrite.Appended.{AreClean}
use openwrt_starwatch.Config.Settings.{Numbers, MainUpdate}
use openwrt_starwatch.Config.Change.{
  option_value, main_section, history_section, alerts_section, battery_section,
}
use openwrt_starwatch.Config.Apply.Steps.Clean.{all_word, WordChars, WordChars-of, word}

-- What `strconv` and `time` print has no line break.
pub record PrintsLines (num : Numbers) : Type 0 where
  pub int_line : (v : ℤ) → OneLine (num.print_int v)
  pub float_line : (v : num.floats.F) → OneLine (num.print_float v)
  pub time_line : (t : ℕ) → OneLine (num.print_time t)

-- The hosts of an update, where it has any, have no line break.
abbrev pub HostLines : Option MainUpdate → Type 0
HostLines none = Unit
HostLines (some u) = elim u.probe_hosts [ none ↦ Unit | some hosts ↦ All OneLine hosts ]

-- Names of rules that can stand in a UCI option.
abbrev pub WordNames {ℓ} : {V : Type ℓ} → List (Text × V) → Type 0
WordNames [] = Unit
WordNames (e ∷ m) = WordChars e.0 × WordNames m

pub WordNames-lookup {ℓ} :
    {V : Type ℓ} (key : Text) (value : V) (m : List (Text × V))
    → lookup key m ≡ some value
    → WordNames m
    → WordChars key
unfolding lookup
WordNames-lookup key value [] h w = cc
WordNames-lookup key value ((own, v) ∷ m) h (w, ws) = elim (Bool-cases (own == key)) [
  | inl same ↦ subst WordChars ((text_eq.test_iff own key).0 same) w
  | inr differs ↦ WordNames-lookup key value m (ground (arith, h, differs)) ws
]

pub WordNames-insert {ℓ} :
    {V : Type ℓ} (key : Text) (value : V) (m : List (Text × V))
    → WordChars key
    → WordNames m
    → WordNames (insert key value m)
unfolding insert
WordNames-insert key value [] w ws = (w, tt)
WordNames-insert key value ((own, v) ∷ m) w (h, hs) =
    elim (own == key)
      as (λ b. WordNames (if b then (key, value) ∷ m else (own, v) ∷ insert key value m)) [
        | true ↦ (w, hs)
        | false ↦ (h, WordNames-insert key value m w hs)
      ]

pub clean_value :
    (section : Text × Text) (option value : Text)
    → IsWord section.0
    → OneLine section.1
    → IsWord option
    → OneLine value
    → AreClean (option_value section option value)
clean_value section option value s n o v =
    (record { option_word = o; section_word = s; name_line = n; value_line = v }, tt)

pub fixed-IsWord : (s : Text) → is_empty s ≡ false → all_word s ≡ true → IsWord s
fixed-IsWord s e h = word s e (WordChars-of s h)

pub clean_main :
    (option value : Text)
    → is_empty option ≡ false
    → all_word option ≡ true
    → OneLine value
    → AreClean (option_value main_section option value)
unfolding is_space
clean_main option value e h v =
    clean_value main_section option value (fixed-IsWord (codes "starwatch") refl refl)
      (refl, (refl, (refl, (refl, tt)))) (fixed-IsWord option e h) v

pub clean_history :
    (option value : Text)
    → is_empty option ≡ false
    → all_word option ≡ true
    → OneLine value
    → AreClean (option_value history_section option value)
unfolding is_space
clean_history option value e h v =
    clean_value history_section option value (fixed-IsWord (codes "history") refl refl) tt
      (fixed-IsWord option e h) v

pub clean_alerts :
    (option value : Text)
    → is_empty option ≡ false
    → all_word option ≡ true
    → OneLine value
    → AreClean (option_value alerts_section option value)
unfolding is_space
clean_alerts option value e h v =
    clean_value alerts_section option value (fixed-IsWord (codes "alerts") refl refl) tt
      (fixed-IsWord option e h) v

pub clean_battery :
    (option value : Text)
    → is_empty option ≡ false
    → all_word option ≡ true
    → OneLine value
    → AreClean (option_value battery_section option value)
unfolding is_space
clean_battery option value e h v =
    clean_value battery_section option value (fixed-IsWord (codes "battery") refl refl) tt
      (fixed-IsWord option e h) v

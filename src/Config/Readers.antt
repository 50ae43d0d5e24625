-- ===== src/Config/Readers.antt =====
-- How `Load` of router/internal/config/config.go reads an option: `parseInt`, `parseSeconds`, `parseBool`,
-- `parseFloat` and `parseBatteryNumber`.
use openwrt_starwatch.Base.{
  ℕ, zero, suc, ◌/◌, Bool, true, not, ◌&&◌, List, [], ◌∷◌, Option, none, some, if◌then◌else◌,
}
use openwrt_starwatch.Base.Int.{ℤ, pos, negsuc, ltb_ℤ}
use openwrt_starwatch.Base.Maps.{lookup}
use openwrt_starwatch.Base.Strings.{Text, text_eq, pair_eq}
use openwrt_starwatch.Config.Uci.{Section, Failure, is_empty}
use openwrt_starwatch.Config.Settings.{Numbers, of_seconds, nanoseconds}

pub data Problem : Type 0 where
  bad_file : Failure → Problem
  bad_option : Text → Problem

pub data Loaded {ℓ} (A : Type ℓ) : Type ℓ where
  failed : Problem → Loaded A
  loaded : A → Loaded A

-- `section.Options[option]`, empty where there is none.
unfoldable pub text_of : Section → Text → Text
unfolding lookup
text_of s option = elim (lookup option s.options) [ none ↦ [] | some v ↦ v ]

-- The text of an option, where it is not empty; else the old value.
unfoldable pub read_option {ℓ} : {A : Type ℓ} → Section → Text → A → (Text → Loaded A) → Loaded A
unfolding text_of
read_option s option old read =
    let value = text_of s option in if is_empty value then loaded old else read value

-- A value that is read and passes its test.
abbrev pub tested {ℓ} : {A : Type ℓ} → Text → (A → Bool) → Option A → Loaded A
tested option test none = failed (bad_option option)
tested option test (some v) = if test v then loaded v else failed (bad_option option)

abbrev pub no_test {ℓ} : {A : Type ℓ} → A → Bool
no_test v = true

-- `int(d.Seconds())`
abbrev pub to_seconds : ℤ → ℤ
to_seconds (pos n) = pos (n / nanoseconds)
to_seconds (negsuc n) = elim (suc n / nanoseconds) [ zero ↦ pos 0 | suc m ↦ negsuc m ]

unfoldable pub then_loaded {ℓ κ} : {A : Type ℓ} {B : Type κ} → Loaded A → (A → B) → Loaded B
then_loaded (failed e) f = failed e
then_loaded (loaded v) f = loaded (f v)

abbrev pub in_range : ℕ → ℕ → ℤ → Bool
in_range low high v = not (ltb_ℤ v (pos low)) && not (ltb_ℤ (pos high) v)

abbrev pub year_seconds : ℕ
year_seconds = 31536000

unfoldable pub run_loads {ℓ} : {A : Type ℓ} → List (A → Loaded A) → A → Loaded A
run_loads [] a = loaded a
run_loads (step ∷ steps) a = elim (step a) [ failed e ↦ failed e | loaded b ↦ run_loads steps b ]

module _ (num : Numbers) where
  open num use {
    floats, lt, finite, of_ℕ, times, decimal, read_float, read_int, read_bool, read_time,
  }
  open floats use {F}

  abbrev pub parse_int : Section → Text → ℕ → ℕ → ℤ → Loaded ℤ
  parse_int s option low high old =
      read_option s option old (λ v. tested option (in_range low high) (read_int v))

  abbrev pub parse_seconds : Section → Text → ℤ → Loaded ℤ
  parse_seconds s option old =
      then_loaded (parse_int s option 1 year_seconds (to_seconds old)) of_seconds

  abbrev pub parse_bool : Section → Text → Bool → Loaded Bool
  parse_bool s option old = read_option s option old (λ v. tested option no_test (read_bool v))

  abbrev pub parse_float : Section → Text → ℕ → ℕ → F → F → Loaded F
  parse_float s option low high scale old = read_option s option old (λ v.
      then_loaded
        (tested option (λ f. not (lt f (of_ℕ low)) && not (lt (of_ℕ high) f)) (read_float v))
        (λ f. times f scale))

  -- The test of `parseBatteryNumber`.
  abbrev pub battery_number : ℕ → ℕ → Bool → F → Bool
  battery_number low high exclusive f =
      finite f
      && not (lt f (of_ℕ low))
      && not (exclusive && not (lt (of_ℕ low) f))
      && not (lt (of_ℕ high) f)

  abbrev pub parse_battery_number : Section → Text → ℕ → ℕ → Bool → F → Loaded F
  parse_battery_number s option low high exclusive old =
      read_option s option old
        (λ v. tested option (battery_number low high exclusive) (read_float v))

  abbrev pub parse_text : Section → Text → Text → Loaded Text
  parse_text s option old = read_option s option old (λ v. loaded v)

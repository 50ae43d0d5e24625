-- ===== src/Config/Manager/Unary.antt =====
-- Numbers that are printed in unary, for the tests of the manager.
use openwrt_starwatch.Base.{
  ℕ, zero, suc, ◌+◌, ◌*◌, ◌≡◌, refl, ap, true, false, [], ◌∷◌, Option, none, some, if◌then◌else◌,
  length, ltb, arith,
}
use openwrt_starwatch.Base.Int.{ℤ, pos, negsuc}
use openwrt_starwatch.Base.Maps.{nat_eq, ◌==◌}
use openwrt_starwatch.Base.Strings.{Text, text_eq, OneLine}
use openwrt_starwatch.Alert.Engine.{Floats}
use openwrt_starwatch.Config.Uci.{is_empty}
use openwrt_starwatch.Config.Settings.{Numbers}
use openwrt_starwatch.Config.Apply.Steps.Values.{PrintsLines}
use openwrt_starwatch.Config.Manager.Reload.{ReadsPrinted}

abbrev pub ones : ℕ → Text
ones zero = []
ones (suc n) = b'1' ∷ ones n

abbrev pub print_unary : ℤ → Text
print_unary (pos n) = b'+' ∷ ones n
print_unary (negsuc n) = b'-' ∷ ones n

abbrev pub read_unary : Text → Option ℤ
read_unary [] = none
read_unary (c ∷ s) = if c == b'+' then some (pos (length s)) else some (negsuc (length s))

pub length-ones : (n : ℕ) → length (ones n) ≡ n
length-ones zero = refl
length-ones (suc n) = ground (arith, length-ones n)

pub read-print : (v : ℤ) → read_unary (print_unary v) ≡ some v
read-print (pos n) = ap (λ m. some (pos m)) (length-ones n)
read-print (negsuc n) = ap (λ m. some (negsuc m)) (length-ones n)

pub OneLine-ones : (n : ℕ) → OneLine (ones n)
OneLine-ones zero = tt
OneLine-ones (suc n) = (refl, OneLine-ones n)

pub OneLine-print : (v : ℤ) → OneLine (print_unary v)
OneLine-print (pos n) = (refl, OneLine-ones n)
OneLine-print (negsuc n) = (refl, OneLine-ones n)

abbrev pub nats : Floats
nats = record {
  F = ℕ;
  gt = λ a b. ltb b a;
  zero_float = 0;
  add_float = λ a b. a + b;
  div_float = λ a b. a;
  of_count = λ n. n;
  narrow = λ a. a;
  widen = λ a. a;
}

abbrev pub unary : Numbers
unary = record {
  floats = nats;
  lt = ltb;
  finite = λ a. true;
  of_ℕ = λ n. n;
  decimal = λ m d. m;
  times = λ a b. a * b;
  print_float = ones;
  read_float = λ s. some (length s);
  print_int = print_unary;
  read_int = read_unary;
  read_bool = λ s. some true;
  print_time = ones;
  read_time = λ s. some (length s);
}

pub prints : PrintsLines unary
prints = record { int_line = OneLine-print; float_line = OneLine-ones; time_line = OneLine-ones }

pub nonempty : (v : ℤ) → is_empty (print_unary v) ≡ false
nonempty (pos n) = refl
nonempty (negsuc n) = refl

pub reads : ReadsPrinted unary
reads = record { read_printed = read-print; printed = nonempty }

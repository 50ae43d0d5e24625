-- ===== src/Wan/Discovery/Bits.antt =====
-- The words of a route: their bytes in the other order, and the bits that are set.
use openwrt_starwatch.Base.{
  ℕ, zero, suc, ◌+◌, ◌-◌, ◌*◌, ◌/◌, ◌%◌, ◌^◌, ◌<◌, ◌≤◌, ◌≡◌, refl, ap, sym, ◌∙◌, true, false, arith,
  inl, inr, Bool-cases,
}
use openwrt_starwatch.Base.Maps.{nat_eq, ◌==◌}
use openwrt_starwatch.Wan.Discovery.{swap_bytes, and_word, count_bits}

-- The byte `i` of a word, from the lowest.
abbrev pub byte : ℕ → ℕ → ℕ
byte n i = n / 256 ^ i % 256

swapped_byte : (n i : ℕ) → n < 2 ^ 32 → i < 4 → byte (swap_bytes n) i ≡ byte n (3 - i)
unfolding swap_bytes
swapped_byte n zero h k = omega arith
swapped_byte n (suc zero) h k = omega arith
swapped_byte n (suc (suc zero)) h k = omega arith
swapped_byte n (suc (suc (suc zero))) h k = omega arith
swapped_byte n (suc (suc (suc (suc i)))) h k = absurd (omega (arith, k))

-- The four bytes of a word are put in the opposite order: the byte `i` of the result is the byte
-- `3 - i` of the word, and the order is restored a second time.
pub swap_bytes-swap_bytes :
    (n i : ℕ)
    → n < 2 ^ 32
    → i < 4
    → (byte (swap_bytes n) i ≡ byte n (3 - i)) × (swap_bytes (swap_bytes n) ≡ n)
unfolding swap_bytes
swap_bytes-swap_bytes n i h k = (swapped_byte n i h k, (grind arith))

-- The bits that are set among the lowest.
unfoldable pub ones : ℕ → ℕ → ℕ
ones zero v = 0
ones (suc w) v = v % 2 + ones w (v / 2)

ones-le : (w v : ℕ) → ones w v ≤ w
unfolding ones
ones-le zero v = omega arith
ones-le (suc w) v = grind (arith, ones-le w (v / 2))

and_word_self : (w v : ℕ) → v < 2 ^ w → and_word w v v ≡ v
unfolding and_word
and_word_self zero v h = grind arith
and_word_self (suc w) v h = grind (arith, and_word_self w (v / 2))

-- A number and the one before it are not both odd.
and_word_pred :
    (w v : ℕ) → 0 < v → and_word (suc w) v (v - 1) ≡ 2 * and_word w (v / 2) ((v - 1) / 2)
unfolding and_word
and_word_pred w v k = ground (arith, v / 2, v % 2)

ones_double : (w x : ℕ) → ones (suc w) (2 * x) ≡ ones w x
unfolding ones
ones_double w x =
    ap (λ a. a + ones w (2 * x / 2)) {x = 2 * x % 2} {y = 0} (omega arith)
    ∙ ap (λ b. 0 + ones w b) {x = 2 * x / 2} {y = x} (omega arith)
    ∙ omega arith

half_pred : (v : ℕ) → (v % 2 == 1) ≡ true → (v - 1) / 2 ≡ v / 2
half_pred v odd = ground (arith, v % 2, v / 2, (v - 1) / 2)

half_pred_even : (v : ℕ) → (v % 2 == 1) ≡ false → 0 < v → (v - 1) / 2 ≡ v / 2 - 1
half_pred_even v even k = ground (arith, v % 2, v / 2, (v - 1) / 2)

ones_and : (w v : ℕ) → v < 2 ^ w → 0 < v → ones w (and_word w v (v - 1)) + 1 ≡ ones w v
unfolding ones
ones_and zero v h k = absurd (grind arith)
ones_and (suc w) v h k = elim (Bool-cases (v % 2 == 1)) [
  | inl odd ↦ ground (
    arith,
    and_word_pred w v k,
    ones_double w (and_word w (v / 2) ((v - 1) / 2)),
    half_pred v odd,
    and_word_self w (v / 2) (grind arith),
  )
  | inr even ↦ ground (
    arith,
    and_word_pred w v k,
    ones_double w (and_word w (v / 2) ((v - 1) / 2)),
    half_pred_even v even k,
    ones_and w (v / 2) (grind arith) (ground (arith, v % 2)),
  )
]

and_word-lt : (w a b : ℕ) → and_word w a b < 2 ^ w
unfolding and_word
and_word-lt zero a b = omega arith
and_word-lt (suc w) a b = grind (arith, and_word-lt w (a / 2) (b / 2))

ones_zero : (w v : ℕ) → v < 2 ^ w → ones w v ≡ 0 → v ≡ 0
unfolding ones
ones_zero zero v h e = grind arith
ones_zero (suc w) v h e = grind (arith, ones_zero w (v / 2))

ones_of_zero : (w : ℕ) → ones w 0 ≡ 0
unfolding ones
ones_of_zero zero = refl
ones_of_zero (suc w) = omega (arith, ones_of_zero w)

count_none : (v : ℕ) → count_bits 0 v ≡ 0
unfolding count_bits
count_none v = refl

count_stop : (fuel v : ℕ) → (v == 0) ≡ true → count_bits (suc fuel) v ≡ 0
unfolding count_bits
count_stop fuel v h = rw (count_bits, h)

count_step :
    (fuel v : ℕ)
    → (v == 0) ≡ false
    → count_bits (suc fuel) v ≡ suc (count_bits fuel (and_word 32 v (v - 1)))
unfolding count_bits
count_step fuel v h = rw (count_bits, h)

count_bits-ones : (fuel v : ℕ) → v < 2 ^ 32 → ones 32 v ≤ fuel → count_bits fuel v ≡ ones 32 v
count_bits-ones zero v h k = count_none v ∙ omega (arith, k)
count_bits-ones (suc fuel) v h k = elim (Bool-cases (v == 0)) [
  | inl none_set ↦
      count_stop fuel v none_set
      ∙ sym (ap (ones 32) {x = v} {y = 0} (ground (arith, none_set)) ∙ ones_of_zero 32)
  | inr some_set ↦
      let fewer = ones_and 32 v h (ground (arith, some_set)) in
      count_step fuel v some_set
      ∙ ap suc (
          count_bits-ones fuel (and_word 32 v (v - 1)) (and_word-lt 32 v (v - 1))
            (omega (arith, fewer, k)))
      ∙ omega (arith, fewer)
]

-- For a 32-bit word, 32 rounds of the loop that clears the lowest bit set are enough, and count the
-- bits that are set.
pub count_bits_lem : (v : ℕ) → v < 2 ^ 32 → count_bits 32 v ≡ ones 32 v
count_bits_lem v h = count_bits-ones 32 v h (ones-le 32 v)

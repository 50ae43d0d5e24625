-- ===== src/Wan/Discovery.antt =====
-- router/internal/wan/discovery.go: the interface of the route to the dish.
-- A line of the route file is the list of its fields (`strings.Fields`). What the other packages
-- answer is an argument: `parse` for a hexadecimal word (`strconv.ParseUint` with 32 bits). The file is
-- none where it cannot be opened. An address that is not an IPv4 address is none.
pub mod Longest
pub mod Bits
use openwrt_starwatch.Base.{
  ℕ, zero, suc, ◌+◌, ◌-◌, ◌*◌, ◌/◌, ◌%◌, ◌^◌, ◌≡◌, Bool, true, false, not, ◌&&◌, ◌||◌, List, [],
  ◌∷◌, Option, none, some, String, ltb, leb, length, get_or, if◌then◌else◌,
}
use openwrt_starwatch.Base.Int.{ℤ, pos, negsuc, ltb_ℤ}
use openwrt_starwatch.Base.Maps.{nat_eq, string_eq, ◌==◌}

-- `number>>24 | number>>8&0x0000ff00 | number<<8&0x00ff0000 | number<<24` on a 32-bit word: the four
-- parts have no bit in common, so `|` adds them.
unfoldable pub swap_bytes : ℕ → ℕ
swap_bytes n =
    n / 2 ^ 24 % 256 + n / 2 ^ 16 % 256 * 2 ^ 8 + n / 2 ^ 8 % 256 * 2 ^ 16 + n % 256 * 2 ^ 24

-- `&` on words of so many bits.
unfoldable pub and_word : ℕ → ℕ → ℕ → ℕ
and_word zero a b = 0
and_word (suc w) a b = (if a % 2 == 1 && b % 2 == 1 then 1 else 0) + 2 * and_word w (a / 2) (b / 2)

-- `for value := mask; value != 0; value &= value - 1 { bits++ }`, for so many rounds at most.
unfoldable pub count_bits : ℕ → ℕ → ℕ
unfolding and_word
count_bits zero value = 0
count_bits (suc fuel) value = elim (value == 0) [
  | true ↦ 0
  | false ↦ suc (count_bits fuel (and_word 32 value (value - 1)))
]

module _ (parse : String → Option ℕ) where
  unfoldable pub route_hex : String → Option ℕ
  unfolding swap_bytes
  route_hex value = elim (parse value) [ none ↦ none | some n ↦ some (swap_bytes n) ]

  -- A line that is read: its interface, and the number of bits of its mask. The others are skipped.
  unfoldable pub route_of : ℕ → List String → Option (String × ℕ)
  unfolding route_hex count_bits and_word
  route_of address fields =
      if ltb (length fields) 8 || get_or fields 0 "" == "Iface"
      then none
      else elim (route_hex (get_or fields 1 "")) [
        | none ↦ none
        | some destination ↦ elim (route_hex (get_or fields 7 "")) [
          | none ↦ none
          | some mask ↦
              if and_word 32 address mask == destination
              then some (get_or fields 0 "", count_bits 32 mask)
              else none
        ]
      ]

  -- The loop over the lines, with the best route so far.
  unfoldable pub scan : ℕ → List (List String) → String → ℤ → String
  unfolding route_of
  scan address [] best_name best_bits = best_name
  scan address (line ∷ lines) best_name best_bits = elim (route_of address line) [
    | none ↦ scan address lines best_name best_bits
    | some route ↦
        let better = scan address lines route.0 (pos route.1) in
        let same = scan address lines best_name best_bits in
        if ltb_ℤ best_bits (pos route.1) then better else same
  ]

  unfoldable pub route_interface : Option (List (List String)) → ℕ → String
  unfolding scan
  route_interface none address = ""
  route_interface (some lines) address = scan address lines "" (negsuc 0)

  -- `wan_exists`: the directory of the interface "wan" is there.
  unfoldable pub discover_interface :
      String → Option ℕ → Option (List (List String)) → Bool → String
  unfolding route_interface
  discover_interface override address file wan_exists =
      let name : String = elim address [ none ↦ "" | some a ↦ route_interface file a ] in
      if not (override == "")
      then override
      else if not (name == "")
      then name
      else if wan_exists
      then "wan"
      else ""

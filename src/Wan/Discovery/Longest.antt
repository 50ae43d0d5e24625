-- ===== src/Wan/Discovery/Longest.antt =====
-- `routeInterface` takes the first of the longest routes that match.
use openwrt_starwatch.Base.{
  ℕ, ◌≡◌, refl, ap, ap₂, sym, ◌∙◌, true, List, [], ◌∷◌, Option, none, some, String, ltb,
  if◌then◌else◌, arith, Option-cases, inl, inr,
}
use openwrt_starwatch.Base.Int.{ℤ, pos, negsuc, ltb_ℤ}
use openwrt_starwatch.Base.Maps.{nat_eq, string_eq, ◌==◌}
use openwrt_starwatch.Wan.Discovery.{route_of, scan, route_interface}

module _ (parse : String → Option ℕ) where
  -- The routes that match an address, in the file's order.
  abbrev pub matching : ℕ → List (List String) → List (String × ℕ)
  matching address [] = []
  matching address (line ∷ lines) = elim (route_of parse address line) [
    | none ↦ matching address lines
    | some route ↦ route ∷ matching address lines
  ]

  abbrev pub longest : List (String × ℕ) → ℕ
  longest [] = 0
  longest (r ∷ rs) = if ltb (longest rs) r.1 then r.1 else longest rs

  -- The first route of a length.
  abbrev pub first_of : ℕ → List (String × ℕ) → Option String
  first_of bits [] = none
  first_of bits (r ∷ rs) = if r.1 == bits then some r.0 else first_of bits rs

  abbrev pub or_none : Option String → String
  or_none none = ""
  or_none (some name) = name

  -- What a scan over these routes gives, from the best one so far.
  abbrev best : List (String × ℕ) → String → ℕ → String
  best rs name bits = if ltb bits (longest rs) then or_none (first_of (longest rs) rs) else name

  best_cons :
      (r : String × ℕ) (rs : List (String × ℕ)) (name : String) (bits : ℕ)
      → best (r ∷ rs) name bits ≡ (if ltb bits r.1 then best rs r.0 r.1 else best rs name bits)
  best_cons r rs name bits = ground arith

  best_first :
      (r : String × ℕ) (rs : List (String × ℕ))
      → or_none (first_of (longest (r ∷ rs)) (r ∷ rs)) ≡ best rs r.0 r.1
  best_first r rs = ground arith

  scan_line :
      (address : ℕ) (line : List String) (lines : List (List String)) (name : String) (bits : ℤ)
      (o : Option (String × ℕ))
      → route_of parse address line ≡ o
      → scan parse address (line ∷ lines) name bits ≡ elim o [
        | none ↦ scan parse address lines name bits
        | some r ↦
            if ltb_ℤ bits (pos r.1)
            then scan parse address lines r.0 (pos r.1)
            else scan parse address lines name bits
      ]
  unfolding scan
  scan_line address line lines name bits o h = rw (scan, h)

  matching_line :
      (address : ℕ) (line : List String) (lines : List (List String)) (o : Option (String × ℕ))
      → route_of parse address line ≡ o
      → matching address (line ∷ lines)
        ≡ elim o [ none ↦ matching address lines | some r ↦ r ∷ matching address lines ]
  matching_line address line lines o h = rw (matching, h)

  ltb_pos : (a b : ℕ) → ltb_ℤ (pos a) (pos b) ≡ ltb a b
  ltb_pos a b = ground arith

  ltb_negative : (b : ℕ) → ltb_ℤ (negsuc 0) (pos b) ≡ true
  ltb_negative b = ground arith

  scan_from :
      (address : ℕ) (lines : List (List String)) (name : String) (bits : ℕ)
      → scan parse address lines name (pos bits) ≡ best (matching address lines) name bits
  unfolding scan
  scan_from address [] name bits = ground arith
  scan_from address (line ∷ lines) name bits = elim (Option-cases (route_of parse address line)) [
    | inl skipped ↦
        scan_line address line lines name (pos bits) none skipped
        ∙ scan_from address lines name bits
        ∙ ap (λ rs. best rs name bits) (sym (matching_line address line lines none skipped))
    | inr (r, matched) ↦
        scan_line address line lines name (pos bits) (some r) matched
        ∙ ap
            (λ t.
              if t
              then scan parse address lines r.0 (pos r.1)
              else scan parse address lines name (pos bits))
            (ltb_pos bits r.1)
        ∙ ap₂ (λ a b. if ltb bits r.1 then a else b) (scan_from address lines r.0 r.1)
            (scan_from address lines name bits)
        ∙ sym (best_cons r (matching address lines) name bits)
        ∙ ap (λ rs. best rs name bits) (sym (matching_line address line lines (some r) matched))
  ]

  scan_start :
      (address : ℕ) (lines : List (List String))
      → scan parse address lines "" (negsuc 0)
        ≡ or_none (first_of (longest (matching address lines)) (matching address lines))
  unfolding scan
  scan_start address [] = refl
  scan_start address (line ∷ lines) = elim (Option-cases (route_of parse address line)) [
    | inl skipped ↦
        scan_line address line lines "" (negsuc 0) none skipped
        ∙ scan_start address lines
        ∙ ap (λ rs. or_none (first_of (longest rs) rs))
            (sym (matching_line address line lines none skipped))
    | inr (r, matched) ↦
        scan_line address line lines "" (negsuc 0) (some r) matched
        ∙ ap
            (λ t.
              if t
              then scan parse address lines r.0 (pos r.1)
              else scan parse address lines "" (negsuc 0))
            (ltb_negative r.1)
        ∙ scan_from address lines r.0 r.1
        ∙ sym (best_first r (matching address lines))
        ∙ ap (λ rs. or_none (first_of (longest rs) rs))
            (sym (matching_line address line lines (some r) matched))
  ]

  -- The interface found is that of the first of the matching routes whose masks have the most bits;
  -- none is found if no route matches.
  pub route_interface_lem :
      (address : ℕ) (lines : List (List String))
      → route_interface parse (some lines) address
        ≡ or_none (first_of (longest (matching address lines)) (matching address lines))
  unfolding route_interface
  route_interface_lem address lines = scan_start address lines

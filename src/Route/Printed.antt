-- ===== src/Route/Printed.antt =====
-- The lines that `ip` prints for a route, and what the program reads from them.
use openwrt_starwatch.Base.{
  ℕ, ◌≡◌, refl, ap, ◌∙◌, true, false, ◌&&◌, List, [], ◌∷◌, ◌++◌, append_assoc, if◌then◌else◌, arith,
  Bool-cases, inl, inr,
}
use openwrt_starwatch.Base.Effects.{All}
use openwrt_starwatch.Base.Maps.{nat_eq, ◌==◌}
use openwrt_starwatch.Base.Strings.{
  Text, text_eq, is_space, trim, trim_left, trim_right, fields, starts_word, onto_first, OneLine,
}
use openwrt_starwatch.Base.Text.{codes}
use openwrt_starwatch.Config.Uci.{is_empty}
use openwrt_starwatch.Config.Uci.Reading.{Solid}
use openwrt_starwatch.Config.Rewrite.Lines.{split_lines-line}
use openwrt_starwatch.Route.{DesiredRoute, route_matches, route_words, is_dish_word}

-- Words, each with a space after it.
abbrev pub spaced : List Text → Text
spaced [] = []
spaced (w ∷ ws) = w ++ 32 ∷ spaced ws

-- A line as `ip` prints it.
abbrev pub printed : List Text → Text
printed ws = spaced ws ++ codes "\n"

-- A text without blanks that is not empty.
abbrev pub IsWord : Text → Type 0
IsWord w = (is_empty w ≡ false) × Solid w

is_space_blank : is_space 32 ≡ true
unfolding is_space
is_space_blank = refl

is_space_break : is_space b'\n' ≡ true
unfolding is_space
is_space_break = refl

fields_blank : (c : ℕ) (s : Text) → is_space c ≡ true → fields (c ∷ s) ≡ fields s
unfolding fields
fields_blank c s h = rw (fields, h)

fields_solid :
    (c : ℕ) (s : Text)
    → is_space c ≡ false
    → fields (c ∷ s) ≡ (if starts_word s then onto_first c (fields s) else (c ∷ []) ∷ fields s)
unfolding fields
fields_solid c s h = rw (fields, h)

fields_word : (w s : Text) → IsWord w → fields (w ++ 32 ∷ s) ≡ w ∷ fields s
fields_word [] s h = cc
fields_word (c ∷ []) s h =
    fields_solid c (32 ∷ s) h.1.0 ∙ ground (arith, is_space_blank, fields_blank 32 s is_space_blank)
fields_word (c ∷ d ∷ w) s h =
    fields_solid c (d ∷ (w ++ 32 ∷ s)) h.1.0
    ∙ ground (arith, h.1.1.0, fields_word (d ∷ w) s (refl, h.1.1))

fields_break : fields (codes "\n") ≡ []
unfolding fields is_space
fields_break = refl

-- The words of a printed line.
fields-printed : (ws : List Text) → All IsWord ws → fields (printed ws) ≡ ws
fields-printed [] h = fields_break
fields-printed (w ∷ ws) h =
    ap fields (append_assoc w (32 ∷ spaced ws) (codes "\n"))
    ∙ fields_word w (printed ws) h.0
    ∙ ap (λ l. w ∷ l) (fields-printed ws h.1)

fields-trim_left : (s : Text) → fields (trim_left s) ≡ fields s
unfolding trim_left
fields-trim_left [] = refl
fields-trim_left (c ∷ s) = elim (Bool-cases (is_space c)) [
  | inl blank ↦ ground (arith, blank, fields_blank c s blank, fields-trim_left s)
  | inr solid ↦ ground (arith, solid)
]

starts_word-trim_right : (s : Text) → starts_word (trim_right s) ≡ starts_word s
unfolding trim_right
starts_word-trim_right [] = refl
starts_word-trim_right (c ∷ s) = ground arith

fields_none : fields [] ≡ []
unfolding fields
fields_none = refl

fields-trim_right : (s : Text) → fields (trim_right s) ≡ fields s
unfolding trim_right
fields-trim_right [] = refl
fields-trim_right (c ∷ s) = elim (Bool-cases (is_space c)) [
  | inl blank ↦ ground (
    arith,
    blank,
    fields_none,
    fields_blank c s blank,
    fields_blank c (trim_right s) blank,
    fields-trim_right s,
  )
  | inr solid ↦ ground (
    arith,
    solid,
    fields_solid c s solid,
    fields_solid c (trim_right s) solid,
    fields-trim_right s,
    starts_word-trim_right s,
  )
]

OneLine-trim_left : (s : Text) → OneLine s → OneLine (trim_left s)
unfolding trim_left
OneLine-trim_left [] h = tt
OneLine-trim_left (c ∷ s) h = ground (arith, OneLine-trim_left s h.1)

-- The break at the end of a line is trimmed.
OneLine-trim_right : (s : Text) → OneLine s → OneLine (trim_right (s ++ codes "\n"))
unfolding trim_right
OneLine-trim_right [] h = ground (arith, is_space_break)
OneLine-trim_right (c ∷ s) h = ground (arith, OneLine-trim_right s h.1)

no_break : (c : ℕ) → is_space c ≡ false → (c == b'\n') ≡ false
no_break c h = ground (arith, h, is_space_break, nat_eq.test_iff c b'\n')

OneLine-word : (w s : Text) → Solid w → OneLine s → OneLine (w ++ 32 ∷ s)
OneLine-word [] s h k = (refl, k)
OneLine-word (c ∷ w) s h k = (no_break c h.0, OneLine-word w s h.1 k)

OneLine-spaced : (ws : List Text) → All IsWord ws → OneLine (spaced ws)
OneLine-spaced [] h = tt
OneLine-spaced (w ∷ ws) h = OneLine-word w (spaced ws) h.0.1 (OneLine-spaced ws h.1)

-- What `routeMatches` finds in a printed line.
pub route_matches-printed :
    (ws : List Text) (d : DesiredRoute)
    → All IsWord ws
    → route_matches (printed ws) d ≡ (
        is_dish_word ws
        && ((route_words ws (record { device = []; gateway = [] })).device == d.device
            && (route_words ws (record { device = []; gateway = [] })).gateway == d.gateway))
unfolding route_matches
route_matches-printed ws d h =
    let line = trim (printed ws) in
    let one =
      OneLine-trim_left (trim_right (printed ws))
        (OneLine-trim_right (spaced ws) (OneLine-spaced ws h)) in
    let words : fields line ≡ ws =
      fields-trim_left (trim_right (printed ws))
      ∙ fields-trim_right (printed ws)
      ∙ fields-printed ws h in
    rw (route_matches, split_lines-line line one, words)

-- A name that `ip` prints after `via` or `dev`: a word, and neither of these two.
abbrev pub IsName : Text → Type 0
IsName w = IsWord w × ((w == codes "via") ≡ false) × ((w == codes "dev") ≡ false)

abbrev pub via_line : Text → Text → List Text
via_line gateway device = codes "192.168.100.1" ∷ codes "via" ∷ gateway ∷ codes "dev" ∷ device ∷ []

abbrev pub link_line : Text → List Text
link_line device = codes "192.168.100.1" ∷ codes "dev" ∷ device ∷ codes "scope" ∷ codes "link" ∷ []

via_words :
    (gateway device : Text)
    → IsName gateway
    → (route_words (via_line gateway device) (record { device = []; gateway = [] }))
      ≡ record { device = device; gateway = gateway }
unfolding route_words
via_words gateway device g = ground (arith, g.1, g.2)

link_words :
    (device : Text)
    → IsName device
    → (route_words (link_line device) (record { device = []; gateway = [] }))
      ≡ record { device = device; gateway = [] }
unfolding route_words
link_words device d = ground (arith, d.1, d.2)

via_AreWords :
    (gateway device : Text) → IsName gateway → IsName device → All IsWord (via_line gateway device)
unfolding is_space
via_AreWords gateway device g d = ground (arith, g.0, d.0)

link_AreWords : (device : Text) → IsName device → All IsWord (link_line device)
unfolding is_space
link_AreWords device d = ground (arith, d.0)

pub via_matches :
    (gateway device : Text)
    → IsName gateway
    → IsName device
    → route_matches
        (printed (via_line gateway device))
        (record { device = device; gateway = gateway })
      ≡ true
via_matches gateway device g d =
    route_matches-printed (via_line gateway device) (record { device = device; gateway = gateway })
      (via_AreWords gateway device g d)
    ∙ ground (
      arith,
      via_words gateway device g,
      text_eq.test_iff device device,
      text_eq.test_iff gateway gateway,
    )

pub link_matches :
    (device : Text)
    → IsName device
    → route_matches (printed (link_line device)) (record { device = device; gateway = [] }) ≡ true
link_matches device d =
    route_matches-printed (link_line device) (record { device = device; gateway = [] })
      (link_AreWords device d)
    ∙ ground (arith, link_words device d, text_eq.test_iff device device)

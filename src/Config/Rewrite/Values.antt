-- ===== src/Config/Rewrite/Values.antt =====
-- The line that `RewriteUCI` writes for an update, as `ParseUCI` and `RewriteUCI` read it.
use mathlib.Core.Path.{subst}
use openwrt_starwatch.Base.{
  ℕ, ◌≡◌, refl, sym, ap, ◌∙◌, Bool, true, false, [], ◌∷◌, ◌++◌, append_assoc, arith,
}
use openwrt_starwatch.Base.Maps.{nat_eq, ◌==◌}
use openwrt_starwatch.Base.Strings.{Text, text_eq, is_space, trim_left, trim_right, trim, cut_space}
use openwrt_starwatch.Base.Text.{codes}
use openwrt_starwatch.Config.Uci.{
  quote_mark, quote_uci, unquote, split_first, read_line, Line, blank, bare, other, incomplete,
  header, item, assign,
}
use openwrt_starwatch.Config.Uci.Quoting.{unquote-quote_uci}
use openwrt_starwatch.Config.Uci.Reading.{
  IsWord, White, Solid-of_word, trim_left-White, trim_right-Solid, split_first-Solid, unquote_word,
}
use openwrt_starwatch.Config.Rewrite.{option_line, scan_line, Mark, enters, sets, plain}

-- The text between the white space before it and its end.
abbrev body : Text → Text → Text
body o v = codes "option" ++ (32 ∷ (o ++ (32 ∷ quote_mark ∷ (quote_uci v ++ quote_mark ∷ []))))

trim-option_line :
    (white o v : Text) (k : Text × Text)
    → White white
    → trim (option_line white (record { section = k; option = o; value = v })) ≡ body o v
trim-option_line white o v k h =
    ap (λ s. trim_left (trim_right s)) front_last
    ∙ ap trim_left (trim_right-Solid (white ++ front) quote_mark (unfold is_space in refl))
    ∙ ap trim_left (sym front_last)
    ∙ trim_left-White white b'o' tail h (unfold is_space in refl)
  where
    front : Text
    front = codes "option" ++ (32 ∷ (o ++ (32 ∷ quote_mark ∷ quote_uci v)))

    tail : Text
    tail = codes "ption" ++ (32 ∷ (o ++ (32 ∷ quote_mark ∷ (quote_uci v ++ quote_mark ∷ []))))

    front_last : white ++ body o v ≡ (white ++ front) ++ quote_mark ∷ []
    front_last =
        ap (λ s. white ++ (codes "option" ++ (32 ∷ s)))
          (sym (append_assoc o (32 ∷ quote_mark ∷ quote_uci v) (quote_mark ∷ [])))
        ∙ sym (append_assoc white front (quote_mark ∷ []))

split_body :
    (o v : Text)
    → IsWord o
    → split_first (body o v) ≡ record {
      first = codes "option";
      rest = o ++ (32 ∷ quote_mark ∷ (quote_uci v ++ quote_mark ∷ []));
      found = true;
    }
split_body [] v h = absurd (h.0 refl)
split_body (c ∷ o) v h =
    split_first-Solid (codes "option") c (o ++ (32 ∷ quote_mark ∷ (quote_uci v ++ quote_mark ∷ [])))
      (unfold is_space in (refl, (refl, (refl, (refl, (refl, (refl, tt)))))))
      (Solid-of_word (c ∷ o) h.1).0

split_rest :
    (o v : Text)
    → IsWord o
    → split_first (o ++ (32 ∷ quote_mark ∷ (quote_uci v ++ quote_mark ∷ [])))
      ≡ record { first = o; rest = quote_mark ∷ (quote_uci v ++ quote_mark ∷ []); found = true }
split_rest o v h =
    split_first-Solid o quote_mark (quote_uci v ++ quote_mark ∷ []) (Solid-of_word o h.1)
      (unfold is_space in refl)

-- The line is read as the option with the update's value, whatever characters the value has.
pub read_line-option_line :
    (white o v : Text) (k : Text × Text)
    → White white
    → IsWord o
    → read_line (option_line white (record { section = k; option = o; value = v })) ≡ assign o v
unfolding read_line
read_line-option_line white o v k h word = ground (
  arith,
  trim-option_line white o v k h,
  split_body o v word,
  split_rest o v word,
  unquote_word o word.1,
  unquote-quote_uci v,
)

pub scan_line-option_line :
    (white o v : Text) (k : Text × Text)
    → White white
    → IsWord o
    → scan_line (option_line white (record { section = k; option = o; value = v })) ≡ sets o
unfolding scan_line
scan_line-option_line white o v k h word = ground (
  arith,
  trim-option_line white o v k h,
  split_body o v word,
  split_rest o v word,
  unquote_word o word.1,
)

not_comment :
    (c : ℕ) (t : Text)
    → (c == b'#') ≡ true
    → ((split_first (c ∷ t)).first == codes "config" ≡ false)
      × ((split_first (c ∷ t)).first == codes "option" ≡ false)
not_comment c t h =
    subst
      (λ x.
        ((split_first (x ∷ t)).first == codes "config" ≡ false)
        × ((split_first (x ∷ t)).first == codes "option" ≡ false))
      (sym ((nat_eq.test_iff c b'#').0 h)) (unfold split_first cut_space is_space in (refl, refl))

no_words : (split_first []).found ≡ false
unfolding split_first cut_space trim_left
no_words = refl

-- The value in a line that sets an option.
abbrev pub value_in : Text → Text
value_in raw = unquote (split_first (split_first (trim raw)).rest).rest

abbrev pub is_plain : Line → Bool
is_plain (header k) = false
is_plain (assign o v) = false
is_plain blank = true
is_plain bare = true
is_plain other = true
is_plain incomplete = true
is_plain (item k v) = true

-- What `ParseUCI` reads where `RewriteUCI` sees a mark.
abbrev pub expected : Mark → Text → Line
expected (enters k) v = header k
expected (sets o) v = assign o v
expected plain v = blank

abbrev pub Fits : Mark → Line → Text → Type 0
Fits m l v =
    (is_plain (expected m v) ≡ false → l ≡ expected m v)
    × (is_plain (expected m v) ≡ true → is_plain l ≡ true)

pub Fits-trimmed :
    (t raw : Text) → trim raw ≡ t → Fits (scan_line raw) (read_line raw) (value_in raw)
unfolding scan_line read_line
Fits-trimmed [] raw e = ground (arith, e, no_words)
Fits-trimmed (c ∷ t) raw e = ground (arith, e, not_comment c t)

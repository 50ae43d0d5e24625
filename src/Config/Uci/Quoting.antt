-- ===== src/Config/Uci/Quoting.antt =====
-- A text that `quoteUCI` has quoted, between quotes, is read back by `unquote`.
use openwrt_starwatch.Base.{
  ℕ, ◌≡◌, refl, ap, true, false, [], ◌∷◌, ◌++◌, arith, Bool-cases, inl, inr,
}
use openwrt_starwatch.Base.Maps.{nat_eq, ◌==◌}
use openwrt_starwatch.Base.Strings.{Text}
use openwrt_starwatch.Config.Uci.{
  quote_mark, quote_uci, starts_escape, replace_escapes, last_or, without_last, is_quoted, unquote,
}

pub starts_escape_plain :
    (c : ℕ) (s : Text) → (c == quote_mark) ≡ false → starts_escape (c ∷ s) ≡ false
starts_escape_plain c [] h = refl
starts_escape_plain c (x ∷ []) h = refl
starts_escape_plain c (x ∷ y ∷ []) h = refl
starts_escape_plain c (x ∷ y ∷ z ∷ s) h = ground (arith, h)

replace_escapes-quote_uci : (s : Text) → replace_escapes 0 (quote_uci s) ≡ s
unfolding quote_uci replace_escapes
replace_escapes-quote_uci [] = refl
replace_escapes-quote_uci (c ∷ s) = elim (Bool-cases (c == quote_mark)) [
  | inl mark ↦ ground (arith, mark, nat_eq.test_iff c quote_mark, replace_escapes-quote_uci s)
  | inr plain ↦
      ground (arith, plain, starts_escape_plain c (quote_uci s), replace_escapes-quote_uci s)
]

last_or-append : (s : Text) (d c : ℕ) → last_or d (s ++ c ∷ []) ≡ c
last_or-append [] d c = refl
last_or-append (x ∷ s) d c = last_or-append s x c

without_last-append : (s : Text) (c : ℕ) → without_last (s ++ c ∷ []) ≡ s
without_last-append [] c = refl
without_last-append (x ∷ []) c = refl
without_last-append (x ∷ y ∷ s) c = ap (λ l. x ∷ l) (without_last-append (y ∷ s) c)

is_quoted_text : (s : Text) → is_quoted (quote_mark ∷ (s ++ quote_mark ∷ [])) ≡ true
is_quoted_text [] = refl
is_quoted_text (c ∷ s) = ground (arith, last_or-append s c quote_mark)

-- Every text that is quoted and put between single quotes is read back as it was.
pub unquote-quote_uci : (s : Text) → unquote (quote_mark ∷ (quote_uci s ++ quote_mark ∷ [])) ≡ s
unfolding unquote
unquote-quote_uci s = ground (
  arith,
  is_quoted_text (quote_uci s),
  without_last-append (quote_uci s) quote_mark,
  replace_escapes-quote_uci s,
)

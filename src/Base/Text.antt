-- ===== src/Base/Text.antt =====
-- Texts: joining, and the order of bytes by which `sort.Strings` sorts.
use Prim.Native.Char.{code}
use openwrt_starwatch.Base.{
  ℕ, Bool, true, false, ◌&&◌, ◌||◌, List, [], ◌∷◌, String, ltb, ◌==◌, if◌then◌else◌,
}
use Prim.Native.String.{◌++◌ as append_text}

abbrev pub codes : String → List ℕ
codes String.[] = []
codes (String.◌∷◌ first rest) = code first ∷ codes rest

-- Not after in the order of code points, which is that of the bytes of UTF-8.
abbrev pub leb_codes : List ℕ → List ℕ → Bool
leb_codes [] ys = true
leb_codes (x ∷ xs) [] = false
leb_codes (x ∷ xs) (y ∷ ys) = ltb x y || (x == y && leb_codes xs ys)

unfoldable pub place_text : String → List String → List String
place_text x [] = x ∷ []
place_text x (y ∷ ys) = if leb_codes (codes x) (codes y) then x ∷ y ∷ ys else y ∷ place_text x ys

unfoldable pub sort_texts : List String → List String
unfolding place_text
sort_texts [] = []
sort_texts (x ∷ xs) = place_text x (sort_texts xs)

unfoldable pub join_texts : String → List String → String
join_texts sep [] = ""
join_texts sep (x ∷ []) = x
join_texts sep (x ∷ y ∷ ys) = append_text x (append_text sep (join_texts sep (y ∷ ys)))

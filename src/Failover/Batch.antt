-- ===== src/Failover/Batch.antt =====
-- `renderBatch` of router/internal/mwan/manager.go: the changes as commands for `uci batch`.
use mathlib.Core.List.{append_assoc}
use openwrt_starwatch.Base.{
  ℕ, suc, ◌+◌, ◌≡◌, refl, sym, ap, ◌∙◌, Bool, true, false, not, ◌&&◌, ◌||◌, List, [], ◌∷◌, ◌++◌,
  ltb, if◌then◌else◌, arith,
}
use openwrt_starwatch.Base.Maps.{nat_eq, ◌==◌}
use openwrt_starwatch.Base.Strings.{Text, text_eq}
use openwrt_starwatch.Base.Text.{codes}
use openwrt_starwatch.Config.Uci.{is_empty, quote_uci}
use openwrt_starwatch.Failover.Proposal.{Change}

-- Two changes of one option. The code joins section and option with a NUL byte.
abbrev pub same_key : Change → Change → Bool
same_key a b = a.section == b.section && a.option == b.option

-- How often the option of a change is changed.
unfoldable pub count_key : Change → List Change → ℕ
count_key c [] = 0
count_key c (d ∷ changes) =
    let rest = count_key c changes in
    if not (is_empty d.option) && same_key d c then suc rest else rest

pub data Verb : Type 0 where
  set add_list : Verb

-- The verb of a change, of which `all` are made and `seen` were before it.
abbrev pub verb_of : List Change → List Change → Change → Verb
verb_of all seen c =
    if is_empty c.option
    then set
    else if ltb 1 (count_key c all) && ltb 0 (count_key c seen)
    then add_list
    else set

unfoldable pub verbs : List Change → List Change → List Change → List Verb
unfolding count_key
verbs all seen [] = []
verbs all seen (c ∷ changes) = verb_of all seen c ∷ verbs all (seen ++ c ∷ []) changes

abbrev pub verb_text : Verb → Text
verb_text set = codes "set"
verb_text add_list = codes "add_list"

abbrev pub path_of : Change → Text
path_of c =
    c.config_name
    ++ (codes "." ++ (c.section ++ (if is_empty c.option then [] else codes "." ++ c.option)))

abbrev pub line_of : Verb → Change → Text
line_of v c =
    verb_text v ++ (codes " " ++ (path_of c ++ (codes "='" ++ (quote_uci c.value ++ codes "'\n"))))

unfoldable pub print_lines : List Verb → List Change → Text
print_lines (v ∷ vs) (c ∷ changes) = line_of v c ++ print_lines vs changes
print_lines _ _ = codes "commit mwan3\n"

unfoldable pub render_batch : List Change → Text
unfolding verbs print_lines quote_uci
render_batch changes = print_lines (verbs changes [] changes) changes

-- The reference: an option is set where it comes first, and added to where it has come before.
abbrev pub has_come : Change → List Change → Bool
has_come c [] = false
has_come c (d ∷ seen) = not (is_empty d.option) && same_key d c || has_come c seen

unfoldable pub expected_verbs : List Change → List Change → List Verb
expected_verbs seen [] = []
expected_verbs seen (c ∷ changes) =
    (if not (is_empty c.option) && has_come c seen then add_list else set)
    ∷ expected_verbs (seen ++ c ∷ []) changes

count_key-append :
    (c : Change) (xs ys : List Change) → count_key c (xs ++ ys) ≡ count_key c xs + count_key c ys
unfolding count_key
count_key-append c [] ys = ground arith
count_key-append c (x ∷ xs) ys =
    by_test (not (is_empty x.option) && same_key x c) (count_key-append c xs ys)
  where
    by_test :
        (b : Bool)
        → count_key c (xs ++ ys) ≡ count_key c xs + count_key c ys
        → (if b then suc (count_key c (xs ++ ys)) else count_key c (xs ++ ys))
          ≡ (if b then suc (count_key c xs) else count_key c xs) + count_key c ys
    by_test true h = ground (arith, h)
    by_test false h = h

has_come-count_key : (c : Change) (seen : List Change) → ltb 0 (count_key c seen) ≡ has_come c seen
unfolding count_key
has_come-count_key c [] = refl
has_come-count_key c (d ∷ seen) =
    by_test (not (is_empty d.option) && same_key d c) (has_come-count_key c seen)
  where
    by_test :
        (b : Bool)
        → ltb 0 (count_key c seen) ≡ has_come c seen
        → ltb 0 (if b then suc (count_key c seen) else count_key c seen) ≡ b || has_come c seen
    by_test true h = ground arith
    by_test false h = h

counts_itself :
    (c : Change) (later : List Change)
    → is_empty c.option ≡ false
    → ltb 0 (count_key c (c ∷ later)) ≡ true
unfolding count_key
counts_itself c later h =
    ground (arith, h, text_eq.test_iff c.section c.section, text_eq.test_iff c.option c.option)

verb_lem :
    (seen : List Change) (c : Change) (later : List Change)
    → verb_of (seen ++ c ∷ later) seen c
      ≡ (if not (is_empty c.option) && has_come c seen then add_list else set)
verb_lem seen c later =
    ground
      (arith, has_come-count_key c seen, count_key-append c seen (c ∷ later), counts_itself c later)

verbs_from :
    (all seen changes : List Change)
    → all ≡ seen ++ changes
    → verbs all seen changes ≡ expected_verbs seen changes
unfolding verbs expected_verbs
verbs_from all seen [] h = refl
verbs_from all seen (c ∷ changes) h =
    ap (λ v. v ∷ verbs all (seen ++ c ∷ []) changes)
      (ap (λ a. verb_of a seen c) h ∙ verb_lem seen c changes)
    ∙ ap (λ vs. (if not (is_empty c.option) && has_come c seen then add_list else set) ∷ vs)
        (verbs_from all (seen ++ c ∷ []) changes (h ∙ sym (append_assoc seen (c ∷ []) changes)))

-- The counting of the options gives each change the verb of the reference: an option is set where it
-- comes first in a batch, and each later value is added to it, so that no value is lost.
pub verbs_lem : (changes : List Change) → verbs changes [] changes ≡ expected_verbs [] changes
verbs_lem changes = verbs_from changes [] changes refl

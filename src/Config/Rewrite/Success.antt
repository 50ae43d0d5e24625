-- ===== src/Config/Rewrite/Success.antt =====
-- A file that `ParseUCI` accepts is accepted after `RewriteUCI`.
use mathlib.Core.List.{append_assoc}
use openwrt_starwatch.Base.{
  ℕ, ◌+◌, ◌≡◌, refl, ap, ◌∙◌, Bool, true, false, ◌&&◌, List, [], ◌∷◌, ◌++◌, Option, none, some,
  arith,
}
use openwrt_starwatch.Base.Maps.{insert}
use openwrt_starwatch.Base.Strings.{Text, text_eq, pair_eq}
use openwrt_starwatch.Config.Uci.{
  Section, Result, ok, err, OptionValue, Line, blank, header, assign, item, incomplete, bare, other,
  new_section, closed, items_of, parse_lines,
}
use openwrt_starwatch.Config.Rewrite.{id_eq, update_id, pending, replacement}
use openwrt_starwatch.Config.Rewrite.Model.{
  Ids, assignment, flushed, flushed_missing, and_then, rewritten,
}

abbrev pub is_current {ℓ} : {A : Type ℓ} → Option A → Bool
is_current none = false
is_current (some a) = true

-- Lines that are accepted, in a section or before the first one.
unfoldable pub accepts : Bool → List Line → Bool
accepts inside [] = true
accepts inside (header k ∷ lines) = accepts true lines
accepts inside (assign k v ∷ lines) = inside && accepts inside lines
accepts inside (item k v ∷ lines) = inside && accepts inside lines
accepts inside (blank ∷ lines) = accepts inside lines
accepts inside (incomplete ∷ lines) = false
accepts inside (bare ∷ lines) = false
accepts inside (other ∷ lines) = false

pub parse_lines-accepts :
    (n : ℕ) (lines : List Line) (current : Option Section)
    → accepts (is_current current) lines ≡ true
    → (doc : List Section) × (parse_lines n lines current ≡ ok doc)
unfolding accepts parse_lines
parse_lines-accepts n [] current h = (closed current, refl)
parse_lines-accepts n (header k ∷ lines) current h =
    let (doc, e) = parse_lines-accepts (n + 1) lines (some (new_section k)) h in
    (closed current ++ doc, ground (arith, e))
parse_lines-accepts n (assign k v ∷ lines) none h = cc
parse_lines-accepts n (assign k v ∷ lines) (some s) h =
    parse_lines-accepts (n + 1) lines (some (record s { options = insert k v s.options })) h
parse_lines-accepts n (item k v ∷ lines) none h = cc
parse_lines-accepts n (item k v ∷ lines) (some s) h =
    parse_lines-accepts (n + 1) lines
      (some (record s { lists = insert k (items_of k s.lists ++ v ∷ []) s.lists })) h
parse_lines-accepts n (blank ∷ lines) current h = parse_lines-accepts (n + 1) lines current h
parse_lines-accepts n (incomplete ∷ lines) current h = cc
parse_lines-accepts n (bare ∷ lines) current h = cc
parse_lines-accepts n (other ∷ lines) current h = cc

pub accepts-parse_lines :
    (n : ℕ) (lines : List Line) (current : Option Section) (doc : List Section)
    → parse_lines n lines current ≡ ok doc
    → accepts (is_current current) lines ≡ true
unfolding accepts parse_lines
accepts-parse_lines n [] current doc h = refl
accepts-parse_lines n (header k ∷ lines) current doc h =
    in_header (parse_lines (n + 1) lines (some (new_section k)))
      (accepts-parse_lines (n + 1) lines (some (new_section k))) h
  where
    in_header :
        (r : Result (List Section))
        → ((d : List Section) → r ≡ ok d → accepts true lines ≡ true)
        → ◌≡◌ {A = Result (List Section)}
            (elim r [ err e ↦ err e | ok sections ↦ ok (closed current ++ sections) ])
            (ok doc)
        → accepts true lines ≡ true
    in_header (ok d) ih e = ih d refl
    in_header (err f) ih e = cc
accepts-parse_lines n (assign k v ∷ lines) none doc h = cc
accepts-parse_lines n (assign k v ∷ lines) (some s) doc h =
    accepts-parse_lines (n + 1) lines (some (record s { options = insert k v s.options })) doc h
accepts-parse_lines n (item k v ∷ lines) none doc h = cc
accepts-parse_lines n (item k v ∷ lines) (some s) doc h =
    accepts-parse_lines (n + 1) lines
      (some (record s { lists = insert k (items_of k s.lists ++ v ∷ []) s.lists })) doc h
accepts-parse_lines n (blank ∷ lines) current doc h =
    accepts-parse_lines (n + 1) lines current doc h
accepts-parse_lines n (incomplete ∷ lines) none doc h = cc
accepts-parse_lines n (incomplete ∷ lines) (some s) doc h = cc
accepts-parse_lines n (bare ∷ lines) current doc h = cc
accepts-parse_lines n (other ∷ lines) current doc h = cc

accepts-flushed :
    (us : List OptionValue) (applied : Ids) (rest : List Line)
    → accepts true rest ≡ true
    → accepts true ((flushed us applied).0 ++ rest) ≡ true
unfolding accepts flushed
accepts-flushed [] applied rest h = h
accepts-flushed (u ∷ us) applied rest h =
    ground
      (arith, accepts-flushed us applied rest h, accepts-flushed us (update_id u ∷ applied) rest h)

accepts-missing :
    (us : List OptionValue) (current : Option (Text × Text)) (applied : Ids) (rest : List Line)
    → accepts (is_current current) rest ≡ true
    → accepts (is_current current) ((flushed_missing us current applied).0 ++ rest) ≡ true
accepts-missing us none applied rest h = h
accepts-missing us (some k) applied rest h = accepts-flushed (pending k us) applied rest h

pub accepts-rewritten :
    (us : List OptionValue) (lines : List Line) (current : Option (Text × Text)) (applied : Ids)
    (rest : List Line)
    → accepts (is_current current) lines ≡ true
    → ((inside : Bool) → accepts inside rest ≡ true)
    → accepts (is_current current) ((rewritten us lines current applied).0 ++ rest) ≡ true
unfolding accepts rewritten
accepts-rewritten us [] current applied rest h r =
    accepts-missing us current applied rest (r (is_current current))
accepts-rewritten us (header k ∷ lines) current applied rest h r =
    let missing = flushed_missing us current applied in
    let later = (rewritten us lines (some k) missing.1).0 in
    ap (accepts (is_current current)) (
      append_assoc (missing.0 ++ header k ∷ []) later rest
      ∙ append_assoc missing.0 (header k ∷ []) (later ++ rest))
    ∙ accepts-missing us current applied (header k ∷ (later ++ rest))
        (accepts-rewritten us lines (some k) missing.1 rest h r)
accepts-rewritten us (assign k v ∷ lines) none applied rest h r = cc
accepts-rewritten us (assign k v ∷ lines) (some c) applied rest h r =
    elim (replacement us (some c) k)
      as (λ o.
        accepts true (
          (elim o as (λ x. List Line × Ids) [
            | none ↦ and_then (assign k v ∷ []) (rewritten us lines (some c) applied)
            | some u ↦
                and_then (assignment u ∷ []) (rewritten us lines (some c) (update_id u ∷ applied))
          ]).0
          ++ rest)
        ≡ true) [
          | none ↦ accepts-rewritten us lines (some c) applied rest h r
          | some u ↦ accepts-rewritten us lines (some c) (update_id u ∷ applied) rest h r
        ]
accepts-rewritten us (item k v ∷ lines) none applied rest h r = cc
accepts-rewritten us (item k v ∷ lines) (some c) applied rest h r =
    accepts-rewritten us lines (some c) applied rest h r
accepts-rewritten us (blank ∷ lines) current applied rest h r =
    accepts-rewritten us lines current applied rest h r
accepts-rewritten us (incomplete ∷ lines) current applied rest h r = cc
accepts-rewritten us (bare ∷ lines) current applied rest h r = cc
accepts-rewritten us (other ∷ lines) current applied rest h r = cc
